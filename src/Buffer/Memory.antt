-- ===== src/Buffer/Memory.antt =====
-- The primitive accesses of base.hpp (`construct`, `replace`, `destroy_item` and moves), as
-- equations: what they do at a live cell and at a raw one, and when the element throws.
use circular_buffer.Common.{
  ℕ, ◌+◌, ◌<◌, ◌≡◌, ◌⊎◌, inl, inr, Bool, true, false, Option, none, some, Bool-cases, arith,
}
use circular_buffer.Common.Outcome.{element_error, ok, thrown}
use circular_buffer.Element.{Element}
use circular_buffer.Buffer.{
  Buffer, update, deref, destroy_item, element_op, place, construct, replace, construct_or_replace,
  move_item,
}

-- The buffer after an element operation that threw, and after one that left `c` at `p`.
abbrev pub ticked {ℓ} : {A : Type ℓ} → Buffer A → Buffer A
ticked b = record b { clock = b.clock + 1 }

abbrev pub written {ℓ} : {A : Type ℓ} → Buffer A → ℕ → Option A → Buffer A
written b p c = record b { cell = update b.cell p c; clock = b.clock + 1 }

module _ {ℓ} {A : Type ℓ} (b : Buffer A) (p : ℕ) where
  pub deref-ok : (v : A) → b.cell p ≡ some v → deref p b ≡ ok v b
  unfolding deref
  deref-ok v h = rw (h, deref)

  pub destroy_item-ok :
      (v : A)
      → b.cell p ≡ some v
      → destroy_item p b ≡ ok tt (record b { cell = update b.cell p none })
  unfolding destroy_item
  destroy_item-ok v h = rw (h, deref)

module _ {ℓ} {A : Type ℓ} ⦃t : Element A⦄ where
  -- A cell over which an object may be built.
  abbrev pub IsVacant : Option A → Type ℓ
  IsVacant c = t.scalar ≡ false → c ≡ none

  -- A cell that `construct_or_replace` may be called at.
  abbrev pub IsReady : Bool → Buffer A → ℕ → Type ℓ
  IsReady true b p = (p < b.cap) × IsVacant (b.cell p)
  IsReady false b p = (w : A) × (b.cell p ≡ some w)

  vacant_cases :
      (b : Buffer A) (p : ℕ) → IsVacant (b.cell p) → (b.cell p ≡ none) ⊎ (t.scalar ≡ true)
  vacant_cases b p vacant = elim (Bool-cases t.scalar) [ inl e ↦ inr e | inr e ↦ inl (vacant e) ]

module _ {ℓ} {A : Type ℓ} ⦃t : Element A⦄ (b : Buffer A) (p : ℕ) (v : A) where
  pub place-ok :
      p < b.cap
      → IsVacant (b.cell p)
      → place p v b ≡ ok tt (record b { cell = update b.cell p (some v) })
  unfolding place
  place-ok h vacant = ground (arith, vacant_cases b p vacant)

  element_op-ok : t.throws_at b.clock ≡ false → element_op b ≡ ok tt (ticked b)
  unfolding element_op
  element_op-ok calm = rw calm

  element_op-throws : t.throws_at b.clock ≡ true → element_op b ≡ thrown element_error (ticked b)
  unfolding element_op
  element_op-throws storm = rw storm

  pub construct-throws :
      t.throws_at b.clock ≡ true → construct p v b ≡ thrown element_error (ticked b)
  unfolding construct
  construct-throws storm = rw storm

  pub replace-ok :
      (w : A)
      → b.cell p ≡ some w
      → t.throws_at b.clock ≡ false
      → replace p v b ≡ ok tt (written b p (some v))
  unfolding replace
  replace-ok w live calm = rw (live, deref) (rw calm)

  pub replace-throws :
      (w : A)
      → b.cell p ≡ some w
      → t.throws_at b.clock ≡ true
      → replace p v b ≡ thrown element_error (written b p (some (t.torn w v)))
  unfolding replace
  replace-throws w live storm = rw (live, deref) (rw storm)

pub construct-ok {ℓ} :
    {A : Type ℓ} ⦃t : Element A⦄ (b : Buffer A) (p : ℕ) (v : A)
    → p < b.cap
    → IsVacant (b.cell p)
    → t.throws_at b.clock ≡ false
    → construct p v b ≡ ok tt (written b p (some v))
unfolding construct
construct-ok b p v h vacant calm = rw calm (place-ok (ticked b) p v h vacant)

module _ {ℓ} {A : Type ℓ} ⦃t : Element A⦄ (b : Buffer A) (p : ℕ) (v : A) where
  pub construct_or_replace-ok :
      (fresh : Bool)
      → IsReady fresh b p
      → t.throws_at b.clock ≡ false
      → construct_or_replace fresh p v b ≡ ok tt (written b p (some v))
  unfolding construct_or_replace
  construct_or_replace-ok true (h, vacant) calm = construct-ok b p v h vacant calm
  construct_or_replace-ok false (w, live) calm = replace-ok b p v w live calm

  pub construct_or_replace-throws :
      t.throws_at b.clock ≡ true → construct_or_replace true p v b ≡ thrown element_error (ticked b)
  unfolding construct_or_replace
  construct_or_replace-throws storm = construct-throws b p v storm

  pub construct_or_replace-throws_live :
      (w : A)
      → b.cell p ≡ some w
      → t.throws_at b.clock ≡ true
      → construct_or_replace false p v b ≡ thrown element_error (written b p (some (t.torn w v)))
  unfolding construct_or_replace
  construct_or_replace-throws_live w live storm = replace-throws b p v w live storm

-- The buffer after a move of the value `v` from `src` to `dest`.
abbrev pub moved_to {ℓ} : {A : Type ℓ} ⦃t : Element A⦄ → Buffer A → ℕ → ℕ → A → Buffer A
moved_to ⦃t⦄ b src dest v = record b {
  cell = update (update b.cell dest (some v)) src (some (t.moved v));
  clock = b.clock + 1;
}

module _ {ℓ} {A : Type ℓ} ⦃t : Element A⦄ (b : Buffer A) (src dest : ℕ) (v : A)
    (live : b.cell src ≡ some v) (fresh : Bool) (ready : IsReady fresh b dest) where
  pub move_item-ok :
      t.throws_at b.clock ≡ false → move_item fresh src dest b ≡ ok tt (moved_to b src dest v)
  unfolding move_item
  move_item-ok calm = rw (live, deref) (rw (construct_or_replace-ok b dest v fresh ready calm))

module _ {ℓ} {A : Type ℓ} ⦃t : Element A⦄ (b : Buffer A) (src dest : ℕ) (v : A)
    (live : b.cell src ≡ some v) (storm : t.throws_at b.clock ≡ true) where
  pub move_item-throws : move_item true src dest b ≡ thrown element_error (ticked b)
  unfolding move_item
  move_item-throws = rw (live, deref) (rw (construct_or_replace-throws b dest v storm))

  pub move_item-throws_live :
      (w : A)
      → b.cell dest ≡ some w
      → move_item false src dest b ≡ thrown element_error (written b dest (some (t.torn w v)))
  unfolding move_item
  move_item-throws_live w held =
      rw (live, deref) (rw (construct_or_replace-throws_live b dest v w held storm))
