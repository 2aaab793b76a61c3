-- ===== src/Buffer/Insert/Room.antt =====
-- base.hpp, the guarded block of `insert_item`: the loop, and the assignment to the cell that it
-- has freed.
use circular_buffer.Common.{
  true, ℕ, suc, ◌+◌, ◌-◌, ◌≤◌, ◌<◌, ◌≡◌, refl, sym, ap, ◌∙◌, subst, ◌⊎◌, inl, inr, Bool, false, not,
  some, Bool-cases, arith,
}
use circular_buffer.Common.Outcome.{
  Error, element_error, Ensures, returns, throws, Ensures-and_then, Ensures-and_rethrow,
}
use circular_buffer.Element.{Element}
use circular_buffer.Buffer.{Buffer, full}
use circular_buffer.Buffer.Slot.{slot, slot-lt}
use circular_buffer.Buffer.Memory.{IsReady, replace-ok, replace-throws, written}
use circular_buffer.Buffer.Moves.{IsLive, Frame, Frame-trans, Stalled, Torn}
use circular_buffer.Buffer.Represents.{update_self, update_ne, update-slot_ne}
use circular_buffer.Buffer.Shifts.{Up, Mixed, IsOutside}
use circular_buffer.Buffer.Insert.{insert_loop, insert_block, insert_before, insert_unwind}
use circular_buffer.Buffer.Insert.Loop.{insert_loop-Ensures, Raises, Fails}
use native.Mathlib.Decide.{ℕ_discrete}

-- `item` lies at index `k`, and the objects from `k` below `m` one index further.
pub record Placed {ℓ} {A : Type ℓ} (cap base k m : ℕ) (item : A) (b b' : Buffer A) : Type ℓ where
  pub frame : Frame b b'
  pub placed : b'.cell (slot cap base k) ≡ some item
  pub shifted : (i : ℕ) → k ≤ i → i < m → b'.cell (slot cap base (i + 1)) ≡ b.cell (slot cap base i)
  pub same :
      (i : ℕ) → i < cap → IsOutside k m i → b'.cell (slot cap base i) ≡ b.cell (slot cap base i)

-- What the handler finds, with the flag `construct`: nothing has changed, or every cell of the
-- stretch holds an object.
abbrev pub Interrupted {ℓ} :
    {A : Type ℓ} → (cap base k m : ℕ) → Bool → Buffer A → Bool → Buffer A → Type ℓ
Interrupted cap base k m fresh b fresh' b' =
    ((fresh' ≡ fresh) × (fresh ≡ true) × Stalled b b')
    ⊎ ((fresh' ≡ false) × Mixed cap base k m b b')

module _ {ℓ} {A : Type ℓ} ⦃t : Element A⦄ (cap base k m : ℕ) (inside : base < cap) (item : A) where
  Placed-written :
      (b b' : Buffer A)
      → b.cap ≡ cap
      → k ≤ m
      → m < cap
      → Up cap base k m b b'
      → Placed cap base k m item b (written b' (slot cap base k) (some item))
  Placed-written b b' e h lt u = record {
    frame = record {
      cap_eq = u.frame.cap_eq;
      first_eq = u.frame.first_eq;
      last_eq = u.frame.last_eq;
      size_eq = u.frame.size_eq;
      beyond = λ p hp.
          update_ne b'.cell (some item) (slot cap base k) p
            (λ q. absurd (omega (arith, slot-lt cap base k (omega arith))))
          ∙ u.frame.beyond p hp;
    };
    placed = update_self b'.cell (some item) (slot cap base k);
    shifted = λ i ki im.
        update-slot_ne b'.cell (some item) cap base k (i + 1) inside (omega arith) (omega arith)
          (λ q. absurd (omega arith))
        ∙ u.shifted i ki im;
    same = λ i i_in o.
        update-slot_ne b'.cell (some item) cap base k i inside (omega arith) i_in (ground arith)
        ∙ u.same i i_in o;
  }

  Torn-at :
      (b' : Buffer A)
      → b'.cap ≡ cap
      → k < cap
      → (c : A) → Torn cap base k b' (written b' (slot cap base k) (some c))
  Torn-at b' e lt c = record {
    frame = record {
      cap_eq = refl;
      first_eq = refl;
      last_eq = refl;
      size_eq = refl;
      beyond = λ p h.
          update_ne b'.cell (some c) (slot cap base k) p
            (λ q. absurd (omega (arith, e, slot-lt cap base k (omega arith))));
    };
    spoilt = (c, update_self b'.cell (some c) (slot cap base k));
    same = λ i i_in nd. update-slot_ne b'.cell (some c) cap base k i inside lt i_in nd;
  }

  -- Every cell of a raised stretch holds an object.
  Mixed-raised :
      (b b' b'' : Buffer A)
      → m < cap
      → k ≤ m
      → ((i : ℕ) → k ≤ i → i < m → IsLive (b.cell (slot cap base i)))
      → Up cap base k m b b'
      → Torn cap base k b' b''
      → Mixed cap base k m b b''
  Mixed-raised b b' b'' lt km live u s = record {
    frame = Frame-trans u.frame s.frame;
    all_live = λ i ki im. elim (ℕ_discrete k i) [
      | yes e ↦ rw (← e) s.spoilt
      | no ne ↦ let (v, e) = raised i ki im in (v, s.same i (omega arith) ne ∙ e)
    ];
    same = λ i i_in o. s.same i i_in (ground arith) ∙ u.same i i_in o;
  }
    where
      raised : (i : ℕ) → k ≤ i → i ≤ m → IsLive (b'.cell (slot cap base i))
      raised i ki im = elim (ℕ_discrete i k) [
        | yes e ↦ rw e u.hole
        | no ne ↦
            let (v, held) = live (i - 1) (omega arith) (omega arith) in
            let q : i - 1 + 1 ≡ i = omega arith in
            (
              v,
              ap (λ x. b'.cell (slot cap base x)) (sym q)
                  ∙ u.shifted (i - 1) (omega arith) (omega arith)
                  ∙ held,
            )
      ]

  -- The block either puts `item` at its place, or leaves its handler one of two states.
  insert_block-Ensures :
      (b : Buffer A) (n : ℕ) (fresh : Bool)
      → b.cap ≡ cap
      → k < m
      → m < cap
      → cap ≤ n
      → ((i : ℕ) → k ≤ i → i < m → IsLive (b.cell (slot cap base i)))
      → IsReady fresh b (slot cap base m)
      → Ensures
          (λ _ b'. Placed cap base k m item b b')
          (λ e b'. (e.0 ≡ element_error) × Interrupted cap base k m fresh b e.1 b')
          (insert_block (suc n) (slot cap base k) (slot cap base m) fresh item b)
  unfolding insert_block
  insert_block-Ensures b n fresh e h lt fuel live ready =
      Ensures-and_then loop
        (λ c b' (c_eq, u).
          let (w, held) = u.hole in
          elim (Bool-cases (t.throws_at b'.clock)) [
            | inl storm ↦ rw (replace-throws b' (slot cap base k) item w held storm) (
                throws (
                  refl,
                  inr (
                    c_eq,
                    Mixed-raised b b' (written b' (slot cap base k) (some (t.torn w item))) lt
                        (omega arith) live u
                        (Torn-at b' (u.frame.cap_eq ∙ e) (omega arith) (t.torn w item)),
                  ),
                ))
            | inr calm ↦
                rw (replace-ok b' (slot cap base k) item w held calm)
                  (returns (Placed-written b b' e (omega arith) lt u))
          ])
        (λ err b' q. q)
    where
      up : m - 1 + 1 ≡ m
      up = omega arith

      loop :
          Ensures
            (Raises cap base k m b)
            (Fails cap base k m fresh b)
            (insert_loop (suc n) (slot cap base k) (slot cap base m) (slot cap base m) fresh b)
      loop =
          subst
            (λ x.
              Ensures (Raises cap base k x b) (Fails cap base k x fresh b)
                (insert_loop (suc n) (slot cap base k) (slot cap base x) (slot cap base x) fresh b))
            up
            (insert_loop-Ensures cap base inside n k (m - 1) fresh b e (omega arith) (omega arith)
              (omega arith) (λ i ki im. live i ki (omega arith)) (rw up ready))

  pub insert_before-Ensures :
      (b : Buffer A) {Q : Error → Buffer A → Type ℓ}
      → b.cap ≡ cap
      → k < m
      → m < cap
      → b.last ≡ slot cap base m
      → ((i : ℕ) → k ≤ i → i < m → IsLive (b.cell (slot cap base i)))
      → IsReady (not (full b)) b (slot cap base m)
      → ((fresh : Bool) (b' : Buffer A)
          → Interrupted cap base k m (not (full b)) b fresh b'
          → Ensures (λ _ b''. Q element_error b'') Q (insert_unwind fresh b'))
      → Ensures (λ _ b'. Placed cap base k m item b b') Q (insert_before (slot cap base k) item b)
  unfolding insert_before
  insert_before-Ensures b {Q} e h lt at_end live ready handle =
      Ensures-and_rethrow
        (subst
          (λ q.
            Ensures (λ _ b'. Placed cap base k m item b b')
              (λ e b'. (e.0 ≡ element_error) × Interrupted cap base k m (not (full b)) b e.1 b')
              (insert_block (suc b.cap) (slot cap base k) q (not (full b)) item b))
          (sym at_end)
          (insert_block-Ensures b b.cap (not (full b)) e h lt (omega arith) live ready))
        (λ err fresh b' (err_eq, broken). rw err_eq (handle fresh b' broken))
