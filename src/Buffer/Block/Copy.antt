-- ===== src/Buffer/Block/Copy.antt =====
-- details.hpp, `uninitialized_copy`: what the block holds after it, and after an exception.
use circular_buffer.Common.{
  ℕ, zero, suc, ◌+◌, ◌-◌, ◌≤◌, ◌<◌, ◌≡◌, refl, sym, ap, ◌∙◌, subst, inl, inr, true, none, some,
  List, [], ◌∷◌, Bool-cases, length, get_elem?, replicate, length-replicate, fun_ext, arith,
}
use circular_buffer.Common.Outcome.{
  Error, element_error, ok, Ensures, returns, throws, Ensures-mono, Ensures-and_rethrow,
  Ensures-and_then, try_rethrow, pure, at_locals, ◌>>=◌, ◌>>◌,
}
use circular_buffer.Element.{Element}
use circular_buffer.Buffer.{Buffer, update}
use circular_buffer.Buffer.Moves.{IsLive}
use circular_buffer.Buffer.Represents.{update_self, update_ne}
use circular_buffer.Buffer.Block.{
  Pending, place_in, construct_in, copy_items, fill_loop, uninitialized_fill_n_with_alloc,
  uninitialized_copy, destroy_in, destroy_range,
}
use native.Mathlib.Decide.{ℕ_discrete}

-- The same buffer, at another time.
abbrev pub at_clock {ℓ} : {A : Type ℓ} → ℕ → Buffer A → Buffer A
at_clock k b = record b { clock = k }

-- Nothing but the clock of the buffer has changed, and nothing of the block in front of `from`.
pub record Beside {ℓ} {A : Type ℓ} (s : Pending A) (from : ℕ) (s' : Pending A) : Type ℓ where
  pub own_eq : s'.own ≡ at_clock s'.own.clock s.own
  pub room_eq : s'.room ≡ s.room
  pub before : (p : ℕ) → p < from → s'.block p ≡ s.block p

-- The block holds the list from `from` on, and nothing behind.
pub record Built {ℓ} {A : Type ℓ} (s : Pending A) (from : ℕ) (vs : List A) (dest : ℕ)
    (s' : Pending A) : Type ℓ where
  pub beside : Beside s from s'
  pub dest_eq : dest ≡ from + length vs
  pub held : (i : ℕ) → i < length vs → s'.block (from + i) ≡ get_elem? vs i
  pub behind : (p : ℕ) → dest ≤ p → s'.block p ≡ none

-- A copy threw, and the block holds some objects from `from` up to `dest`, and nothing behind.
pub record Broken {ℓ} {A : Type ℓ} ⦃t : Element A⦄ (s : Pending A) (from : ℕ) (e : Error × ℕ)
    (s' : Pending A) : Type ℓ where
  pub beside : Beside s from s'
  pub error_eq : e.0 ≡ element_error
  pub storm : (k : ℕ) × (s.own.clock ≤ k) × (t.throws_at k ≡ true)
  pub from_le : from ≤ e.1
  pub live : (p : ℕ) → from ≤ p → p < e.1 → IsLive (s'.block p)
  pub behind : (p : ℕ) → e.1 ≤ p → s'.block p ≡ none

-- A copy threw, and the block is raw from `from` on.
pub record Undone {ℓ} {A : Type ℓ} ⦃t : Element A⦄ (s : Pending A) (from : ℕ) (e : Error)
    (s' : Pending A) : Type ℓ where
  pub beside : Beside s from s'
  pub error_eq : e ≡ element_error
  pub storm : (k : ℕ) × (s.own.clock ≤ k) × (t.throws_at k ≡ true)
  pub behind : (p : ℕ) → from ≤ p → s'.block p ≡ none

module _ {ℓ} {A : Type ℓ} where
  Beside-refl : (s : Pending A) (from : ℕ) → Beside s from s
  Beside-refl s from = record { own_eq = refl; room_eq = refl; before = λ p h. refl }

  Beside-trans :
      {s m s' : Pending A} {from : ℕ} → Beside s from m → Beside m (from + 1) s' → Beside s from s'
  Beside-trans {s' = s'} a b = record {
    own_eq = b.own_eq ∙ ap (at_clock s'.own.clock) a.own_eq;
    room_eq = b.room_eq ∙ a.room_eq;
    before = λ p h. b.before p (omega arith) ∙ a.before p h;
  }

module _ {ℓ} {A : Type ℓ} ⦃t : Element A⦄ where
  -- The call after a copy at `p`, and after one that threw.
  abbrev pub placed : Pending A → ℕ → A → Pending A
  placed s p v = record s {
    own = record s.own { clock = s.own.clock + 1 };
    block = update s.block p (some v);
  }

  abbrev pub tried : Pending A → Pending A
  tried s = record s { own = record s.own { clock = s.own.clock + 1 } }

  pub place_in-ok :
      (s : Pending A) (p : ℕ) (v : A)
      → p < s.room
      → s.block p ≡ none
      → place_in p v s ≡ ok tt (placed s p v)
  unfolding place_in
  place_in-ok s p v h e = ground arith

  placed-Beside : (s : Pending A) (d : ℕ) (v : A) → Beside s d (placed s d v)
  placed-Beside s d v = record {
    own_eq = refl;
    room_eq = refl;
    before = λ p h. update_ne s.block (some v) d p (λ e. absurd (omega arith));
  }

  Built-step :
      {s s' : Pending A} {v : A} {vs : List A} {d dest : ℕ}
      → Built (placed s d v) (d + 1) vs dest s'
      → Built s d (v ∷ vs) dest s'
  Built-step {s} {s'} {v} {vs} {d} q = record {
    beside = Beside-trans (placed-Beside s d v) q.beside;
    dest_eq = omega (arith, q.dest_eq);
    held = held;
    behind = q.behind;
  }
    where
      held : (i : ℕ) → i < suc (length vs) → s'.block (d + i) ≡ get_elem? (v ∷ vs) i
      held zero h =
          ap s'.block (omega arith)
          ∙ q.beside.before d (omega arith)
          ∙ update_self s.block (some v) d
      held (suc i) h = ap s'.block (omega arith) ∙ q.held i (omega arith)

  Broken-step :
      {s s' : Pending A} (v : A) {d : ℕ} {e : Error × ℕ}
      → Broken (placed s d v) (d + 1) e s'
      → Broken s d e s'
  Broken-step {s} {s'} v {d} {e} q = record {
    beside = Beside-trans (placed-Beside s d v) q.beside;
    error_eq = q.error_eq;
    storm = (let (k, l, storm) = q.storm in (k, omega arith, storm));
    from_le = omega (arith, q.from_le);
    live = λ p l h. elim (ℕ_discrete p d) [
      | yes k ↦
          (v, ap s'.block k ∙ q.beside.before d (omega arith) ∙ update_self s.block (some v) d)
      | no k ↦ q.live p (omega arith) h
    ];
    behind = q.behind;
  }

  pub copy_items-Ensures :
      (vs : List A) (d : ℕ) (s : Pending A)
      → ((p : ℕ) → d ≤ p → s.block p ≡ none)
      → d + length vs ≤ s.room
      → Ensures (Built s d vs) (Broken s d) (copy_items vs d s)
  unfolding copy_items
  copy_items-Ensures [] d s free fits = returns (record {
    beside = Beside-refl s d;
    dest_eq = omega arith;
    held = λ i h. absurd (omega arith);
    behind = free;
  })
  copy_items-Ensures (v ∷ vs) d s free fits = elim (Bool-cases (t.throws_at s.own.clock)) [
    | inl storm ↦ rw storm (
        throws (record {
          beside = record { own_eq = refl; room_eq = refl; before = λ p h. refl };
          error_eq = refl;
          storm = (s.own.clock, omega arith, storm);
          from_le = omega arith;
          live = λ p l h. absurd (omega arith);
          behind = free;
        }))
    | inr calm ↦
        rw (calm, place_in-ok s d v (omega arith) (free d (omega arith)))
          (Ensures-mono
            (copy_items-Ensures vs (d + 1) (placed s d v)
              (λ p h.
                update_ne s.block (some v) d p (λ e. absurd (omega arith)) ∙ free p (omega arith))
              (omega arith))
            (λ d' s' q. Built-step q) (λ e s' q. Broken-step v q))
  ]

  -- The handler's loop destroys the objects from `next` on, and leaves the block empty from there.
  destroy_range-ok :
      (n next : ℕ) (s : Pending A)
      → ((p : ℕ) → next ≤ p → p < next + n → IsLive (s.block p))
      → ((p : ℕ) → next + n ≤ p → s.block p ≡ none)
      → (s' : Pending A) × (destroy_range n next s ≡ ok tt s')
        × (s'.own ≡ s.own)
        × (s'.room ≡ s.room)
        × ((p : ℕ) → p < next → s'.block p ≡ s.block p)
        × ((p : ℕ) → next ≤ p → s'.block p ≡ none)
  unfolding destroy_range destroy_in
  destroy_range-ok zero next s live behind =
      (s, refl, refl, refl, λ p h. refl, λ p h. behind p (omega arith))
  destroy_range-ok (suc n) next s live behind =
      let (v, e) = live next (omega arith) (omega arith) in
      let m = record s { block = update s.block next none } in
      let apart : (p : ℕ) → ¬ (next ≡ p) → m.block p ≡ s.block p = update_ne s.block none next in
      let (s', ran, own_eq, room_eq, before, gone) =
        destroy_range-ok n (next + 1) m
          (λ p l h.
            let (w, k) = live p (omega arith) (omega arith) in
            (w, apart p (λ q. absurd (omega arith)) ∙ k))
          (λ p h. apart p (λ q. absurd (omega arith)) ∙ behind p (omega arith)) in
      (
        s',
        rw (e, destroy_in) ran,
        own_eq,
        room_eq,
        λ p h. before p (omega arith) ∙ apart p (λ q. absurd (omega arith)),
        λ p h. elim (ℕ_discrete p next) [
          | yes k ↦ ap s'.block k ∙ before next (omega arith) ∙ update_self s.block none next
          | no k ↦ gone p (omega arith)
        ],
      )

  -- Where a block is raw from d on and has room for the objects of a range, uninitialized_copy to
  -- d returns or throws. If it returns, the block holds the range from d on, nothing behind it,
  -- and the answer is the end of the copy; if an element throws, the block is raw from d on: all
  -- that had been built is destroyed. What lies before d and the buffer but for its clock are as
  -- they were.
  pub uninitialized_copy-Ensures :
      (vs : List A) (d : ℕ) (s : Pending A)
      → ((p : ℕ) → d ≤ p → s.block p ≡ none)
      → d + length vs ≤ s.room
      → Ensures (Built s d vs) (Undone s d) (uninitialized_copy vs d s)
  unfolding uninitialized_copy
  uninitialized_copy-Ensures vs d s free fits =
      Ensures-and_rethrow (copy_items-Ensures vs d s free fits) (λ e dest m q. undone e dest m q)
    where
      undone :
          (e : Error) (dest : ℕ) (m : Pending A)
          → Broken s d (e, dest) m
          → Ensures (λ _ s'. Undone s d e s') (Undone s d) (destroy_range (dest - d) d m)
      undone e dest m q =
          let e' : d + (dest - d) ≡ dest = omega (arith, q.from_le) in
          let (s', ran, own_eq, room_eq, before, gone) =
            destroy_range-ok (dest - d) d m (λ p l h. q.live p l (omega arith))
              (λ p h. q.behind p (omega arith)) in
          rw ran (
            returns (record {
              beside = record {
                own_eq = own_eq ∙ q.beside.own_eq ∙ ap (λ o. at_clock o.clock s.own) (sym own_eq);
                room_eq = room_eq ∙ q.beside.room_eq;
                before = λ p h. before p h ∙ q.beside.before p h;
              };
              error_eq = q.error_eq;
              storm = q.storm;
              behind = gone;
            }))

  fill_loop-copy_items :
      (n : ℕ) (item : A) (first : ℕ) → fill_loop n item first ≡ copy_items (replicate n item) first
  unfolding fill_loop copy_items
  fill_loop-copy_items zero item first = refl
  fill_loop-copy_items (suc n) item first = fun_ext (λ s.
      ap (λ rest. (do at_locals first (construct_in first item); rest) s)
        (fill_loop-copy_items n item (first + 1)))

  -- A fill is the copy of a range of equal objects.
  pub uninitialized_fill_n-Ensures :
      (first n : ℕ) (item : A) (s : Pending A)
      → ((p : ℕ) → first ≤ p → s.block p ≡ none)
      → first + n ≤ s.room
      → Ensures
          (λ _ s'. Built s first (replicate n item) (first + n) s')
          (Undone s first)
          (uninitialized_fill_n_with_alloc first n item s)
  unfolding uninitialized_fill_n_with_alloc uninitialized_copy
  uninitialized_fill_n-Ensures first n item s free fits =
      let len = length-replicate n item in
      subst
        (λ loop.
          Ensures (λ _ s'. Built s first (replicate n item) (first + n) s') (Undone s first)
            ((do _ ← try_rethrow loop (λ dest. destroy_range (dest - first) first); pure tt) s))
        (sym (fill_loop-copy_items n item first))
        (Ensures-and_then
          (uninitialized_copy-Ensures (replicate n item) first s free (omega (arith, len)))
          (λ dest s' q.
            returns (
              subst (λ d. Built s first (replicate n item) d s') (omega (arith, q.dest_eq, len)) q))
          (λ e s' q. q))
