-- ===== src/Buffer/Block/Walk.antt =====
-- details.hpp, `uninitialized_move_if_noexcept`: its loops over iterators of the buffer.
use circular_buffer.Common.{
  ℕ, zero, suc, ◌+◌, ◌-◌, ◌≤◌, ◌<◌, ◌≡◌, refl, sym, ap, ◌∙◌, subst, inl, inr, Bool, true, false,
  none, some, List, ◌∷◌, ==_of_ne, ==_of_eq, Bool-cases, if◌then◌else◌, length, get_elem?, slice,
  slice-cons, slice-none, length-slice, take, drop-set, set, arith,
}
use circular_buffer.Common.Outcome.{try_rethrow, ok, Ensures, returns, Ensures-mono}
use circular_buffer.Element.{Element}
use circular_buffer.Buffer.{Buffer, update}
use circular_buffer.Buffer.Slot.{slot, slot-injective}
use circular_buffer.Buffer.Memory.{deref-ok}
use circular_buffer.Buffer.Represents.{
  Represents, Represents-clock, Represents-set, position, live, update_self, update_ne,
}
use circular_buffer.Buffer.Insert.{same_iterator}
use circular_buffer.Buffer.Iterate.{dereference}
use circular_buffer.Buffer.Iterate.Steps.{next_inside}
use circular_buffer.Buffer.Block.{
  destroy_built, uninitialized_copy, uninitialized_move_if_noexcept, Pending, construct_in,
  copy_items, copy_loop, move_loop,
}
use circular_buffer.Buffer.Block.Copy.{
  Built, Undone, uninitialized_copy-Ensures, placed, place_in-ok,
}
use native.Mathlib.Decide.{ℕ_discrete}

module _ {ℓ} {A : Type ℓ} ⦃t : Element A⦄ where
  module _ {b : Buffer A} {xs : List A} (r : Represents b xs) where
    pub same_iterator-position :
        (j m : ℕ)
        → j < m
        → m ≤ b.size
        → same_iterator (some (slot b.cap b.first j)) (position b m) ≡ false
    same_iterator-position j m h l = elim (ℕ_discrete m b.size) [
      | yes e ↦ rw (==_of_eq m b.size e) refl
      | no ne ↦ rw (==_of_ne m b.size ne) (
          ==_of_ne (slot b.cap b.first j) (slot b.cap b.first m) (λ e. absurd (
            omega (
              arith,
              slot-injective b.cap b.first j m (omega (arith, r.first_in, r.size_le))
                  (omega (arith, r.size_le)) (omega (arith, r.size_le)) e,
            ))))
    ]

    pub same_iterator-end : (j : ℕ) → same_iterator (position b j) (position b j) ≡ true
    same_iterator-end j = elim (ℕ_discrete j b.size) [
      | yes e ↦ rw (==_of_eq j b.size e) refl
      | no ne ↦ rw (==_of_ne j b.size ne) (==_of_eq _ _ refl)
    ]

  copy_loop-copy_items :
      (f j m d : ℕ) (s : Pending A) (xs : List A)
      → Represents s.own xs
      → j ≤ m
      → m ≤ s.own.size
      → m < j + f
      → ((p : ℕ) → d ≤ p → s.block p ≡ none)
      → d + (m - j) ≤ s.room
      → copy_loop f (position s.own j) (position s.own m) d s ≡ copy_items (slice j m xs) d s
  unfolding copy_loop copy_items dereference construct_in
  copy_loop-copy_items zero j m d s xs r h l fuel free fits = absurd (omega arith)
  copy_loop-copy_items (suc f) j m d s xs r h l fuel free fits = elim (ℕ_discrete j m) [
    | yes e ↦
        subst
          (λ m.
            copy_loop (suc f) (position s.own j) (position s.own m) d s
            ≡ copy_items (slice j m xs) d s)
          e
          (rw (same_iterator-end r j, copy_loop)
            (ap (λ vs. copy_items vs d s) (sym (slice-none j xs))))
    | no ne ↦
        let (v, held) = live r j (omega arith) in
        rw (==_of_ne j s.own.size (omega arith)) (
          rw (same_iterator-position r j m (omega arith) l, copy_loop)
            (rw (slice-cons j m xs v (omega arith) (sym (r.held j (omega arith)) ∙ held)) (
              rw (deref-ok s.own (slot s.own.cap s.own.first j) v held)
                (elim (Bool-cases (t.throws_at s.own.clock)) [
                  | inl storm ↦ rw storm refl
                  | inr calm ↦
                      rw (calm, place_in-ok s d v (omega arith) (free d (omega arith)))
                        (rw (next_inside (Represents-clock r (s.own.clock + 1)) j (omega arith)) (
                          copy_loop-copy_items f (j + 1) m (d + 1) (placed s d v) xs
                            (Represents-clock r (s.own.clock + 1)) (omega arith) l (omega arith)
                            (λ p k.
                              update_ne s.block (some v) d p (λ e. absurd (omega arith))
                              ∙ free p (omega arith))
                            (omega arith)))
                ]))))
  ]

-- The block holds the list from `from` on and nothing behind, and the buffer some objects in the
-- place of each of its elements.
pub record Loaded {ℓ} {A : Type ℓ} ⦃t : Element A⦄ (s : Pending A) (from : ℕ) (vs : List A)
    (dest : ℕ) (s' : Pending A) : Type ℓ where
  pub left : List A
  pub own : Represents s'.own left
  pub cap_eq : s'.own.cap ≡ s.own.cap
  pub room_eq : s'.room ≡ s.room
  pub dest_eq : dest ≡ from + length vs
  pub before : (p : ℕ) → p < from → s'.block p ≡ s.block p
  pub held : (i : ℕ) → i < length vs → s'.block (from + i) ≡ get_elem? vs i
  pub behind : (p : ℕ) → dest ≤ p → s'.block p ≡ none

module _ {ℓ} {A : Type ℓ} ⦃t : Element A⦄ where
  -- The call after the object at the index `j` has been moved to `d`.
  abbrev sent : Pending A → (j d : ℕ) → A → Pending A
  sent s j d v = record (placed s d v) {
    own = record s.own {
      cell = update s.own.cell (slot s.own.cap s.own.first j) (some (t.moved v));
      clock = s.own.clock + 1;
    };
  }

  Loaded-step :
      {s s' : Pending A} (j : ℕ) {d dest : ℕ} (v : A) {vs : List A}
      → Loaded (sent s j d v) (d + 1) vs dest s'
      → Loaded s d (v ∷ vs) dest s'
  Loaded-step {s} {s'} j {d} v {vs} q = record {
    left = q.left;
    own = q.own;
    cap_eq = q.cap_eq;
    room_eq = q.room_eq;
    dest_eq = omega (arith, q.dest_eq);
    before = λ p h.
        q.before p (omega arith) ∙ update_ne s.block (some v) d p (λ e. absurd (omega arith));
    held = held;
    behind = q.behind;
  }
    where
      held : (i : ℕ) → i < suc (length vs) → s'.block (d + i) ≡ get_elem? (v ∷ vs) i
      held zero h =
          ap s'.block (omega arith) ∙ q.before d (omega arith) ∙ update_self s.block (some v) d
      held (suc i) h = ap s'.block (omega arith) ∙ q.held i (omega arith)

  pub move_loop-Loaded :
      (f j m d : ℕ) (s : Pending A) (xs : List A)
      → Represents s.own xs
      → j ≤ m
      → m ≤ s.own.size
      → m < j + f
      → ((p : ℕ) → d ≤ p → s.block p ≡ none)
      → d + (m - j) ≤ s.room
      → (dest : ℕ) × (s' : Pending A) × (move_loop f (position s.own j) (position s.own m) d s
          ≡ ok dest s')
        × Loaded s d (slice j m xs) dest s'
  unfolding move_loop dereference
  move_loop-Loaded zero j m d s xs r h l fuel free fits = absurd (omega arith)
  move_loop-Loaded (suc f) j m d s xs r h l fuel free fits = elim (ℕ_discrete j m) [
    | yes e ↦ (
      d,
      s,
      subst (λ m. move_loop (suc f) (position s.own j) (position s.own m) d s ≡ ok d s) e
          (rw (same_iterator-end r j, move_loop) refl),
      subst (λ m. Loaded s d (slice j m xs) d s) e
          (rw (slice-none j xs) (record {
            left = xs;
            own = r;
            cap_eq = refl;
            room_eq = refl;
            dest_eq = omega arith;
            before = λ p h. refl;
            held = λ i h. absurd (omega arith);
            behind = free;
          })),
    )
    | no ne ↦
        let (v, held) = live r j (omega arith) in
        let r' = Represents-set r j (t.moved v) (s.own.clock + 1) (omega arith) in
        let (dest, s', ran, q) =
          move_loop-Loaded f (j + 1) m (d + 1) (sent s j d v) (set xs j (t.moved v)) r'
            (omega arith) l (omega arith)
            (λ p k.
              update_ne s.block (some v) d p (λ e. absurd (omega arith)) ∙ free p (omega arith))
            (omega arith) in
        let later : slice (j + 1) m (set xs j (t.moved v)) ≡ slice (j + 1) m xs =
          ap (take (m - (j + 1))) (drop-set (j + 1) j xs (t.moved v) (omega arith)) in
        (
          dest,
          s',
          rw (==_of_ne j s.own.size (omega arith)) (
              rw (same_iterator-position r j m (omega arith) l, move_loop)
                (rw (deref-ok s.own (slot s.own.cap s.own.first j) v held) (
                  rw (place_in-ok s d v (omega arith) (free d (omega arith)))
                    (rw (next_inside r' j (omega arith)) ran)))),
          rw (slice-cons j m xs v (omega arith) (sym (r.held j (omega arith)) ∙ held))
              (Loaded-step j v (subst (λ vs. Loaded (sent s j d v) (d + 1) vs dest s') later q)),
        )
  ]

  pub Built-Loaded :
      {s s' : Pending A} {xs vs : List A} {d dest : ℕ}
      → Represents s.own xs
      → Built s d vs dest s'
      → Loaded s d vs dest s'
  Built-Loaded {s} {s'} {xs} r q = record {
    left = xs;
    own = subst (λ o. Represents o xs) (sym q.beside.own_eq) (Represents-clock r s'.own.clock);
    cap_eq = ap (λ o. o.cap) q.beside.own_eq;
    room_eq = q.beside.room_eq;
    dest_eq = q.dest_eq;
    before = q.beside.before;
    held = q.held;
    behind = q.behind;
  }

  -- The elements of the indices from `j` up to `m` reach a raw block, or an exception leaves the block
  -- raw and the buffer as it was.
  pub uninitialized_move_if_noexcept-Ensures :
      (j m d : ℕ) (s : Pending A) (xs : List A)
      → Represents s.own xs
      → j ≤ m
      → m ≤ s.own.size
      → ((p : ℕ) → d ≤ p → s.block p ≡ none)
      → d + (m - j) ≤ s.room
      → Ensures
          (Loaded s d (slice j m xs))
          (Undone s d)
          (uninitialized_move_if_noexcept (position s.own j) (position s.own m) d s)
  unfolding uninitialized_move_if_noexcept uninitialized_copy
  uninitialized_move_if_noexcept-Ensures j m d s xs r h l free fits =
      elim (Bool-cases t.nothrow_move) [
        | inl calm ↦
            let (dest, s', ran, q) =
              move_loop-Loaded (suc s.own.size) j m d s xs r h l (omega arith) free fits in
            subst (Ensures (Loaded s d (slice j m xs)) (Undone s d)) (sym (chosen calm ∙ ran))
              (returns q)
        | inr risky ↦
            let same =
              copy_loop-copy_items (suc s.own.size) j m d s xs r h l (omega arith) free fits in
            let len = length-slice j m xs (omega (arith, r.length_eq)) in
            subst (Ensures (Loaded s d (slice j m xs)) (Undone s d)) (sym (chosen risky)) (
              rw same (
                Ensures-mono
                  (uninitialized_copy-Ensures (slice j m xs) d s free (omega (arith, len)))
                  (λ dest s' q. Built-Loaded r q) (λ e s' q. q)))
      ]
    where
      chosen :
          {c : Bool}
          → t.nothrow_move ≡ c
          → uninitialized_move_if_noexcept (position s.own j) (position s.own m) d s
            ≡ (if c
                  then move_loop (suc s.own.size) (position s.own j) (position s.own m) d
                  else try_rethrow
                      (copy_loop (suc s.own.size) (position s.own j) (position s.own m) d)
                      (destroy_built d))
                s
      chosen e =
          ap
            (λ c.
              (if c
                  then move_loop (suc s.own.size) (position s.own j) (position s.own m) d
                  else try_rethrow
                      (copy_loop (suc s.own.size) (position s.own j) (position s.own m) d)
                      (destroy_built d))
                s)
            e
