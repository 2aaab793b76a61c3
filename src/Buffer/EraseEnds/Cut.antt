-- ===== src/Buffer/EraseEnds/Cut.antt =====
-- base.hpp, `erase_begin` and `erase_end` against the list that the buffer stands for.
use circular_buffer.Common.{
  ℕ, ◌+◌, ◌-◌, ◌≤◌, ◌≡◌, refl, sym, ap, ◌∙◌, subst, subst₂, inl, inr, true, List, ◌++◌, leb,
  if◌then◌else◌, Bool-cases, take, drop, length-take_le, length-drop, get_elem?-take,
  get_elem?-drop, drop-length, append-nil, arith,
}
use circular_buffer.Common.Outcome.{pure, ◌>>=◌, Ensures, returns, Ensures-and_then}
use mathlib.Core.Bool.{false≢true}
use circular_buffer.Element.{Element}
use circular_buffer.Buffer.{Buffer, add, sub, capacity, assert}
use circular_buffer.Buffer.Slot.{slot, slot-lt, slot_from}
use circular_buffer.Buffer.Pointers.{add-slot, sub-slot_index}
use circular_buffer.Buffer.Represents.{Represents, Becomes, position, begin-position}
use circular_buffer.Buffer.Iterate.Counted.{advance-begin, retreat-end, end-position}
use circular_buffer.Buffer.EraseRange.{erase_range}
use circular_buffer.Buffer.EraseRange.Lower.{Scattered}
use circular_buffer.Buffer.EraseRange.Refine.{erase_range_refines, cut}
use circular_buffer.Buffer.ReraseRange.{rerase_range}
use circular_buffer.Buffer.ReraseRange.Refine.{rerase_range_refines}
use circular_buffer.Buffer.EraseEnds.{
  skip_begin, skip_end, erase_first, erase_last, erase_begin, erase_end,
}
use native.Mathlib.Decide.{ℕ_discrete, dec_lt}

module _ {ℓ} {A : Type ℓ} ⦃t : Element A⦄ {b : Buffer A} {xs : List A} (r : Represents b xs) (n : ℕ)
    (within : n ≤ b.size) where
  no_cells : b.cap ≤ 0 → b.first ≡ add b b.first n
  unfolding add capacity
  no_cells h = ground (arith, r.first_in, r.size_le)

  no_step : n ≡ 0 → b.last ≡ sub b b.last n
  unfolding sub
  no_step h = ground arith

  Represents-skip_begin :
      t.scalar ≡ true
      → Represents (record b { first = add b b.first n; size = b.size - n }) (drop n xs)
  Represents-skip_begin s = elim (dec_lt 0 b.cap) [
    | yes l ↦
        let first_eq : add b b.first n ≡ slot b.cap b.first n =
          add-slot b b.first n (omega (arith, r.first_in)) (omega (arith, r.size_le)) in
        let at : (i j : ℕ) → n + i ≡ j → slot b.cap (add b b.first n) i ≡ slot b.cap b.first j =
          λ i j e. ap (λ f. slot b.cap f i) first_eq ∙ slot_from b.cap b.first n i j e in
        record {
          first_in = omega (arith, first_eq, slot-lt b.cap b.first n l);
          size_le = omega (arith, r.size_le);
          last_eq = r.last_eq ∙ sym (at (b.size - n) b.size (omega arith));
          length_eq = length-drop n xs ∙ omega (arith, r.length_eq);
          held = λ i h.
              ap b.cell (at i (n + i) refl)
              ∙ r.held (n + i) (omega arith)
              ∙ sym (get_elem?-drop n xs i);
          raw = λ i h k v. absurd (false≢true (sym v ∙ s));
          beyond = r.beyond;
        }
    | no l ↦
        let first_eq : b.first ≡ add b b.first n = no_cells (omega arith) in
        let size_eq : b.size ≡ b.size - n = omega (arith, r.size_le) in
        let zero_eq : 0 ≡ n = omega (arith, r.size_le) in
        subst₂ (λ f s. Represents (record b { first = f; size = s }) (drop n xs)) first_eq size_eq
          (subst (λ k. Represents b (drop k xs)) zero_eq r)
  ]

  Represents-skip_end :
      t.scalar ≡ true
      → Represents (record b { last = sub b b.last n; size = b.size - n }) (take (b.size - n) xs)
  Represents-skip_end s = record {
    first_in = r.first_in;
    size_le = omega (arith, r.size_le);
    last_eq = elim (ℕ_discrete n 0) [
      | yes e ↦ sym (no_step e) ∙ r.last_eq ∙ ap (slot b.cap b.first) (omega arith)
      | no ne ↦
          ap (λ p. sub b p n) (r.last_eq ∙ ap (slot b.cap b.first) (omega arith))
          ∙ sub-slot_index b b.first (omega (arith, r.first_in, r.size_le)) (b.size - n) n
              (omega (arith, r.size_le))
    ];
    length_eq = length-take_le (b.size - n) xs (omega (arith, r.length_eq));
    held = λ i h. r.held i (omega arith) ∙ sym (get_elem?-take (b.size - n) xs i h);
    raw = λ i h k v. absurd (false≢true (sym v ∙ s));
    beyond = r.beyond;
  }

  pub erase_first-Ensures : Ensures (Becomes b (drop n xs)) (Scattered b) (erase_first n b)
  unfolding erase_first
  erase_first-Ensures = rw (advance-begin r n within) (
      subst
        (λ it.
          Ensures (Becomes b (drop n xs)) (Scattered b)
            ((do _ ← rerase_range it (position b n); pure tt) b))
        (sym (begin-position r))
        (Ensures-and_then (rerase_range_refines r 0 n (omega arith) within)
          (λ it b' (r', cap_eq, at). returns (r', cap_eq)) (λ e b' q. q)))

  pub erase_last-Ensures : Ensures (Becomes b (take (b.size - n) xs)) (Scattered b) (erase_last n b)
  unfolding erase_last
  erase_last-Ensures =
      let kept : cut (b.size - n) b.size xs ≡ take (b.size - n) xs =
        ap (λ l. take (b.size - n) xs ++ l) (drop-length b.size xs (omega (arith, r.length_eq)))
        ∙ append-nil (take (b.size - n) xs) in
      rw (retreat-end r n within) (
        subst
          (λ it.
            Ensures (Becomes b (take (b.size - n) xs)) (Scattered b)
              ((do _ ← erase_range (position b (b.size - n)) it; pure tt) b))
          (sym (end-position r))
          (Ensures-and_then (erase_range_refines r (b.size - n) b.size (omega arith) (omega arith))
            (λ it b' (r', cap_eq, at). returns (subst (Represents b') kept r', cap_eq))
            (λ e b' q. q)))

  -- In a buffer that represents the list xs, erase_begin of a count n up to the size returns or
  -- throws, for scalar elements and others. If it returns, the buffer represents xs without its
  -- first n elements in the same capacity. If an element throws, the buffer represents some list
  -- of the old length in the same capacity.
  pub erase_begin_refines : Ensures (Becomes b (drop n xs)) (Scattered b) (erase_begin n b)
  unfolding erase_begin assert skip_begin
  erase_begin_refines =
      let e : leb n b.size ≡ true = ground arith in
      rw e (elim (Bool-cases t.scalar) [
        | inl s ↦
            subst
              (λ c.
                Ensures (Becomes b (drop n xs)) (Scattered b)
                  ((if c then skip_begin n else erase_first n) b))
              (sym s) (returns (Represents-skip_begin s, refl))
        | inr s ↦
            subst
              (λ c.
                Ensures (Becomes b (drop n xs)) (Scattered b)
                  ((if c then skip_begin n else erase_first n) b))
              (sym s) erase_first-Ensures
      ])

  -- `erase_end` leaves the list without its last `n` elements, or what an exception leaves.
  pub erase_end_refines : Ensures (Becomes b (take (b.size - n) xs)) (Scattered b) (erase_end n b)
  unfolding erase_end assert skip_end
  erase_end_refines =
      let e : leb n b.size ≡ true = ground arith in
      rw e (elim (Bool-cases t.scalar) [
        | inl s ↦
            subst
              (λ c.
                Ensures (Becomes b (take (b.size - n) xs)) (Scattered b)
                  ((if c then skip_end n else erase_last n) b))
              (sym s) (returns (Represents-skip_end s, refl))
        | inr s ↦
            subst
              (λ c.
                Ensures (Becomes b (take (b.size - n) xs)) (Scattered b)
                  ((if c then skip_end n else erase_last n) b))
              (sym s) erase_last-Ensures
      ])
