-- ===== src/Buffer/Iterate/Steps.antt =====
-- details.hpp, the steps of an iterator along the elements.
use circular_buffer.Common.{
  ℕ, ◌+◌, ◌-◌, ◌≤◌, ◌<◌, ◌≡◌, refl, sym, ap, ◌∙◌, true, false, none, some, List, ◌==◌, ==-refl, leb,
  ==_of_ne, ==_of_eq, if◌then◌else◌, arith,
}
use circular_buffer.Common.Outcome.{ok, fault}
use circular_buffer.Element.{Element}
use circular_buffer.Buffer.{Buffer, decrement, sub, begin, map_pointer, assert}
use circular_buffer.Buffer.Slot.{slot, slot-zero, slot-injective, apart_from_end}
use circular_buffer.Buffer.Pointers.{increment_at, decrement_at, add-slot_index, sub-slot_index}
use circular_buffer.Buffer.Represents.{Represents, position, begin-position}
use circular_buffer.Buffer.Iterate.{
  at_least, next, previous, unless_last, not_first, advance_by, retreat_by, difference,
}
use circular_buffer.Buffer.Iterate.Order.{iterators_ordered}
use native.Mathlib.Nat.{le_refl}
use native.Mathlib.Decide.{ℕ_discrete, dec_lt}

module _ {ℓ} {A : Type ℓ} ⦃t : Element A⦄ {b : Buffer A} {xs : List A} (r : Represents b xs) where
  first_lt : 0 < b.size → b.first < b.cap
  first_lt h = omega (arith, r.first_in, r.size_le)

  -- A pointer that has come to `m_last` becomes null, and none before.
  unless_last-slot :
      (i : ℕ) → 0 < i → i ≤ b.size → unless_last b (slot b.cap b.first i) ≡ position b i
  unfolding unless_last
  unless_last-slot i p h = elim (ℕ_discrete i b.size) [
    | yes e ↦ rw (
      ==_of_eq i b.size e,
      ==_of_eq (slot b.cap b.first i) b.last (ap (slot b.cap b.first) e ∙ sym r.last_eq),
    )
    | no ne ↦ rw (
      ==_of_ne i b.size ne,
      ==_of_ne (slot b.cap b.first i) b.last (λ q.
          apart_from_end b.cap b.first i b.size (first_lt (omega arith)) p (omega arith) r.size_le
            (q ∙ r.last_eq)),
    )
  ]

  -- In a buffer that represents a list, operator ++ takes the iterator of an index k below the
  -- size to that of index k + 1, and fails its assertion at end().
  pub next-position :
      (k : ℕ)
      → k ≤ b.size
      → next (position b k) b ≡ (if k == b.size then fault else ok (position b (k + 1)) b)
  unfolding next
  next-position k h = elim (ℕ_discrete k b.size) [
    | yes e ↦ rw (==_of_eq k b.size e)
    | no ne ↦ rw (==_of_ne k b.size ne) (
        ap (λ it. ok it b)
          (ap (unless_last b) (increment_at b refl b.first (first_lt (omega arith)) k)
            ∙ unless_last-slot (k + 1) (omega arith) (omega arith)))
  ]

  pub map_pointer-position :
      (k : ℕ) → k ≤ b.size → map_pointer b (position b k) ≡ slot b.cap b.first k
  unfolding map_pointer
  map_pointer-position k h = elim (ℕ_discrete k b.size) [
    | yes e ↦ rw (==_of_eq k b.size e) (r.last_eq ∙ ap (slot b.cap b.first) (sym e))
    | no ne ↦ rw (==_of_ne k b.size ne)
  ]

  past_first : (k : ℕ) → 0 < k → k ≤ b.size → not_first b (position b k) ≡ true
  unfolding not_first
  past_first k p h = elim (ℕ_discrete k b.size) [
    | yes e ↦ rw (==_of_eq k b.size e)
    | no ne ↦ rw (
      ==_of_ne k b.size ne,
      ==_of_ne (slot b.cap b.first k) b.first (λ q. absurd (
          omega (
            arith,
            slot-injective b.cap b.first k 0 (first_lt (omega arith)) (omega (arith, r.size_le))
                (omega (arith, r.size_le))
                (q ∙ sym (slot-zero b.cap b.first (first_lt (omega arith)))),
          ))),
    )
  ]

  pub before_end : (k : ℕ) → k < b.size → some (slot b.cap b.first k) ≡ position b k
  before_end k h = rw (==_of_ne k b.size (omega arith))

  pub next_inside :
      (k : ℕ) → k < b.size → next (some (slot b.cap b.first k)) b ≡ ok (position b (k + 1)) b
  next_inside k h =
      ap (λ it. next it b) (before_end k h)
      ∙ next-position k (omega arith)
      ∙ rw (==_of_ne k b.size (omega arith)) refl

  -- In a buffer that represents a list, operator -- takes the iterator of an index above 0 and up
  -- to the size, end() included, to that of the index before it.
  pub previous-position :
      (k : ℕ) → 0 < k → k ≤ b.size → previous (position b k) b ≡ ok (position b (k - 1)) b
  unfolding previous
  previous-position k p h = rw (past_first k p h) (
      ap (λ it. ok it b)
        (ap some (
            ap (decrement b) (map_pointer-position k h ∙ ap (slot b.cap b.first) (omega arith))
            ∙ decrement_at b refl b.first (first_lt (omega arith)) (k - 1))
          ∙ before_end (k - 1) (omega arith)))

  pub end_position : position b b.size ≡ none
  end_position = rw (==-refl b.size)

  room_ahead :
      (k n : ℕ) → k ≤ b.size → at_least (difference b none (position b k)) n ≡ leb (k + n) b.size
  room_ahead k n h =
      ap (λ it. at_least (difference b it (position b k)) n) (sym end_position)
      ∙ ap (λ d. at_least d n) (iterators_ordered r b.size k (le_refl b.size) h).0
      ∙ ground arith

  room_behind :
      (k n : ℕ) → k ≤ b.size → at_least (difference b (position b k) (begin b)) n ≡ leb n k
  room_behind k n h =
      ap (λ it. at_least (difference b (position b k) it) n) (begin-position r)
      ∙ ap (λ d. at_least d n) (iterators_ordered r k 0 h (omega arith)).0
      ∙ ground arith

  advance_inside :
      (k n : ℕ)
      → k < b.size
      → 0 < n
      → advance_by n (some (slot b.cap b.first k)) b
        ≡ (if leb (k + n) b.size then ok (position b (k + n)) b else fault)
  unfolding advance_by assert
  advance_inside k n h p =
      rw
        (ap (λ it. at_least (difference b none it) n) (before_end k h)
          ∙ room_ahead k n (omega arith))
        (elim (dec_lt b.size (k + n)) [
          | yes over ↦ let e : leb (k + n) b.size ≡ false = ground arith in rw e
          | no within ↦
              let e : leb (k + n) b.size ≡ true = ground arith in
              rw e (
                ap (λ it. ok it b)
                  (ap (unless_last b) (
                      add-slot_index b b.first (first_lt (omega arith)) k n
                        (omega (arith, r.size_le)))
                    ∙ unless_last-slot (k + n) (omega arith) (omega arith)))
        ])

  -- In a buffer that represents a list, operator += of a positive count n takes the iterator of an
  -- index k up to the size to that of index k + n, and fails its assertion exactly if that is past
  -- end().
  pub advance_by-position :
      (k n : ℕ)
      → k ≤ b.size
      → 0 < n
      → advance_by n (position b k) b
        ≡ (if leb (k + n) b.size then ok (position b (k + n)) b else fault)
  unfolding advance_by
  advance_by-position k n h p = elim (ℕ_discrete k b.size) [
    | yes e ↦ let over : leb (k + n) b.size ≡ false = ground arith in rw (over, ==_of_eq k b.size e)
    | no ne ↦
        ap (λ it. advance_by n it b) (sym (before_end k (omega arith)))
        ∙ advance_inside k n (omega arith) p
  ]

  -- In a buffer that represents a list, operator -= of a positive count n takes the iterator of an
  -- index k up to the size to that of index k - n, and fails its assertion exactly if n is above
  -- k.
  pub retreat_by-position :
      (k n : ℕ)
      → k ≤ b.size
      → 0 < n
      → retreat_by n (position b k) b ≡ (if leb n k then ok (position b (k - n)) b else fault)
  unfolding retreat_by assert
  retreat_by-position k n h p = rw (room_behind k n h) (elim (dec_lt k n) [
    | yes over ↦ let e : leb n k ≡ false = ground arith in rw e
    | no within ↦
        let e : leb n k ≡ true = ground arith in
        rw e (
          ap (λ it. ok it b)
            (ap some (
                ap (λ q. sub b q n)
                  (map_pointer-position k h ∙ ap (slot b.cap b.first) (omega arith))
                ∙ sub-slot_index b b.first (first_lt (omega arith)) (k - n) n
                    (omega (arith, r.size_le)))
              ∙ before_end (k - n) (omega arith)))
  ])
