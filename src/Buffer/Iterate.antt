-- ===== src/Buffer/Iterate.antt =====
-- include/boost/circular_buffer/details.hpp: the random access iterator. An iterator keeps a
-- pointer to its buffer, which is the state here, and the pointer `m_it`.
pub mod Order
pub mod Steps
pub mod Counted
use circular_buffer.Common.{
  ℕ, suc, ◌+◌, ◌-◌, Bool, true, false, Option, none, some, ◌==◌, ltb, leb, if◌then◌else◌,
}
use circular_buffer.Common.Int.{ℤ, pos, negsuc, sub_ℕ}
use circular_buffer.Common.Outcome.{Outcome, ok, fault, pure, ◌>>=◌, ◌>>◌}
use circular_buffer.Buffer.{
  Buffer, Iterator, Method, begin, increment, decrement, add, sub, deref, assert, map_pointer,
}

-- `difference_type >= n`, of a signed difference and a count.
abbrev pub at_least : ℤ → ℕ → Bool
at_least (pos m) n = leb n m
at_least (negsuc m) n = false

module _ {ℓ} {A : Type ℓ} where
  -- The place that the pointer would have in a linear storage, counted from `m_buff`.
  unfoldable pub linearize_pointer : Buffer A → Iterator → ℕ
  linearize_pointer b none = b.size
  linearize_pointer b (some p) = if ltb p b.first then p + (b.cap - b.first) else p - b.first

  -- `operator *`
  unfoldable pub dereference : Iterator → Method A A
  dereference none b = fault
  dereference (some p) b = deref p b

  -- `operator -` of two iterators
  unfoldable pub difference : Buffer A → (it other : Iterator) → ℤ
  difference b it other = sub_ℕ (linearize_pointer b it) (linearize_pointer b other)

  -- `operator <`
  unfoldable pub precedes : Buffer A → (it other : Iterator) → Bool
  precedes b it other = ltb (linearize_pointer b it) (linearize_pointer b other)

  -- The pointer, or null where it has come to `m_last`.
  unfoldable pub unless_last : Buffer A → ℕ → Iterator
  unless_last b p = if p == b.last then none else some p

  -- `operator ++`
  unfoldable pub next : Iterator → Method A Iterator
  unfolding unless_last
  next none b = fault
  next (some p) b = ok (unless_last b (increment b p)) b

  -- The assertion `m_it != m_buff->m_first` of `operator --`.
  unfoldable pub not_first : Buffer A → Iterator → Bool
  not_first b none = true
  not_first b (some p) = if p == b.first then false else true

  -- `operator --`
  unfoldable pub previous : Iterator → Method A Iterator
  unfolding assert not_first
  previous it b = (do assert (not_first b it); pure (some (decrement b (map_pointer b it)))) b

  -- `operator +=` for a positive count
  unfoldable pub advance_by : ℕ → Iterator → Method A Iterator
  unfolding unless_last
  advance_by n none b = fault
  advance_by n (some p) b =
      (do assert (at_least (difference b none (some p)) n); pure (unless_last b (add b p n))) b

  -- `operator -=` for a positive count
  unfoldable pub retreat_by : ℕ → Iterator → Method A Iterator
  retreat_by n it b =
      (do assert (at_least (difference b it (begin b)) n); pure (some (sub b (map_pointer b it) n)))
        b

  -- `operator +=` and `operator -=`, each of which calls the other for a negative count.
  unfoldable pub advance : ℤ → Iterator → Method A Iterator
  advance (pos n) it = if n == 0 then pure it else advance_by n it
  advance (negsuc n) it = retreat_by (n + 1) it

  unfoldable pub retreat : ℤ → Iterator → Method A Iterator
  retreat (pos n) it = if n == 0 then pure it else retreat_by n it
  retreat (negsuc n) it = advance_by (n + 1) it
