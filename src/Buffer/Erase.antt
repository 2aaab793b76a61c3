-- ===== src/Buffer/Erase.antt =====
-- base.hpp: `erase` and `rerase` of one element.
pub mod Forward
pub mod Backward
use circular_buffer.Common.{
  ℕ, zero, suc, ◌+◌, Bool, true, false, Option, none, some, ◌==◌, if◌then◌else◌,
}
use circular_buffer.Common.Outcome.{Error, Outcome, ok, fault, Action, pure, ◌>>=◌, ◌>>◌}
use circular_buffer.Element.{Element}
use circular_buffer.Buffer.{
  Buffer, Iterator, Method, begin, end, increment, decrement, move_item, destroy_item,
  increment_first, decrement_last, shrink,
}

module _ {ℓ} {A : Type ℓ} ⦃t : Element A⦄ where
  -- `for (p = pos; next != m_last; p = next, increment(next)) replace(p, *next);` The fuel bounds
  -- the rounds.
  unfoldable pub erase_loop : ℕ → (p next : ℕ) → Method A (Unit {0})
  erase_loop zero p next b = fault
  erase_loop (suc n) p next b = elim (next == b.last) [
    | true ↦ ok tt b
    | false ↦ (do move_item false next p; erase_loop n next (increment b next)) b
  ]

  -- The end of `erase`: the last element has been moved from.
  unfoldable pub erase_finish : ℕ → Method A Iterator
  unfolding decrement_last shrink
  erase_finish p = do
    decrement_last
    (λ b. destroy_item b.last b)
    shrink 1
    (λ b. ok (if b.last == p then end b else some p) b)

  unfoldable pub erase : Iterator → Method A Iterator
  unfolding erase_loop erase_finish
  erase none b = fault
  erase (some p) b = (do erase_loop (suc b.cap) p (increment b p); erase_finish p) b

  -- `for (decrement(prev); p != m_first; p = prev, decrement(prev)) replace(p, *prev);`
  -- It answers with the last `p`.
  unfoldable pub rerase_loop : ℕ → (p prev : ℕ) → Method A ℕ
  rerase_loop zero p prev b = fault
  rerase_loop (suc n) p prev b = elim (p == b.first) [
    | true ↦ ok p b
    | false ↦ (do move_item false prev p; rerase_loop n prev (decrement b prev)) b
  ]

  -- The end of `rerase`: the first element has been moved from.
  unfoldable pub rerase_finish : (pos p : ℕ) → Method A Iterator
  unfolding increment_first shrink
  rerase_finish pos p = do
    (λ b. destroy_item b.first b)
    increment_first
    shrink 1
    (λ b. ok (if p == pos then begin b else some pos) b)

  unfoldable pub rerase : Iterator → Method A Iterator
  unfolding rerase_loop rerase_finish
  rerase none b = fault
  rerase (some pos) b =
      (do p ← rerase_loop (suc b.cap) pos (decrement b pos); rerase_finish pos p) b
