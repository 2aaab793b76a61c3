-- ===== src/Buffer/ReraseRange.antt =====
-- base.hpp: `rerase` of a range.
pub mod Raise
pub mod Refine
use circular_buffer.Common.{
  ℕ, zero, suc, ◌+◌, Bool, true, false, not, Option, none, some, ◌==◌, if◌then◌else◌,
}
use circular_buffer.Common.Outcome.{Error, Outcome, ok, fault, pure, ◌>>=◌, ◌>>◌}
use circular_buffer.Element.{Element}
use circular_buffer.Buffer.{
  Buffer, Iterator, Method, assert, begin, decrement, map_pointer, move_item, destroy_item,
  increment_first, shrink,
}
use circular_buffer.Buffer.Insert.{same_iterator}
use circular_buffer.Buffer.Iterate.{precedes}

module _ {ℓ} {A : Type ℓ} ⦃t : Element A⦄ where
  -- `while (first != m_first) { decrement(first); decrement(p); replace(p, *first); }`, which leaves
  -- `p`. The fuel bounds the rounds.
  unfoldable pub raise_loop : ℕ → (first p : ℕ) → Method A ℕ
  raise_loop zero first p b = fault
  raise_loop (suc n) first p b = elim (first == b.first) [
    | true ↦ ok p b
    | false ↦
        (do
          move_item false (decrement b first) (decrement b p)
          raise_loop n (decrement b first) (decrement b p))
          b
  ]

  -- `do { destroy_item(m_first); increment(m_first); --m_size; } while (m_first != stop);`
  unfoldable pub destroy_front : ℕ → (stop : ℕ) → Method A (Unit {0})
  unfolding increment_first destroy_item shrink
  destroy_front zero stop b = fault
  destroy_front (suc n) stop b =
      (do
        (do (λ b'. destroy_item b'.first b'); increment_first; shrink 1)
        (λ b'. elim (b'.first == stop) [ true ↦ ok tt b' | false ↦ destroy_front n stop b' ]))
        b

  -- `rerase(first, last)` of a range that is not empty, from the iterator to `p` on and up to the
  -- pointer `last`.
  unfoldable pub rerase_between : (p last : ℕ) → Method A Iterator
  unfolding raise_loop destroy_front begin
  rerase_between p last b =
      (do
        stop ← raise_loop (suc b.size) p last
        (λ b'. destroy_front (suc b'.size) stop b')
        (λ b'. ok (if b'.first == last then begin b' else some (decrement b' last)) b'))
        b

  unfoldable pub rerase_range : (first last : Iterator) → Method A Iterator
  unfolding rerase_between assert precedes map_pointer
  rerase_range first last b =
      (do
        assert (not (precedes b last first))
        (λ b'. elim (same_iterator first last) [
          | true ↦ ok first b'
          | false ↦ elim first [ none ↦ fault | some p ↦ rerase_between p (map_pointer b' last) b' ]
        ]))
        b
