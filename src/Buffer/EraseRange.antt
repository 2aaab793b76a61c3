-- ===== src/Buffer/EraseRange.antt =====
-- base.hpp: `erase` of a range.
pub mod Lower
pub mod Refine
use circular_buffer.Common.{
  ℕ, zero, suc, ◌+◌, Bool, true, false, not, Option, none, some, ◌==◌, if◌then◌else◌,
}
use circular_buffer.Common.Outcome.{Error, Outcome, ok, fault, pure, ◌>>=◌, ◌>>◌}
use circular_buffer.Element.{Element}
use circular_buffer.Buffer.{
  Buffer, Iterator, Method, assert, end, move_item, destroy_item, decrement_last, shrink,
}
use circular_buffer.Buffer.Insert.{same_iterator}
use circular_buffer.Buffer.Iterate.{next, precedes}

module _ {ℓ} {A : Type ℓ} ⦃t : Element A⦄ where
  -- `while (last.m_it != 0) replace((first++).m_it, boost::move_if_noexcept(*last++));`, which leaves
  -- `first`. The fuel bounds the rounds.
  unfoldable pub lower_loop : ℕ → (first last : Iterator) → Method A Iterator
  lower_loop zero first last b = fault
  lower_loop (suc n) first none b = ok first b
  lower_loop (suc n) none (some q) b = fault
  lower_loop (suc n) (some p) (some q) b =
      (do first ← next (some p); last ← next (some q); move_item false q p; lower_loop n first last)
        b

  -- `do { decrement(m_last); destroy_item(m_last); --m_size; } while (m_last != stop);`
  unfoldable pub destroy_back : ℕ → (stop : ℕ) → Method A (Unit {0})
  unfolding decrement_last destroy_item shrink
  destroy_back zero stop b = fault
  destroy_back (suc n) stop b =
      (do
        (do decrement_last; (λ b'. destroy_item b'.last b'); shrink 1)
        (λ b'. elim (b'.last == stop) [ true ↦ ok tt b' | false ↦ destroy_back n stop b' ]))
        b

  -- `erase(first, last)` of a range that is not empty, where `first` is the iterator to `p`.
  unfoldable pub erase_between : ℕ → (last : Iterator) → Method A Iterator
  unfolding lower_loop destroy_back
  erase_between p last b =
      (do
        first ← lower_loop (suc b.size) (some p) last
        (λ b'. elim first [ none ↦ fault | some q ↦ destroy_back (suc b'.size) q b' ])
        (λ b'. ok (if b'.last == p then end b' else some p) b'))
        b

  unfoldable pub erase_range : (first last : Iterator) → Method A Iterator
  unfolding erase_between assert precedes
  erase_range first last b =
      (do
        assert (not (precedes b last first))
        (λ b'. elim (same_iterator first last) [
          | true ↦ ok first b'
          | false ↦ elim first [ none ↦ fault | some p ↦ erase_between p last b' ]
        ]))
        b
