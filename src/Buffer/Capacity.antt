-- ===== src/Buffer/Capacity.antt =====
-- base.hpp: `set_capacity` and `rset_capacity`.
pub mod Set
use circular_buffer.Common.{
  ℕ, ◌+◌, ◌-◌, min, Bool, true, false, Option, none, some, ◌==◌, if◌then◌else◌,
}
use circular_buffer.Common.Int.{pos}
use circular_buffer.Common.Outcome.{Error, Outcome, ok, Action, pure, ◌>>=◌, ◌>>◌, try_rethrow}
use circular_buffer.Element.{Element}
use circular_buffer.Buffer.{Buffer, Iterator, Method, capacity, begin, end}
use circular_buffer.Buffer.Iterate.{advance, retreat}
use circular_buffer.Buffer.Block.{
  Pending, Transfer, on_own, reallocate, uninitialized_move_if_noexcept, reset,
}

module _ {ℓ} {A : Type ℓ} ⦃t : Element A⦄ where
  -- The guarded blocks of `set_capacity` and `rset_capacity`, each on the buffer and the new block.
  unfoldable pub keep_first_items : ℕ → Transfer A (Unit {0})
  unfolding reset begin
  keep_first_items n s =
      (do
        last ← on_own (advance (pos (min n s.own.size)) (begin s.own))
        dest ← uninitialized_move_if_noexcept (begin s.own) last 0
        reset dest n)
        s

  unfoldable pub keep_last_items : ℕ → Transfer A (Unit {0})
  unfolding reset end
  keep_last_items n s =
      (do
        first ← on_own (retreat (pos (min n s.own.size)) (end s.own))
        dest ← uninitialized_move_if_noexcept first (end s.own) 0
        reset dest n)
        s

  unfoldable pub set_capacity : ℕ → Method A (Unit {0})
  unfolding reallocate keep_first_items capacity
  set_capacity n b = (if n == capacity b then pure tt else reallocate n (keep_first_items n)) b

  unfoldable pub rset_capacity : ℕ → Method A (Unit {0})
  unfolding reallocate keep_last_items capacity
  rset_capacity n b = (if n == capacity b then pure tt else reallocate n (keep_last_items n)) b
