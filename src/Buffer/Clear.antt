-- ===== src/Buffer/Clear.antt =====
-- base.hpp: `destroy_content` and `clear`.
pub mod Content
use circular_buffer.Common.{ℕ, zero, suc, ◌+◌, Bool, true, false, none, if◌then◌else◌}
use circular_buffer.Common.Outcome.{Error, Outcome, ok, ◌>>=◌, ◌>>◌}
use circular_buffer.Element.{Element}
use circular_buffer.Buffer.{Buffer, Method, add, destroy_item, increment_first}

module _ {ℓ} {A : Type ℓ} where
  -- `destroy_item(m_first)`
  unfoldable pub destroy_first : Method A (Unit {0})
  unfolding destroy_item
  destroy_first b = destroy_item b.first b

  -- `for (ii = 0; ii < size(); ++ii, increment(m_first)) destroy_item(m_first);`
  unfoldable pub destroy_loop : ℕ → Method A (Unit {0})
  unfolding destroy_first increment_first
  destroy_loop zero b = ok tt b
  destroy_loop (suc n) b = (do destroy_first; increment_first; destroy_loop n) b

  -- `deallocate(m_buff, capacity())`: the cells are gone.
  unfoldable pub deallocate : Method A (Unit {0})
  deallocate b = ok tt (record b { cell = λ p. none })

  -- `m_size = n`
  unfoldable pub set_size : ℕ → Method A (Unit {0})
  set_size n b = ok tt (record b { size = n })

module _ {ℓ} {A : Type ℓ} ⦃t : Element A⦄ where
  -- `destroy_content`, which skips the destructors of scalars.
  unfoldable pub destroy_content : Method A (Unit {0})
  unfolding destroy_loop
  destroy_content b =
      if t.scalar then ok tt (record b { first = add b b.first b.size }) else destroy_loop b.size b

  unfoldable pub clear : Method A (Unit {0})
  unfolding destroy_content set_size
  clear = do destroy_content; set_size 0

  unfoldable pub destroy : Method A (Unit {0})
  unfolding destroy_content deallocate
  destroy = do destroy_content; deallocate
