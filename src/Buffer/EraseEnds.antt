-- ===== src/Buffer/EraseEnds.antt =====
-- base.hpp: `erase_begin` and `erase_end`.
pub mod Cut
use circular_buffer.Common.{ℕ, ◌-◌, Bool, true, false, leb, if◌then◌else◌}
use circular_buffer.Common.Int.{pos}
use circular_buffer.Common.Outcome.{Error, Outcome, ok, pure, ◌>>=◌, ◌>>◌}
use circular_buffer.Element.{Element}
use circular_buffer.Buffer.{Buffer, Method, add, sub, assert, begin, end}
use circular_buffer.Buffer.Iterate.{advance, retreat}
use circular_buffer.Buffer.EraseRange.{erase_range}
use circular_buffer.Buffer.ReraseRange.{rerase_range}

module _ {ℓ} {A : Type ℓ} ⦃t : Element A⦄ where
  -- The bodies for scalars: `m_first = add(m_first, n); m_size -= n;` and the same at the end.
  unfoldable pub skip_begin : ℕ → Method A (Unit {0})
  unfolding add
  skip_begin n b = ok tt (record b { first = add b b.first n; size = b.size - n })

  unfoldable pub skip_end : ℕ → Method A (Unit {0})
  unfolding sub
  skip_end n b = ok tt (record b { last = sub b b.last n; size = b.size - n })

  -- The bodies for other types, by way of a range
  unfoldable pub erase_first : ℕ → Method A (Unit {0})
  unfolding rerase_range advance
  erase_first n b =
      (do last ← advance (pos n) (begin b); _ ← rerase_range (begin b) last; pure tt) b

  unfoldable pub erase_last : ℕ → Method A (Unit {0})
  unfolding erase_range retreat
  erase_last n b = (do first ← retreat (pos n) (end b); _ ← erase_range first (end b); pure tt) b

  -- `erase_begin(n)` and `erase_end(n)`
  unfoldable pub erase_begin : ℕ → Method A (Unit {0})
  unfolding assert skip_begin erase_first
  erase_begin n b = (do assert (leb n b.size); (if t.scalar then skip_begin n else erase_first n)) b

  unfoldable pub erase_end : ℕ → Method A (Unit {0})
  unfolding assert skip_end erase_last
  erase_end n b = (do assert (leb n b.size); (if t.scalar then skip_end n else erase_last n)) b
