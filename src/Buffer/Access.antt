-- ===== src/Buffer/Access.antt =====
-- base.hpp: element access, and the two array ranges of the storage.
pub mod Elements
pub mod Arrays
use circular_buffer.Common.{
  ℕ, ◌+◌, ◌-◌, Bool, true, false, not, ◌&&◌, ◌==◌, ltb, leb, if◌then◌else◌,
}
use circular_buffer.Common.Outcome.{out_of_range, Outcome, ok, pure, throw, ◌>>=◌, ◌>>◌}
use circular_buffer.Buffer.{Buffer, Method, empty, add, deref, assert}

module _ {ℓ} {A : Type ℓ} where
  -- `operator[]`
  unfoldable pub index : ℕ → Method A A
  unfolding assert
  index i b = (do assert (ltb i b.size); deref (add b b.first i)) b

  unfoldable pub check_position : ℕ → Method A (Unit {0})
  check_position i b = (if leb b.size i then throw out_of_range else pure tt) b

  unfoldable pub at : ℕ → Method A A
  unfolding check_position
  at i = do check_position i; index i

  unfoldable pub front : Method A A
  unfolding assert
  front b = (do assert (not (empty b)); deref b.first) b

  unfoldable pub back : Method A A
  unfolding assert
  back b = (do assert (not (empty b)); deref ((if b.last == 0 then b.cap else b.last) - 1)) b

  -- A pointer into the storage and a count of elements.
  unfoldable pub array_one : Buffer A → ℕ × ℕ
  unfolding empty
  array_one b = (b.first, (if leb b.last b.first && not (empty b) then b.cap else b.last) - b.first)

  unfoldable pub array_two : Buffer A → ℕ × ℕ
  unfolding empty
  array_two b = (0, if leb b.last b.first && not (empty b) then b.last else 0)
