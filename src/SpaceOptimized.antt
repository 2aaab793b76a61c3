-- ===== src/SpaceOptimized.antt =====
-- include/boost/circular_buffer/space_optimized.hpp: how the adaptor chooses the capacity of its
-- ring. The ring itself, whose capacity is then set, is `Buffer`.
pub mod Bounds
pub mod Adaptor
use circular_buffer.Common.{
  ℕ, zero, suc, ◌+◌, ◌*◌, ◌/◌, ◌%◌, ◌^◌, Bool, true, false, Option, none, some, ◌==◌, ltb, leb,
  if◌then◌else◌,
}

-- The numbers of `size_type`, of 64 bits, and a quarter of them. Sums and products wrap round.
abbrev pub size_limit : ℕ
size_limit = 2 ^ 64

abbrev pub size_quarter : ℕ
size_quarter = 2 ^ 62

unfoldable pub to_size : ℕ → ℕ
to_size n = n % size_limit

-- `capacity_control` (details.hpp)
pub record CapacityControl : Type 0 where
  pub capacity : ℕ
  pub min_capacity : ℕ

unfoldable pub ensure_reserve : CapacityControl → (new_capacity buffer_size : ℕ) → ℕ
unfolding to_size
ensure_reserve c new_capacity buffer_size =
    let grown =
      if leb new_capacity (to_size (buffer_size + new_capacity / 5))
      then to_size (new_capacity * 2)
      else new_capacity in
    if ltb c.capacity grown then c.capacity else grown

-- `set_capacity(ensure_reserve(new_capacity, buffer_size))` after a loop that gave `new_capacity`
unfoldable pub reserved : CapacityControl → (buffer_size : ℕ) → Option ℕ → Option ℕ
unfolding ensure_reserve
reserved c buffer_size none = none
reserved c buffer_size (some new_capacity) = some (ensure_reserve c new_capacity buffer_size)

-- `for (; new_size > new_capacity; new_capacity *= 2) {}`. The fuel bounds the rounds; where the
-- doubling wraps round to 0 the loop never ends, and no fuel is enough.
unfoldable pub double_up : ℕ → (new_size new_capacity : ℕ) → Option ℕ
unfolding to_size
double_up zero new_size new_capacity = none
double_up (suc n) new_size new_capacity =
    let rest = double_up n new_size (to_size (new_capacity * 2)) in
    if ltb new_capacity new_size then rest else some new_capacity

-- The capacity that `check_low_capacity(n)` leaves a ring with, of the given capacity and size.
unfoldable pub check_low_capacity : CapacityControl → (n capacity size : ℕ) → Option ℕ
unfolding double_up reserved to_size
check_low_capacity c n capacity size =
    let start = if capacity == 0 then 1 else capacity in
    let new_size = to_size (size + n) in
    let found = double_up (suc new_size) new_size start in
    if ltb capacity new_size then reserved c new_size found else some capacity

-- `while (new_capacity / 3 >= size()) { ... }`. The fuel bounds the rounds.
unfoldable pub halve_down : ℕ → CapacityControl → (size new_capacity : ℕ) → Option ℕ
halve_down zero c size new_capacity = none
halve_down (suc n) c size new_capacity =
    let rest = halve_down n c size (new_capacity / 2) in
    if leb size (new_capacity / 3)
    then (if leb (new_capacity / 2) c.min_capacity then some c.min_capacity else rest)
    else some new_capacity

-- The capacity that `check_high_capacity` leaves a ring with
unfoldable pub check_high_capacity : CapacityControl → (capacity size : ℕ) → Option ℕ
unfolding halve_down reserved
check_high_capacity c capacity size = reserved c size (halve_down (suc capacity) c size capacity)
