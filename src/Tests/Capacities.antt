-- ===== src/Tests/Capacities.antt =====
-- space_optimized.hpp and base.hpp: the theorems on chosen capacities and on raw cells, at concrete
-- inputs.
use circular_buffer.Common.{ℕ, ◌+◌, ◌≤◌, ◌<◌, ◌≡◌, true, false, some, arith}
use circular_buffer.Buffer.{is_uninitialized}
use circular_buffer.Buffer.Memory.{IsVacant}
use circular_buffer.Buffer.Uninitialized.{is_uninitialized_lem}
use circular_buffer.SpaceOptimized.{CapacityControl, check_low_capacity}
use circular_buffer.SpaceOptimized.Bounds.{check_low_capacity-bounds}
use circular_buffer.Tests.Buffers.{number, wrapped, wrapped-Represents}

-- At most 100 elements, and room for 4 at least
abbrev control : CapacityControl
control = record { capacity = 100; min_capacity = 4 }

check_low_capacity-bounds_example :
    (r : ℕ) × (check_low_capacity control 9 16 10 ≡ some r)
    × (16 ≤ r)
    × (r ≤ 100)
    × (10 + 9 ≤ 100 → 10 + 9 ≤ r)
check_low_capacity-bounds_example =
    check_low_capacity-bounds control 9 16 10 (omega arith) (omega arith) (omega arith)

is_uninitialized_lem_example :
    (is_uninitialized wrapped 1 ≡ true → IsVacant (wrapped.cell 1))
    × (2 < 1 → 1 < 2 → (is_uninitialized wrapped 1 ≡ false) × IsVacant (wrapped.cell 1))
is_uninitialized_lem_example = is_uninitialized_lem wrapped-Represents 1 (omega arith)
