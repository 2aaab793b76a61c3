-- ===== src/Tests/Storage.antt =====
-- base.hpp and space_optimized.hpp: the theorems on constructions, assignments and changes of
-- capacity, at concrete inputs.
use circular_buffer.Common.{ℕ, ◌≡◌, refl, false, [], ◌∷◌, arith}
use circular_buffer.Common.Outcome.{ok, fault, Ensures}
use circular_buffer.Buffer.{Buffer}
use circular_buffer.Buffer.Represents.{Represents}
use circular_buffer.Buffer.Capacity.{set_capacity, rset_capacity}
use circular_buffer.Buffer.Capacity.Set.{set_capacity_refines, rset_capacity_refines}
use circular_buffer.Buffer.Block.{uninitialized_copy}
use circular_buffer.Buffer.Block.Copy.{Built, Undone, uninitialized_copy-Ensures}
use circular_buffer.Buffer.Block.Replace.{Untouched, allocated}
use circular_buffer.Buffer.Create.{create_copy, create_with_range, create_filled}
use circular_buffer.Buffer.Create.Built.{
  NoObject, create_copy_refines, create_with_range_refines, create_filled_faults,
}
use circular_buffer.Buffer.Assign.{assign_copy, assign_range_with_capacity}
use circular_buffer.Buffer.Assign.Storage.{Unassigned}
use circular_buffer.Buffer.Assign.Refine.{assign_copy_refines, assign_range_with_capacity_refines}
use circular_buffer.Buffer.Swap.{move_assign, move_assign_refines}
use circular_buffer.Tests.Buffers.{number, wrapped, filled, wrapped-Represents, filled-Represents}

set_capacity_refines_example :
    Ensures
      (λ _ b'. Represents b' (5 ∷ 6 ∷ []) × (b'.cap ≡ 2))
      (Untouched filled)
      (set_capacity 2 filled)
set_capacity_refines_example = set_capacity_refines filled-Represents 2

rset_capacity_refines_example :
    Ensures
      (λ _ b'. Represents b' (6 ∷ 7 ∷ []) × (b'.cap ≡ 2))
      (Untouched filled)
      (rset_capacity 2 filled)
rset_capacity_refines_example = rset_capacity_refines filled-Represents 2

-- The copies do not throw.
uninitialized_copy-Ensures_example :
    Ensures
      (Built (allocated 4 wrapped) 1 (5 ∷ 6 ∷ []))
      (Undone (allocated 4 wrapped) 1)
      (uninitialized_copy (5 ∷ 6 ∷ []) 1 (allocated 4 wrapped))
uninitialized_copy-Ensures_example =
    uninitialized_copy-Ensures (5 ∷ 6 ∷ []) 1 (allocated 4 wrapped) (λ p h. refl) (omega arith)

create_copy_refines_example :
    Ensures
      (λ _ b'. Represents b' (5 ∷ 6 ∷ 7 ∷ []) × (b'.cap ≡ 3))
      (NoObject wrapped)
      (create_copy filled wrapped)
create_copy_refines_example = create_copy_refines filled-Represents wrapped

create_with_range_refines_example :
    Ensures
      (λ _ b'. Represents b' (2 ∷ 3 ∷ []) × (b'.cap ≡ 2))
      (NoObject wrapped)
      (create_with_range 2 (1 ∷ 2 ∷ 3 ∷ []) wrapped)
create_with_range_refines_example = create_with_range_refines 2 (1 ∷ 2 ∷ 3 ∷ []) wrapped

-- The next copy throws.
create_filled_faults_example : create_filled 5 2 4 filled ≡ fault
create_filled_faults_example =
    create_filled_faults 5 2 4 filled (omega arith) (omega arith) (omega arith) refl refl

assign_copy_refines_example :
    Ensures
      (λ _ b'. Represents b' (5 ∷ 6 ∷ 7 ∷ []) × (b'.cap ≡ 3))
      (Untouched wrapped)
      (assign_copy false filled wrapped)
assign_copy_refines_example = assign_copy_refines wrapped-Represents filled-Represents

-- The storage is kept, and the first copy throws.
assign_range_with_capacity_refines_example :
    Ensures
      (λ _ b'. Represents b' (2 ∷ 3 ∷ 4 ∷ []) × (b'.cap ≡ 3))
      (Unassigned filled 3)
      (assign_range_with_capacity 3 (1 ∷ 2 ∷ 3 ∷ 4 ∷ []) filled)
assign_range_with_capacity_refines_example =
    assign_range_with_capacity_refines filled-Represents 3 (1 ∷ 2 ∷ 3 ∷ 4 ∷ [])

move_assign_refines_example :
    (b' : Buffer ℕ) × (cb' : Buffer ℕ) × (move_assign (wrapped, filled) ≡ ok tt (b', cb'))
    × Represents b' (5 ∷ 6 ∷ 7 ∷ [])
    × Represents cb' []
    × (b'.cap ≡ 3)
    × (cb'.cap ≡ 0)
move_assign_refines_example = move_assign_refines filled-Represents wrapped-Represents
