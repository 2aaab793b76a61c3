-- ===== src/Tests/Views.antt =====
-- base.hpp and details.hpp: the theorems on element access, iterators and comparisons, at concrete
-- buffers.
use circular_buffer.Common.{
  ℕ, ◌≡◌, ◌↔◌, Bool, true, some, List, [], ◌∷◌, ◌==◌, ltb, eq_of_==, ==_of_eq, arith,
}
use circular_buffer.Common.Outcome.{ok}
use circular_buffer.Buffer.Represents.{position}
use circular_buffer.Tests.Buffers.{number, wrapped, filled, wrapped-Represents, filled-Represents}
use circular_buffer.Common.Int.{negsuc}
use circular_buffer.Buffer.Access.{at, index, front, back, array_one, array_two}
use circular_buffer.Buffer.Access.Elements.{at_refines, access_refines}
use circular_buffer.Buffer.Access.Arrays.{Splits, arrays_refine}
use circular_buffer.Buffer.Iterate.{linearize_pointer, difference, precedes}
use circular_buffer.Buffer.Iterate.Order.{linearize_pointer-position, iterators_ordered}
use circular_buffer.Buffer.Compare.{range, equals, less}
use circular_buffer.Buffer.Compare.Traverse.{
  range_refines, equals_iff, IsFirstDifference, less_refines,
}

at_refines_example : at 1 wrapped ≡ ok 9 wrapped
at_refines_example = at_refines wrapped-Represents 1

access_refines_example :
    (index 1 wrapped ≡ ok 9 wrapped)
    × (front wrapped ≡ ok 8 wrapped)
    × (back wrapped ≡ ok 9 wrapped)
access_refines_example = access_refines wrapped-Represents 1 (omega arith)

arrays_refine_example : Splits wrapped (8 ∷ 9 ∷ []) (array_one wrapped) (array_two wrapped)
arrays_refine_example = arrays_refine wrapped-Represents

linearize_pointer-position_example : linearize_pointer filled (position filled 2) ≡ 2
linearize_pointer-position_example = linearize_pointer-position filled-Represents 2 (omega arith)

iterators_ordered_example :
    (difference filled (position filled 1) (position filled 3) ≡ negsuc 1)
    × (precedes filled (position filled 1) (position filled 3) ≡ true)
    × (position filled 1 ≡ position filled 3 → ◌≡◌ {A = ℕ} 1 3)
iterators_ordered_example = iterators_ordered filled-Represents 1 3 (omega arith) (omega arith)

range_refines_example : range wrapped ≡ some (8 ∷ 9 ∷ [])
range_refines_example = range_refines wrapped-Represents

same_number_iff : (m n : ℕ) → (m == n ≡ true) ↔ (m ≡ n)
same_number_iff m n = (eq_of_== m n, ==_of_eq m n)

equals_iff_example :
    (answer : Bool) × (equals ◌==◌ wrapped wrapped ≡ some answer)
    × ((answer ≡ true) ↔ ◌≡◌ {A = List ℕ} (8 ∷ 9 ∷ []) (8 ∷ 9 ∷ []))
equals_iff_example = equals_iff wrapped-Represents wrapped-Represents ◌==◌ same_number_iff

less_refines_example :
    (answer : Bool) × (less ltb filled wrapped ≡ some answer)
    × ((answer ≡ true) ↔ ((k : ℕ) × IsFirstDifference ltb (5 ∷ 6 ∷ 7 ∷ []) (8 ∷ 9 ∷ []) k))
less_refines_example = less_refines filled-Represents wrapped-Represents ltb
