-- ===== src/Tests/Adaptors.antt =====
-- space_optimized.hpp: the theorems on the adaptor at concrete inputs.
use circular_buffer.Common.{ℕ, ◌≡◌, [], ◌∷◌, arith, false}
use circular_buffer.Common.Outcome.{Ensures}
use circular_buffer.Buffer.Represents.{position}
use circular_buffer.SpaceOptimized.{CapacityControl}
use circular_buffer.SpaceOptimized.Adaptor.{Adaptor, push_back, pop_back, insert, set_capacity}
use circular_buffer.SpaceOptimized.Adaptor.Adjust.{Stands, Keeps}
use circular_buffer.SpaceOptimized.Adaptor.Ends.{Spoils, push_back-Keeps, pop_back-Keeps}
use circular_buffer.SpaceOptimized.Adaptor.Places.{KeepsSome, insert-Keeps}
use circular_buffer.SpaceOptimized.Adaptor.Change.{Changed, Halted, set_capacity-Changed}
use circular_buffer.SpaceOptimized.Adaptor.Build.{assign_copy}
use circular_buffer.SpaceOptimized.Adaptor.Build.Built.{Kept, assign_copy-Changed}
use circular_buffer.Tests.Buffers.{number, filled, filled-Represents, wrapped, wrapped-Represents}

-- The full ring 5, 6, 7, which may grow to four elements.
abbrev small : Adaptor ℕ
small = record { ring = filled; control = record { capacity = 4; min_capacity = 1 } }

-- At most 2 elements
abbrev fewer : CapacityControl
fewer = record { capacity = 2; min_capacity = 1 }

small-Stands : Stands small (5 ∷ 6 ∷ 7 ∷ [])
small-Stands = record {
  ring = filled-Represents;
  cap_le = omega arith;
  min_le = omega arith;
  in_range = omega arith;
}

push_back-Keeps_example :
    Ensures
      (Keeps small (5 ∷ 6 ∷ 7 ∷ 8 ∷ []))
      (Spoils small (5 ∷ 6 ∷ 7 ∷ []) 0 8)
      (push_back 8 small)
push_back-Keeps_example = push_back-Keeps small-Stands 8

pop_back-Keeps_example :
    Ensures (Keeps small (5 ∷ 6 ∷ [])) (Keeps small (5 ∷ 6 ∷ [])) (pop_back small)
pop_back-Keeps_example = pop_back-Keeps small-Stands (omega arith)

insert-Keeps_example :
    Ensures
      (λ it a'. Keeps small (5 ∷ 8 ∷ 6 ∷ 7 ∷ []) it a' × (it ≡ position a'.ring 1))
      (KeepsSome small-Stands)
      (insert (position filled 1) 8 small)
insert-Keeps_example = insert-Keeps small-Stands 1 8 (omega arith)

set_capacity-Changed_example :
    Ensures
      (Changed fewer (omega arith, omega arith) (5 ∷ 6 ∷ []))
      (Halted fewer (omega arith, omega arith) small)
      (set_capacity fewer small)
set_capacity-Changed_example =
    set_capacity-Changed fewer (omega arith, omega arith) small filled-Represents (omega arith)

-- The ring 8, 9 under another control.
abbrev other : Adaptor ℕ
other = record { ring = wrapped; control = record { capacity = 9; min_capacity = 3 } }

assign_copy-Changed_example :
    Ensures
      (Changed small.control (small-Stands.min_le, small-Stands.in_range) (5 ∷ 6 ∷ 7 ∷ []))
      (Kept other 3)
      (assign_copy false small other)
assign_copy-Changed_example = assign_copy-Changed small-Stands other wrapped-Represents
