-- ===== src/Tests/Ranges.antt =====
-- base.hpp: the theorems on erased ranges and on sequences of calls, at concrete inputs.
use circular_buffer.Common.{ℕ, ◌≡◌, refl, none, [], ◌∷◌, arith}
use circular_buffer.Common.Outcome.{fault, Ensures, ◌>>◌}
use circular_buffer.Buffer.{Buffer}
use circular_buffer.Buffer.Represents.{Becomes, BecomesAt, Unwinds, position}
use circular_buffer.Buffer.Push.{push_back, pop_back}
use circular_buffer.Buffer.Push.Undo.{push_back-pop_back}
use circular_buffer.Buffer.EraseRange.{erase_range}
use circular_buffer.Buffer.EraseRange.Lower.{Scattered}
use circular_buffer.Buffer.EraseRange.Refine.{erase_range_refines}
use circular_buffer.Buffer.ReraseRange.{rerase_range}
use circular_buffer.Buffer.ReraseRange.Refine.{rerase_range_refines}
use circular_buffer.Buffer.EraseEnds.{erase_begin}
use circular_buffer.Buffer.EraseEnds.Cut.{erase_begin_refines}
use circular_buffer.Buffer.Create.{create_with_capacity}
use circular_buffer.Buffer.Reach.{
  Reachable, created, append, run, IsSound, Reachable-Represents, Reachable-safe,
}
use circular_buffer.Tests.Buffers.{number, wrapped, filled, wrapped-Represents, filled-Represents}

erase_range_refines_example :
    Ensures
      (BecomesAt filled (7 ∷ []) 0)
      (Scattered filled)
      (erase_range (position filled 0) (position filled 2) filled)
erase_range_refines_example = erase_range_refines filled-Represents 0 2 (omega arith) (omega arith)

rerase_range_refines_example :
    Ensures
      (BecomesAt filled (5 ∷ []) 0)
      (Scattered filled)
      (rerase_range (position filled 1) (position filled 3) filled)
rerase_range_refines_example =
    rerase_range_refines filled-Represents 1 3 (omega arith) (omega arith)

erase_begin_refines_example :
    Ensures (Becomes filled (7 ∷ [])) (Scattered filled) (erase_begin 2 filled)
erase_begin_refines_example = erase_begin_refines filled-Represents 2 (omega arith)

push_back-pop_back_example :
    Ensures
      (Becomes wrapped (8 ∷ 9 ∷ []))
      (Unwinds wrapped (8 ∷ 9 ∷ []))
      ((do push_back 4; pop_back) wrapped)
push_back-pop_back_example = push_back-pop_back wrapped-Represents 4 (omega arith)

-- A new buffer of two cells, over the bytes of another.
abbrev fresh : Buffer ℕ
fresh = record { cell = λ p. none; cap = 2; first = 0; last = 0; size = 0; clock = 0 }

fresh_reached : Reachable fresh
unfolding create_with_capacity
fresh_reached = created 2 wrapped refl

Reachable-Represents_example : IsSound fresh
Reachable-Represents_example = Reachable-Represents fresh_reached

Reachable-safe_example : ¬ (run (append 7) fresh ≡ fault)
Reachable-safe_example = Reachable-safe fresh_reached (append 7) tt
