-- ===== src/Tests/Methods.antt =====
-- base.hpp: the theorems on the methods that change a buffer, at concrete buffers.
use circular_buffer.Common.{ℕ, ◌≡◌, refl, Option, none, some, List, [], ◌∷◌, arith}
use circular_buffer.Common.Outcome.{and_then, Error, Outcome, ok, thrown, fault, Ensures}
use circular_buffer.Buffer.{
  Buffer, Iterator, full, begin, map_pointer, move_item, decrement, increment,
}
use circular_buffer.Buffer.Represents.{Represents, Becomes, BecomesAt, Unwinds, Survives, position}
use circular_buffer.Tests.Buffers.{number, wrapped, filled, wrapped-Represents, filled-Represents}
use circular_buffer.Buffer.Slot.{slot}
use circular_buffer.Buffer.Push.{push_back, push_front, pop_back, pop_front}
use circular_buffer.Buffer.Push.Back.{push_back_refines}
use circular_buffer.Buffer.Push.Front.{push_front_refines}
use circular_buffer.Buffer.Push.Pop.{pop_back_refines, pop_front_refines}
use circular_buffer.Buffer.Insert.{insert}
use circular_buffer.Buffer.Insert.Refine.{insert_refines}
use circular_buffer.Buffer.Rinsert.{rinsert, rinsert_block, rinsert_loop}
use circular_buffer.Buffer.Rinsert.Begin.{rinsert-push_front}
use circular_buffer.Buffer.Compare.{range, collected}
use circular_buffer.Buffer.Iterate.{dereference, next}
use circular_buffer.Buffer.Erase.{erase, rerase}
use circular_buffer.Buffer.Erase.Forward.{erase_refines}
use circular_buffer.Buffer.Erase.Backward.{rerase_refines}

push_back_refines_example :
    Ensures (Becomes filled (6 ∷ 7 ∷ 4 ∷ [])) (Unwinds filled (0 ∷ 6 ∷ 7 ∷ [])) (push_back 4 filled)
push_back_refines_example = push_back_refines 4 filled-Represents

push_front_refines_example :
    Ensures (Becomes wrapped (4 ∷ 8 ∷ 9 ∷ [])) (Unwinds wrapped (8 ∷ 9 ∷ [])) (push_front 4 wrapped)
push_front_refines_example = push_front_refines 4 wrapped-Represents

pop_back_refines_example :
    (b' : Buffer ℕ) × (pop_back wrapped ≡ ok tt b') × Represents b' (8 ∷ []) × (b'.cap ≡ 3)
pop_back_refines_example = pop_back_refines wrapped-Represents (omega arith)

pop_front_refines_example :
    (b' : Buffer ℕ) × (pop_front wrapped ≡ ok tt b') × Represents b' (9 ∷ []) × (b'.cap ≡ 3)
pop_front_refines_example = pop_front_refines wrapped-Represents (omega arith)

insert_refines_example :
    Ensures
      (BecomesAt wrapped (8 ∷ 4 ∷ 9 ∷ []) 1)
      (Survives wrapped (8 ∷ 9 ∷ []))
      (insert (some 0) 4 wrapped)
unfolding slot
insert_refines_example = insert_refines wrapped-Represents 4 1 (omega arith)

erase_refines_example :
    Ensures
      (BecomesAt filled (5 ∷ 7 ∷ []) 1)
      (Survives filled (5 ∷ 6 ∷ 7 ∷ []))
      (erase (position filled 1) filled)
erase_refines_example = erase_refines filled-Represents 1 (omega arith)

rerase_refines_example :
    Ensures
      (BecomesAt filled (5 ∷ 7 ∷ []) 0)
      (Survives filled (5 ∷ 6 ∷ 7 ∷ []))
      (rerase (position filled 1) filled)
rerase_refines_example = rerase_refines filled-Represents 1 (omega arith)

-- The buffer `filled` after its elements have been put in, none of which throws.
abbrev steady : Buffer ℕ
steady = record filled { clock = 7 }

-- What a run leaves: the cells in order from `m_first`, and the returned pointer.
abbrev contents : Outcome Error (Buffer ℕ) Iterator → Option (Iterator × Option (List ℕ))
contents (ok it b) = some (it, range b)
contents (thrown e b) = none
contents fault = none

-- A full buffer of 5, 6 and 7 drops its last element for one put in behind the first.
rinsert_in_full : contents (rinsert (some 2) 4 steady) ≡ some (some 1, some (5 ∷ 4 ∷ 6 ∷ []))
unfolding rinsert range dereference next full begin rinsert_block rinsert_loop map_pointer move_item
    decrement increment collected
rinsert_in_full = refl

-- With room, the element at the end stays where it is.
rinsert_at_end : contents (rinsert none 4 wrapped) ≡ some (some 0, some (8 ∷ 9 ∷ 4 ∷ []))
unfolding rinsert range dereference next full begin rinsert_block rinsert_loop map_pointer move_item
    decrement increment collected
rinsert_at_end = refl

rinsert-push_front_example :
    rinsert (begin wrapped) 4 wrapped
    ≡ and_then (push_front 4 wrapped) (λ _ b'. ok (some b'.first) b')
rinsert-push_front_example = rinsert-push_front 4 wrapped-Represents (omega arith)
