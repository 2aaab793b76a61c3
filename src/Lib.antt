-- ===== src/Lib.antt =====
-- Boost.CircularBuffer: a fixed-capacity container over one block of storage, whose elements lie in
-- a ring. The library is headers only, in include/boost/circular_buffer. A `circular_buffer`
-- (base.hpp) owns the storage and keeps four pointers and a size; its iterators (details.hpp) hold
-- a pointer to the buffer and a pointer to an element, and call the buffer's pointer arithmetic.
--
-- How the files correspond to the code:
--   Element: what the code relies on of `T` and `Alloc`: the operations that throw, what a move
--     and an assignment that throws leave behind, whether the type is scalar and whether its move throws, the largest block and
--     which allocations are denied. It is an instance argument of the methods.
--   Buffer: the fields of `circular_buffer`, the observers, `increment`, `decrement`, `add`, `sub`,
--     `map_pointer`, and the primitives `construct`, `replace`, `destroy_item` (base.hpp)
--   Buffer/Slot, Pointers, Memory, Represents, Moves, Shifts, Rebuild: the cells of the ring by
--     index, the primitives as equations, the invariant `Represents`, and what a run of moves does
--   Buffer/Push: `push_back`, `push_front`, `pop_back`, `pop_front` (base.hpp)
--   Buffer/Insert: `insert` of one element, with `insert_impl` and `insert_item` (base.hpp)
--   Buffer/Rinsert: `rinsert` of one element, with `rinsert_impl` (base.hpp)
--   Buffer/Erase: `erase` and `rerase` of one element (base.hpp)
--   Buffer/Access: `operator[]`, `at`, `front`, `back`, `array_one`, `array_two` (base.hpp)
--   Buffer/Iterate: the random access iterator (details.hpp)
--   Buffer/Compare: the comparison operators (base.hpp)
--   Debug: the registry of valid iterators (debug.hpp), a chain through the iterators
--   SpaceOptimized: the capacity that `circular_buffer_space_optimized` chooses for its ring
--     (space_optimized.hpp)
--   Buffer/Uninitialized: `is_uninitialized` (base.hpp)
--   Buffer/Clear: `clear`, `destroy`, `destroy_content`, `deallocate` (base.hpp)
--   Buffer/Block: a second block of storage that a method fills beside its own, `allocate`, `reset`
--     (base.hpp), and the uninitialized algorithms (details.hpp); Block/Copy, Walk, Reset and Replace
--     hold what they leave
--   Buffer/Capacity: `set_capacity` and `rset_capacity` (base.hpp)
--   Buffer/Create: the constructors and `initialize` (base.hpp)
--   Buffer/Assign: the assignments, `assign_n` (base.hpp) and its functors (details.hpp)
--   Buffer/Swap: `swap` and the moves of a whole buffer (base.hpp)
--   Buffer/EraseRange, ReraseRange, EraseEnds: `erase` and `rerase` of a range, `erase_begin` and
--     `erase_end` (base.hpp)
--   Buffer/Reach: sequences of calls on one buffer
--   SpaceOptimized/Adaptor: `circular_buffer_space_optimized`, the ring and its capacity control, with
--     the methods that adjust the ring's capacity; Adaptor/Build, its constructors and
--     assignments; Adaptor/Swap, its `swap` and moves (space_optimized.hpp)
--   Spec: the abstract view, a list from which an insertion drops what does not fit
--   Common: lists, numbers, and C++ statements with exceptions as functions on a state
--   Tests: concrete buffers
--
-- A pointer is its distance from `m_buff`, so that `m_buff` is 0 and `m_end` the capacity. A cell
-- of the storage holds a live object or none. A statement returns, throws, or is a fault, which
-- stands for undefined behaviour: a failed BOOST_CB_ASSERT, a read of a raw cell, a construction
-- over a live object that is no scalar. Which construction or assignment throws is decided by a
-- clock that counts them; a construction that throws changes nothing, and an assignment that
-- throws leaves in the object that it assigns to what `Element` says, any value. The object that
-- it reads is taken to be as it was. An item is passed by value, so an argument that refers to an
-- element of the same buffer is outside of the model: `assign` of copies destroys that element
-- before it copies it. A handler that rethrows is `try_rethrow`, and the exception carries the
-- locals that the handler reads. Sums and products of `size_type` wrap round at 2^64 where the
-- adaptor chooses a capacity; its theorems take the guaranteed capacity to be below 2^62.
--
-- Loops over the ring run on `cap + 1` rounds of fuel, and a walk of iterators or a loop over the
-- elements on `size + 1`: a loop visits each cell at most once. A loop over a registry takes its
-- number of rounds as an argument, and as many as there are iterators are enough;
-- `check_low_capacity` runs on one round more than the new size and `check_high_capacity` on one
-- more than the capacity, which halving does not outrun, nor doubling where it does not wrap
-- round. Running out is a fault or has no result, so that a result shows that the fuel is enough.
--
-- Not modelled: the configuration BOOST_CB_ENABLE_DEBUG of the buffer's methods, which call the
-- registry, the growth of the ring's own numbers to the end of `size_type` (no pointer distance
-- exceeds `max_size()`), the overloads that differ in copying or moving their argument only (a
-- move is what `Element` says it is), the branches for input iterators, which insert a range,
-- `linearize`, `rotate`, `resize`, `rresize`, the insertion of n elements or a range, and the
-- wrappers of these in `circular_buffer_space_optimized`.
pub mod Common
pub mod Element
pub mod Spec
pub mod Buffer
pub mod Debug
pub mod SpaceOptimized
mod Tests
