-- ===== src/Buffer/Create.antt =====
-- base.hpp: the constructors. They run on an object whose fields have no meaning yet: any buffer,
-- of which they only keep the clock. An exception leaves no object behind.
pub mod Built
use circular_buffer.Common.{
  ℕ, ◌-◌, Bool, true, false, Option, none, some, List, length, drop, ◌==◌, ltb, leb, if◌then◌else◌,
}
use circular_buffer.Common.Outcome.{Error, Outcome, ok, thrown, fault, pure, ◌>>=◌, ◌>>◌}
use circular_buffer.Element.{Element}
use circular_buffer.Buffer.{Buffer, Method, assert, capacity}
use circular_buffer.Buffer.Clear.{set_size}
use circular_buffer.Buffer.Compare.{range}
use circular_buffer.Buffer.Block.{
  Transfer, allocate, in_block, on_own, adopt_block, in_new_block, uninitialized_copy,
  uninitialized_fill_n_with_alloc,
}

module _ {ℓ} {A : Type ℓ} where
  -- `m_first = first; m_last = last;`
  unfoldable pub set_ends : (first last : ℕ) → Method A (Unit {0})
  set_ends first last b = ok tt (record b { first = first; last = last })

  -- The objects of another buffer, as a walk from its `begin()` to its `end()` meets them.
  unfoldable pub objects_of : Buffer A → Method A (List A)
  unfolding range
  objects_of cb b = elim (range cb) [ some vs ↦ ok vs b | none ↦ fault ]

  -- `circular_buffer(alloc)`
  unfoldable pub create_empty : Method A (Unit {0})
  create_empty b =
      ok tt (record { cell = λ p. none; cap = 0; first = 0; last = 0; size = 0; clock = b.clock })

module _ {ℓ} {A : Type ℓ} ⦃t : Element A⦄ where
  -- `initialize_buffer(buffer_capacity)`
  unfoldable pub initialize_buffer : ℕ → Method A (Unit {0})
  unfolding allocate adopt_block
  initialize_buffer buffer_capacity = do
    allocate buffer_capacity
    in_block buffer_capacity adopt_block

  -- `circular_buffer(buffer_capacity, alloc)`
  unfoldable pub create_with_capacity : ℕ → Method A (Unit {0})
  unfolding initialize_buffer set_size set_ends
  create_with_capacity buffer_capacity = do
    set_size 0
    initialize_buffer buffer_capacity
    set_ends 0 0

  -- `initialize_buffer(buffer_capacity, item)`, whose handler deallocates `size()` cells
  unfoldable pub initialize_filled : ℕ → A → Method A (Unit {0})
  unfolding in_new_block uninitialized_fill_n_with_alloc adopt_block
  initialize_filled buffer_capacity item b =
      in_new_block buffer_capacity b.size (uninitialized_fill_n_with_alloc 0 b.size item)
        (λ (_ : Unit {0}). adopt_block) b

  -- `circular_buffer(n, item, alloc)`
  unfoldable pub create_full : ℕ → A → Method A (Unit {0})
  unfolding initialize_filled set_size set_ends
  create_full n item = do set_size n; initialize_filled n item; set_ends 0 0

  -- `circular_buffer(buffer_capacity, n, item, alloc)`
  unfoldable pub create_filled : (buffer_capacity n : ℕ) → A → Method A (Unit {0})
  unfolding initialize_filled set_size set_ends assert
  create_filled buffer_capacity n item = do
    set_size n
    assert (leb n buffer_capacity)
    initialize_filled buffer_capacity item
    set_ends 0 (if buffer_capacity == n then 0 else n)

  -- `m_first = m_buff` before the copy, and `m_last` after it, where the block has been filled up to
  -- `last`.
  unfoldable pub adopt_filled : (buffer_capacity last : ℕ) → Transfer A (Unit {0})
  unfolding adopt_block set_ends
  adopt_filled buffer_capacity last = do
    adopt_block
    on_own (set_ends 0 (if last == buffer_capacity then 0 else last))

  -- The copy constructor
  unfoldable pub create_copy : Buffer A → Method A (Unit {0})
  unfolding in_new_block uninitialized_copy adopt_filled objects_of set_size capacity
  create_copy cb = do
    set_size cb.size
    vs ← objects_of cb
    in_new_block (capacity cb) (capacity cb) (uninitialized_copy vs 0) (adopt_filled (capacity cb))

  -- `initialize(buffer_capacity, first, last, distance)` for the objects of a range
  unfoldable pub initialize : ℕ → List A → ℕ → Method A (Unit {0})
  unfolding in_new_block uninitialized_copy adopt_filled set_size
  initialize buffer_capacity items distance =
      let items' =
        if ltb buffer_capacity distance then drop (distance - buffer_capacity) items else items in
      (do
        set_size (if ltb buffer_capacity distance then buffer_capacity else distance)
        in_new_block buffer_capacity buffer_capacity (uninitialized_copy items' 0)
            (adopt_filled buffer_capacity))

  -- `circular_buffer(first, last, alloc)` and `circular_buffer(buffer_capacity, first, last, alloc)`,
  -- for forward iterators
  unfoldable pub create_of_range : List A → Method A (Unit {0})
  unfolding initialize
  create_of_range items = initialize (length items) items (length items)

  unfoldable pub create_with_range : ℕ → List A → Method A (Unit {0})
  unfolding initialize
  create_with_range buffer_capacity items = initialize buffer_capacity items (length items)
