-- ===== src/SpaceOptimized/Adaptor/Build.antt =====
-- space_optimized.hpp: the constructors and assignments of the adaptor. A constructor runs on an
-- object whose fields have no meaning yet.
pub mod Built
use circular_buffer.Common.{ℕ, ◌≤◌, min, max, Bool, true, false, List, length, leb}
use circular_buffer.Common.Outcome.{Error, Outcome, ok, pure, ◌>>=◌, ◌>>◌}
use circular_buffer.Element.{Element}
use circular_buffer.Buffer.{Buffer, Method, assert}
use circular_buffer.Buffer.Create
use circular_buffer.Buffer.Create.{objects_of}
use circular_buffer.Buffer.Assign
use circular_buffer.SpaceOptimized.{CapacityControl}
use circular_buffer.SpaceOptimized.Adaptor.{Adaptor, AdaptorMethod, on_ring, set_control}

-- `capacity_type(buffer_capacity)`
unfoldable pub capacity_control : ℕ → CapacityControl
capacity_control buffer_capacity = record { capacity = buffer_capacity; min_capacity = 0 }

module _ {ℓ} {A : Type ℓ} where
  -- `init_capacity` of a number of items
  unfoldable pub init_capacity : CapacityControl → ℕ → Method A ℕ
  unfolding assert
  init_capacity c n = do assert (leb n c.capacity); pure (max c.min_capacity n)

-- `init_capacity` of a range that forward iterators bound
unfoldable pub init_capacity_of_range : CapacityControl → (distance : ℕ) → ℕ
init_capacity_of_range c distance = max c.min_capacity (min c.capacity distance)

module _ {ℓ} {A : Type ℓ} ⦃t : Element A⦄ where
  -- `circular_buffer_space_optimized(alloc)`
  unfoldable pub create_empty : AdaptorMethod A (Unit {0})
  unfolding set_control capacity_control Create.create_with_capacity
  create_empty = do on_ring (Create.create_with_capacity 0); set_control (capacity_control 0)

  -- `circular_buffer_space_optimized(capacity_ctrl, alloc)`
  unfoldable pub create_with_capacity : CapacityControl → AdaptorMethod A (Unit {0})
  unfolding set_control Create.create_with_capacity
  create_with_capacity c = do on_ring (Create.create_with_capacity c.min_capacity); set_control c

  -- `circular_buffer_space_optimized(capacity_ctrl, item, alloc)`
  unfoldable pub create_full : CapacityControl → A → AdaptorMethod A (Unit {0})
  unfolding set_control Create.create_full
  create_full c item = do on_ring (Create.create_full c.capacity item); set_control c

  -- `circular_buffer_space_optimized(capacity_ctrl, n, item, alloc)`
  unfoldable pub create_filled : CapacityControl → ℕ → A → AdaptorMethod A (Unit {0})
  unfolding set_control init_capacity Create.create_filled
  create_filled c n item = do
    cap ← on_ring (init_capacity c n)
    on_ring (Create.create_filled cap n item)
    set_control c

  -- The copy constructor
  unfoldable pub create_copy : Adaptor A → AdaptorMethod A (Unit {0})
  unfolding set_control objects_of Create.create_of_range
  create_copy cb = do
    vs ← on_ring (objects_of cb.ring)
    on_ring (Create.create_of_range vs)
    set_control cb.control

  -- `circular_buffer_space_optimized(first, last, alloc)` and
  -- `circular_buffer_space_optimized(capacity_ctrl, first, last, alloc)`, for forward iterators
  unfoldable pub create_of_range : List A → AdaptorMethod A (Unit {0})
  unfolding set_control capacity_control Create.create_of_range
  create_of_range items = do
    on_ring (Create.create_of_range items)
    (λ a. set_control (capacity_control a.ring.cap) a)

  unfoldable pub create_with_range : CapacityControl → List A → AdaptorMethod A (Unit {0})
  unfolding set_control init_capacity_of_range Create.create_with_range
  create_with_range c items = do
    on_ring (Create.create_with_range (init_capacity_of_range c (length items)) items)
    set_control c

  -- `operator =` of an adaptor that is another object or the same one
  unfoldable pub assign_copy : (itself : Bool) → Adaptor A → AdaptorMethod A (Unit {0})
  unfolding set_control objects_of Assign.assign_range
  assign_copy true cb = pure tt
  assign_copy false cb = do
    vs ← on_ring (objects_of cb.ring)
    on_ring (Assign.assign_range vs)
    set_control cb.control

  -- `assign(n, item)` and `assign(capacity_ctrl, n, item)`
  unfoldable pub assign_items : ℕ → A → AdaptorMethod A (Unit {0})
  unfolding set_control capacity_control Assign.assign_items
  assign_items n item = do on_ring (Assign.assign_items n item); set_control (capacity_control n)

  unfoldable pub assign_items_with_capacity : CapacityControl → ℕ → A → AdaptorMethod A (Unit {0})
  unfolding set_control assert Assign.assign_items_with_capacity
  assign_items_with_capacity c n item = do
    on_ring (assert (leb n c.capacity))
    on_ring (Assign.assign_items_with_capacity (max c.min_capacity n) n item)
    set_control c

  -- `assign(first, last)` and `assign(capacity_ctrl, first, last)`
  unfoldable pub assign_range : List A → AdaptorMethod A (Unit {0})
  unfolding set_control capacity_control Assign.assign_range
  assign_range items = do
    on_ring (Assign.assign_range items)
    (λ a. set_control (capacity_control a.ring.cap) a)

  unfoldable pub assign_range_with_capacity : CapacityControl → List A → AdaptorMethod A (Unit {0})
  unfolding set_control Assign.assign_range_with_capacity
  assign_range_with_capacity c items = do
    set_control c
    on_ring (Assign.assign_range_with_capacity c.capacity items)
