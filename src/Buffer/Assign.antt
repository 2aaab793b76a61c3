-- ===== src/Buffer/Assign.antt =====
-- base.hpp: the assignments, and `swap`.
pub mod Storage
pub mod Refine
use circular_buffer.Common.{
  ℕ, zero, suc, ◌-◌, Bool, true, false, Option, none, some, List, length, drop, ◌==◌, ltb, leb,
  if◌then◌else◌,
}
use circular_buffer.Common.Outcome.{
  Error, Outcome, ok, thrown, fault, pure, ◌>>=◌, ◌>>◌, try_rethrow, at_locals,
}
use circular_buffer.Element.{Element}
use circular_buffer.Buffer.{Buffer, Method, add, assert, capacity}
use circular_buffer.Buffer.Clear.{destroy_content, destroy, set_size}
use circular_buffer.Buffer.Create.{objects_of, set_ends, create_empty}
use circular_buffer.Buffer.Block.{
  Pending, Transfer, owning, own_only, on_own, adopt_block, in_new_block, reallocate, reset,
  uninitialized_copy, uninitialized_fill_n_with_alloc,
}

module _ {ℓ} {A : Type ℓ} ⦃t : Element A⦄ where
  -- The guarded block of the assignment from a buffer.
  unfoldable pub copy_and_reset : List A → ℕ → Transfer A (Unit {0})
  unfolding uninitialized_copy reset
  copy_and_reset vs new_capacity = do dest ← uninitialized_copy vs 0; reset dest new_capacity

  -- `operator =` from another buffer, or, where `itself` holds, from the buffer itself.
  unfoldable pub assign_copy : (itself : Bool) → Buffer A → Method A (Unit {0})
  unfolding reallocate copy_and_reset objects_of capacity
  assign_copy itself cb b =
      (if itself
          then pure tt
          else (do vs ← objects_of cb; reallocate (capacity cb) (copy_and_reset vs (capacity cb))))
        b

  -- What the call leaves in the block is in the storage.
  abbrev pub stored : Outcome Error (Pending A) (Unit {0}) → Outcome Error (Pending A) (Unit {0})
  stored (ok v s) = ok v (record s { own = record s.own { cell = s.block } })
  stored (thrown e s) = thrown e (record s { own = record s.own { cell = s.block } })
  stored fault = fault

  -- A functor of details.hpp on the buffer's own storage, of which the content has been given up. A
  -- scalar that is still there counts for nothing.
  unfoldable pub in_storage : Transfer A (Unit {0}) → Method A (Unit {0})
  in_storage m b = own_only (
      stored
        (m (record { own = b; block = if t.scalar then (λ p. none) else b.cell; room = b.cap })))

  -- `m_size = n; m_first = m_buff; m_last = add(m_buff, size());`
  unfoldable pub set_content : ℕ → Method A (Unit {0})
  unfolding add
  set_content n b = ok tt (record b { size = n; first = 0; last = add b 0 n })

  -- `assign_n(new_capacity, n, fnc)`
  unfoldable pub assign_n : (new_capacity n : ℕ) → Transfer A (Unit {0}) → Method A (Unit {0})
  unfolding in_storage in_new_block adopt_block set_content destroy destroy_content set_size
      capacity
  assign_n new_capacity n fnc b =
      (if new_capacity == capacity b
          then (do
            destroy_content
            in_storage
                (try_rethrow (λ s. at_locals tt fnc s) (λ (_ : Unit {0}). on_own (set_size 0)))
            set_content n)
          else (do
            in_new_block new_capacity new_capacity fnc
                (λ (_ : Unit {0}). (do on_own destroy; adopt_block))
            set_content n))
        b

  -- The functor `assign_n` of details.hpp
  unfoldable pub fill_with : ℕ → A → Transfer A (Unit {0})
  unfolding uninitialized_fill_n_with_alloc
  fill_with n item = uninitialized_fill_n_with_alloc 0 n item

  -- The functor `assign_range` of details.hpp, for the objects of a range
  unfoldable pub fill_from : List A → Transfer A (Unit {0})
  unfolding uninitialized_copy
  fill_from items = do _ ← uninitialized_copy items 0; pure tt

  -- `assign(n, item)` and `assign(buffer_capacity, n, item)`
  unfoldable pub assign_items : ℕ → A → Method A (Unit {0})
  unfolding assign_n fill_with
  assign_items n item = assign_n n n (fill_with n item)

  unfoldable pub assign_items_with_capacity : (buffer_capacity n : ℕ) → A → Method A (Unit {0})
  unfolding assign_n fill_with assert
  assign_items_with_capacity buffer_capacity n item = do
    assert (leb n buffer_capacity)
    assign_n buffer_capacity n (fill_with n item)

  -- `assign(first, last)` and `assign(new_capacity, first, last)` for forward iterators
  unfoldable pub assign_range : List A → Method A (Unit {0})
  unfolding assign_n fill_from
  assign_range items = assign_n (length items) (length items) (fill_from items)

  unfoldable pub assign_range_with_capacity : ℕ → List A → Method A (Unit {0})
  unfolding assign_n fill_from
  assign_range_with_capacity new_capacity items =
      let distance = length items in
      if ltb new_capacity distance
      then assign_n new_capacity new_capacity (fill_from (drop (distance - new_capacity) items))
      else assign_n new_capacity distance (fill_from items)
