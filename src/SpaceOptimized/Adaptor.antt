-- ===== src/SpaceOptimized/Adaptor.antt =====
-- space_optimized.hpp: `circular_buffer_space_optimized`, the ring together with the control of its
-- capacity.
pub mod Adjust
pub mod Ends
pub mod Places
pub mod Change
pub mod Build
pub mod Swap
use circular_buffer.Common.{
  ℕ, ◌-◌, max, Bool, true, false, Option, none, some, ◌==◌, ltb, if◌then◌else◌,
}
use circular_buffer.Common.Int.{ℤ, pos, negsuc}
use circular_buffer.Common.Outcome.{Error, Outcome, ok, thrown, fault, Action, pure, ◌>>=◌, ◌>>◌}
use circular_buffer.Element.{Element}
use circular_buffer.Buffer
use circular_buffer.Buffer.{Buffer, Iterator, Method, begin}
use circular_buffer.Buffer.Iterate.{advance, difference}
use circular_buffer.Buffer.Capacity
use circular_buffer.Buffer.Push
use circular_buffer.Buffer.Insert
use circular_buffer.Buffer.Rinsert
use circular_buffer.Buffer.Erase
use circular_buffer.Buffer.EraseRange
use circular_buffer.Buffer.ReraseRange
use circular_buffer.Buffer.EraseEnds
use circular_buffer.SpaceOptimized.{CapacityControl, check_low_capacity, check_high_capacity}

pub record Adaptor {ℓ} (A : Type ℓ) : Type ℓ where
  pub ring : Buffer A
  pub control : CapacityControl

abbrev pub AdaptorMethod {ℓ κ} : Type ℓ → Type κ → Type (ℓ ⊔ κ)
AdaptorMethod A B = Action Error (Adaptor A) B

module _ {ℓ} {A : Type ℓ} where
  -- A call of the adapted buffer
  abbrev pub with_control {κ} :
      {B : Type κ} → CapacityControl → Outcome Error (Buffer A) B → Outcome Error (Adaptor A) B
  with_control c (ok v b) = ok v (record { ring = b; control = c })
  with_control c (thrown e b) = thrown e (record { ring = b; control = c })
  with_control c fault = fault

  abbrev pub on_ring {κ} : {B : Type κ} → Method A B → AdaptorMethod A B
  on_ring m a = with_control a.control (m a.ring)

  unfoldable pub full : Adaptor A → Bool
  full a = a.control.capacity == a.ring.size

  unfoldable pub reserve : Adaptor A → ℕ
  reserve a = a.control.capacity - a.ring.size

module _ {ℓ} {A : Type ℓ} ⦃t : Element A⦄ where
  -- `set_capacity` of the ring to a capacity that a loop has found. A call with the capacity that the
  -- ring has does nothing.
  unfoldable pub adjust : Option ℕ → AdaptorMethod A (Unit {0})
  adjust none a = fault
  adjust (some n) a = on_ring (Capacity.set_capacity n) a

  -- `check_low_capacity(n)` and `check_high_capacity()`
  unfoldable pub ensure_room : ℕ → AdaptorMethod A (Unit {0})
  unfolding adjust check_low_capacity
  ensure_room n a = adjust (check_low_capacity a.control n a.ring.cap a.ring.size) a

  unfoldable pub release_room : AdaptorMethod A (Unit {0})
  unfolding adjust check_high_capacity
  release_room a = adjust (check_high_capacity a.control a.ring.cap a.ring.size) a

  unfoldable pub push_back : A → AdaptorMethod A (Unit {0})
  unfolding ensure_room Push.push_back
  push_back item = do ensure_room 1; on_ring (Push.push_back item)

  unfoldable pub push_front : A → AdaptorMethod A (Unit {0})
  unfolding ensure_room Push.push_front
  push_front item = do ensure_room 1; on_ring (Push.push_front item)

  unfoldable pub pop_back : AdaptorMethod A (Unit {0})
  unfolding release_room Push.pop_back
  pop_back = do on_ring Push.pop_back; release_room

  unfoldable pub pop_front : AdaptorMethod A (Unit {0})
  unfolding release_room Push.pop_front
  pop_front = do on_ring Push.pop_front; release_room

  -- `it - begin()`, of which the type has no sign, and `begin() + index`
  unfoldable pub index_of : Iterator → Method A ℕ
  unfolding difference
  index_of it b = elim (difference b it (begin b)) [ pos n ↦ ok n b | negsuc n ↦ fault ]

  unfoldable pub at_index : ℕ → Method A Iterator
  unfolding advance
  at_index index b = advance (pos index) (begin b) b

  unfoldable pub insert : Iterator → A → AdaptorMethod A Iterator
  unfolding ensure_room index_of at_index Insert.insert
  insert it item = do
    index ← on_ring (index_of it)
    ensure_room 1
    on_ring (do it' ← at_index index; Insert.insert it' item)

  unfoldable pub erase : Iterator → AdaptorMethod A Iterator
  unfolding release_room index_of at_index Erase.erase
  erase it = do
    it' ← on_ring (Erase.erase it)
    index ← on_ring (index_of it')
    release_room
    on_ring (at_index index)

  unfoldable pub rerase : Iterator → AdaptorMethod A Iterator
  unfolding release_room index_of at_index Erase.rerase
  rerase it = do
    it' ← on_ring (Erase.rerase it)
    index ← on_ring (index_of it')
    release_room
    on_ring (at_index index)

  -- `rinsert` of one element
  unfoldable pub rinsert : Iterator → A → AdaptorMethod A Iterator
  unfolding ensure_room index_of at_index Rinsert.rinsert
  rinsert it item = do
    index ← on_ring (index_of it)
    ensure_room 1
    on_ring (do it' ← at_index index; Rinsert.rinsert it' item)

  -- `erase` and `rerase` of a range
  unfoldable pub erase_range : (first last : Iterator) → AdaptorMethod A Iterator
  unfolding release_room index_of at_index EraseRange.erase_range
  erase_range first last = do
    it ← on_ring (EraseRange.erase_range first last)
    index ← on_ring (index_of it)
    release_room
    on_ring (at_index index)

  unfoldable pub rerase_range : (first last : Iterator) → AdaptorMethod A Iterator
  unfolding release_room index_of at_index ReraseRange.rerase_range
  rerase_range first last = do
    it ← on_ring (ReraseRange.rerase_range first last)
    index ← on_ring (index_of it)
    release_room
    on_ring (at_index index)

  unfoldable pub clear : AdaptorMethod A (Unit {0})
  unfolding erase_range
  clear a = (do _ ← erase_range (begin a.ring) none; pure tt) a

  -- `adjust_min_capacity()`
  unfoldable pub adjust_min_capacity : AdaptorMethod A (Unit {0})
  unfolding release_room adjust
  adjust_min_capacity a =
      if ltb a.ring.cap a.control.min_capacity
      then adjust (some a.control.min_capacity) a
      else release_room a

  -- `m_capacity_ctrl = capacity_ctrl;`
  unfoldable pub set_control : CapacityControl → AdaptorMethod A (Unit {0})
  set_control c a = ok tt (record a { control = c })

  unfoldable pub set_capacity : CapacityControl → AdaptorMethod A (Unit {0})
  unfolding set_control EraseEnds.erase_last adjust_min_capacity
  set_capacity c a =
      (do
        set_control c
        (if ltb c.capacity a.ring.size
            then on_ring (EraseEnds.erase_last (a.ring.size - c.capacity))
            else pure tt)
        adjust_min_capacity)
        a

  unfoldable pub rset_capacity : CapacityControl → AdaptorMethod A (Unit {0})
  unfolding set_control EraseEnds.erase_first adjust_min_capacity
  rset_capacity c a =
      (do
        set_control c
        (if ltb c.capacity a.ring.size
            then on_ring (EraseEnds.erase_first (a.ring.size - c.capacity))
            else pure tt)
        adjust_min_capacity)
        a
