-- ===== src/Buffer.antt =====
-- include/boost/circular_buffer/base.hpp: the state of `circular_buffer`, its pointers, the
-- observers and the primitive accesses to the element storage.
pub mod Slot
pub mod Pointers
pub mod Memory
pub mod Represents
pub mod Moves
pub mod Shifts
pub mod Rebuild
pub mod Push
pub mod Insert
pub mod Rinsert
pub mod Erase
pub mod EraseRange
pub mod ReraseRange
pub mod EraseEnds
pub mod Reach
pub mod Clear
pub mod Access
pub mod Iterate
pub mod Block
pub mod Capacity
pub mod Create
pub mod Assign
pub mod Swap
pub mod Compare
pub mod Uninitialized
use circular_buffer.Common.{
  ℕ, zero, suc, ◌+◌, ◌-◌, ◌/◌, min, Bool, true, false, ◌&&◌, ◌||◌, Option, none, some, ◌==◌, ltb,
  leb, if◌then◌else◌,
}
use circular_buffer.Common.Outcome.{
  Error, element_error, out_of_range, Outcome, ok, thrown, fault, Action, and_then, pure, throw,
  ◌>>=◌, ◌>>◌,
}
use circular_buffer.Element.{Element}

-- A pointer into the storage is its distance from `m_buff`, so `m_buff` is 0 and `m_end` is `cap`.
-- A cell holds the live object at its address, or none. `clock` counts the constructions and
-- assignments of elements so far: with it the environment decides which of them throw.
pub record Buffer {ℓ} (A : Type ℓ) : Type ℓ where
  pub cell : ℕ → Option A
  pub cap : ℕ
  pub first : ℕ
  pub last : ℕ
  pub size : ℕ
  pub clock : ℕ

-- The pointer `m_it` of an iterator, `none` for the null pointer that stands for `end()`.
abbrev pub Iterator : Type 0
Iterator = Option ℕ

-- A method: the buffer that it is called on is its state.
abbrev pub Method {ℓ κ} : Type ℓ → Type κ → Type (ℓ ⊔ κ)
Method A B = Action Error (Buffer A) B

abbrev pub update {ℓ} : {A : Type ℓ} → (ℕ → Option A) → ℕ → Option A → ℕ → Option A
update cell p c q = if p == q then c else cell q

module _ {ℓ} {A : Type ℓ} where
  unfoldable pub empty : Buffer A → Bool
  empty b = b.size == 0

  unfoldable pub capacity : Buffer A → ℕ
  capacity b = b.cap

  unfoldable pub full : Buffer A → Bool
  unfolding capacity
  full b = capacity b == b.size

  unfoldable pub reserve : Buffer A → ℕ
  unfolding capacity
  reserve b = capacity b - b.size

  unfoldable pub is_linearized : Buffer A → Bool
  is_linearized b = ltb b.first b.last || b.last == 0

  -- `if (++p == m_end) p = m_buff;`
  unfoldable pub increment : Buffer A → ℕ → ℕ
  increment b p = if p + 1 == b.cap then 0 else p + 1

  -- `if (p == m_buff) p = m_end; --p;`
  unfoldable pub decrement : Buffer A → ℕ → ℕ
  decrement b p = (if p == 0 then b.cap else p) - 1

  -- `p + (n < (m_end - p) ? n : n - capacity())`; the difference may be negative, the sum is not.
  unfoldable pub add : Buffer A → ℕ → ℕ → ℕ
  unfolding capacity
  add b p n = if ltb n (b.cap - p) then p + n else p + n - capacity b

  -- `p - (n > (p - m_buff) ? n - capacity() : n)`
  unfoldable pub sub : Buffer A → ℕ → ℕ → ℕ
  unfolding capacity
  sub b p n = if ltb p n then p + capacity b - n else p - n

  unfoldable pub map_pointer : Buffer A → Iterator → ℕ
  map_pointer b none = b.last
  map_pointer b (some p) = p

  unfoldable pub is_uninitialized : Buffer A → ℕ → Bool
  is_uninitialized b p = leb b.last p && (ltb b.first b.last || ltb p b.first)

  unfoldable pub begin : Buffer A → Iterator
  unfolding empty
  begin b = if empty b then none else some b.first

  unfoldable pub end : Buffer A → Iterator
  end b = none

  -- The object at `p`, read through a pointer.
  unfoldable pub deref : ℕ → Method A A
  deref p b = elim (b.cell p) [ some v ↦ ok v b | none ↦ fault ]

  -- The cell at `p`, given a value or emptied.
  unfoldable pub put : ℕ → Option A → Method A (Unit {0})
  put p c b = ok tt (record b { cell = update b.cell p c })

  -- `BOOST_CB_ASSERT(condition)`
  unfoldable pub assert : Bool → Method A (Unit {0})
  assert true b = ok tt b
  assert false b = fault

  unfoldable pub destroy_item : ℕ → Method A (Unit {0})
  unfolding deref put
  destroy_item p = do _ ← deref p; put p none

  -- `increment(m_first)`
  unfoldable pub increment_first : Method A (Unit {0})
  increment_first b = ok tt (record b { first = increment b b.first })

  -- `increment(m_last)`
  unfoldable pub increment_last : Method A (Unit {0})
  increment_last b = ok tt (record b { last = increment b b.last })

  -- `decrement(m_first)`
  unfoldable pub decrement_first : Method A (Unit {0})
  decrement_first b = ok tt (record b { first = decrement b b.first })

  -- `decrement(m_last)`
  unfoldable pub decrement_last : Method A (Unit {0})
  decrement_last b = ok tt (record b { last = decrement b b.last })

  -- `m_first = m_last`
  unfoldable pub first_to_last : Method A (Unit {0})
  first_to_last b = ok tt (record b { first = b.last })

  -- `m_last = m_first`
  unfoldable pub last_to_first : Method A (Unit {0})
  last_to_first b = ok tt (record b { last = b.first })

  -- `m_size += n`
  unfoldable pub grow : ℕ → Method A (Unit {0})
  grow n b = ok tt (record b { size = b.size + n })

  -- `m_size -= n`, of at most `m_size`
  unfoldable pub shrink : ℕ → Method A (Unit {0})
  shrink n b = ok tt (record b { size = b.size - n })

module _ {ℓ} {A : Type ℓ} ⦃t : Element A⦄ where
  -- One construction or assignment of an element.
  unfoldable pub element_op : Method A (Unit {0})
  element_op b =
      let b' = record b { clock = b.clock + 1 } in
      if t.throws_at b.clock then thrown element_error b' else ok tt b'

  -- Placement of an object at `p`. Only a scalar may be built over a live object: the code does
  -- not destroy scalars.
  unfoldable pub place : ℕ → A → Method A (Unit {0})
  unfolding put
  place p v b = elim (ltb p b.cap) [
    | true ↦ elim (b.cell p) [
      | none ↦ put p (some v) b
      | some _ ↦ if t.scalar then put p (some v) b else fault
    ]
    | false ↦ fault
  ]

  -- `allocator_traits<Alloc>::construct(alloc(), boost::to_address(p), item)`
  unfoldable pub construct : ℕ → A → Method A (Unit {0})
  unfolding element_op place
  construct p v = do element_op; place p v

  -- An assignment of `v` to the object at `p`, which holds `w`. One that throws leaves what
  -- `Element` says.
  unfoldable pub assign_item : ℕ → (w v : A) → Method A (Unit {0})
  assign_item p w v b =
      let spoilt = record b { cell = update b.cell p (some (t.torn w v)); clock = b.clock + 1 } in
      let done = record b { cell = update b.cell p (some v); clock = b.clock + 1 } in
      if t.throws_at b.clock then thrown element_error spoilt else ok tt done

  -- `*pos = item`
  unfoldable pub replace : ℕ → A → Method A (Unit {0})
  unfolding assign_item deref
  replace p v = do w ← deref p; assign_item p w v

  unfoldable pub construct_or_replace : Bool → ℕ → A → Method A (Unit {0})
  unfolding construct replace
  construct_or_replace fresh p v = if fresh then construct p v else replace p v

  -- `construct_or_replace(fresh, dest, boost::move_if_noexcept(*src))`
  unfoldable pub move_item : Bool → ℕ → ℕ → Method A (Unit {0})
  unfolding construct_or_replace deref put
  move_item fresh src dest = do
    v ← deref src
    construct_or_replace fresh dest v
    put src (some (t.moved v))
