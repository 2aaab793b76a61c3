-- ===== src/Buffer/Block.antt =====
-- base.hpp and details.hpp: a second block of storage, which the elements are copied or moved to
-- before it takes the place of the first.
pub mod Copy
pub mod Walk
pub mod Reset
pub mod Replace
use circular_buffer.Common.{
  ℕ, zero, suc, ◌+◌, ◌-◌, Bool, true, false, Option, none, some, List, [], ◌∷◌, ◌==◌, ltb,
  if◌then◌else◌, not, ◌&&◌,
}
use circular_buffer.Common.Outcome.{
  Error, element_error, length_error, bad_alloc, Outcome, ok, thrown, fault, Action, pure, throw,
  ◌>>=◌, ◌>>◌, try_rethrow, at_locals,
}
use circular_buffer.Element.{Element}
use circular_buffer.Buffer.{Buffer, Iterator, Method, update}
use circular_buffer.Buffer.Insert.{same_iterator}
use circular_buffer.Buffer.Iterate.{dereference, next}
use circular_buffer.Buffer.Clear.{destroy}

-- A call that holds a new block of `room` cells beside the buffer's own storage.
pub record Pending {ℓ} (A : Type ℓ) : Type ℓ where
  pub own : Buffer A
  pub block : ℕ → Option A
  pub room : ℕ

-- A statement of such a call
abbrev pub Transfer {ℓ κ} : Type ℓ → Type κ → Type (ℓ ⊔ κ)
Transfer A B = Action Error (Pending A) B

module _ {ℓ} {A : Type ℓ} where
  -- A statement on the buffer alone
  abbrev pub owning {κ} :
      {B : Type κ} → Pending A → Outcome Error (Buffer A) B → Outcome Error (Pending A) B
  owning s (ok v b) = ok v (record s { own = b })
  owning s (thrown e b) = thrown e (record s { own = b })
  owning s fault = fault

  abbrev pub on_own {κ} : {B : Type κ} → Method A B → Transfer A B
  on_own m s = owning s (m s.own)

  -- The call is over; what it leaves in the block is lost.
  abbrev pub own_only {κ} : {B : Type κ} → Outcome Error (Pending A) B → Outcome Error (Buffer A) B
  own_only (ok v s) = ok v s.own
  own_only (thrown e s) = thrown e s.own
  own_only fault = fault

  abbrev pub in_block {κ} : {B : Type κ} → ℕ → Transfer A B → Method A B
  in_block n m b = own_only (m (record { own = b; block = λ p. none; room = n }))

  -- `deallocate(buff, n)`, of the count that was allocated.
  unfoldable pub deallocate_block : ℕ → Transfer A (Unit {0})
  deallocate_block n s = if n == s.room then ok tt s else fault

  -- `allocator_traits<Alloc>::destroy(a, boost::to_address(p))`
  unfoldable pub destroy_in : ℕ → Transfer A (Unit {0})
  destroy_in p s = elim (s.block p) [
    | none ↦ fault
    | some v ↦ ok tt (record s { block = update s.block p none })
  ]

  -- `for (; next != dest; ++next) destroy(next);`, of the given count of rounds.
  unfoldable pub destroy_range : (rounds next : ℕ) → Transfer A (Unit {0})
  unfolding destroy_in
  destroy_range zero next s = ok tt s
  destroy_range (suc n) next s = (do destroy_in next; destroy_range n (next + 1)) s

module _ {ℓ} {A : Type ℓ} ⦃t : Element A⦄ where
  unfoldable pub allocate : ℕ → Method A (Unit {0})
  allocate n b =
      if ltb t.max_size n
      then thrown length_error b
      else if not (n == 0) && t.denies n
      then thrown bad_alloc b
      else ok tt b

  -- An object that is placed in the block. The clock counts it.
  unfoldable pub place_in : ℕ → A → Transfer A (Unit {0})
  place_in p v s =
      let s' = record s {
        own = record s.own { clock = s.own.clock + 1 };
        block = update s.block p (some v);
      } in
      elim (ltb p s.room) [
        | true ↦ elim (s.block p) [ none ↦ ok tt s' | some w ↦ fault ]
        | false ↦ fault
      ]

  -- `allocator_traits<Alloc>::construct(a, boost::to_address(p), v)` by a copy
  unfoldable pub construct_in : ℕ → A → Transfer A (Unit {0})
  unfolding place_in
  construct_in p v s =
      if t.throws_at s.own.clock
      then thrown element_error (record s { own = record s.own { clock = s.own.clock + 1 } })
      else place_in p v s

  -- The loop of `uninitialized_copy` over a range that is no part of the buffer, of which the list
  -- holds the objects. It answers with `dest`.
  unfoldable pub copy_items : List A → (dest : ℕ) → Action (Error × ℕ) (Pending A) ℕ
  unfolding construct_in
  copy_items [] dest s = ok dest s
  copy_items (v ∷ vs) dest s = (do at_locals dest (construct_in dest v); copy_items vs (dest + 1)) s

  -- The handler: what has been built is destroyed.
  abbrev pub destroy_built : (from dest : ℕ) → Transfer A (Unit {0})
  destroy_built from dest = destroy_range (dest - from) from

  unfoldable pub uninitialized_copy : List A → ℕ → Transfer A ℕ
  unfolding copy_items destroy_range
  uninitialized_copy vs dest = try_rethrow (copy_items vs dest) (destroy_built dest)

  -- The loop of `uninitialized_fill_n_with_alloc`. It answers with `first`.
  unfoldable pub fill_loop : ℕ → A → (first : ℕ) → Action (Error × ℕ) (Pending A) ℕ
  unfolding construct_in
  fill_loop zero item first s = ok first s
  fill_loop (suc n) item first s =
      (do at_locals first (construct_in first item); fill_loop n item (first + 1)) s

  unfoldable pub uninitialized_fill_n_with_alloc : (first n : ℕ) → A → Transfer A (Unit {0})
  unfolding fill_loop destroy_range
  uninitialized_fill_n_with_alloc first n item = do
    _ ← try_rethrow (fill_loop n item first) (destroy_built first)
    pure tt

  -- The loop of `uninitialized_copy` over iterators of the buffer. The fuel bounds its rounds.
  unfoldable pub copy_loop :
      ℕ → (first last : Iterator) → (dest : ℕ) → Action (Error × ℕ) (Pending A) ℕ
  unfolding construct_in
  copy_loop zero first last dest s = fault
  copy_loop (suc n) first last dest s = elim (same_iterator first last) [
    | true ↦ ok dest s
    | false ↦
        (do
          v ← at_locals dest (on_own (dereference first))
          at_locals dest (construct_in dest v)
          first' ← at_locals dest (on_own (next first))
          copy_loop n first' last (dest + 1))
          s
  ]

  -- `boost::move(*p)`, of an object that has been moved from.
  unfoldable pub leave_moved : Iterator → A → Method A (Unit {0})
  leave_moved none v b = fault
  leave_moved (some p) v b = ok tt (record b { cell = update b.cell p (some (t.moved v)) })

  -- The loop of `uninitialized_move_if_noexcept_impl` for a move that does not throw.
  unfoldable pub move_loop : ℕ → (first last : Iterator) → (dest : ℕ) → Transfer A ℕ
  unfolding place_in leave_moved
  move_loop zero first last dest s = fault
  move_loop (suc n) first last dest s = elim (same_iterator first last) [
    | true ↦ ok dest s
    | false ↦
        (do
          v ← on_own (dereference first)
          place_in dest v
          on_own (leave_moved first v)
          first' ← on_own (next first)
          move_loop n first' last (dest + 1))
          s
  ]

  unfoldable pub uninitialized_move_if_noexcept : (first last : Iterator) → ℕ → Transfer A ℕ
  unfolding copy_loop move_loop destroy_range
  uninitialized_move_if_noexcept first last dest s =
      let rounds = suc s.own.size in
      (if t.nothrow_move
          then move_loop rounds first last dest
          else try_rethrow (copy_loop rounds first last dest) (destroy_built dest))
        s

  -- `reset(buff, last, new_capacity)`: the block takes the place of the storage, which is
  -- destroyed.
  unfoldable pub reset : (last new_capacity : ℕ) → Transfer A (Unit {0})
  unfolding destroy
  reset last new_capacity = do
    on_own destroy
    (λ s. ok tt (record s {
      own = record s.own {
        cell = s.block;
        cap = new_capacity;
        first = 0;
        last = if last == new_capacity then 0 else last;
        size = last;
      };
    }))

  -- `m_buff = buff; m_end = m_buff + n;`, for a block of `n` cells
  unfoldable pub adopt_block : Transfer A (Unit {0})
  adopt_block s = ok tt (record s { own = record s.own { cell = s.block; cap = s.room } })

  -- `allocate(n)`, then a guarded block whose handler gives back a block of `given` cells, then
  -- what follows.
  unfoldable pub in_new_block {κ} :
      {B : Type κ}
      → (n given : ℕ) → Transfer A B
      → (B → Transfer A (Unit {0}))
      → Method A (Unit {0})
  unfolding allocate deallocate_block
  in_new_block n given body next = do
    allocate n
    in_block n (do
      v ← try_rethrow (λ s. at_locals tt body s) (λ (_ : Unit {0}). deallocate_block given)
      next v)

  -- The same, with nothing behind the guarded block.
  unfoldable pub reallocate : ℕ → Transfer A (Unit {0}) → Method A (Unit {0})
  unfolding in_new_block
  reallocate n body = in_new_block n n body (λ v. pure v)
