-- ===== src/Element.antt =====
-- What the buffer relies on of its template arguments `T` and `Alloc`, which it does not implement.
use circular_buffer.Common.{ℕ, Bool}

pub record Element {ℓ} (A : Type ℓ) : Type ℓ where
  -- `is_scalar<value_type>`
  pub scalar : Bool
  -- What `boost::move_if_noexcept` leaves in the object that is moved from: the value itself where
  -- it copies.
  pub moved : A → A
  -- What an assignment that throws leaves in the object that it assigns to, of the value that this
  -- held and the one to assign.
  pub torn : A → A → A
  -- Whether the n-th construction or assignment of an element throws.
  pub throws_at : ℕ → Bool
  -- `is_nothrow_move_constructible<value_type>`
  pub nothrow_move : Bool
  -- The most elements that `max_size()` of the allocator and `difference_type` allow.
  pub max_size : ℕ
  -- Whether the allocator refuses, by an exception, a block of so many elements.
  pub denies : ℕ → Bool
