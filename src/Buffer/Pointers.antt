-- ===== src/Buffer/Pointers.antt =====
-- The pointer arithmetic of base.hpp (`increment`, `decrement`, `add`, `sub`), read as steps round
-- the ring.
use circular_buffer.Common.{ℕ, ◌+◌, ◌-◌, ◌≤◌, ◌<◌, ◌≡◌, ◌∙◌, ap, subst, arith}
use native.Mathlib.Decide.{dec_lt}
use circular_buffer.Buffer.{Buffer, increment, decrement, add, sub, capacity}
use circular_buffer.Buffer.Slot.{slot, slot-lt, slot-slot, slot-below, slot-above, slot-cap}

module _ {ℓ} {A : Type ℓ} (b : Buffer A) where
  pub add-slot : (p n : ℕ) → p < b.cap → n ≤ b.cap → add b p n ≡ slot b.cap p n
  unfolding add capacity
  add-slot p n hp hn = elim (dec_lt (p + n) b.cap) [
    | yes h ↦ ground (arith, slot-below b.cap p n h)
    | no h ↦ ground (arith, slot-above b.cap p n (omega arith) (omega arith))
  ]

  pub sub-slot : (p n : ℕ) → p < b.cap → n ≤ b.cap → sub b p n ≡ slot b.cap p (b.cap - n)
  unfolding sub capacity
  sub-slot p n hp hn = elim (dec_lt p n) [
    | yes h ↦ ground (arith, slot-below b.cap p (b.cap - n) (omega arith))
    | no h ↦ ground (arith, slot-above b.cap p (b.cap - n) (omega arith) (omega arith))
  ]

  pub increment_one : (p : ℕ) → p < b.cap → increment b p ≡ slot b.cap p 1
  unfolding increment
  increment_one p hp = elim (dec_lt (p + 1) b.cap) [
    | yes h ↦ ground (arith, slot-below b.cap p 1 h)
    | no h ↦ ground (arith, slot-above b.cap p 1 (omega arith) (omega arith))
  ]

  pub decrement_one : (p : ℕ) → p < b.cap → decrement b p ≡ slot b.cap p (b.cap - 1)
  unfolding decrement
  decrement_one p hp = elim (dec_lt 0 p) [
    | yes h ↦ ground (arith, slot-above b.cap p (b.cap - 1) (omega arith) (omega arith))
    | no h ↦ ground (arith, slot-below b.cap p (b.cap - 1) (omega arith))
  ]

  module _ (base : ℕ) (inside : base < b.cap) where
    -- The cell after that of index `i` is that of index `i + 1`.
    pub increment-slot : (i : ℕ) → increment b (slot b.cap base i) ≡ slot b.cap base (i + 1)
    increment-slot i =
        increment_one (slot b.cap base i) (slot-lt b.cap base i (omega arith))
        ∙ slot-slot b.cap base i 1

    pub decrement-slot : (i : ℕ) → decrement b (slot b.cap base (i + 1)) ≡ slot b.cap base i
    decrement-slot i =
        decrement_one (slot b.cap base (i + 1)) (slot-lt b.cap base (i + 1) (omega arith))
        ∙ slot-slot b.cap base (i + 1) (b.cap - 1)
        ∙ ap (slot b.cap base) (omega arith)
        ∙ slot-cap b.cap base i

    pub add-slot_index :
        (i n : ℕ) → n ≤ b.cap → add b (slot b.cap base i) n ≡ slot b.cap base (i + n)
    add-slot_index i n hn =
        add-slot (slot b.cap base i) n (slot-lt b.cap base i (omega arith)) hn
        ∙ slot-slot b.cap base i n

    pub sub-slot_index :
        (i n : ℕ) → n ≤ b.cap → sub b (slot b.cap base (i + n)) n ≡ slot b.cap base i
    sub-slot_index i n hn =
        sub-slot (slot b.cap base (i + n)) n (slot-lt b.cap base (i + n) (omega arith)) hn
        ∙ slot-slot b.cap base (i + n) (b.cap - n)
        ∙ ap (slot b.cap base) (omega arith)
        ∙ slot-cap b.cap base i

-- The same for a buffer whose capacity is known to be `cap`.
module _ {ℓ} {A : Type ℓ} (b : Buffer A) {cap : ℕ} (e : b.cap ≡ cap) (base : ℕ)
    (inside : base < cap) where
  pub increment_at : (i : ℕ) → increment b (slot cap base i) ≡ slot cap base (i + 1)
  increment_at i =
      subst (λ c. increment b (slot c base i) ≡ slot c base (i + 1)) e
        (increment-slot b base (omega arith) i)

  pub decrement_at : (i : ℕ) → decrement b (slot cap base (i + 1)) ≡ slot cap base i
  decrement_at i =
      subst (λ c. decrement b (slot c base (i + 1)) ≡ slot c base i) e
        (decrement-slot b base (omega arith) i)
