-- ===== src/Buffer/Iterate/Order.antt =====
-- details.hpp, the order of iterators: it is that of the indices of the elements.
use circular_buffer.Common.{ℕ, ◌+◌, ◌≤◌, ◌≡◌, sym, ap, ◌∙◌, List, ltb, ==_of_ne, ==_of_eq, arith}
use circular_buffer.Common.Int.{sub_ℕ}
use circular_buffer.Element.{Element}
use circular_buffer.Buffer.{Buffer}
use circular_buffer.Buffer.Slot.{slot-below, slot-above}
use circular_buffer.Buffer.Represents.{Represents, position}
use circular_buffer.Buffer.Iterate.{linearize_pointer, difference, precedes}
use native.Mathlib.Decide.{ℕ_discrete, dec_lt}

module _ {ℓ} {A : Type ℓ} ⦃t : Element A⦄ {b : Buffer A} {xs : List A} (r : Represents b xs) where
  -- The linear place of an iterator is the index of its element.
  pub linearize_pointer-position : (k : ℕ) → k ≤ b.size → linearize_pointer b (position b k) ≡ k
  unfolding linearize_pointer
  linearize_pointer-position k h = elim (ℕ_discrete k b.size) [
    | yes e ↦ rw (==_of_eq k b.size e) (sym e)
    | no ne ↦ rw (==_of_ne k b.size ne) (elim (dec_lt (b.first + k) b.cap) [
      | yes l ↦ ground (arith, slot-below b.cap b.first k l)
      | no l ↦ ground (
        arith,
        slot-above b.cap b.first k (omega arith) (omega (arith, r.first_in, r.size_le)),
        r.first_in,
        r.size_le,
      )
    ])
  ]

  -- In a buffer that represents a list, for indices up to the size, the difference and the order
  -- of the iterators at these indices are those of the indices, and different indices have
  -- different iterators.
  pub iterators_ordered :
      (i j : ℕ)
      → i ≤ b.size
      → j ≤ b.size
      → (difference b (position b i) (position b j) ≡ sub_ℕ i j)
        × (precedes b (position b i) (position b j) ≡ ltb i j)
        × (position b i ≡ position b j → i ≡ j)
  unfolding difference precedes
  iterators_ordered i j hi hj =
      let p = linearize_pointer-position i hi in
      let q = linearize_pointer-position j hj in
      (rw (p, q), rw (p, q), λ e. sym p ∙ ap (linearize_pointer b) e ∙ q)
