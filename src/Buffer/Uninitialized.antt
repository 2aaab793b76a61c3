-- ===== src/Buffer/Uninitialized.antt =====
-- base.hpp: what the test `is_uninitialized` of an address says of the storage.
use circular_buffer.Common.{
  ℕ, ◌+◌, ◌-◌, ◌≤◌, ◌<◌, ◌≡◌, ◌⊎◌, inl, inr, subst, ◌∙◌, true, false, List, arith,
}
use circular_buffer.Element.{Element}
use circular_buffer.Buffer.{Buffer, is_uninitialized}
use circular_buffer.Buffer.Slot.{slot, slot-below, slot-above}
use circular_buffer.Buffer.Memory.{IsVacant}
use circular_buffer.Buffer.Represents.{Represents}
use native.Mathlib.Decide.{dec_lt}

module _ {ℓ} {A : Type ℓ} ⦃t : Element A⦄ {b : Buffer A} {xs : List A} (r : Represents b xs) where
  IsVacant-at : (p i : ℕ) → b.size ≤ i → i < b.cap → slot b.cap b.first i ≡ p → IsVacant (b.cell p)
  IsVacant-at p i h k e = subst (λ q. IsVacant (b.cell q)) e (r.raw i h k)

  pub before_first : (p : ℕ) → p < b.first → b.size ≤ b.cap - b.first + p → IsVacant (b.cell p)
  before_first p h k = IsVacant-at p (b.cap - b.first + p) k (omega (arith, r.first_in)) (
      slot-above b.cap b.first (b.cap - b.first + p) (omega (arith, r.first_in))
        (omega (arith, r.first_in))
      ∙ omega (arith, r.first_in))

  pub from_first : (p : ℕ) → p < b.cap → b.first ≤ p → b.size ≤ p - b.first → IsVacant (b.cell p)
  from_first p h l k =
      IsVacant-at p (p - b.first) k (omega arith)
        (slot-below b.cap b.first (p - b.first) (omega arith) ∙ omega arith)

  -- Where `m_last` lies, of a storage with at least one cell
  last_cases :
      0 < b.cap
      → ((b.first + b.size < b.cap) × (b.last ≡ b.first + b.size))
        ⊎ ((b.cap ≤ b.first + b.size) × (b.last ≡ b.first + b.size - b.cap))
  last_cases h = elim (dec_lt (b.first + b.size) b.cap) [
    | yes l ↦ inl (l, r.last_eq ∙ slot-below b.cap b.first b.size l)
    | no l ↦ inr (
      omega arith,
      r.last_eq
          ∙ slot-above b.cap b.first b.size (omega arith) (omega (arith, r.first_in, r.size_le)),
    )
  ]

  -- In a buffer that represents a list, an address of the storage that is_uninitialized is true of
  -- holds no object, unless the elements are scalars. But where m_first is below m_last, it is
  -- false of the cells before m_first, which hold none either.
  pub is_uninitialized_lem :
      (p : ℕ)
      → p < b.cap
      → (is_uninitialized b p ≡ true → IsVacant (b.cell p))
        × (b.first < b.last → p < b.first → (is_uninitialized b p ≡ false) × IsVacant (b.cell p))
  unfolding is_uninitialized
  is_uninitialized_lem p h = (
    λ e. elim (last_cases (omega arith)) [
      | inl (l, q) ↦ from_first p h (ground arith) (ground arith)
      | inr (l, q) ↦
          before_first p (ground (arith, r.size_le, r.first_in))
            (ground (arith, r.size_le, r.first_in))
    ],
    λ k l. elim (last_cases (omega arith)) [
      | inl (m, q) ↦ (ground arith, before_first p l (omega arith))
      | inr (m, q) ↦ absurd (omega (arith, r.size_le))
    ],
  )
