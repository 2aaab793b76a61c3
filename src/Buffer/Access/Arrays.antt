-- ===== src/Buffer/Access/Arrays.antt =====
-- base.hpp, the two array ranges against the list that the buffer stands for.
use circular_buffer.Common.{
  ℕ, ◌+◌, ◌-◌, ◌%◌, ◌≤◌, ◌<◌, ◌≡◌, ◌↔◌, sym, ap, ◌∙◌, subst₂, true, false, List, leb, ==_of_ne,
  get_elem?, arith,
}
use circular_buffer.Element.{Element}
use circular_buffer.Buffer.{Buffer, empty, is_linearized}
use circular_buffer.Buffer.Slot.{slot, slot-zero, slot-below, slot-above}
use circular_buffer.Buffer.Represents.{Represents}
use circular_buffer.Buffer.Access.{array_one, array_two}
use native.Mathlib.Nat.{mod-zero}
use native.Mathlib.Decide.{ℕ_discrete, dec_lt}

-- The range's cells hold the list from the index `from` on.
abbrev pub IsRange {ℓ} : {A : Type ℓ} → Buffer A → ℕ × ℕ → List A → ℕ → Type ℓ
IsRange b (p, n) xs from = (i : ℕ) → i < n → b.cell (p + i) ≡ get_elem? xs (from + i)

-- The two ranges hold the list, one after the other.
abbrev pub Splits {ℓ} : {A : Type ℓ} → Buffer A → List A → ℕ × ℕ → ℕ × ℕ → Type ℓ
Splits b xs one two = (one.1 + two.1 ≡ b.size) × IsRange b one xs 0 × IsRange b two xs one.1

module _ {ℓ} {A : Type ℓ} ⦃t : Element A⦄ {b : Buffer A} {xs : List A} (r : Represents b xs) where
  module _ (some_items : 0 < b.size) where
    first_lt : b.first < b.cap
    first_lt = omega (arith, r.first_in, r.size_le)

    straight_last : b.first + b.size < b.cap → b.last ≡ b.first + b.size
    straight_last h = r.last_eq ∙ slot-below b.cap b.first b.size h

    bent_last : b.cap ≤ b.first + b.size → b.last ≡ b.first + b.size - b.cap
    bent_last h = r.last_eq ∙ slot-above b.cap b.first b.size h (omega (arith, r.size_le, first_lt))

    straight_ranges :
        b.first + b.size < b.cap → (array_one b ≡ (b.first, b.size)) × (array_two b ≡ (0, 0))
    unfolding array_one array_two empty
    straight_ranges h =
        let e = straight_last h in
        let late : leb b.last b.first ≡ false = ground arith in
        (rw late (ap (λ n. (b.first, n)) (omega arith)), rw late)

    bent_ranges :
        b.cap ≤ b.first + b.size
        → (array_one b ≡ (b.first, b.cap - b.first)) × (array_two b ≡ (0, b.last))
    unfolding array_one array_two empty
    bent_ranges h =
        let e = bent_last h in
        let early : leb b.last b.first ≡ true = ground (arith, r.size_le, first_lt) in
        (rw (early, ==_of_ne b.size 0 (omega arith)), rw (early, ==_of_ne b.size 0 (omega arith)))

  empty_last : b.size ≡ 0 → b.last ≡ b.first
  unfolding slot
  empty_last e = elim (dec_lt b.first b.cap) [
    | yes h ↦ r.last_eq ∙ ap (slot b.cap b.first) e ∙ slot-zero b.cap b.first h
    | no h ↦
        r.last_eq
        ∙ ap (λ c. (b.first + b.size) % c) (omega (arith, r.first_in))
        ∙ mod-zero (b.first + b.size)
        ∙ omega arith
  ]

  empty_ranges : b.size ≡ 0 → (array_one b ≡ (b.first, 0)) × (array_two b ≡ (0, 0))
  unfolding array_one array_two empty
  empty_ranges e = ground (arith, empty_last e)

  -- In a buffer that represents a list, the counts of the two array ranges add up to the size, and
  -- their cells hold, one range after the other, the elements of the list.
  pub arrays_refine : Splits b xs (array_one b) (array_two b)
  arrays_refine = elim (ℕ_discrete b.size 0) [
    | yes e ↦
        let (one, two) = empty_ranges e in
        subst₂ (Splits b xs) (sym one) (sym two)
          (omega arith, λ i h. absurd (omega arith), λ i h. absurd (omega arith))
    | no ne ↦ elim (dec_lt (b.first + b.size) b.cap) [
      | yes h ↦
          let (one, two) = straight_ranges (omega arith) h in
          subst₂ (Splits b xs) (sym one) (sym two)
            (omega arith, λ i l. along i l (omega arith), λ i l. absurd (omega arith))
      | no h ↦
          let (one, two) = bent_ranges (omega arith) (omega arith) in
          let e = bent_last (omega arith) (omega arith) in
          subst₂ (Splits b xs) (sym one) (sym two) (
            omega (arith, first_lt (omega arith)),
            λ i l. along i (omega arith) (omega arith),
            λ i l.
                ap b.cell (sym (round i (omega arith) (omega arith)))
                ∙ r.held (b.cap - b.first + i) (omega (arith, first_lt (omega arith))),
          )
    ]
  ]
    where
      along :
          (i : ℕ) → i < b.size → b.first + i < b.cap → b.cell (b.first + i) ≡ get_elem? xs (0 + i)
      along i h l =
          ap b.cell (sym (slot-below b.cap b.first i l))
          ∙ r.held i h
          ∙ ap (get_elem? xs) (omega arith)

      round : (i : ℕ) → 0 < b.size → i < b.cap → slot b.cap b.first (b.cap - b.first + i) ≡ 0 + i
      round i s h =
          slot-above b.cap b.first (b.cap - b.first + i) (omega (arith, first_lt s))
            (omega (arith, first_lt s))
          ∙ omega (arith, first_lt s)

  -- A non-empty buffer that represents a list is linearized exactly if its second array range is
  -- empty.
  pub is_linearized_iff : 0 < b.size → (is_linearized b ≡ true) ↔ ((array_two b).1 ≡ 0)
  unfolding is_linearized
  is_linearized_iff h = elim (dec_lt (b.first + b.size) b.cap) [
    | yes l ↦
        let (one, two) = straight_ranges h l in
        let e = straight_last h l in (λ linear. ap (λ p. p.1) two, λ nothing. ground arith)
    | no l ↦
        let (one, two) = bent_ranges h (omega arith) in
        let e = bent_last h (omega arith) in
        (
          λ linear. ap (λ p. p.1) two ∙ ground (arith, r.size_le),
          λ nothing. ground (arith, ap (λ p. p.1) two),
        )
  ]
