-- ===== src/Buffer/Iterate/Counted.antt =====
-- details.hpp, the counted steps of an iterator by a count that may be zero.
use circular_buffer.Common.{
  ℕ, ◌+◌, ◌-◌, ◌≤◌, ◌≡◌, refl, sym, ap, ◌∙◌, true, List, ==_of_eq, ==_of_ne, leb, arith,
}
use circular_buffer.Common.Int.{pos}
use circular_buffer.Common.Outcome.{ok}
use circular_buffer.Element.{Element}
use circular_buffer.Buffer.{Buffer, begin, end}
use circular_buffer.Buffer.Represents.{Represents, position, begin-position}
use circular_buffer.Buffer.Iterate.{advance, retreat}
use circular_buffer.Buffer.Iterate.Steps.{advance_by-position, retreat_by-position, end_position}
use native.Mathlib.Decide.{ℕ_discrete}

module _ {ℓ} {A : Type ℓ} ⦃t : Element A⦄ {b : Buffer A} {xs : List A} (r : Represents b xs) where
  pub advance-position :
      (k n : ℕ) → k + n ≤ b.size → advance (pos n) (position b k) b ≡ ok (position b (k + n)) b
  unfolding advance
  advance-position k n h = elim (ℕ_discrete n 0) [
    | yes e ↦
        let same : k + n ≡ k = omega arith in
        rw (==_of_eq n 0 e) (ap (λ j. ok (position b j) b) (sym same))
    | no ne ↦
        let within : leb (k + n) b.size ≡ true = ground arith in
        rw (==_of_ne n 0 ne)
          (advance_by-position r k n (omega arith) (omega arith) ∙ rw within refl)
  ]

  pub retreat-position :
      (k n : ℕ) → k ≤ b.size → n ≤ k → retreat (pos n) (position b k) b ≡ ok (position b (k - n)) b
  unfolding retreat
  retreat-position k n h l = elim (ℕ_discrete n 0) [
    | yes e ↦
        let same : k - n ≡ k = omega arith in
        rw (==_of_eq n 0 e) (ap (λ j. ok (position b j) b) (sym same))
    | no ne ↦
        let within : leb n k ≡ true = ground arith in
        rw (==_of_ne n 0 ne) (retreat_by-position r k n h (omega arith) ∙ rw within refl)
  ]

  -- `begin() + n` and `end() - n`
  pub advance-begin : (n : ℕ) → n ≤ b.size → advance (pos n) (begin b) b ≡ ok (position b n) b
  advance-begin n h =
      let e : 0 + n ≡ n = omega arith in
      ap (λ it. advance (pos n) it b) (begin-position r)
      ∙ advance-position 0 n (omega arith)
      ∙ ap (λ j. ok (position b j) b) e

  pub end-position : end b ≡ position b b.size
  unfolding end
  end-position = sym (end_position r)

  pub retreat-end :
      (n : ℕ) → n ≤ b.size → retreat (pos n) (end b) b ≡ ok (position b (b.size - n)) b
  retreat-end n h =
      ap (λ it. retreat (pos n) it b) end-position ∙ retreat-position b.size n (omega arith) h
