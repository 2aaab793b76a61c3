-- ===== src/Buffer/Access/Elements.antt =====
-- base.hpp, element access against the list that the buffer stands for.
use circular_buffer.Common.{
  ℕ, zero, suc, ◌-◌, ◌≤◌, ◌<◌, ◌≡◌, refl, sym, ap, ◌∙◌, true, false, Option, none, some, List, [],
  ◌∷◌, leb, ==_of_ne, ltb_of_lt, length, get_elem?, arith,
}
use circular_buffer.Common.Outcome.{Error, Outcome, ok, thrown, out_of_range}
use circular_buffer.Element.{Element}
use circular_buffer.Buffer.{Buffer, empty, add, decrement}
use circular_buffer.Buffer.Slot.{slot, slot-zero}
use circular_buffer.Buffer.Pointers.{add-slot, decrement_at}
use circular_buffer.Buffer.Memory.{deref-ok}
use circular_buffer.Buffer.Represents.{Represents, live}
use circular_buffer.Buffer.Access.{index, check_position, at, front, back}
use native.Mathlib.Decide.{dec_lt}

-- What `at` answers: the element of the list, or an exception behind its end.
abbrev pub at_list {ℓ} : {A : Type ℓ} → Option A → Buffer A → Outcome Error (Buffer A) A
at_list (some v) b = ok v b
at_list none b = thrown out_of_range b

get_elem?-ge {ℓ} : {A : Type ℓ} (xs : List A) (i : ℕ) → length xs ≤ i → get_elem? xs i ≡ none
get_elem?-ge [] i h = refl
get_elem?-ge (x ∷ xs) zero h = absurd (omega arith)
get_elem?-ge (x ∷ xs) (suc i) h = get_elem?-ge xs i (omega arith)

module _ {ℓ} {A : Type ℓ} ⦃t : Element A⦄ {b : Buffer A} {xs : List A} (r : Represents b xs) where
  first_lt : 0 < b.size → b.first < b.cap
  first_lt h = omega (arith, r.first_in, r.size_le)

  index-ok :
      (i : ℕ) (v : A) → i < b.size → b.cell (slot b.cap b.first i) ≡ some v → index i b ≡ ok v b
  unfolding index
  index-ok i v h held = rw (ltb_of_lt i b.size h) (
      deref-ok b (add b b.first i) v (
        ap b.cell (add-slot b b.first i (first_lt (omega arith)) (omega (arith, r.size_le)))
        ∙ held))

  -- In a buffer that represents a list, at gives the element of the list at the index, throws
  -- out_of_range at every index that is not below the size, and leaves the buffer as it is.
  pub at_refines : (i : ℕ) → at i b ≡ at_list (get_elem? xs i) b
  unfolding at check_position
  at_refines i = elim (dec_lt i b.size) [
    | yes h ↦
        let (v, held) = live r i h in
        let low : leb b.size i ≡ false = ground arith in
        rw (low, sym (r.held i h) ∙ held) (index-ok i v h held)
    | no h ↦
        let high : leb b.size i ≡ true = ground arith in
        rw (high, get_elem?-ge xs i (omega (arith, r.length_eq)))
  ]

  -- In a buffer that represents a list and has an index i below its size, operator[] gives the
  -- element of the list at i, front the first and back the last, and none changes the buffer.
  pub access_refines :
      (i : ℕ)
      → i < b.size
      → (index i b ≡ at_list (get_elem? xs i) b)
        × (front b ≡ at_list (get_elem? xs 0) b)
        × (back b ≡ at_list (get_elem? xs (b.size - 1)) b)
  unfolding front back empty decrement
  access_refines i h =
      let (v, held) = live r i h in
      let (w, first_held) = live r 0 (omega arith) in
      let (x, last_held) = live r (b.size - 1) (omega arith) in
      (
        rw (sym (r.held i h) ∙ held) (index-ok i v h held),
        rw (sym (r.held 0 (omega arith)) ∙ first_held, ==_of_ne b.size 0 (omega arith))
            (deref-ok b b.first w (ap b.cell (sym first_zero) ∙ first_held)),
        rw (sym (r.held (b.size - 1) (omega arith)) ∙ last_held, ==_of_ne b.size 0 (omega arith))
            (deref-ok b (decrement b b.last) x (ap b.cell before_last ∙ last_held)),
      )
    where
      first_zero : slot b.cap b.first 0 ≡ b.first
      first_zero = slot-zero b.cap b.first (first_lt (omega arith))

      before_last : decrement b b.last ≡ slot b.cap b.first (b.size - 1)
      before_last =
          ap (decrement b) (r.last_eq ∙ ap (slot b.cap b.first) (omega arith))
          ∙ decrement_at b refl b.first (first_lt (omega arith)) (b.size - 1)
