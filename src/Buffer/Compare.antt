-- ===== src/Buffer/Compare.antt =====
-- base.hpp: the comparison operators of two buffers. They walk the ranges from `begin()` to `end()`
-- by the iterators of details.hpp, with the algorithms `std::equal` and
-- `std::lexicographical_compare`.
pub mod Traverse
use circular_buffer.Common.{
  ℕ, zero, suc, Bool, true, false, not, ◌&&◌, Option, none, some, List, [], ◌∷◌, ◌==◌,
  if◌then◌else◌,
}
use circular_buffer.Common.Outcome.{Error, Outcome, ok, thrown, fault, ◌>>=◌, ◌>>◌}
use circular_buffer.Buffer.{Buffer, Iterator, Method, begin}
use circular_buffer.Buffer.Iterate.{dereference, next}

abbrev negated : Option Bool → Option Bool
negated (some r) = some (not r)
negated none = none

module _ {ℓ} {A : Type ℓ} where
  -- The objects at the iterators from `it` up to `end()`. The fuel bounds their number.
  unfoldable pub traverse : ℕ → Iterator → Method A (List A)
  traverse zero it b = fault
  traverse (suc n) it b = elim it [
    | none ↦ ok [] b
    | some p ↦
        (do
          v ← dereference (some p)
          it' ← next (some p)
          vs ← traverse n it'
          (λ b'. ok (v ∷ vs) b'))
          b
  ]

  unfoldable pub collected : Outcome Error (Buffer A) (List A) → Option (List A)
  collected (ok vs b) = some vs
  collected (thrown e b) = none
  collected fault = none

  -- The objects that a walk from `begin()` to `end()` meets, unless it is undefined.
  unfoldable pub range : Buffer A → Option (List A)
  unfolding traverse
  range b = collected (traverse (suc b.size) (begin b) b)

  -- `std::equal` of two ranges of one length
  unfoldable pub equal : (A → A → Bool) → List A → List A → Bool
  equal eq (x ∷ xs) (y ∷ ys) = eq x y && equal eq xs ys
  equal eq _ _ = true

  -- `std::lexicographical_compare`
  unfoldable pub lexicographical : (A → A → Bool) → List A → List A → Bool
  lexicographical lt xs [] = false
  lexicographical lt [] (y ∷ ys) = true
  lexicographical lt (x ∷ xs) (y ∷ ys) =
      let rest = lexicographical lt xs ys in if lt x y then true else if lt y x then false else rest

  abbrev both : (List A → List A → Bool) → Option (List A) → Option (List A) → Option Bool
  both f (some xs) (some ys) = some (f xs ys)
  both f _ _ = none

  -- `operator ==`; the ranges are walked only if the sizes are equal.
  unfoldable pub equals : (A → A → Bool) → Buffer A → Buffer A → Option Bool
  unfolding range equal
  equals eq lhs rhs =
      if lhs.size == rhs.size then both (equal eq) (range lhs) (range rhs) else some false

  -- `operator <`
  unfoldable pub less : (A → A → Bool) → Buffer A → Buffer A → Option Bool
  unfolding range lexicographical
  less lt lhs rhs = both (lexicographical lt) (range lhs) (range rhs)

  -- `operator !=`, `>`, `<=` and `>=`
  unfoldable pub differs : (A → A → Bool) → Buffer A → Buffer A → Option Bool
  differs eq lhs rhs = negated (equals eq lhs rhs)

  unfoldable pub greater : (A → A → Bool) → Buffer A → Buffer A → Option Bool
  greater lt lhs rhs = less lt rhs lhs

  unfoldable pub less_equal : (A → A → Bool) → Buffer A → Buffer A → Option Bool
  less_equal lt lhs rhs = negated (less lt rhs lhs)

  unfoldable pub greater_equal : (A → A → Bool) → Buffer A → Buffer A → Option Bool
  greater_equal lt lhs rhs = negated (less lt lhs rhs)
