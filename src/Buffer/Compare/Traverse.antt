-- ===== src/Buffer/Compare/Traverse.antt =====
-- base.hpp and details.hpp: a walk from `begin()` to `end()`, and the comparisons that rest on it.
use circular_buffer.Common.{
  ℕ, zero, suc, ◌+◌, ◌≤◌, ◌<◌, ◌≡◌, ◌↔◌, refl, sym, ap, ap₂, ◌∙◌, inl, inr, Bool, true, false, none,
  some, ◌⊎◌, get_elem?, List, [], ◌∷◌, ==_of_ne, ==_of_eq, length, drop, drop-get_elem?,
  drop-length, Bool-cases, arith,
}
use circular_buffer.Common.Outcome.{ok}
use circular_buffer.Element.{Element}
use circular_buffer.Buffer.{Buffer}
use circular_buffer.Buffer.Slot.{slot}
use circular_buffer.Buffer.Memory.{deref-ok}
use circular_buffer.Buffer.Represents.{Represents, live, position, begin-position}
use circular_buffer.Buffer.Iterate.{dereference}
use circular_buffer.Buffer.Iterate.Steps.{next_inside}
use circular_buffer.Buffer.Compare.{
  collected, traverse, range, equal, lexicographical, equals, less,
}
use mathlib.Core.Bool.{false≢true}
use native.Mathlib.Decide.{ℕ_discrete}

module _ {ℓ} {A : Type ℓ} ⦃t : Element A⦄ {b : Buffer A} {xs : List A} (r : Represents b xs) where
  traverse-drop :
      (n k : ℕ) → k ≤ b.size → b.size < n + k → traverse n (position b k) b ≡ ok (drop k xs) b
  unfolding traverse dereference
  traverse-drop zero k h fuel = absurd (omega arith)
  traverse-drop (suc n) k h fuel = elim (ℕ_discrete k b.size) [
    | yes e ↦
        rw (==_of_eq k b.size e)
          (ap (λ l. ok l b) (sym (drop-length k xs (omega (arith, r.length_eq)))))
    | no ne ↦
        let (v, held) = live r k (omega arith) in
        rw (==_of_ne k b.size ne) (
          rw (deref-ok b (slot b.cap b.first k) v held) (
            rw (next_inside r k (omega arith)) (
              rw (traverse-drop n (k + 1) (omega arith) (omega arith)) (
                ap (λ l. ok l b)
                  (sym (drop-get_elem? k xs v (sym (r.held k (omega arith)) ∙ held)))))))
  ]

  -- In a buffer that represents the list xs, a walk by the increment of iterators from begin() to
  -- end() is defined at each step and meets exactly the elements of xs, in order.
  pub range_refines : range b ≡ some xs
  unfolding range collected
  range_refines = ap collected (
      ap (λ it. traverse (suc b.size) it b) (begin-position r)
      ∙ traverse-drop (suc b.size) 0 (omega arith) (omega arith))

equal_refl {ℓ} :
    {A : Type ℓ} (eq : A → A → Bool) (xs : List A)
    → ((a : A) → eq a a ≡ true)
    → equal eq xs xs ≡ true
unfolding equal
equal_refl eq [] same = refl
equal_refl eq (x ∷ xs) same = rw (same x) (equal_refl eq xs same)

equal_sound {ℓ} :
    {A : Type ℓ} (eq : A → A → Bool) (xs ys : List A)
    → length xs ≡ length ys
    → ((a c : A) → eq a c ≡ true → a ≡ c)
    → equal eq xs ys ≡ true
    → xs ≡ ys
unfolding equal
equal_sound eq [] [] h sound e = refl
equal_sound eq [] (y ∷ ys) h sound e = absurd (omega arith)
equal_sound eq (x ∷ xs) [] h sound e = absurd (omega arith)
equal_sound eq (x ∷ xs) (y ∷ ys) h sound e = elim (Bool-cases (eq x y)) [
  | inl p ↦ ap₂ ◌∷◌ (sound x y p) (equal_sound eq xs ys (omega arith) sound (rw p at e))
  | inr n ↦ absurd (false≢true (rw n at e))
]

-- The lists agree before index `k`, as far as the test tells, and there the first one ends before the
-- other or has the smaller element.
abbrev pub IsFirstDifference {ℓ} : {A : Type ℓ} → (A → A → Bool) → List A → List A → ℕ → Type ℓ
IsFirstDifference {A = A} lt xs ys k =
    ((i : ℕ)
      → i < k
      → (x : A) × (y : A) × (get_elem? xs i ≡ some x)
        × (get_elem? ys i ≡ some y)
        × (lt x y ≡ false)
        × (lt y x ≡ false))
    × (((get_elem? xs k ≡ none) × (y : A) × (get_elem? ys k ≡ some y))
        ⊎ ((x : A) × (y : A) × (get_elem? xs k ≡ some x)
            × (get_elem? ys k ≡ some y)
            × (lt x y ≡ true)))

module _ {ℓ} {A : Type ℓ} (lt : A → A → Bool) where
  lexicographical-true :
      (xs ys : List A) → lexicographical lt xs ys ≡ true → (k : ℕ) × IsFirstDifference lt xs ys k
  unfolding lexicographical
  lexicographical-true [] [] e = absurd (false≢true e)
  lexicographical-true (x ∷ xs) [] e = absurd (false≢true e)
  lexicographical-true [] (y ∷ ys) e = (0, (λ i h. absurd (omega arith), inl (refl, y, refl)))
  lexicographical-true (x ∷ xs) (y ∷ ys) e = elim (Bool-cases (lt x y)) [
    | inl p ↦ (0, (λ i h. absurd (omega arith), inr (x, y, refl, refl, p)))
    | inr n ↦ elim (Bool-cases (lt y x)) [
      | inl p ↦ absurd (false≢true (rw (n, p) at e))
      | inr m ↦
          let (k, (before, at)) = lexicographical-true xs ys (rw (n, m) at e) in
          (suc k, (same xs ys n m before, at))
    ]
  ]
    where
      same :
          (xs ys : List A) {k : ℕ} {x y : A}
          → lt x y ≡ false
          → lt y x ≡ false
          → ((i : ℕ)
              → i < k
              → (x : A) × (y : A) × (get_elem? xs i ≡ some x)
                × (get_elem? ys i ≡ some y)
                × (lt x y ≡ false)
                × (lt y x ≡ false))
          → (i : ℕ) → i < suc k
          → (v : A) × (w : A) × (get_elem? (x ∷ xs) i ≡ some v)
            × (get_elem? (y ∷ ys) i ≡ some w)
            × (lt v w ≡ false)
            × (lt w v ≡ false)
      same xs ys {x = x} {y = y} n m before zero h = (x, y, refl, refl, n, m)
      same xs ys n m before (suc i) h = before i (omega arith)

  true-lexicographical :
      (xs ys : List A) (k : ℕ) → IsFirstDifference lt xs ys k → lexicographical lt xs ys ≡ true
  unfolding lexicographical
  true-lexicographical xs [] k (before, inl (ends, y, there)) = absurd cc
  true-lexicographical xs [] k (before, inr (x, y, here, there, p)) = absurd cc
  true-lexicographical [] (w ∷ ys) k d = refl
  true-lexicographical (v ∷ xs) (w ∷ ys) zero (before, inl (ends, y, there)) = absurd cc
  true-lexicographical (v ∷ xs) (w ∷ ys) zero (before, inr (x, y, here, there, p)) =
      let first : v ≡ x = cc in let second : w ≡ y = cc in rw (first, second, p) refl
  true-lexicographical (v ∷ xs) (w ∷ ys) (suc k) (before, at) =
      let (x, y, here, there, n, m) = before 0 (omega arith) in
      let first : v ≡ x = cc in
      let second : w ≡ y = cc in
      rw (first, second, n, m)
        (true-lexicographical xs ys k ((λ i h. before (suc i) (omega arith)), at))

module _ {ℓ} {A : Type ℓ} ⦃t : Element A⦄ {b c : Buffer A} {xs ys : List A} (r : Represents b xs)
    (s : Represents c ys) where
  -- Where the test eq decides equality of the elements, operator == of two buffers that represent
  -- lists answers, and answers true exactly if the lists are the same, whatever the capacities and
  -- the places of the elements.
  pub equals_iff :
      (eq : A → A → Bool)
      → ((a d : A) → (eq a d ≡ true) ↔ (a ≡ d))
      → (answer : Bool) × (equals eq b c ≡ some answer) × ((answer ≡ true) ↔ (xs ≡ ys))
  unfolding equals
  equals_iff eq decides = elim (ℕ_discrete b.size c.size) [
    | yes e ↦ (
      equal eq xs ys,
      rw (==_of_eq b.size c.size e, range_refines r, range_refines s),
      (
        equal_sound eq xs ys (r.length_eq ∙ e ∙ sym s.length_eq) (λ a d. (decides a d).0),
        λ q. rw (← q) (equal_refl eq xs (λ a. (decides a a).1 refl)),
      ),
    )
    | no ne ↦ (
      false,
      rw (==_of_ne b.size c.size ne),
      (λ q. cc, λ q. absurd (ne (sym r.length_eq ∙ ap length q ∙ s.length_eq))),
    )
  ]

  -- operator < of two buffers that represent lists answers, and answers true exactly if there is
  -- an index before which the test calls no element of the one list less than that of the other,
  -- and at which the first list ends and the second does not, or the element of the first is less.
  pub less_refines :
      (lt : A → A → Bool)
      → (answer : Bool) × (less lt b c ≡ some answer)
        × ((answer ≡ true) ↔ ((k : ℕ) × IsFirstDifference lt xs ys k))
  unfolding less
  less_refines lt = (
    lexicographical lt xs ys,
    rw (range_refines r, range_refines s),
    (lexicographical-true lt xs ys, λ (k, d). true-lexicographical lt xs ys k d),
  )
