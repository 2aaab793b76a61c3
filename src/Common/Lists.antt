-- ===== src/Common/Lists.antt =====
-- Lists measured and indexed by native numbers: the abstract view of a buffer's elements.
use Prim.Native.Nat.{ℕ, zero, suc, ◌+◌, ◌-◌, ◌≤◌, ◌<◌, min}
use mathlib.Core.Path.{◌≡◌, refl, sym, ap, ap₂, ◌∙◌}
use mathlib.Core.Option.{Option, none, some, some-injective}
use mathlib.Core.List.{List, [], ◌∷◌, ◌++◌}
use native.Mathlib.Omega.{arith}
use native.Mathlib.Decide.{dec_lt}

module _ {ℓ} {A : Type ℓ} where
  abbrev pub length : List A → ℕ
  length [] = 0
  length (x ∷ xs) = suc (length xs)

  abbrev pub get_elem? : List A → ℕ → Option A
  get_elem? [] i = none
  get_elem? (x ∷ xs) zero = some x
  get_elem? (x ∷ xs) (suc i) = get_elem? xs i

  abbrev pub take : ℕ → List A → List A
  take zero xs = []
  take (suc n) [] = []
  take (suc n) (x ∷ xs) = x ∷ take n xs

  abbrev pub drop : ℕ → List A → List A
  drop zero xs = xs
  drop (suc n) [] = []
  drop (suc n) (x ∷ xs) = drop n xs

  -- `xs` with `v` put before position `k`.
  abbrev pub insert_at : ℕ → A → List A → List A
  insert_at zero v xs = v ∷ xs
  insert_at (suc k) v [] = v ∷ []
  insert_at (suc k) v (x ∷ xs) = x ∷ insert_at k v xs

  -- `xs` without position `k`.
  abbrev pub erase_at : ℕ → List A → List A
  erase_at k [] = []
  erase_at zero (x ∷ xs) = xs
  erase_at (suc k) (x ∷ xs) = x ∷ erase_at k xs

  pub length-append : (xs ys : List A) → length (xs ++ ys) ≡ length xs + length ys
  length-append [] ys = omega arith
  length-append (x ∷ xs) ys = omega (arith, length-append xs ys)

  pub get_elem?-append_left :
      (xs ys : List A) (i : ℕ) → i < length xs → get_elem? (xs ++ ys) i ≡ get_elem? xs i
  get_elem?-append_left [] ys i h = absurd (omega arith)
  get_elem?-append_left (x ∷ xs) ys zero h = refl
  get_elem?-append_left (x ∷ xs) ys (suc i) h = get_elem?-append_left xs ys i (omega arith)

  pub get_elem?-snoc : (xs : List A) (v : A) → get_elem? (xs ++ v ∷ []) (length xs) ≡ some v
  get_elem?-snoc [] v = refl
  get_elem?-snoc (x ∷ xs) v = get_elem?-snoc xs v

  pub get_elem?-lt : (xs : List A) (i : ℕ) → i < length xs → (v : A) × (get_elem? xs i ≡ some v)
  get_elem?-lt [] i h = absurd (omega arith)
  get_elem?-lt (x ∷ xs) zero h = (x, refl)
  get_elem?-lt (x ∷ xs) (suc i) h = get_elem?-lt xs i (omega arith)

  pub length-take_le : (n : ℕ) (xs : List A) → n ≤ length xs → length (take n xs) ≡ n
  length-take_le zero xs h = refl
  length-take_le (suc n) [] h = absurd (omega arith)
  length-take_le (suc n) (x ∷ xs) h = omega (arith, length-take_le n xs (omega arith))

  pub length-take : (n : ℕ) (xs : List A) → length (take n xs) ≡ min n (length xs)
  length-take zero xs = omega arith
  length-take (suc n) [] = omega arith
  length-take (suc n) (x ∷ xs) = omega (arith, length-take n xs)

  pub get_elem?-take :
      (n : ℕ) (xs : List A) (i : ℕ) → i < n → get_elem? (take n xs) i ≡ get_elem? xs i
  get_elem?-take zero xs i h = absurd (omega arith)
  get_elem?-take (suc n) [] i h = refl
  get_elem?-take (suc n) (x ∷ xs) zero h = refl
  get_elem?-take (suc n) (x ∷ xs) (suc i) h = get_elem?-take n xs i (omega arith)

  pub length-drop : (n : ℕ) (xs : List A) → length (drop n xs) ≡ length xs - n
  length-drop zero xs = omega arith
  length-drop (suc n) [] = omega arith
  length-drop (suc n) (x ∷ xs) = omega (arith, length-drop n xs)

  pub get_elem?-drop :
      (n : ℕ) (xs : List A) (i : ℕ) → get_elem? (drop n xs) i ≡ get_elem? xs (n + i)
  get_elem?-drop zero xs i = ap (get_elem? xs) (omega arith)
  get_elem?-drop (suc n) [] i = refl
  get_elem?-drop (suc n) (x ∷ xs) i = ground (arith, get_elem?-drop n xs i)

  pub length-insert_at : (k : ℕ) (v : A) (xs : List A) → length (insert_at k v xs) ≡ length xs + 1
  length-insert_at zero v xs = omega arith
  length-insert_at (suc k) v [] = omega arith
  length-insert_at (suc k) v (x ∷ xs) = omega (arith, length-insert_at k v xs)

  pub get_elem?-insert_at_lt :
      (k : ℕ) (v : A) (xs : List A) (i : ℕ)
      → k ≤ length xs
      → i < k
      → get_elem? (insert_at k v xs) i ≡ get_elem? xs i
  get_elem?-insert_at_lt zero v xs i h p = absurd (omega arith)
  get_elem?-insert_at_lt (suc k) v [] i h p = absurd (omega arith)
  get_elem?-insert_at_lt (suc k) v (x ∷ xs) zero h p = refl
  get_elem?-insert_at_lt (suc k) v (x ∷ xs) (suc i) h p =
      get_elem?-insert_at_lt k v xs i (omega arith) (omega arith)

  pub get_elem?-insert_at_self :
      (k : ℕ) (v : A) (xs : List A) → k ≤ length xs → get_elem? (insert_at k v xs) k ≡ some v
  get_elem?-insert_at_self zero v xs h = refl
  get_elem?-insert_at_self (suc k) v [] h = absurd (omega arith)
  get_elem?-insert_at_self (suc k) v (x ∷ xs) h = get_elem?-insert_at_self k v xs (omega arith)

  pub get_elem?-insert_at_gt :
      (k : ℕ) (v : A) (xs : List A) (i : ℕ)
      → k ≤ i
      → get_elem? (insert_at k v xs) (suc i) ≡ get_elem? xs i
  get_elem?-insert_at_gt zero v xs i p = refl
  get_elem?-insert_at_gt (suc k) v [] i p = refl
  get_elem?-insert_at_gt (suc k) v (x ∷ xs) zero p = absurd (omega arith)
  get_elem?-insert_at_gt (suc k) v (x ∷ xs) (suc i) p =
      get_elem?-insert_at_gt k v xs i (omega arith)

  pub length-erase_at :
      (k : ℕ) (xs : List A) → k < length xs → length (erase_at k xs) + 1 ≡ length xs
  length-erase_at k [] h = absurd (omega arith)
  length-erase_at zero (x ∷ xs) h = omega arith
  length-erase_at (suc k) (x ∷ xs) h = omega (arith, length-erase_at k xs (omega arith))

  pub get_elem?-erase_at_lt :
      (k : ℕ) (xs : List A) (i : ℕ) → i < k → get_elem? (erase_at k xs) i ≡ get_elem? xs i
  get_elem?-erase_at_lt k [] i h = refl
  get_elem?-erase_at_lt zero (x ∷ xs) i h = absurd (omega arith)
  get_elem?-erase_at_lt (suc k) (x ∷ xs) zero h = refl
  get_elem?-erase_at_lt (suc k) (x ∷ xs) (suc i) h = get_elem?-erase_at_lt k xs i (omega arith)

  pub get_elem?-erase_at_ge :
      (k : ℕ) (xs : List A) (i : ℕ) → k ≤ i → get_elem? (erase_at k xs) i ≡ get_elem? xs (suc i)
  get_elem?-erase_at_ge k [] i h = refl
  get_elem?-erase_at_ge zero (x ∷ xs) i h = refl
  get_elem?-erase_at_ge (suc k) (x ∷ xs) zero h = absurd (omega arith)
  get_elem?-erase_at_ge (suc k) (x ∷ xs) (suc i) h = get_elem?-erase_at_ge k xs i (omega arith)

  pub insert_at-length : (v : A) (xs : List A) → insert_at (length xs) v xs ≡ xs ++ v ∷ []
  insert_at-length v [] = refl
  insert_at-length v (x ∷ xs) = ap (λ l. x ∷ l) (insert_at-length v xs)

  pub drop-insert_at :
      (k : ℕ) (v : A) (xs : List A)
      → 0 < k
      → k ≤ length xs
      → drop 1 (insert_at k v xs) ≡ insert_at (k - 1) v (drop 1 xs)
  drop-insert_at zero v xs p h = absurd (omega arith)
  drop-insert_at (suc k) v [] p h = absurd (omega arith)
  drop-insert_at (suc k) v (x ∷ xs) p h = ap (λ m. insert_at m v xs) (omega arith)

  -- The list of the objects that `g` gives below `n`.
  pub collect :
      (n : ℕ) (g : ℕ → Option A)
      → ((i : ℕ) → i < n → (v : A) × (g i ≡ some v))
      → (xs : List A) × (length xs ≡ n) × ((i : ℕ) → i < n → g i ≡ get_elem? xs i)
  collect zero g live = ([], refl, λ i h. absurd (omega arith))
  collect (suc n) g live =
      let (v, e) = live 0 (omega arith) in
      let (xs, l, h) = collect n (λ i. g (suc i)) (λ i p. live (suc i) (omega arith)) in
      (v ∷ xs, ap suc l, at v xs e h)
    where
      at :
          (v : A) (xs : List A)
          → g 0 ≡ some v
          → ((i : ℕ) → i < n → g (suc i) ≡ get_elem? xs i)
          → (i : ℕ) → i < suc n
          → g i ≡ get_elem? (v ∷ xs) i
      at v xs e h zero p = e
      at v xs e h (suc i) p = h i (omega arith)

  pub drop-append_one : (xs ys : List A) → 0 < length xs → drop 1 (xs ++ ys) ≡ drop 1 xs ++ ys
  drop-append_one [] ys h = absurd (omega arith)
  drop-append_one (x ∷ xs) ys h = refl

  pub drop-get_elem? :
      (k : ℕ) (xs : List A) (v : A) → get_elem? xs k ≡ some v → drop k xs ≡ v ∷ drop (k + 1) xs
  drop-get_elem? k [] v h = cc
  drop-get_elem? zero (x ∷ xs) v h = ap (λ y. y ∷ xs) (some-injective _ _ h)
  drop-get_elem? (suc k) (x ∷ xs) v h =
      let e : suc (k + 1) ≡ suc k + 1 = omega arith in
      drop-get_elem? k xs v h ∙ ap (λ m. v ∷ drop m (x ∷ xs)) e

  pub drop-length : (k : ℕ) (xs : List A) → length xs ≤ k → drop k xs ≡ []
  drop-length zero [] h = refl
  drop-length (suc k) [] h = refl
  drop-length zero (x ∷ xs) h = absurd (omega arith)
  drop-length (suc k) (x ∷ xs) h = drop-length k xs (omega arith)

  -- A write out of bounds changes nothing.
  abbrev pub set : List A → ℕ → A → List A
  set [] i v = []
  set (x ∷ xs) zero v = v ∷ xs
  set (x ∷ xs) (suc i) v = x ∷ set xs i v

  pub length-set : (xs : List A) (i : ℕ) (v : A) → length (set xs i v) ≡ length xs
  length-set [] i v = refl
  length-set (x ∷ xs) zero v = refl
  length-set (x ∷ xs) (suc i) v = ap suc (length-set xs i v)

  pub get_elem?-set_self :
      (xs : List A) (i : ℕ) (v : A) → i < length xs → get_elem? (set xs i v) i ≡ some v
  get_elem?-set_self [] i v h = absurd (omega arith)
  get_elem?-set_self (x ∷ xs) zero v h = refl
  get_elem?-set_self (x ∷ xs) (suc i) v h = get_elem?-set_self xs i v (omega arith)

  pub get_elem?-set_ne :
      (xs : List A) (i j : ℕ) (v : A) → ¬ (i ≡ j) → get_elem? (set xs i v) j ≡ get_elem? xs j
  get_elem?-set_ne [] i j v h = refl
  get_elem?-set_ne (x ∷ xs) zero zero v h = absurd (h refl)
  get_elem?-set_ne (x ∷ xs) zero (suc j) v h = refl
  get_elem?-set_ne (x ∷ xs) (suc i) zero v h = refl
  get_elem?-set_ne (x ∷ xs) (suc i) (suc j) v h = get_elem?-set_ne xs i j v (λ e. h (ap suc e))

  -- What lies from `k` up to `m`
  abbrev pub slice : ℕ → ℕ → List A → List A
  slice k m xs = take (m - k) (drop k xs)

  pub slice-cons :
      (k m : ℕ) (xs : List A) (v : A)
      → k < m
      → get_elem? xs k ≡ some v
      → slice k m xs ≡ v ∷ slice (k + 1) m xs
  slice-cons k m xs v h e =
      let n : m - k ≡ suc (m - (k + 1)) = omega arith in rw (n, drop-get_elem? k xs v e)

  pub slice-none : (k : ℕ) (xs : List A) → slice k k xs ≡ []
  slice-none k xs = let n : k - k ≡ 0 = omega arith in rw n (take-zero (drop k xs))
    where
      take-zero : (ys : List A) → take 0 ys ≡ []
      take-zero [] = refl
      take-zero (y ∷ ys) = refl

  pub drop-set : (k i : ℕ) (xs : List A) (v : A) → i < k → drop k (set xs i v) ≡ drop k xs
  drop-set zero i xs v h = absurd (omega arith)
  drop-set (suc k) i [] v h = refl
  drop-set (suc k) zero (x ∷ xs) v h = refl
  drop-set (suc k) (suc i) (x ∷ xs) v h = drop-set k i xs v (omega arith)

  pub length-slice : (k m : ℕ) (xs : List A) → m ≤ length xs → length (slice k m xs) ≡ m - k
  length-slice k m xs h = length-take_le (m - k) (drop k xs) (omega (arith, length-drop k xs))

  pub take_all : (n : ℕ) (xs : List A) → length xs ≤ n → take n xs ≡ xs
  take_all zero [] h = refl
  take_all (suc n) [] h = refl
  take_all zero (x ∷ xs) h = absurd (omega arith)
  take_all (suc n) (x ∷ xs) h = ap (λ l. x ∷ l) (take_all n xs (omega arith))

  pub slice-take : (n m : ℕ) (xs : List A) → m ≡ min n (length xs) → slice 0 m xs ≡ take n xs
  slice-take n m xs h = elim (dec_lt n (length xs)) [
    | yes l ↦ let e : m - 0 ≡ n = omega arith in rw e refl
    | no l ↦ take_all (m - 0) xs (omega arith) ∙ sym (take_all n xs (omega arith))
  ]

  pub slice-drop : (k m : ℕ) (xs : List A) → length xs ≤ m → slice k m xs ≡ drop k xs
  slice-drop k m xs h = take_all (m - k) (drop k xs) (omega (arith, length-drop k xs))

  abbrev pub replicate : ℕ → A → List A
  replicate zero v = []
  replicate (suc n) v = v ∷ replicate n v

  pub length-replicate : (n : ℕ) (v : A) → length (replicate n v) ≡ n
  length-replicate zero v = refl
  length-replicate (suc n) v = ap suc (length-replicate n v)

  -- Lists of one length with the same elements are the same.
  pub list_eq :
      (xs ys : List A)
      → length xs ≡ length ys
      → ((i : ℕ) → i < length xs → get_elem? xs i ≡ get_elem? ys i)
      → xs ≡ ys
  list_eq [] [] e h = refl
  list_eq [] (y ∷ ys) e h = absurd (omega arith)
  list_eq (x ∷ xs) [] e h = absurd (omega arith)
  list_eq (x ∷ xs) (y ∷ ys) e h =
      ap₂ ◌∷◌ (some-injective _ _ (h 0 (omega arith)))
        (list_eq xs ys (omega arith) (λ i l. h (suc i) (omega arith)))

  pub get_elem?-append_right :
      (xs ys : List A) (i : ℕ)
      → length xs ≤ i
      → get_elem? (xs ++ ys) i ≡ get_elem? ys (i - length xs)
  get_elem?-append_right [] ys i h = ap (get_elem? ys) (omega arith)
  get_elem?-append_right (x ∷ xs) ys zero h = absurd (omega arith)
  get_elem?-append_right (x ∷ xs) ys (suc i) h =
      let e : i - length xs ≡ suc i - suc (length xs) = omega arith in
      get_elem?-append_right xs ys i (omega arith) ∙ ap (get_elem? ys) e

  pub take-take : (m n : ℕ) (xs : List A) → m ≤ n → take m (take n xs) ≡ take m xs
  take-take zero n xs h = refl
  take-take (suc m) zero xs h = absurd (omega arith)
  take-take (suc m) (suc n) [] h = refl
  take-take (suc m) (suc n) (x ∷ xs) h = ap (λ l. x ∷ l) (take-take m n xs (omega arith))

  pub take-append-drop : (n : ℕ) (xs : List A) → take n xs ++ drop n xs ≡ xs
  take-append-drop zero xs = refl
  take-append-drop (suc n) [] = refl
  take-append-drop (suc n) (x ∷ xs) = ap (λ l. x ∷ l) (take-append-drop n xs)

  pub drop-drop : (m n : ℕ) (xs : List A) → drop m (drop n xs) ≡ drop (m + n) xs
  drop-drop m zero xs = ap (λ k. drop k xs) (omega arith)
  drop-drop m (suc n) [] =
      drop-length m [] (omega arith) ∙ sym (drop-length (m + suc n) [] (omega arith))
  drop-drop m (suc n) (x ∷ xs) =
      let e : m + suc n ≡ suc (m + n) = omega arith in
      drop-drop m n xs ∙ ap (λ k. drop k (x ∷ xs)) (sym e)

  pub take-append : (xs ys : List A) → take (length xs) (xs ++ ys) ≡ xs
  take-append [] ys = refl
  take-append (x ∷ xs) ys = ap (λ l. x ∷ l) (take-append xs ys)

  pub append-nil : (xs : List A) → xs ++ [] ≡ xs
  append-nil [] = refl
  append-nil (x ∷ xs) = ap (λ l. x ∷ l) (append-nil xs)
