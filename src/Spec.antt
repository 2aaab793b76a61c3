-- ===== src/Spec.antt =====
-- The abstract view of a buffer: a list of at most `cap` elements, from which an insertion drops
-- what no longer fits.
use circular_buffer.Common.{
  ℕ, ◌+◌, ◌-◌, ◌≤◌, ◌<◌, ◌≡◌, List, [], ◌∷◌, ◌++◌, length, take, drop, length-append, take_all,
  arith,
}

module _ {ℓ} {A : Type ℓ} where
  -- What stays when the list overflows at its back: its last `n` elements.
  abbrev pub keep_last : ℕ → List A → List A
  keep_last n xs = drop (length xs - n) xs

  -- What stays when the list overflows at its front: its first `n` elements.
  abbrev pub keep_first : ℕ → List A → List A
  keep_first n xs = take n xs

  pub keep_last_all : (n : ℕ) (xs : List A) → length xs ≤ n → keep_last n xs ≡ xs
  keep_last_all n xs h = let e : length xs - n ≡ 0 = omega arith in rw e

  pub keep_first_all : (n : ℕ) (xs : List A) → length xs ≤ n → keep_first n xs ≡ xs
  keep_first_all n xs h = take_all n xs h

  -- A full list gives up its first element for a new last one.
  pub keep_last_snoc :
      (n : ℕ) (xs : List A) (v : A)
      → length xs ≡ n
      → 0 < n
      → keep_last n (xs ++ v ∷ []) ≡ drop 1 xs ++ v ∷ []
  keep_last_snoc n [] v h p = absurd (omega arith)
  keep_last_snoc n (x ∷ xs) v h p =
      let e : length ((x ∷ xs) ++ v ∷ []) - n ≡ 1 = omega (arith, length-append xs (v ∷ [])) in rw e

  -- A list with no room stays as it is.
  pub keep_last_none :
      (n : ℕ) (xs : List A) (v : A) → length xs ≡ n → n ≡ 0 → keep_last n (xs ++ v ∷ []) ≡ xs
  keep_last_none n [] v h p = rw p
  keep_last_none n (x ∷ xs) v h p = absurd (omega arith)

  pub keep_first_none :
      (n : ℕ) (v : A) (xs : List A) → length xs ≡ n → n ≡ 0 → keep_first n (v ∷ xs) ≡ xs
  keep_first_none n v [] h p = rw p
  keep_first_none n v (x ∷ xs) h p = absurd (omega arith)

  pub keep_last_over : (n : ℕ) (xs : List A) → length xs ≡ n + 1 → keep_last n xs ≡ drop 1 xs
  keep_last_over n xs h = let e : length xs - n ≡ 1 = omega arith in rw e
