-- ===== src/SpaceOptimized/Adaptor/Ends.antt =====
-- space_optimized.hpp: the pushes and pops of the adaptor against the list it stands for.
use circular_buffer.Common.{
  ◌⊎◌, inl, inr, ℕ, ◌+◌, ◌-◌, ◌≤◌, ◌<◌, ◌≡◌, refl, sym, ap, ◌∙◌, subst, List, [], ◌∷◌, ◌++◌, take,
  drop, length, length-append, arith,
}
use circular_buffer.Common.Outcome.{Error, Ensures, Ensures-and_then}
use circular_buffer.Element.{Element}
use circular_buffer.Spec.{keep_first, keep_last, keep_first_all, keep_last_all}
use circular_buffer.Buffer.{Buffer}
use circular_buffer.Buffer.Represents.{Represents, spoilt, torn_at, spoilt-room, spoilt-full}
use circular_buffer.Buffer.Push
use circular_buffer.Buffer.Push.Back.{push_back_refines}
use circular_buffer.Buffer.Push.Front.{push_front_refines}
use circular_buffer.Buffer.Push.Pop.{pop_back_refines, pop_front_refines}
use circular_buffer.SpaceOptimized.Adaptor.{Adaptor, push_back, push_front, pop_back, pop_front}
use circular_buffer.SpaceOptimized.Adaptor.Adjust.{
  Stands, Keeps, kept, on_ring-Ensures, ensure_room-Ensures, one_more, release_room-Ensures,
}
use native.Mathlib.Decide.{dec_le, dec_lt}

-- What a push leaves that has thrown: the list, or where the guaranteed capacity is full the list in
-- which the assignment to the element of index `i` has thrown.
abbrev pub Spoils {ℓ} :
    {A : Type ℓ} ⦃t : Element A⦄ → Adaptor A → List A → ℕ → A → Error → Adaptor A → Type ℓ
Spoils a xs i v e a' =
    Keeps a xs e a' ⊎ ((a.control.capacity ≤ length xs) × Keeps a (torn_at i v xs) e a')

module _ {ℓ} {A : Type ℓ} ⦃t : Element A⦄ {a : Adaptor A} {xs : List A} (s : Stands a xs) where
  -- A ring that has room for one more element, if the adaptor may have it, drops from a list of one
  -- more what the adaptor would.
  pub same_kept :
      {cap : ℕ} (vs : List A)
      → length vs ≡ length xs + 1
      → (a.ring.size + 1 ≤ a.control.capacity → a.ring.size + 1 ≤ cap)
      → a.ring.cap ≤ cap
      → cap ≤ a.control.capacity
      → (keep_last cap vs ≡ keep_last a.control.capacity vs)
        × (keep_first cap vs ≡ keep_first a.control.capacity vs)
  same_kept {cap} vs len enough grown most = elim (dec_le (a.ring.size + 1) a.control.capacity) [
    | yes fits ↦
        let e = enough fits in
        let l = s.ring.length_eq in
        (
          keep_last_all cap vs (omega arith)
              ∙ sym (keep_last_all a.control.capacity vs (omega arith)),
          keep_first_all cap vs (omega arith)
              ∙ sym (keep_first_all a.control.capacity vs (omega arith)),
        )
    | no over ↦
        let e : cap ≡ a.control.capacity = omega (arith, s.ring.size_le) in
        (ap (λ c. keep_last c vs) e, ap (λ c. keep_first c vs) e)
  ]

  thrown_at :
      (e : Error) (i : ℕ) (item : A) {a' : Adaptor A} {b : Buffer A}
      → Stands a' xs
      → a'.control ≡ a.control
      → (a.ring.size + 1 ≤ a.control.capacity → a.ring.size + 1 ≤ a'.ring.cap)
      → Represents b (spoilt a'.ring i item xs)
      → b.cap ≡ a'.ring.cap
      → Spoils a xs i item e (record { ring = b; control = a'.control })
  thrown_at e i item {a'} {b} s' same enough r cap_eq = elim (dec_lt a'.ring.size a'.ring.cap) [
    | yes room ↦
        inl (kept s' same (subst (Represents b) (spoilt-room a'.ring i item xs room) r) cap_eq)
    | no full ↦
        let over : a.control.capacity ≤ length xs =
          elim (dec_le (a.ring.size + 1) a.control.capacity) [
            | yes fits ↦
                let grown = enough fits in
                absurd (omega (arith, s.ring.length_eq, s'.ring.length_eq))
            | no more ↦ omega (arith, s.ring.length_eq)
          ] in
        let even : a'.ring.cap ≡ a'.ring.size = omega (arith, s'.ring.size_le) in
        inr
          (over, kept s' same (subst (Represents b) (spoilt-full a'.ring i item xs even) r) cap_eq)
  ]

  -- Where an adaptor stands for the list xs, push_back returns or throws. If it returns, the
  -- adaptor stands for the last elements, as many as the guaranteed capacity, of xs followed by
  -- the item, whatever the capacity of the ring was; if it throws, it stands for xs or, where xs
  -- has as many elements as the guaranteed capacity, for xs with its first element as the
  -- assignment that threw has left it. The control is the same. An adaptor that stands for a list
  -- has a guaranteed capacity below 2^62.
  pub push_back-Keeps :
      (item : A)
      → Ensures
          (Keeps a (keep_last a.control.capacity (xs ++ item ∷ [])))
          (Spoils a xs 0 item)
          (push_back item a)
  unfolding push_back
  push_back-Keeps item =
      let len : length (xs ++ item ∷ []) ≡ length xs + 1 =
        omega (arith, length-append xs (item ∷ [])) in
      Ensures-and_then (ensure_room-Ensures s 1 (one_more s))
        (λ _ a' ((s', same), enough, grown).
          let (last_eq, _) =
            same_kept (xs ++ item ∷ []) len enough grown
              (omega (arith, s'.cap_le, ap (λ c. c.capacity) same)) in
          on_ring-Ensures (Push.push_back item) a' (push_back_refines item s'.ring)
            (λ _ b (r, cap_eq). kept s' same (subst (Represents b) last_eq r) cap_eq)
            (λ e b (r, cap_eq, _). thrown_at e 0 item s' same enough r cap_eq))
        (λ e a' q. inl q)

  -- The same at the front, where the first elements stay, and a last one may be torn.
  pub push_front-Keeps :
      (item : A)
      → Ensures
          (Keeps a (keep_first a.control.capacity (item ∷ xs)))
          (Spoils a xs (length xs - 1) item)
          (push_front item a)
  unfolding push_front
  push_front-Keeps item =
      let len : length (item ∷ xs) ≡ length xs + 1 = omega arith in
      Ensures-and_then (ensure_room-Ensures s 1 (one_more s))
        (λ _ a' ((s', same), enough, grown).
          let (_, first_eq) =
            same_kept (item ∷ xs) len enough grown
              (omega (arith, s'.cap_le, ap (λ c. c.capacity) same)) in
          on_ring-Ensures (Push.push_front item) a' (push_front_refines item s'.ring)
            (λ _ b (r, cap_eq). kept s' same (subst (Represents b) first_eq r) cap_eq)
            (λ e b (r, cap_eq, _).
              thrown_at e (length xs - 1) item s' same enough
                (subst (λ k. Represents b (spoilt a'.ring k item xs))
                  (omega (arith, s'.ring.length_eq)) r)
                cap_eq))
        (λ e a' q. inl q)

  module _ (some_items : 0 < a.ring.size) where
    -- Where an adaptor with elements stands for the list xs, pop_back returns or throws, and
    -- stands in both cases for xs without its last element: only the change of the ring's capacity
    -- that follows the removal may throw. The control is the same. An adaptor that stands for a
    -- list has a guaranteed capacity below 2^62.
    pub pop_back-Keeps :
        Ensures
          (Keeps a (take (a.ring.size - 1) xs))
          (Keeps a (take (a.ring.size - 1) xs))
          (pop_back a)
    unfolding pop_back
    pop_back-Keeps =
        let (b, ran, r, cap_eq) = pop_back_refines s.ring some_items in
        rw ran (release_room-Ensures (kept s refl r cap_eq).0)

    pub pop_front-Keeps : Ensures (Keeps a (drop 1 xs)) (Keeps a (drop 1 xs)) (pop_front a)
    unfolding pop_front
    pop_front-Keeps =
        let (b, ran, r, cap_eq) = pop_front_refines s.ring some_items in
        rw ran (release_room-Ensures (kept s refl r cap_eq).0)
