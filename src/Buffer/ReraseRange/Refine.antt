-- ===== src/Buffer/ReraseRange/Refine.antt =====
-- base.hpp, `rerase` of a range against the list that the buffer stands for.
use circular_buffer.Common.{
  ℕ, zero, suc, ◌+◌, ◌-◌, ◌≤◌, ◌<◌, ◌≡◌, refl, sym, ap, ap₂, ◌∙◌, subst, Bool, true, false, none,
  some, List, ◌++◌, ◌==◌, ==_of_eq, ==_of_ne, ltb, if◌then◌else◌, length, get_elem?, take, drop,
  length-take_le, length-drop, get_elem?-take, get_elem?-drop, get_elem?-append_left,
  get_elem?-append_right, list_eq, drop-drop, take-append-drop, arith,
}
use circular_buffer.Common.Outcome.{
  Error, Outcome, ok, fault, and_then, ◌>>◌, Ensures, returns, Ensures-and_then,
}
use circular_buffer.Element.{Element}
use circular_buffer.Buffer.{Buffer, Iterator, Method, assert, begin, decrement, map_pointer}
use circular_buffer.Buffer.Slot.{slot, slot_from, apart_from_end}
use circular_buffer.Buffer.Pointers.{decrement_at}
use circular_buffer.Buffer.Represents.{Represents, position, BecomesAt, begin-position}
use circular_buffer.Buffer.Push.Pop.{without_front, Represents-without_front, front_destroyed}
use circular_buffer.Buffer.Insert.{same_iterator}
use circular_buffer.Buffer.Iterate.Order.{iterators_ordered}
use circular_buffer.Buffer.Iterate.Steps.{before_end, map_pointer-position}
use circular_buffer.Buffer.Block.Walk.{same_iterator-position, same_iterator-end}
use circular_buffer.Buffer.EraseRange.Lower.{Scattered}
use circular_buffer.Buffer.EraseRange.Refine.{cut, length-cut}
use circular_buffer.Buffer.ReraseRange.{destroy_front, rerase_between, rerase_range}
use circular_buffer.Buffer.ReraseRange.Raise.{Raised, raise_loop-Ensures}
use native.Mathlib.Decide.{ℕ_discrete, dec_lt}

module _ {ℓ} {A : Type ℓ} ⦃t : Element A⦄ where
  -- One round of the loop.
  destroy_front-round :
      (n stop : ℕ) {b : Buffer A} {zs : List A} (r : Represents b zs) (some_items : 0 < b.size)
      → destroy_front (suc n) stop b ≡ elim (slot b.cap b.first 1 == stop) [
        | true ↦ ok tt (without_front r some_items)
        | false ↦ destroy_front n stop (without_front r some_items)
      ]
  unfolding destroy_front
  destroy_front-round n stop r some_items =
      ap
        (λ o.
          and_then o
            (λ _ b'. elim (b'.first == stop) [ true ↦ ok tt b' | false ↦ destroy_front n stop b' ]))
        (front_destroyed r some_items)

  -- The first `m` elements are destroyed, and `m_first` then is behind them.
  destroy_front-ok :
      (n m : ℕ) (b : Buffer A) (zs : List A) (r : Represents b zs)
      → 0 < m
      → m ≤ b.size
      → m ≤ n
      → (b' : Buffer A) × (destroy_front n (slot b.cap b.first m) b ≡ ok tt b')
        × Represents b' (drop m zs)
        × (b'.cap ≡ b.cap)
        × (b'.first ≡ slot b.cap b.first m)
        × (b'.size ≡ b.size - m)
  destroy_front-ok zero m b zs r p h fuel = absurd (omega arith)
  destroy_front-ok (suc n) m b zs r p h fuel =
      let some_items : 0 < b.size = omega arith in
      let c = without_front r some_items in
      let rest : Represents c (drop 1 zs) = Represents-without_front r some_items in
      elim (ℕ_discrete 1 m) [
        | yes e ↦ (
          c,
          destroy_front-round n (slot b.cap b.first m) r some_items
              ∙ rw
                  (==_of_eq (slot b.cap b.first 1) (slot b.cap b.first m)
                    (ap (slot b.cap b.first) e))
                  refl,
          subst (λ k. Represents c (drop k zs)) e rest,
          refl,
          ap (slot b.cap b.first) e,
          omega arith,
        )
        | no ne ↦
            let apart : ¬ (slot b.cap b.first 1 ≡ slot b.cap b.first m) =
              apart_from_end b.cap b.first 1 m (omega (arith, r.first_in, r.size_le)) (omega arith)
                (omega arith) (omega (arith, r.size_le)) in
            let stop : slot b.cap (slot b.cap b.first 1) (m - 1) ≡ slot b.cap b.first m =
              slot_from b.cap b.first 1 (m - 1) m (omega arith) in
            let (b', ran, r', cap_eq, first_eq, size_eq) =
              destroy_front-ok n (m - 1) c (drop 1 zs) rest (omega arith) (omega arith)
                (omega arith) in
            (
              b',
              destroy_front-round n (slot b.cap b.first m) r some_items
                  ∙ rw (==_of_ne (slot b.cap b.first 1) (slot b.cap b.first m) apart)
                      (ap (λ k. destroy_front n k c) (sym stop) ∙ ran),
              subst (Represents b') (drop-drop (m - 1) 1 zs ∙ ap (λ k. drop k zs) (omega arith)) r',
              cap_eq,
              first_eq ∙ stop,
              omega arith,
            )
      ]

-- What has been raised, and what lies from the index `l` on.
raised_cut {ℓ} :
    {A : Type ℓ} (xs : List A) (f l : ℕ) (h : f ≤ l) (k : l ≤ length xs) (zs : List A)
    → length zs ≡ length xs
    → ((i : ℕ) → l ≤ i → get_elem? zs i ≡ get_elem? xs i)
    → ((i : ℕ) → i < f → get_elem? zs (i + (l - f)) ≡ get_elem? xs i)
    → drop (l - f) zs ≡ cut f l xs
raised_cut xs f l h k zs len same raised =
    list_eq _ _ (length-drop (l - f) zs ∙ omega (arith, length-cut xs f l h k)) at
  where
    front : length (take f xs) ≡ f
    front = length-take_le f xs (omega arith)

    at :
        (i : ℕ)
        → i < length (drop (l - f) zs)
        → get_elem? (drop (l - f) zs) i ≡ get_elem? (cut f l xs) i
    at i hi = get_elem?-drop (l - f) zs i ∙ elim (dec_lt i f) [
      | yes low ↦
          ap (get_elem? zs) (omega arith)
          ∙ raised i low
          ∙ sym (get_elem?-take f xs i low)
          ∙ sym (get_elem?-append_left (take f xs) (drop l xs) i (omega (arith, front)))
      | no high ↦
          same (l - f + i) (omega arith)
          ∙ ap (get_elem? xs) (omega (arith, front))
          ∙ sym (get_elem?-drop l xs (i - length (take f xs)))
          ∙ sym (get_elem?-append_right (take f xs) (drop l xs) i (omega (arith, front)))
    ]

module _ {ℓ} {A : Type ℓ} ⦃t : Element A⦄ {b : Buffer A} {xs : List A} (r : Represents b xs)
    (f l : ℕ) where
  -- The end of the method, from the pointer behind the elements to destroy on.
  abbrev finish : ℕ → Method A Iterator
  finish stop = do
    (λ b'. destroy_front (suc b'.size) stop b')
    (λ b'.
        ok
          (if b'.first == slot b.cap b.first l
            then begin b'
            else some (decrement b' (slot b.cap b.first l)))
          b')

  finish-ok :
      {p : ℕ} {b' : Buffer A}
      → f < l
      → l ≤ b.size
      → (q : Raised b xs f l p b')
      → (b'' : Buffer A) × (finish p b' ≡ ok (position b'' (f - 1)) b'')
        × Represents b'' (cut f l xs)
        × (b''.cap ≡ b.cap)
  finish-ok {p} {b'} h k q =
      let m = l - f in
      let first_lt : b.first < b.cap = omega (arith, r.first_in, r.size_le) in
      let same_slot : slot b'.cap b'.first m ≡ slot b.cap b.first m =
        ap₂ (λ c o. slot c o m) q.rewritten.cap_eq q.rewritten.first_eq in
      let (b'', ran, r'', cap_eq, first_eq, size_eq) =
        destroy_front-ok (suc b'.size) m b' q.zs q.rewritten.ring (omega arith)
          (omega (arith, q.rewritten.size_eq)) (omega (arith, q.rewritten.size_eq)) in
      let len : length q.zs ≡ length xs =
        q.rewritten.ring.length_eq ∙ q.rewritten.size_eq ∙ sym r.length_eq in
      (
        b'',
        ap (λ j. finish j b') (q.p_eq ∙ sym same_slot)
            ∙ ap
                (λ o. and_then o (λ _ c.
                  ok
                    (if c.first == slot b.cap b.first l
                      then begin c
                      else some (decrement c (slot b.cap b.first l)))
                    c))
                ran
            ∙ ap (λ j. ok j b'')
                (at_front b'' r'' (cap_eq ∙ q.rewritten.cap_eq) (first_eq ∙ same_slot)
                  (omega (arith, q.rewritten.size_eq, size_eq)) first_lt h k),
        subst (Represents b'')
            (raised_cut xs f l (omega arith) (omega (arith, r.length_eq)) q.zs len q.same q.raised)
            r'',
        cap_eq ∙ q.rewritten.cap_eq,
      )
    where
      at_front :
          (c : Buffer A) {ys : List A} (s : Represents c ys)
          → c.cap ≡ b.cap
          → c.first ≡ slot b.cap b.first (l - f)
          → c.size ≡ b.size - (l - f)
          → b.first < b.cap
          → f < l
          → l ≤ b.size
          → (if c.first == slot b.cap b.first l
              then begin c
              else some (decrement c (slot b.cap b.first l)))
            ≡ position c (f - 1)
      at_front c s cap_eq first_eq size_eq first_lt h k = elim (ℕ_discrete f 0) [
        | yes e ↦
            rw
              (==_of_eq c.first (slot b.cap b.first l)
                (first_eq ∙ ap (slot b.cap b.first) (omega arith)))
              (begin-position s ∙ ap (position c) (omega arith))
        | no ne ↦
            let before : decrement c (slot b.cap b.first l) ≡ slot b.cap b.first (l - 1) =
              ap (λ j. decrement c (slot b.cap b.first j)) (omega arith)
              ∙ decrement_at c cap_eq b.first first_lt (l - 1) in
            let index : slot b.cap b.first (l - 1) ≡ slot c.cap c.first (f - 1) =
              sym (slot_from b.cap b.first (l - f) (f - 1) (l - 1) (omega arith))
              ∙ ap₂ (λ c o. slot c o (f - 1)) (sym cap_eq) (sym first_eq) in
            rw
              (==_of_ne c.first (slot b.cap b.first l) (λ q.
                apart_from_end b.cap b.first (l - f) l first_lt (omega arith) (omega arith)
                  (omega (arith, r.size_le)) (sym first_eq ∙ q)))
              (ap some (before ∙ index) ∙ before_end s (f - 1) (omega arith))
      ]

  rerase_between-Ensures :
      f < l
      → l ≤ b.size
      → Ensures
          (BecomesAt b (cut f l xs) (f - 1))
          (Scattered b)
          (rerase_between (slot b.cap b.first f) (slot b.cap b.first l) b)
  unfolding rerase_between
  rerase_between-Ensures h k =
      Ensures-and_then (raise_loop-Ensures (suc b.size) f l b xs r h k (omega arith))
        (λ p b' q.
          let (b'', ran, r'', cap_eq) = finish-ok h k q in rw ran (returns (r'', cap_eq, refl)))
        (λ e b' q. q)

  -- In a buffer that represents the list xs, an erasure by rerase of the range from index f to
  -- index l, in this order and up to the size, returns or throws. If it returns, the buffer
  -- represents xs without the elements from f to l in the same capacity, and the iterator is that
  -- of index f where the range is empty, else of f - 1, where 0 - 1 is 0. If an element throws,
  -- the buffer represents some list of the old length in the same capacity.
  pub rerase_range_refines :
      f ≤ l
      → l ≤ b.size
      → Ensures
          (BecomesAt b (cut f l xs) (if f == l then f else f - 1))
          (Scattered b)
          (rerase_range (position b f) (position b l) b)
  unfolding rerase_range assert
  rerase_range_refines h k =
      let (_, order, _) = iterators_ordered r l f k (omega arith) in
      let ordered : ltb l f ≡ false = ground arith in
      rw (order ∙ ordered) (elim (ℕ_discrete f l) [
        | yes e ↦
            let same : same_iterator (position b f) (position b l) ≡ true =
              subst (λ j. same_iterator (position b f) (position b j) ≡ true) e
                (same_iterator-end r f) in
            let whole : cut f l xs ≡ xs =
              ap (λ j. take f xs ++ drop j xs) (sym e) ∙ take-append-drop f xs in
            subst
              (λ j.
                Ensures (BecomesAt b (cut f l xs) j) (Scattered b)
                  (chosen (position b f) (same_iterator (position b f) (position b l))))
              (sym (rw (==_of_eq f l e) refl))
              (subst
                (λ c. Ensures (BecomesAt b (cut f l xs) f) (Scattered b) (chosen (position b f) c))
                (sym same) (returns (subst (Represents b) (sym whole) r, refl, refl)))
        | no ne ↦
            subst
              (λ j.
                Ensures (BecomesAt b (cut f l xs) j) (Scattered b)
                  (chosen (position b f) (same_iterator (position b f) (position b l))))
              (sym (rw (==_of_ne f l ne) refl))
              (subst
                (λ it.
                  Ensures (BecomesAt b (cut f l xs) (f - 1)) (Scattered b)
                    (chosen it (same_iterator it (position b l))))
                (before_end r f (omega arith))
                (subst
                  (λ c.
                    Ensures (BecomesAt b (cut f l xs) (f - 1)) (Scattered b)
                      (chosen (some (slot b.cap b.first f)) c))
                  (sym (same_iterator-position r f l (omega arith) k))
                  (subst
                    (λ p.
                      Ensures (BecomesAt b (cut f l xs) (f - 1)) (Scattered b)
                        (rerase_between (slot b.cap b.first f) p b))
                    (sym (map_pointer-position r l k)) (rerase_between-Ensures (omega arith) k))))
      ])
    where
      chosen : Iterator → Bool → Outcome Error (Buffer A) Iterator
      chosen it c = elim c [
        | true ↦ ok it b
        | false ↦ elim it [
          | none ↦ fault
          | some p ↦ rerase_between p (map_pointer b (position b l)) b
        ]
      ]
