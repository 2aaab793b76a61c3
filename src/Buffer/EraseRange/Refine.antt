-- ===== src/Buffer/EraseRange/Refine.antt =====
-- base.hpp, `erase` of a range against the list that the buffer stands for.
use circular_buffer.Common.{
  ℕ, zero, suc, ◌+◌, ◌-◌, ◌≤◌, ◌<◌, ◌≡◌, refl, sym, ap, ap₂, ◌∙◌, subst, Bool, true, false, none,
  some, List, ◌++◌, ◌==◌, ==_of_eq, ==_of_ne, ltb, if◌then◌else◌, length, get_elem?, take, drop,
  length-take_le, length-drop, length-append, get_elem?-take, get_elem?-drop, get_elem?-append_left,
  get_elem?-append_right, list_eq, take-take, take-append-drop, arith,
}
use circular_buffer.Common.Outcome.{
  Error, Outcome, ok, fault, ◌>>◌, Ensures, returns, Ensures-and_then, and_then,
}
use circular_buffer.Element.{Element}
use circular_buffer.Buffer.{Buffer, Iterator, Method, assert, end}
use circular_buffer.Buffer.Slot.{slot, slot-injective}
use circular_buffer.Buffer.Represents.{Represents, position, BecomesAt}
use circular_buffer.Buffer.Push.Pop.{without_back, Represents-without_back, back_destroyed}
use circular_buffer.Buffer.Iterate.Order.{iterators_ordered}
use circular_buffer.Buffer.Iterate.Steps.{before_end}
use circular_buffer.Buffer.Block.Walk.{same_iterator-position, same_iterator-end}
use circular_buffer.Buffer.Insert.{same_iterator}
use circular_buffer.Buffer.EraseRange.{lower_loop, destroy_back, erase_between, erase_range}
use circular_buffer.Buffer.EraseRange.Lower.{Lowered, Scattered, lower_loop-Ensures}
use native.Mathlib.Decide.{ℕ_discrete, dec_lt}

module _ {ℓ} {A : Type ℓ} ⦃t : Element A⦄ where
  -- One round of the loop.
  destroy_back-round :
      (n stop : ℕ) {b : Buffer A} {zs : List A} (r : Represents b zs) (some_items : 0 < b.size)
      → destroy_back (suc n) stop b ≡ elim (slot b.cap b.first (b.size - 1) == stop) [
        | true ↦ ok tt (without_back r some_items)
        | false ↦ destroy_back n stop (without_back r some_items)
      ]
  unfolding destroy_back
  destroy_back-round n stop r some_items =
      ap
        (λ o.
          and_then o
            (λ _ b'. elim (b'.last == stop) [ true ↦ ok tt b' | false ↦ destroy_back n stop b' ]))
        (back_destroyed r some_items)

  -- The elements from the index `m` on are destroyed, and `m_last` then is at that index.
  destroy_back-ok :
      (n m : ℕ) (b : Buffer A) (zs : List A) (r : Represents b zs)
      → m < b.size
      → b.size ≤ m + n
      → (b' : Buffer A) × (destroy_back n (slot b.cap b.first m) b ≡ ok tt b')
        × Represents b' (take m zs)
        × (b'.cap ≡ b.cap)
        × (b'.first ≡ b.first)
        × (b'.size ≡ m)
  destroy_back-ok zero m b zs r h fuel = absurd (omega arith)
  destroy_back-ok (suc n) m b zs r h fuel =
      let some_items : 0 < b.size = omega arith in
      let c = without_back r some_items in
      let rest : Represents c (take (b.size - 1) zs) = Represents-without_back r some_items in
      elim (ℕ_discrete (b.size - 1) m) [
        | yes e ↦ (
          c,
          destroy_back-round n (slot b.cap b.first m) r some_items
              ∙ rw
                  (==_of_eq (slot b.cap b.first (b.size - 1)) (slot b.cap b.first m)
                    (ap (slot b.cap b.first) e))
                  refl,
          subst (λ k. Represents c (take k zs)) e rest,
          refl,
          refl,
          e,
        )
        | no ne ↦
            let apart : ¬ (slot b.cap b.first (b.size - 1) ≡ slot b.cap b.first m) = λ q. ne (
              slot-injective b.cap b.first (b.size - 1) m (omega (arith, r.first_in, r.size_le))
                (omega (arith, r.size_le)) (omega (arith, r.size_le)) q) in
            let (b', ran, r', cap_eq, first_eq, size_eq) =
              destroy_back-ok n m c (take (b.size - 1) zs) rest (omega arith) (omega arith) in
            (
              b',
              destroy_back-round n (slot b.cap b.first m) r some_items
                  ∙ rw (==_of_ne (slot b.cap b.first (b.size - 1)) (slot b.cap b.first m) apart)
                      ran,
              subst (Represents b') (take-take m (b.size - 1) zs (omega arith)) r',
              cap_eq,
              first_eq,
              size_eq,
            )
      ]

-- `xs` without the elements from the index `f` up to `l`
abbrev pub cut {ℓ} : {A : Type ℓ} → (f l : ℕ) → List A → List A
cut f l xs = take f xs ++ drop l xs

module _ {ℓ} {A : Type ℓ} (xs : List A) (f l : ℕ) (h : f ≤ l) (k : l ≤ length xs) where
  pub length-cut : length (cut f l xs) ≡ f + (length xs - l)
  length-cut = omega (
    arith,
    length-append (take f xs) (drop l xs),
    length-take_le f xs (omega arith),
    length-drop l xs,
  )

  -- What lies in front of the index `f` and what has been lowered, up to the new size.
  lowered_cut :
      (zs : List A)
      → length zs ≡ length xs
      → ((i : ℕ) → i < f → get_elem? zs i ≡ get_elem? xs i)
      → ((i : ℕ) → f ≤ i → i + (l - f) < length xs → get_elem? zs i ≡ get_elem? xs (i + (l - f)))
      → take (f + (length xs - l)) zs ≡ cut f l xs
  lowered_cut zs len same lowered =
      list_eq _ _ (length-take_le (f + (length xs - l)) zs (omega arith) ∙ sym length-cut) at
    where
      front : length (take f xs) ≡ f
      front = length-take_le f xs (omega arith)

      at :
          (i : ℕ)
          → i < length (take (f + (length xs - l)) zs)
          → get_elem? (take (f + (length xs - l)) zs) i ≡ get_elem? (cut f l xs) i
      at i hi =
          let bound : i < f + (length xs - l) =
            omega (arith, length-take_le (f + (length xs - l)) zs (omega arith)) in
          get_elem?-take (f + (length xs - l)) zs i bound ∙ elim (dec_lt i f) [
            | yes low ↦
                same i low
                ∙ sym (get_elem?-take f xs i low)
                ∙ sym (get_elem?-append_left (take f xs) (drop l xs) i (omega (arith, front)))
            | no high ↦
                lowered i (omega arith) (omega arith)
                ∙ ap (get_elem? xs) (omega (arith, front))
                ∙ sym (get_elem?-drop l xs (i - length (take f xs)))
                ∙ sym (get_elem?-append_right (take f xs) (drop l xs) i (omega (arith, front)))
          ]

module _ {ℓ} {A : Type ℓ} ⦃t : Element A⦄ {b : Buffer A} {xs : List A} (r : Represents b xs)
    (f l : ℕ) where
  -- The end of the method, from the iterator at the new size on.
  abbrev finish : Iterator → Method A Iterator
  finish it = do
    (λ b'. elim it [ none ↦ fault | some q ↦ destroy_back (suc b'.size) q b' ])
    (λ b'. ok (if b'.last == slot b.cap b.first f then end b' else some (slot b.cap b.first f)) b')

  finish-ok :
      {it : Iterator} {b' : Buffer A}
      → f < l
      → l ≤ b.size
      → (q : Lowered b xs f l it b')
      → (b'' : Buffer A) × (finish it b' ≡ ok (position b'' f) b'')
        × Represents b'' (cut f l xs)
        × (b''.cap ≡ b.cap)
  unfolding end
  finish-ok {it} {b'} h k q =
      let m = f + (b.size - l) in
      let same_slot : slot b'.cap b'.first m ≡ slot b.cap b.first m =
        ap₂ (λ c o. slot c o m) q.rewritten.cap_eq q.rewritten.first_eq in
      let here : it ≡ some (slot b'.cap b'.first m) =
        q.it_eq ∙ sym (before_end r m (omega arith)) ∙ ap some (sym same_slot) in
      let (b'', ran, r'', cap_eq, first_eq, size_eq) =
        destroy_back-ok (suc b'.size) m b' q.zs q.rewritten.ring
          (omega (arith, q.rewritten.size_eq)) (omega arith) in
      let len : length q.zs ≡ length xs =
        q.rewritten.ring.length_eq ∙ q.rewritten.size_eq ∙ sym r.length_eq in
      let same : slot b''.cap b''.first m ≡ slot b.cap b.first m =
        ap₂ (λ c o. slot c o m) cap_eq first_eq ∙ same_slot in
      let at_last : b''.last ≡ slot b.cap b.first m =
        r''.last_eq ∙ ap (slot b''.cap b''.first) size_eq ∙ same in
      (
        b'',
        ap (λ j. finish j b') here
            ∙ ap
                (λ o. and_then o (λ _ c.
                  ok (if c.last == slot b.cap b.first f then none else some (slot b.cap b.first f))
                    c))
                ran
            ∙ ap (λ j. ok j b'')
                (at_front m b'' at_last size_eq (cap_eq ∙ q.rewritten.cap_eq)
                  (first_eq ∙ q.rewritten.first_eq) (omega arith)),
        subst (Represents b'')
            (ap (λ n. take (f + (n - l)) q.zs) (sym r.length_eq)
              ∙ lowered_cut xs f l (omega arith) (omega (arith, r.length_eq)) q.zs len q.same
                  (λ i hi bound. q.lowered i hi (omega (arith, r.length_eq))))
            r'',
        cap_eq ∙ q.rewritten.cap_eq,
      )
    where
      at_front :
          (m : ℕ) (c : Buffer A)
          → c.last ≡ slot b.cap b.first m
          → c.size ≡ m
          → c.cap ≡ b.cap
          → c.first ≡ b.first
          → (f ≤ m) × (m < b.size)
          → (if c.last == slot b.cap b.first f then none else some (slot b.cap b.first f))
            ≡ position c f
      at_front m c last_eq size_eq cap_eq first_eq (low, high) = elim (ℕ_discrete f m) [
        | yes e ↦
            rw
              (
                ==_of_eq c.last (slot b.cap b.first f) (last_eq ∙ ap (slot b.cap b.first) (sym e)),
                ==_of_eq f c.size (e ∙ sym size_eq),
              )
              refl
        | no ne ↦
            rw
              (
                ==_of_ne c.last (slot b.cap b.first f) (λ q. ne (
                    slot-injective b.cap b.first f m (omega (arith, r.first_in, r.size_le))
                      (omega (arith, r.size_le)) (omega (arith, r.size_le)) (sym q ∙ last_eq))),
                ==_of_ne f c.size (λ q. ne (q ∙ size_eq)),
              )
              (ap some (sym (ap₂ (λ c o. slot c o f) cap_eq first_eq)))
      ]

  erase_between-Ensures :
      f < l
      → l ≤ b.size
      → Ensures
          (BecomesAt b (cut f l xs) f)
          (Scattered b)
          (erase_between (slot b.cap b.first f) (position b l) b)
  unfolding erase_between
  erase_between-Ensures h k =
      Ensures-and_then
        (subst
          (λ it.
            Ensures (Lowered b xs f l) (Scattered b) (lower_loop (suc b.size) it (position b l) b))
          (sym (before_end r f (omega arith)))
          (lower_loop-Ensures (suc b.size) f l b xs r h k (omega arith)))
        (λ it b' q.
          let (b'', ran, r'', cap_eq) = finish-ok h k q in rw ran (returns (r'', cap_eq, refl)))
        (λ e b' q. q)

  -- In a buffer that represents the list xs, an erasure of the range from index f to index l, in
  -- this order and up to the size, returns or throws. If it returns, the buffer represents xs
  -- without the elements from f to l in the same capacity, and the iterator is that of index f. If
  -- an element throws, the buffer represents some list of the old length in the same capacity.
  pub erase_range_refines :
      f ≤ l
      → l ≤ b.size
      → Ensures
          (BecomesAt b (cut f l xs) f)
          (Scattered b)
          (erase_range (position b f) (position b l) b)
  unfolding erase_range assert
  erase_range_refines h k =
      let (_, order, _) = iterators_ordered r l f k (omega arith) in
      let ordered : ltb l f ≡ false = ground arith in
      rw (order ∙ ordered) (elim (ℕ_discrete f l) [
        | yes e ↦
            let same : same_iterator (position b f) (position b l) ≡ true =
              subst (λ j. same_iterator (position b f) (position b j) ≡ true) e
                (same_iterator-end r f) in
            let whole : cut f l xs ≡ xs =
              ap (λ j. take f xs ++ drop j xs) (sym e) ∙ take-append-drop f xs in
            subst
              (λ c. Ensures (BecomesAt b (cut f l xs) f) (Scattered b) (chosen (position b f) c))
              (sym same) (returns (subst (Represents b) (sym whole) r, refl, refl))
        | no ne ↦
            subst
              (λ it.
                Ensures (BecomesAt b (cut f l xs) f) (Scattered b)
                  (chosen it (same_iterator it (position b l))))
              (before_end r f (omega arith))
              (subst
                (λ c.
                  Ensures (BecomesAt b (cut f l xs) f) (Scattered b)
                    (chosen (some (slot b.cap b.first f)) c))
                (sym (same_iterator-position r f l (omega arith) k))
                (erase_between-Ensures (omega arith) k))
      ])
    where
      chosen : Iterator → Bool → Outcome Error (Buffer A) Iterator
      chosen it c = elim c [
        | true ↦ ok it b
        | false ↦ elim it [ none ↦ fault | some p ↦ erase_between p (position b l) b ]
      ]
