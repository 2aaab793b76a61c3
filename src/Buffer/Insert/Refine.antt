-- ===== src/Buffer/Insert/Refine.antt =====
-- base.hpp, `insert` of one element against the list that the buffer stands for.
use circular_buffer.Common.{
  ℕ, zero, suc, ◌+◌, ◌-◌, ◌≤◌, ◌<◌, ◌≡◌, refl, sym, ap, ◌∙◌, subst, subst₂, drop-append_one, inl,
  inr, true, false, Option, none, some, List, [], ◌∷◌, ◌++◌, ==_of_ne, ==_of_eq, ==-refl,
  Bool-cases, length, drop, insert_at, length-insert_at, set, length-set, insert_at-length, arith,
}
use circular_buffer.Common.Outcome.{Error, element_error, Outcome, Ensures, returns, throws}
use circular_buffer.Element.{Element}
use circular_buffer.Spec.{keep_last, keep_last_all, keep_last_over}
use circular_buffer.Buffer.{Buffer, Iterator, update, full, empty, begin, increment}
use circular_buffer.Buffer.Slot.{slot, slot-lt, slot-zero, slot_from, slot_turn, slot-injective}
use circular_buffer.Buffer.Pointers.{increment-slot}
use circular_buffer.Buffer.Memory.{
  written, construct_or_replace-ok, construct_or_replace-throws, construct_or_replace-throws_live,
  IsReady,
}
use circular_buffer.Buffer.Represents.{
  Represents, live, Represents-clock, Represents-set, position, begin-position, BecomesAt, Survives,
}
use circular_buffer.Buffer.Push.Back.{Represents-appended, Represents-rolled, last_first}
use circular_buffer.Buffer.Insert.{insert, insert_item, insert_finish, same_iterator}
use circular_buffer.Buffer.Insert.Before.{insert_item_room}
use circular_buffer.Buffer.Insert.Full.{insert_item_full}
use native.Mathlib.Decide.{ℕ_discrete}

-- How many elements an insertion of one element drops.
abbrev pub excess {ℓ} : {A : Type ℓ} → Buffer A → ℕ
excess b = b.size + 1 - b.cap

module _ {ℓ} {A : Type ℓ} ⦃t : Element A⦄ {b : Buffer A} {xs : List A} (r : Represents b xs)
    (item : A) where
  -- The element that an insertion at the end throws for.
  survived : Survives b xs element_error (record b { clock = b.clock + 1 })
  survived = (
    xs,
    Represents-clock r (b.clock + 1),
    refl,
    refl,
    omega (arith, r.length_eq),
    omega (arith, r.length_eq),
  )

  -- The element that has been overwritten, the oldest, is torn.
  survived_torn :
      (w : A)
      → b.size ≡ b.cap
      → 0 < b.cap
      → Survives b xs element_error (written b b.last (some (t.torn w item)))
  survived_torn w none_free some_cells =
      let changed = set xs 0 (t.torn w item) in
      let len = length-set xs 0 (t.torn w item) in
      (
        changed,
        subst
            (λ p.
              Represents
                (record b { cell = update b.cell p (some (t.torn w item)); clock = b.clock + 1 })
                changed)
            (sym (last_first r item 0 none_free some_cells))
            (Represents-set r 0 (t.torn w item) (b.clock + 1) (omega arith)),
        refl,
        refl,
        omega (arith, len, r.length_eq),
        omega (arith, len, r.length_eq),
      )

  end_room :
      b.size < b.cap
      → Ensures (BecomesAt b (xs ++ item ∷ []) b.size) (Survives b xs) (insert_item none item b)
  unfolding insert_item insert_finish full
  end_room room =
      rw (==_of_ne b.cap b.size (omega arith)) (elim (Bool-cases (t.throws_at b.clock)) [
        | inl storm ↦ rw (construct_or_replace-throws b b.last item storm) (throws survived)
        | inr calm ↦ rw (construct_or_replace-ok b b.last item true ready calm) (
            rw (==_of_ne b.cap b.size (omega arith)) (
              returns (
                rw next (Represents-appended r item _ room),
                refl,
                rw (==_of_ne b.size (b.size + 1) (omega arith)) (ap some r.last_eq),
              )))
      ])
    where
      ready : IsReady true b b.last
      ready = (
        rw r.last_eq (slot-lt b.cap b.first b.size (omega arith)),
        λ s. ap b.cell r.last_eq ∙ r.raw b.size (omega arith) room s,
      )

      next : increment (written b b.last (some item)) b.last ≡ slot b.cap b.first (b.size + 1)
      next =
          let b' = written b b.last (some item) in
          ap (increment b') r.last_eq ∙ increment-slot b' b.first (omega (arith, r.first_in)) b.size

  end_full :
      b.size ≡ b.cap
      → 0 < b.cap
      → Ensures
          (BecomesAt b (drop 1 xs ++ item ∷ []) (b.cap - 1))
          (Survives b xs)
          (insert_item none item b)
  unfolding insert_item insert_finish full
  end_full none_free some_cells =
      rw (==_of_eq b.cap b.size (omega arith)) (elim (Bool-cases (t.throws_at b.clock)) [
        | inl storm ↦
            let (w, held) = ready in
            rw (construct_or_replace-throws_live b b.last item w held storm)
              (throws (survived_torn w none_free some_cells))
        | inr calm ↦ rw (construct_or_replace-ok b b.last item false ready calm) (
            rw (==_of_eq b.cap b.size (omega arith)) (
              returns (
                rw next (Represents-rolled r item _ none_free some_cells),
                refl,
                rw (next, ==_of_ne (b.cap - 1) b.size (omega arith)) (ap some there),
              )))
      ])
    where
      zero_last : b.last ≡ slot b.cap b.first 0
      zero_last = last_first r item 0 none_free some_cells

      ready : IsReady false b b.last
      ready = let (w, e) = live r 0 (omega arith) in (w, ap b.cell zero_last ∙ e)

      next : increment (written b b.last (some item)) b.last ≡ slot b.cap b.first 1
      next =
          let b' = written b b.last (some item) in
          ap (increment b') zero_last
          ∙ increment-slot b' b.first (omega (arith, r.first_in)) 0
          ∙ ap (slot b.cap b.first) (omega arith)

      there : b.last ≡ slot b.cap (slot b.cap b.first 1) (b.cap - 1)
      there =
          zero_last
          ∙ sym (
              slot_from b.cap b.first 1 (b.cap - 1) b.cap (omega arith)
              ∙ slot_turn b.cap b.first b.cap 0 (omega arith))

  same_refl : (it : Option ℕ) → same_iterator it it ≡ true
  same_refl none = refl
  same_refl (some p) = ==-refl p

  not_begin : (k : ℕ) → 0 < k → k ≤ b.size → same_iterator (position b k) (begin b) ≡ false
  unfolding begin empty
  not_begin k p h = elim (ℕ_discrete k b.size) [
    | yes e ↦ rw (==_of_eq k b.size e, ==_of_ne b.size 0 (omega arith))
    | no ne ↦
        rw (==_of_ne k b.size ne, ==_of_ne b.size 0 (omega arith))
          (==_of_ne (slot b.cap b.first k) b.first (λ e. absurd (
            omega (
              arith,
              slot-injective b.cap b.first k 0 inside (omega (arith, r.size_le))
                  (omega (arith, r.size_le)) (e ∙ sym (slot-zero b.cap b.first inside)),
            ))))
  ]
    where
      inside : b.first < b.cap
      inside = omega (arith, r.first_in, r.size_le)

  -- The same outcome under other names for the list and the index.
  retarget :
      {ys zs : List A} {i j : ℕ} {o : Outcome Error (Buffer A) Iterator}
      → ys ≡ zs
      → i ≡ j
      → Ensures (BecomesAt b ys i) (Survives b xs) o
      → Ensures (BecomesAt b zs j) (Survives b xs) o
  retarget {o = o} e f h = subst₂ (λ l m. Ensures (BecomesAt b l m) (Survives b xs) o) e f h

  at_last : (k : ℕ) → k ≡ b.size → insert_at k item xs ≡ xs ++ item ∷ []
  at_last k e = ap (λ m. insert_at m item xs) (e ∙ sym r.length_eq) ∙ insert_at-length item xs

  insert_room :
      (k : ℕ)
      → k ≤ b.size
      → b.size < b.cap
      → Ensures (BecomesAt b (insert_at k item xs) k) (Survives b xs) (insert (position b k) item b)
  unfolding insert full
  insert_room k h room = rw (==_of_ne b.cap b.size (omega arith)) (elim (ℕ_discrete k b.size) [
    | yes e ↦ rw (==_of_eq k b.size e) (retarget (sym (at_last k e)) (sym e) (end_room room))
    | no ne ↦ rw (==_of_ne k b.size ne) (insert_item_room r item k (omega arith) room)
  ])

  insert_full :
      (k : ℕ)
      → k ≤ b.size
      → b.size ≡ b.cap
      → Ensures
          (BecomesAt b (drop 1 (insert_at k item xs)) (k - 1))
          (Survives b xs)
          (insert (position b k) item b)
  unfolding insert full
  insert_full zero h none_free =
      rw (==_of_eq b.cap b.size (omega arith), ← begin-position r, same_refl (begin b))
        (returns (r, refl, begin-position r))
  insert_full (suc k) h none_free =
      rw (==_of_eq b.cap b.size (omega arith), not_begin (suc k) (omega arith) h)
        (elim (ℕ_discrete (suc k) b.size) [
          | yes e ↦ rw (==_of_eq (suc k) b.size e) (
              retarget
                (sym (
                  ap (drop 1) (at_last (suc k) e)
                  ∙ drop-append_one xs (item ∷ []) (omega (arith, r.length_eq))))
                (omega arith) (end_full none_free (omega arith)))
          | no ne ↦
              rw (==_of_ne (suc k) b.size ne)
                (insert_item_full r item (suc k) (omega arith) (omega arith) none_free)
        ])

  -- In a buffer that represents the list xs, an insertion at the iterator of an index k up to the
  -- size (end() is that of the size) returns or leaves an element's exception, and never runs into
  -- undefined behaviour. If it returns, the capacity is as before, the buffer represents the last
  -- cap elements of xs with the item put in at k, and the iterator points to the item, or is that
  -- of index 0 where the item itself is dropped. If an element throws, the buffer still represents
  -- a list, of as many elements or one more.
  pub insert_refines :
      (k : ℕ)
      → k ≤ b.size
      → Ensures
          (BecomesAt b (keep_last b.cap (insert_at k item xs)) (k - excess b))
          (Survives b xs)
          (insert (position b k) item b)
  insert_refines k h = elim (ℕ_discrete b.size b.cap) [
    | yes e ↦
        retarget (sym (keep_last_over b.cap (insert_at k item xs) (omega (arith, more))))
          (omega arith) (insert_full k h e)
    | no ne ↦
        retarget (sym (keep_last_all b.cap (insert_at k item xs) (omega (arith, more, r.size_le))))
          (omega (arith, r.size_le)) (insert_room k h (omega (arith, r.size_le)))
  ]
    where
      more : length (insert_at k item xs) ≡ b.size + 1
      more = length-insert_at k item xs ∙ ap (λ n. n + 1) r.length_eq
