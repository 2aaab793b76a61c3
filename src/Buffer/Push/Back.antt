-- ===== src/Buffer/Push/Back.antt =====
-- base.hpp, `push_back` against the list that the buffer stands for.
use circular_buffer.Common.{
  ℕ, ◌+◌, ◌<◌, ◌≡◌, refl, sym, ap, ◌∙◌, subst, inl, inr, false, none, some, List, [], ◌∷◌, ◌++◌,
  ◌==◌, ==_of_ne, ==_of_eq, Bool-cases, get_elem?, drop, length-append, length-drop, get_elem?-drop,
  get_elem?-append_left, get_elem?-snoc, arith,
}
use circular_buffer.Common.Outcome.{Ensures, returns, throws, ◌>>◌}
use circular_buffer.Element.{Element}
use circular_buffer.Spec.{keep_last, keep_last_all, keep_last_none, keep_last_snoc}
use circular_buffer.Buffer.{Buffer, update, increment, replace, increment_last, first_to_last}
use circular_buffer.Buffer.Slot.{slot, slot-lt, slot-slot, slot_turn}
use circular_buffer.Buffer.Pointers.{increment-slot}
use circular_buffer.Buffer.Memory.{
  written, construct-ok, construct-throws, replace-ok, replace-throws,
}
use circular_buffer.Buffer.Represents.{
  spoilt, torn_at, Represents-torn, Represents, update_self, update_ne, update-slot_ne, live,
  Represents-clock, Becomes, Unwinds,
}
use circular_buffer.Buffer.Push.{push_back}
use native.Mathlib.Decide.{ℕ_discrete}

module _ {ℓ} {A : Type ℓ} ⦃t : Element A⦄ {b : Buffer A} {xs : List A} (r : Represents b xs)
    (item : A) (k : ℕ) where
  -- The buffer with `item` built in the cell behind its elements.
  abbrev pub appended : Buffer A
  appended = record b {
    cell = update b.cell b.last (some item);
    last = slot b.cap b.first (b.size + 1);
    size = b.size + 1;
    clock = k;
  }

  -- The full buffer with `item` in place of its oldest element.
  abbrev pub rolled : Buffer A
  rolled = record b {
    cell = update b.cell b.last (some item);
    first = slot b.cap b.first 1;
    last = slot b.cap b.first 1;
    clock = k;
  }

  module _ (room : b.size < b.cap) where
    appended_held :
        (i : ℕ)
        → i < b.size + 1
        → appended.cell (slot b.cap b.first i) ≡ get_elem? (xs ++ item ∷ []) i
    appended_held i h = elim (ℕ_discrete i b.size) [
      | yes e ↦
          rw (e, ← r.last_eq, update_self b.cell (some item) b.last, ← r.length_eq)
            (sym (get_elem?-snoc xs item))
      | no ne ↦ rw r.last_eq (
          update-slot_ne b.cell (some item) b.cap b.first b.size i (omega (arith, r.first_in)) room
            (omega arith) (λ e. ne (sym e))
          ∙ r.held i (omega arith)
          ∙ sym (get_elem?-append_left xs (item ∷ []) i (omega (arith, r.length_eq))))
    ]

    pub last_in : b.last < b.cap
    last_in = rw r.last_eq (slot-lt b.cap b.first b.size (omega arith))

    pub Represents-appended : Represents appended (xs ++ item ∷ [])
    Represents-appended = record {
      first_in = r.first_in;
      size_le = omega arith;
      last_eq = refl;
      length_eq = omega (arith, length-append xs (item ∷ []), r.length_eq);
      held = appended_held;
      raw = λ i h k s. rw r.last_eq (
          update-slot_ne b.cell (some item) b.cap b.first b.size i (omega (arith, r.first_in)) room
            k (λ e. absurd (omega arith))
          ∙ r.raw i (omega arith) k s);
      beyond = λ p h.
          update_ne b.cell (some item) b.last p (λ e. absurd (omega (arith, last_in)))
          ∙ r.beyond p h;
    }

  module _ (none_free : b.size ≡ b.cap) (some_cells : 0 < b.cap) where
    first_lt : b.first < b.cap
    first_lt = omega (arith, r.first_in)

    pub last_first : b.last ≡ slot b.cap b.first 0
    last_first = r.last_eq ∙ slot_turn b.cap b.first b.size 0 (omega arith)

    rolled_held :
        (i : ℕ)
        → i < b.size
        → rolled.cell (slot b.cap (slot b.cap b.first 1) i) ≡ get_elem? (drop 1 xs ++ item ∷ []) i
    rolled_held i h = elim (ℕ_discrete (i + 1) b.cap) [
      | yes e ↦
          rw
            (
              last_first,
              slot-slot b.cap b.first 1 i,
              slot_turn b.cap b.first (1 + i) 0 (omega arith),
            )
            (update_self b.cell (some item) (slot b.cap b.first 0)
              ∙ sym (get_elem?-snoc (drop 1 xs) item)
              ∙ ap (get_elem? (drop 1 xs ++ item ∷ []))
                  (omega (arith, r.length_eq, length-drop 1 xs)))
      | no ne ↦
          rw (last_first, slot-slot b.cap b.first 1 i)
            (update-slot_ne b.cell (some item) b.cap b.first 0 (1 + i) first_lt some_cells
                (omega arith) (λ z. absurd (omega arith))
              ∙ r.held (1 + i) (omega arith)
              ∙ sym (get_elem?-drop 1 xs i)
              ∙ sym (
                  get_elem?-append_left (drop 1 xs) (item ∷ []) i
                    (omega (arith, r.length_eq, length-drop 1 xs))))
    ]

    pub Represents-rolled : Represents rolled (drop 1 xs ++ item ∷ [])
    Represents-rolled = record {
      first_in = omega (arith, slot-lt b.cap b.first 1 some_cells);
      size_le = omega arith;
      last_eq =
          sym (
            slot-slot b.cap b.first 1 b.size
            ∙ slot_turn b.cap b.first (1 + b.size) 1 (omega arith));
      length_eq =
          omega (arith, length-append (drop 1 xs) (item ∷ []), length-drop 1 xs, r.length_eq);
      held = rolled_held;
      raw = λ i h k s. absurd (omega arith);
      beyond = λ p h.
          update_ne b.cell (some item) b.last p
            (λ e. absurd (omega (arith, last_first, slot-lt b.cap b.first 0 some_cells)))
          ∙ r.beyond p h;
    }

module _ {ℓ} {A : Type ℓ} ⦃t : Element A⦄ {b : Buffer A} {xs : List A} (item : A)
    (r : Represents b xs) where
  -- The part of `push_back` that meets a free cell.
  push_back_room :
      b.size < b.cap
      → Ensures
          (Becomes b (keep_last b.cap (xs ++ item ∷ [])))
          (Unwinds b (spoilt b 0 item xs))
          (push_back item b)
  unfolding push_back
  push_back_room room =
      rw (==_of_ne b.cap b.size (omega arith)) (elim (Bool-cases (t.throws_at b.clock)) [
        | inl storm ↦
            rw (construct-throws b b.last item storm) (throws (Represents-clock r _, refl, refl))
        | inr calm ↦
            rw (construct-ok b b.last item (last_in r item 0 room) vacant calm)
              (returns (rw next (rw whole (Represents-appended r item _ room)), refl))
      ])
    where
      vacant : t.scalar ≡ false → b.cell b.last ≡ none
      vacant s = ap b.cell r.last_eq ∙ r.raw b.size (omega arith) room s

      next : increment (written b b.last (some item)) b.last ≡ slot b.cap b.first (b.size + 1)
      next =
          let b' = written b b.last (some item) in
          ap (increment b') r.last_eq ∙ increment-slot b' b.first (omega (arith, r.first_in)) b.size

      whole : keep_last b.cap (xs ++ item ∷ []) ≡ xs ++ item ∷ []
      whole =
          keep_last_all b.cap (xs ++ item ∷ [])
            (omega (arith, length-append xs (item ∷ []), r.length_eq))

  push_back_full :
      b.size ≡ b.cap
      → Ensures
          (Becomes b (keep_last b.cap (xs ++ item ∷ [])))
          (Unwinds b (spoilt b 0 item xs))
          (push_back item b)
  unfolding push_back
  push_back_full none_free =
      rw (==_of_eq b.cap b.size (omega arith)) (elim (Bool-cases (b.size == 0)) [
        | inl nothing ↦ rw nothing (
            returns (
              rw (keep_last_none b.cap xs item (omega (arith, r.length_eq)) (ground arith)) r,
              refl,
            ))
        | inr something ↦ rw something (overwrite (ground arith))
      ])
    where
      next : 0 < b.cap → increment (written b b.last (some item)) b.last ≡ slot b.cap b.first 1
      next some_cells =
          let b' = written b b.last (some item) in
          ap (increment b') (last_first r item 0 none_free some_cells)
          ∙ increment-slot b' b.first (omega (arith, r.first_in)) 0
          ∙ ap (slot b.cap b.first) (omega arith)

      overwrite :
          0 < b.cap
          → Ensures
              (Becomes b (keep_last b.cap (xs ++ item ∷ [])))
              (Unwinds b (torn_at 0 item xs))
              ((replace b.last item >> (increment_last >> first_to_last)) b)
      overwrite some_cells =
          let (w, oldest) = live r 0 (omega arith) in
          let oldest_item : get_elem? xs 0 ≡ some w = sym (r.held 0 (omega arith)) ∙ oldest in
          let held = ap b.cell (last_first r item 0 none_free some_cells) ∙ oldest in
          elim (Bool-cases (t.throws_at b.clock)) [
            | inl storm ↦ rw (replace-throws b b.last item w held storm) (
                throws (
                  subst
                      (λ p.
                        Represents
                          (record b {
                            cell = update b.cell p (some (t.torn w item));
                            clock = b.clock + 1;
                          })
                          (torn_at 0 item xs))
                      (sym (last_first r item 0 none_free some_cells))
                      (Represents-torn r 0 item (omega arith) oldest_item),
                  refl,
                  refl,
                ))
            | inr calm ↦ rw (replace-ok b b.last item w held calm) (
                returns (
                  rw
                      (
                        next some_cells,
                        keep_last_snoc b.cap xs item (omega (arith, r.length_eq)) some_cells,
                      )
                      (Represents-rolled r item _ none_free some_cells),
                  refl,
                ))
          ]

  -- In a buffer that represents the list xs, push_back returns or leaves an element's exception.
  -- If it returns, the capacity is as before and the buffer represents the last cap elements of xs
  -- followed by the item; if an element throws, the capacity is as before and the buffer
  -- represents xs where it was not full, else xs with its first element as the assignment that
  -- threw has left it.
  pub push_back_refines :
      Ensures
        (Becomes b (keep_last b.cap (xs ++ item ∷ [])))
        (Unwinds b (spoilt b 0 item xs))
        (push_back item b)
  push_back_refines = elim (ℕ_discrete b.size b.cap) [
    | yes e ↦ push_back_full e
    | no ne ↦ push_back_room (omega (arith, r.size_le))
  ]
