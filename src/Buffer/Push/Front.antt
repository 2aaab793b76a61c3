-- ===== src/Buffer/Push/Front.antt =====
-- base.hpp, `push_front` against the list that the buffer stands for.
use circular_buffer.Common.{
  ℕ, zero, suc, ◌+◌, ◌-◌, ◌≤◌, ◌<◌, ◌≡◌, refl, sym, ap, ◌∙◌, inl, inr, false, min, none, some, List,
  ◌∷◌, ==_of_ne, ==_of_eq, Bool-cases, get_elem?, length-take, get_elem?-take, arith,
}
use circular_buffer.Common.Outcome.{ok, Ensures, returns, throws}
use circular_buffer.Element.{Element}
use circular_buffer.Spec.{keep_first, keep_first_none}
use circular_buffer.Buffer.{Buffer, update, increment, decrement, empty}
use circular_buffer.Buffer.Slot.{slot, slot-lt, slot-zero, slot_turn, slot_before}
use circular_buffer.Buffer.Pointers.{decrement_one, increment_at}
use circular_buffer.Buffer.Memory.{
  written, ticked, construct-ok, construct-throws, replace-ok, replace-throws,
}
use circular_buffer.Buffer.Represents.{
  spoilt, torn_at, Represents-torn, Represents, update_self, update_ne, update-slot_ne, live,
  Represents-clock, Becomes, Unwinds,
}
use circular_buffer.Buffer.Push.{push_front}
use native.Mathlib.Decide.{ℕ_discrete}

module _ {ℓ} {A : Type ℓ} ⦃t : Element A⦄ {b : Buffer A} {xs : List A} (r : Represents b xs)
    (item : A) (some_cells : 0 < b.cap) where
  -- The cell before `m_first`.
  abbrev pub front : ℕ
  front = slot b.cap b.first (b.cap - 1)

  first_lt : b.first < b.cap
  first_lt = omega (arith, r.first_in)

  pub front_lt : front < b.cap
  front_lt = slot-lt b.cap b.first (b.cap - 1) some_cells

  from_front : (i : ℕ) → slot b.cap front (i + 1) ≡ slot b.cap b.first i
  from_front i = slot_before b.cap b.first i first_lt

  module _ (n k end : ℕ) (fits : n ≡ min b.cap (b.size + 1))
      (at_end : end ≡ slot b.cap front n) where
    -- The buffer with `item` in front, of `n` elements.
    abbrev pub prepended : Buffer A
    prepended = record b {
      cell = update b.cell front (some item);
      first = front;
      last = end;
      size = n;
      clock = k;
    }

    other :
        (i : ℕ)
        → suc i < b.cap
        → prepended.cell (slot b.cap front (suc i)) ≡ b.cell (slot b.cap b.first i)
    other i h =
        ap prepended.cell (ap (slot b.cap front) (omega arith))
        ∙ ap prepended.cell (from_front i)
        ∙ update-slot_ne b.cell (some item) b.cap b.first (b.cap - 1) i first_lt (omega arith)
            (omega arith) (λ e. absurd (omega arith))

    prepended_held :
        (i : ℕ)
        → i < n
        → prepended.cell (slot b.cap front i) ≡ get_elem? (keep_first b.cap (item ∷ xs)) i
    prepended_held zero h =
        ap prepended.cell (slot-zero b.cap front front_lt)
        ∙ update_self b.cell (some item) front
        ∙ sym (get_elem?-take b.cap (item ∷ xs) 0 some_cells)
    prepended_held (suc i) h =
        other i (omega arith)
        ∙ r.held i (omega arith)
        ∙ sym (get_elem?-take b.cap (item ∷ xs) (suc i) (omega arith))

    prepended_raw :
        (i : ℕ) → n ≤ i → i < b.cap → t.scalar ≡ false → prepended.cell (slot b.cap front i) ≡ none
    prepended_raw zero h m s = absurd (omega arith)
    prepended_raw (suc i) h m s = other i m ∙ r.raw i (omega arith) (omega arith) s

    pub Represents-prepended : Represents prepended (keep_first b.cap (item ∷ xs))
    Represents-prepended = record {
      first_in = omega (arith, front_lt);
      size_le = omega arith;
      last_eq = at_end;
      length_eq = omega (arith, length-take b.cap (item ∷ xs), r.length_eq);
      held = prepended_held;
      raw = prepended_raw;
      beyond = λ p h.
          update_ne b.cell (some item) front p (λ e. absurd (omega (arith, front_lt)))
          ∙ r.beyond p h;
    }

module _ {ℓ} {A : Type ℓ} ⦃t : Element A⦄ {b : Buffer A} {xs : List A} (item : A)
    (r : Represents b xs) where
  module _ (some_cells : 0 < b.cap) where
    -- The buffer after `decrement(m_first)`, and after the handler has undone it.
    abbrev pub stepped : Buffer A
    stepped = record b { first = decrement b b.first }

    pub stepped_first : decrement b b.first ≡ front r item some_cells
    stepped_first = decrement_one b b.first (first_lt r item some_cells)

    undone : (b' : Buffer A) → b'.cap ≡ b.cap → increment b' (decrement b b.first) ≡ b.first
    undone b' e =
        ap (increment b') stepped_first
        ∙ increment_at b' e b.first (first_lt r item some_cells) (b.cap - 1)
        ∙ slot_turn b.cap b.first (b.cap - 1 + 1) 0 (omega arith)
        ∙ slot-zero b.cap b.first (first_lt r item some_cells)

    pub vacant_front : b.size < b.cap → t.scalar ≡ false → b.cell (decrement b b.first) ≡ none
    vacant_front room s = ap b.cell stepped_first ∙ r.raw (b.cap - 1) (omega arith) (omega arith) s

    push_front_room :
        b.size < b.cap
        → Ensures
            (Becomes b (keep_first b.cap (item ∷ xs)))
            (Unwinds b (spoilt b (b.size - 1) item xs))
            (push_front item b)
    unfolding push_front
    push_front_room room =
        rw (==_of_ne b.cap b.size (omega arith)) (elim (Bool-cases (t.throws_at b.clock)) [
          | inl storm ↦
              rw (construct-throws stepped (decrement b b.first) item storm)
                (throws (rw (undone (ticked stepped) refl) (Represents-clock r _), refl, refl))
          | inr calm ↦
              rw
                (construct-ok stepped (decrement b b.first) item
                  (omega (arith, stepped_first, front_lt r item some_cells)) (vacant_front room)
                  calm)
                (returns (
                  rw stepped_first (
                      Represents-prepended r item some_cells (b.size + 1) _ b.last (omega arith)
                        (r.last_eq ∙ sym (from_front r item some_cells b.size))),
                  refl,
                ))
        ])

    pub live_front : b.size ≡ b.cap → (w : A) × (b.cell (decrement b b.first) ≡ some w)
    live_front none_free =
        let (w, e) = live r (b.cap - 1) (omega arith) in (w, ap b.cell stepped_first ∙ e)

    front_end : front r item some_cells ≡ slot b.cap (front r item some_cells) b.cap
    front_end =
        let f = front r item some_cells in
        sym
          (slot_turn b.cap f b.cap 0 (omega arith) ∙ slot-zero b.cap f (front_lt r item some_cells))

    -- The last element is the one that the item was to overwrite.
    torn_front :
        b.size ≡ b.cap
        → (w : A) → b.cell (decrement b b.first) ≡ some w
        → Represents
            (record (written b (decrement b b.first) (some (t.torn w item))) {
              first =
                  increment
                    (written stepped (decrement b b.first) (some (t.torn w item)))
                    (decrement b b.first);
            })
            (torn_at (b.size - 1) item xs)
    torn_front none_free w held =
        let last_item : get_elem? xs (b.size - 1) ≡ some w =
          sym (r.held (b.size - 1) (omega arith))
          ∙ ap b.cell (ap (slot b.cap b.first) (omega arith) ∙ sym stepped_first)
          ∙ held in
        let at : slot b.cap b.first (b.size - 1) ≡ decrement b b.first =
          ap (slot b.cap b.first) (omega arith) ∙ sym stepped_first in
        rw (undone (written stepped (decrement b b.first) (some (t.torn w item))) refl, ← at)
          (Represents-torn r (b.size - 1) item (omega arith) last_item)

    push_front_full :
        b.size ≡ b.cap
        → Ensures
            (Becomes b (keep_first b.cap (item ∷ xs)))
            (Unwinds b (spoilt b (b.size - 1) item xs))
            (push_front item b)
    unfolding push_front empty
    push_front_full none_free =
        let (w, held) = live_front none_free in
        rw (==_of_eq b.cap b.size (omega arith), ==_of_ne b.size 0 (omega arith))
          (elim (Bool-cases (t.throws_at b.clock)) [
            | inl storm ↦
                rw (replace-throws stepped (decrement b b.first) item w held storm)
                  (throws (torn_front none_free w held, refl, refl))
            | inr calm ↦ rw (replace-ok stepped (decrement b b.first) item w held calm) (
                returns (
                  rw stepped_first (
                      Represents-prepended r item some_cells b.size _ (front r item some_cells)
                        (omega arith)
                        (front_end ∙ ap (slot b.cap (front r item some_cells)) (sym none_free))),
                  refl,
                ))
          ])

  push_front_none : b.cap ≡ 0 → push_front item b ≡ ok tt b
  unfolding push_front empty
  push_front_none e = rw (
    ==_of_eq b.cap b.size (omega (arith, r.size_le)),
    ==_of_eq b.size 0 (omega (arith, r.size_le)),
  )

  -- In a buffer that represents the list xs, push_front returns or leaves an element's exception.
  -- If it returns, the capacity is as before and the buffer represents the first cap elements of
  -- the list of the item and xs; if an element throws, the capacity is as before and the buffer
  -- represents xs where it was not full, else xs with its last element as the assignment that
  -- threw has left it.
  pub push_front_refines :
      Ensures
        (Becomes b (keep_first b.cap (item ∷ xs)))
        (Unwinds b (spoilt b (b.size - 1) item xs))
        (push_front item b)
  push_front_refines = elim (ℕ_discrete b.cap 0) [
    | yes e ↦ rw (push_front_none e) (
        returns
          (rw (keep_first_none b.cap item xs (omega (arith, r.length_eq, r.size_le)) e) r, refl))
    | no ne ↦ elim (ℕ_discrete b.size b.cap) [
      | yes e ↦ push_front_full (omega arith) e
      | no short ↦ push_front_room (omega arith) (omega (arith, r.size_le))
    ]
  ]
