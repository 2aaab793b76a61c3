-- ===== src/Buffer/Push/Pop.antt =====
-- base.hpp, `pop_back` and `pop_front` against the list that the buffer stands for.
use circular_buffer.Common.{
  ℕ, ◌+◌, ◌-◌, ◌≤◌, ◌<◌, ◌≡◌, refl, sym, ap, ◌∙◌, false, none, List, ==_of_ne, get_elem?, take,
  drop, length-take, length-drop, get_elem?-take, get_elem?-drop, arith,
}
use circular_buffer.Common.Outcome.{ok, ◌>>◌}
use circular_buffer.Element.{Element}
use circular_buffer.Buffer.{
  Buffer, update, increment, decrement, destroy_item, decrement_last, increment_first, shrink,
}
use circular_buffer.Buffer.Slot.{slot, slot-lt, slot-zero, slot-injective, slot_from, slot_turn}
use circular_buffer.Buffer.Pointers.{decrement-slot, increment_one}
use circular_buffer.Buffer.Memory.{destroy_item-ok}
use circular_buffer.Buffer.Represents.{Represents, update_self, update_ne, update-slot_ne, live}
use circular_buffer.Buffer.Push.{pop_back, pop_front}
use native.Mathlib.Decide.{ℕ_discrete}

module _ {ℓ} {A : Type ℓ} ⦃t : Element A⦄ {b : Buffer A} {xs : List A} (r : Represents b xs)
    (some_items : 0 < b.size) where
  first_lt : b.first < b.cap
  first_lt = omega (arith, r.first_in, r.size_le)

  -- The cell of the last element.
  abbrev back : ℕ
  back = slot b.cap b.first (b.size - 1)

  abbrev pub without_back : Buffer A
  without_back = record b { cell = update b.cell back none; last = back; size = b.size - 1 }

  untouched :
      (i : ℕ)
      → i < b.cap
      → ¬ (b.size - 1 ≡ i)
      → without_back.cell (slot b.cap b.first i) ≡ b.cell (slot b.cap b.first i)
  untouched i h ne =
      update-slot_ne b.cell none b.cap b.first (b.size - 1) i first_lt (omega (arith, r.size_le)) h
        ne

  without_back_raw :
      (i : ℕ)
      → b.size - 1 ≤ i
      → i < b.cap
      → t.scalar ≡ false
      → without_back.cell (slot b.cap b.first i) ≡ none
  without_back_raw i h k s = elim (ℕ_discrete (b.size - 1) i) [
    | yes e ↦ rw (← e) (update_self b.cell none back)
    | no ne ↦ untouched i k ne ∙ r.raw i (omega arith) k s
  ]

  pub Represents-without_back : Represents without_back (take (b.size - 1) xs)
  Represents-without_back = record {
    first_in = r.first_in;
    size_le = omega (arith, r.size_le);
    last_eq = refl;
    length_eq = omega (arith, length-take (b.size - 1) xs, r.length_eq);
    held = λ i h.
        untouched i (omega (arith, r.size_le)) (λ e. absurd (omega arith))
        ∙ r.held i (omega arith)
        ∙ sym (get_elem?-take (b.size - 1) xs i h);
    raw = without_back_raw;
    beyond = λ p h.
        update_ne b.cell none back p
          (λ e. absurd (omega (arith, slot-lt b.cap b.first (b.size - 1) (omega arith))))
        ∙ r.beyond p h;
  }

  last_step : decrement b b.last ≡ back
  last_step =
      ap (decrement b) (r.last_eq ∙ ap (slot b.cap b.first) (omega arith))
      ∙ decrement-slot b b.first first_lt (b.size - 1)

  -- The statements of `pop_back` behind its assertion.
  pub back_destroyed :
      (do decrement_last; (λ b'. destroy_item b'.last b'); shrink 1) b ≡ ok tt without_back
  unfolding decrement_last shrink
  back_destroyed =
      let (v, held) = live r (b.size - 1) (omega arith) in
      rw
        (destroy_item-ok (record b { last = decrement b b.last }) (decrement b b.last) v
          (ap b.cell last_step ∙ held))
        (rw last_step)

  -- On a non-empty buffer that represents the list xs, pop_back returns; the buffer then
  -- represents xs without its last element, and its capacity is as before.
  pub pop_back_refines :
      (b' : Buffer A) × (pop_back b ≡ ok tt b')
      × Represents b' (take (b.size - 1) xs)
      × (b'.cap ≡ b.cap)
  unfolding pop_back
  pop_back_refines = (
    without_back,
    rw (==_of_ne b.size 0 (omega arith)) back_destroyed,
    Represents-without_back,
    refl,
  )

  abbrev pub without_front : Buffer A
  without_front = record b {
    cell = update b.cell b.first none;
    first = slot b.cap b.first 1;
    size = b.size - 1;
  }

  pub first_zero : b.first ≡ slot b.cap b.first 0
  first_zero = sym (slot-zero b.cap b.first first_lt)

  -- The element of index `i + 1` has the index `i` behind the new front.
  later :
      (i : ℕ)
      → i + 1 < b.cap
      → without_front.cell (slot b.cap (slot b.cap b.first 1) i)
        ≡ b.cell (slot b.cap b.first (i + 1))
  later i h =
      ap without_front.cell (slot_from b.cap b.first 1 i (i + 1) (omega arith))
      ∙ update_ne b.cell none b.first (slot b.cap b.first (i + 1)) apart
    where
      apart : ¬ (b.first ≡ slot b.cap b.first (i + 1))
      apart e = absurd (
          omega (
            arith,
            slot-injective b.cap b.first 0 (i + 1) first_lt (omega arith) h (sym first_zero ∙ e),
          ))

  without_front_raw :
      (i : ℕ)
      → b.size - 1 ≤ i
      → i < b.cap
      → t.scalar ≡ false
      → without_front.cell (slot b.cap (slot b.cap b.first 1) i) ≡ none
  without_front_raw i h k s = elim (ℕ_discrete (i + 1) b.cap) [
    | yes e ↦
        ap without_front.cell (
          slot_from b.cap b.first 1 i b.cap (omega arith)
          ∙ slot_turn b.cap b.first b.cap 0 (omega arith)
          ∙ sym first_zero)
        ∙ update_self b.cell none b.first
    | no ne ↦ later i (omega arith) ∙ r.raw (i + 1) (omega arith) (omega arith) s
  ]

  pub Represents-without_front : Represents without_front (drop 1 xs)
  Represents-without_front = record {
    first_in = omega (arith, slot-lt b.cap b.first 1 (omega arith));
    size_le = omega (arith, r.size_le);
    last_eq = r.last_eq ∙ sym (slot_from b.cap b.first 1 (b.size - 1) b.size (omega arith));
    length_eq = omega (arith, length-drop 1 xs, r.length_eq);
    held = λ i h.
        later i (omega (arith, r.size_le))
        ∙ r.held (i + 1) (omega arith)
        ∙ sym (get_elem?-drop 1 xs i ∙ ap (get_elem? xs) (omega arith));
    raw = without_front_raw;
    beyond = λ p h.
        update_ne b.cell none b.first p (λ e. absurd (omega (arith, first_lt))) ∙ r.beyond p h;
  }

  -- The statements of `pop_front` behind its assertion.
  pub front_destroyed :
      (do (λ b'. destroy_item b'.first b'); increment_first; shrink 1) b ≡ ok tt without_front
  unfolding increment_first shrink
  front_destroyed =
      let (v, held) = live r 0 some_items in
      rw (destroy_item-ok b b.first v (ap b.cell first_zero ∙ held)) (rw next)
    where
      next :
          increment (record b { cell = update b.cell b.first none }) b.first ≡ slot b.cap b.first 1
      next = increment_one (record b { cell = update b.cell b.first none }) b.first first_lt

  -- On a non-empty buffer that represents the list xs, pop_front returns; the buffer then
  -- represents xs without its first element, and its capacity is as before.
  pub pop_front_refines :
      (b' : Buffer A) × (pop_front b ≡ ok tt b') × Represents b' (drop 1 xs) × (b'.cap ≡ b.cap)
  unfolding pop_front
  pop_front_refines = (
    without_front,
    rw (==_of_ne b.size 0 (omega arith)) front_destroyed,
    Represents-without_front,
    refl,
  )
