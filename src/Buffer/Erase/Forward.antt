-- ===== src/Buffer/Erase/Forward.antt =====
-- base.hpp, `erase` of one element against the list that the buffer stands for.
use circular_buffer.Common.{
  ℕ, zero, suc, ◌+◌, ◌-◌, ◌≤◌, ◌<◌, ◌≡◌, refl, sym, ap, ◌∙◌, inl, inr, false, none, some, List,
  ◌==◌, ==_of_ne, ==_of_eq, get_elem?, erase_at, length-erase_at, get_elem?-erase_at_lt,
  get_elem?-erase_at_ge, if◌then◌else◌, arith,
}
use circular_buffer.Common.Outcome.{
  element_error, ok, Ensures, returns, Ensures-and_then, Ensures-mono,
}
use circular_buffer.Element.{Element}
use circular_buffer.Buffer.{Buffer, update, end, decrement}
use circular_buffer.Buffer.Slot.{slot, slot-lt, slot-injective, apart_from_end}
use circular_buffer.Buffer.Pointers.{increment_at, decrement_at}
use circular_buffer.Buffer.Memory.{destroy_item-ok}
use circular_buffer.Buffer.Moves.{IsLive, Moved, move_item-Ensures}
use circular_buffer.Buffer.Shifts.{
  Down, Down-none, Down-step, Mixed, Mixed-Unmoved, Mixed-step, Moved-IsLive,
}
use circular_buffer.Buffer.Represents.{
  Represents, live, position, BecomesAt, Survives, update_self, update_ne, update-slot_ne,
}
use circular_buffer.Buffer.Rebuild.{Represents-Layout, Survives-Mixed}
use circular_buffer.Buffer.Erase.{erase, erase_loop, erase_finish}
use native.Mathlib.Decide.{ℕ_discrete, dec_lt}

module _ {ℓ} {A : Type ℓ} ⦃t : Element A⦄ (cap base : ℕ) (inside : base < cap) where
  pub erase_loop-Down :
      (n k j : ℕ) (b : Buffer A)
      → b.cap ≡ cap
      → k ≤ j
      → j < cap
      → j < n + k
      → b.last ≡ slot cap base (j + 1)
      → ((i : ℕ) → k ≤ i → i ≤ j → IsLive (b.cell (slot cap base i)))
      → Ensures
          (λ _ b'. Down cap base k j b b')
          (λ e b'. (e ≡ element_error) × Mixed cap base k j b b')
          (erase_loop n (slot cap base k) (slot cap base (k + 1)) b)
  unfolding erase_loop
  erase_loop-Down zero k j b e h lt fuel at_end live = absurd (omega arith)
  erase_loop-Down (suc n) k j b e h lt fuel at_end live = elim (ℕ_discrete k j) [
    | yes done ↦
        rw
          (
            ==_of_eq (slot cap base (k + 1)) b.last
                (ap (λ x. slot cap base (x + 1)) done ∙ sym at_end),
            erase_loop,
          )
          (returns (rw done (Down-none cap base j (live j h (omega arith)))))
    | no more ↦
        rw
          (
            ==_of_ne (slot cap base (k + 1)) b.last (λ q.
                apart_from_end cap base (k + 1) (j + 1) inside (omega arith) (omega arith)
                  (omega arith) (q ∙ at_end)),
            erase_loop,
          )
          (rw (increment_at b e base inside (k + 1)) (
            Ensures-and_then
              (move_item-Ensures b cap base (k + 1) k false e inside (omega arith) (omega arith)
                (omega arith) (live (k + 1) (omega arith) (omega arith)) (live k (omega arith) h))
              (λ _ b' m.
                Ensures-mono
                  (erase_loop-Down n (k + 1) j b' (m.frame.cap_eq ∙ e) (omega arith) lt
                    (omega arith) (m.frame.last_eq ∙ at_end) (still b' m))
                  (λ _ b'' d. Down-step cap base k j (omega arith) lt m d)
                  (λ err b'' (err_eq, x). (
                    err_eq,
                    Mixed-step cap base k j (k + 1) j (omega arith) (omega arith) lt
                        (λ i ki ij ne. live i ki ij) (omega arith) (omega arith) (omega arith) h
                        (omega arith) m x,
                  )))
              (λ err b' (s, err_eq).
                (err_eq, Mixed-Unmoved cap base k j k lt (omega arith) (omega arith) live s))))
  ]
    where
      still :
          (b' : Buffer A)
          → Moved cap base (k + 1) k b b'
          → (i : ℕ) → k + 1 ≤ i
          → i ≤ j
          → IsLive (b'.cell (slot cap base i))
      still b' m i ki ij =
          Moved-IsLive cap base m (live (k + 1) (omega arith) (omega arith)) i (omega arith)
            (λ ne. live i (omega arith) ij)

module _ {ℓ} {A : Type ℓ} ⦃t : Element A⦄ {b : Buffer A} {xs : List A} (r : Represents b xs) (k : ℕ)
    (inside : k < b.size) where
  first_lt : b.first < b.cap
  first_lt = omega (arith, r.first_in, r.size_le)

  abbrev back : ℕ
  back = slot b.cap b.first (b.size - 1)

  -- The buffer after `erase_finish`.
  erased : Buffer A → Buffer A
  erased b' = record b' { cell = update b'.cell back none; last = back; size = b'.size - 1 }

  module _ (b' : Buffer A) (d : Down b.cap b.first k (b.size - 1) b b') where
    at_back : decrement b' b'.last ≡ back
    at_back =
        ap (decrement b') (d.frame.last_eq ∙ r.last_eq ∙ ap (slot b.cap b.first) (omega arith))
        ∙ decrement_at b' d.frame.cap_eq b.first first_lt (b.size - 1)

    untouched :
        (i : ℕ)
        → i < b.cap
        → ¬ (b.size - 1 ≡ i)
        → update b'.cell back none (slot b.cap b.first i) ≡ b'.cell (slot b.cap b.first i)
    untouched i h ne =
        update-slot_ne b'.cell none b.cap b.first (b.size - 1) i first_lt (omega (arith, r.size_le))
          h ne

    erased_held :
        (i : ℕ)
        → i < b.size - 1
        → update b'.cell back none (slot b.cap b.first i) ≡ get_elem? (erase_at k xs) i
    erased_held i h =
        untouched i (omega (arith, r.size_le)) (λ e. absurd (omega arith)) ∙ elim (dec_lt i k) [
          | yes low ↦
              d.same i (omega (arith, r.size_le)) (inl low)
              ∙ r.held i (omega arith)
              ∙ sym (get_elem?-erase_at_lt k xs i low)
          | no high ↦
              d.shifted i (omega arith) h
              ∙ r.held (i + 1) (omega arith)
              ∙ ap (get_elem? xs) (omega arith)
              ∙ sym (get_elem?-erase_at_ge k xs i (omega arith))
        ]

    erased_raw :
        (i : ℕ)
        → b.size - 1 ≤ i
        → i < b.cap
        → t.scalar ≡ false
        → update b'.cell back none (slot b.cap b.first i) ≡ none
    erased_raw i h l s = elim (ℕ_discrete (b.size - 1) i) [
      | yes e ↦ rw (← e) (update_self b'.cell none back)
      | no ne ↦ untouched i l ne ∙ d.same i l (inr (omega arith)) ∙ r.raw i (omega arith) l s
    ]

    Represents-erased : Represents (erased b') (erase_at k xs)
    unfolding erased
    Represents-erased = Represents-Layout {cap = b.cap} {base = b.first} {n = b.size - 1} (record {
      cap_eq = d.frame.cap_eq;
      first_eq = d.frame.first_eq;
      size_eq = ap (λ n. n - 1) d.frame.size_eq;
      last_eq = refl;
      base_in = r.first_in;
      size_le = omega (arith, r.size_le);
      length_eq = omega (arith, length-erase_at k xs (omega (arith, r.length_eq)), r.length_eq);
      held = erased_held;
      raw = erased_raw;
      beyond = λ q h.
          update_ne b'.cell none back q
            (λ e. absurd (omega (arith, slot-lt b.cap b.first (b.size - 1) (omega arith))))
          ∙ d.frame.beyond q h
          ∙ r.beyond q h;
    })

    erased-position :
        (if back == slot b.cap b.first k then none else some (slot b.cap b.first k))
        ≡ position (erased b') k
    unfolding erased
    erased-position = elim (ℕ_discrete k (b.size - 1)) [
      | yes e ↦ rw (
        ==_of_eq back (slot b.cap b.first k) (ap (slot b.cap b.first) (sym e)),
        ==_of_eq k (b'.size - 1) (omega (arith, d.frame.size_eq)),
      )
      | no ne ↦ rw (
        ==_of_ne back (slot b.cap b.first k) (λ q. ne (
            sym (
              slot-injective b.cap b.first (b.size - 1) k first_lt (omega (arith, r.size_le))
                (omega (arith, r.size_le)) q))),
        ==_of_ne k (b'.size - 1) (omega (arith, d.frame.size_eq)),
        d.frame.cap_eq,
        d.frame.first_eq,
      )
    ]

    finish : erase_finish (slot b.cap b.first k) b' ≡ ok (position (erased b') k) (erased b')
    unfolding erase_finish erased end
    finish =
        let (v, held) = d.hole in
        rw
          (destroy_item-ok (record b' { last = decrement b' b'.last }) (decrement b' b'.last) v
            (ap b'.cell at_back ∙ held))
          (rw at_back (ap (λ it. ok it (erased b')) erased-position))

  -- In a buffer that represents the list xs, an erasure of the element of an index k below the
  -- size returns or leaves an element's exception. If it returns, the capacity is as before, the
  -- buffer represents xs without that element, and the iterator is that of the index k, end() if
  -- the element was the last. If an element throws, the buffer still represents a list, of as many
  -- elements or one more.
  pub erase_refines :
      Ensures (BecomesAt b (erase_at k xs) k) (Survives b xs) (erase (position b k) b)
  unfolding erase erased
  erase_refines = rw (==_of_ne k b.size (omega arith)) (
      rw (increment_at b refl b.first first_lt k) (
        Ensures-and_then
          (erase_loop-Down b.cap b.first first_lt (suc b.cap) k (b.size - 1) b refl (omega arith)
            (omega (arith, r.size_le)) (omega (arith, r.size_le))
            (r.last_eq ∙ ap (slot b.cap b.first) (omega arith)) (λ i ki ij. live r i (omega arith)))
          (λ _ b' d. rw (finish b' d) (returns (Represents-erased b' d, d.frame.cap_eq, refl)))
          (λ e b' (err_eq, x). rw err_eq (Survives-Mixed r k (b.size - 1) (omega arith) x))))
