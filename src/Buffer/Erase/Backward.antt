-- ===== src/Buffer/Erase/Backward.antt =====
-- base.hpp, `rerase` of one element against the list that the buffer stands for.
use circular_buffer.Common.{
  ℕ, zero, suc, ◌+◌, ◌-◌, ◌≤◌, ◌<◌, ◌≡◌, refl, sym, ap, ◌∙◌, subst, inr, false, none, some, List,
  ◌==◌, ==_of_ne, ==_of_eq, get_elem?, erase_at, length-erase_at, get_elem?-erase_at_lt,
  get_elem?-erase_at_ge, if◌then◌else◌, arith,
}
use circular_buffer.Common.Outcome.{
  element_error, ok, Ensures, returns, Ensures-and_then, Ensures-mono,
}
use circular_buffer.Element.{Element}
use circular_buffer.Buffer.{Buffer, update, increment, decrement, begin, empty}
use circular_buffer.Buffer.Slot.{slot, slot-lt, slot-zero, slot-injective, slot_from, slot_turn}
use circular_buffer.Buffer.Pointers.{increment_at, decrement_at}
use circular_buffer.Buffer.Memory.{destroy_item-ok}
use circular_buffer.Buffer.Moves.{IsLive, Moved, move_item-Ensures}
use circular_buffer.Buffer.Shifts.{
  Up, Up-none, Up-step, Mixed, Mixed-Unmoved, Mixed-step, Moved-IsLive,
}
use circular_buffer.Buffer.Represents.{
  Represents, live, position, BecomesAt, Survives, update_self, update_ne,
}
use circular_buffer.Buffer.Rebuild.{Represents-Layout, Survives-Mixed}
use circular_buffer.Buffer.Erase.{rerase, rerase_loop, rerase_finish}
use native.Mathlib.Decide.{ℕ_discrete, dec_lt}

module _ {ℓ} {A : Type ℓ} ⦃t : Element A⦄ (cap base : ℕ) (inside : base < cap) where
  rerase_loop-Up :
      (n j prev : ℕ) (b : Buffer A)
      → b.cap ≡ cap
      → b.first ≡ base
      → j < cap
      → j < n
      → (0 < j → prev ≡ slot cap base (j - 1))
      → ((i : ℕ) → i ≤ j → IsLive (b.cell (slot cap base i)))
      → Ensures
          (λ p b'. (p ≡ base) × Up cap base 0 j b b')
          (λ e b'. (e ≡ element_error) × Mixed cap base 0 j b b')
          (rerase_loop n (slot cap base j) prev b)
  unfolding rerase_loop
  rerase_loop-Up zero j prev b e f lt fuel step live = absurd (omega arith)
  rerase_loop-Up (suc n) zero prev b e f lt fuel step live =
      rw (==_of_eq (slot cap base 0) b.first (slot-zero cap base inside ∙ sym f), rerase_loop)
        (returns (slot-zero cap base inside, Up-none cap base 0 (live 0 (omega arith))))
  rerase_loop-Up (suc n) (suc j) prev b e f lt fuel step live =
      rw (==_of_ne (slot cap base (suc j)) b.first apart, rerase_loop)
        (rw prev_eq (
          Ensures-and_then
            (move_item-Ensures b cap base j (suc j) false e inside (omega arith) lt (omega arith)
              (live j (omega arith)) (live (suc j) (omega arith)))
            (λ _ b' m.
              Ensures-mono
                (rerase_loop-Up n j (decrement b (slot cap base j)) b' (m.frame.cap_eq ∙ e)
                  (m.frame.first_eq ∙ f) (omega arith) (omega arith) before (still b' m))
                (λ p b'' (p_eq, u). (p_eq, whole m u))
                (λ err b'' (err_eq, x). (
                  err_eq,
                  Mixed-step cap base 0 (suc j) 0 j (omega arith) (omega arith) lt
                      (λ i l u ne. live i u) (omega arith) (omega arith) (omega arith) (omega arith)
                      (omega arith) m x,
                )))
            (λ err b' (s, err_eq). (
              err_eq,
              Mixed-Unmoved cap base 0 (suc j) (suc j) lt (omega arith) (omega arith)
                  (λ i l u. live i u) s,
            ))))
    where
      up : j + 1 ≡ suc j
      up = omega arith

      apart : ¬ (slot cap base (suc j) ≡ b.first)
      apart q = absurd (
          omega (
            arith,
            slot-injective cap base (suc j) 0 inside lt (omega arith)
                (q ∙ f ∙ sym (slot-zero cap base inside)),
          ))

      prev_eq : prev ≡ slot cap base j
      prev_eq = step (omega arith) ∙ ap (slot cap base) (omega arith)

      before : 0 < j → decrement b (slot cap base j) ≡ slot cap base (j - 1)
      before p =
          ap (λ x. decrement b (slot cap base x)) (omega arith)
          ∙ decrement_at b e base inside (j - 1)

      still :
          (b' : Buffer A)
          → Moved cap base j (suc j) b b'
          → (i : ℕ) → i ≤ j
          → IsLive (b'.cell (slot cap base i))
      still b' m i l =
          Moved-IsLive cap base m (live j (omega arith)) i (omega arith)
            (λ ne. live i (omega arith))

      whole :
          {b' b'' : Buffer A}
          → Moved cap base j (suc j) b b'
          → Up cap base 0 j b' b''
          → Up cap base 0 (suc j) b b''
      whole {b'} {b''} m u =
          subst (λ d. Up cap base 0 d b b'') up
            (Up-step cap base 0 j (omega arith) (omega arith)
              (subst (λ d. Moved cap base j d b b') (sym up) m) u)

module _ {ℓ} {A : Type ℓ} ⦃t : Element A⦄ {b : Buffer A} {xs : List A} (r : Represents b xs) (k : ℕ)
    (inside : k < b.size) where
  first_lt : b.first < b.cap
  first_lt = omega (arith, r.first_in, r.size_le)

  first_zero : slot b.cap b.first 0 ≡ b.first
  first_zero = slot-zero b.cap b.first first_lt

  abbrev second : ℕ
  second = slot b.cap b.first 1

  from_second : (i : ℕ) → slot b.cap second i ≡ slot b.cap b.first (i + 1)
  from_second i = slot_from b.cap b.first 1 i (i + 1) (omega arith)

  -- The buffer after `rerase_finish`.
  erased : Buffer A → Buffer A
  erased b' = record b' { cell = update b'.cell b.first none; first = second; size = b'.size - 1 }

  module _ (b' : Buffer A) (u : Up b.cap b.first 0 k b b') where
    untouched :
        (i : ℕ)
        → i + 1 < b.cap
        → update b'.cell b.first none (slot b.cap second i) ≡ b'.cell (slot b.cap b.first (i + 1))
    untouched i h =
        ap (update b'.cell b.first none) (from_second i)
        ∙ update_ne b'.cell none b.first (slot b.cap b.first (i + 1)) (λ e. absurd (
            omega (
              arith,
              slot-injective b.cap b.first 0 (i + 1) first_lt (omega arith) h (first_zero ∙ e),
            )))

    erased_held :
        (i : ℕ)
        → i < b.size - 1
        → update b'.cell b.first none (slot b.cap second i) ≡ get_elem? (erase_at k xs) i
    erased_held i h = untouched i (omega (arith, r.size_le)) ∙ elim (dec_lt i k) [
      | yes low ↦
          u.shifted i (omega arith) low
          ∙ r.held i (omega arith)
          ∙ sym (get_elem?-erase_at_lt k xs i low)
      | no high ↦
          u.same (i + 1) (omega (arith, r.size_le)) (inr (omega arith))
          ∙ r.held (i + 1) (omega arith)
          ∙ ap (get_elem? xs) (omega arith)
          ∙ sym (get_elem?-erase_at_ge k xs i (omega arith))
    ]

    erased_raw :
        (i : ℕ)
        → b.size - 1 ≤ i
        → i < b.cap
        → t.scalar ≡ false
        → update b'.cell b.first none (slot b.cap second i) ≡ none
    erased_raw i h l s = elim (ℕ_discrete (i + 1) b.cap) [
      | yes e ↦
          ap (update b'.cell b.first none)
            (from_second i ∙ slot_turn b.cap b.first (i + 1) 0 (omega arith) ∙ first_zero)
          ∙ update_self b'.cell none b.first
      | no ne ↦
          untouched i (omega arith)
          ∙ u.same (i + 1) (omega arith) (inr (omega arith))
          ∙ r.raw (i + 1) (omega arith) (omega arith) s
    ]

    Represents-erased : Represents (erased b') (erase_at k xs)
    unfolding erased
    Represents-erased = Represents-Layout {cap = b.cap} {base = second} {n = b.size - 1} (record {
      cap_eq = u.frame.cap_eq;
      first_eq = refl;
      size_eq = ap (λ n. n - 1) u.frame.size_eq;
      last_eq =
          u.frame.last_eq
          ∙ r.last_eq
          ∙ sym (slot_from b.cap b.first 1 (b.size - 1) b.size (omega arith));
      base_in = omega (arith, slot-lt b.cap b.first 1 (omega arith));
      size_le = omega (arith, r.size_le);
      length_eq = omega (arith, length-erase_at k xs (omega (arith, r.length_eq)), r.length_eq);
      held = erased_held;
      raw = erased_raw;
      beyond = λ q h.
          update_ne b'.cell none b.first q (λ e. absurd (omega (arith, first_lt)))
          ∙ u.frame.beyond q h
          ∙ r.beyond q h;
    })

    at_second : slot b'.cap second 0 ≡ second
    at_second =
        slot-zero b'.cap second
          (omega (arith, u.frame.cap_eq, slot-lt b.cap b.first 1 (omega arith)))

    at_index : ¬ (k ≡ 0) → slot b'.cap second (k - 1) ≡ slot b.cap b.first k
    at_index ne =
        ap (λ c. slot c second (k - 1)) u.frame.cap_eq
        ∙ from_second (k - 1)
        ∙ ap (slot b.cap b.first) (omega arith)

    erased-position :
        (if b.first == slot b.cap b.first k then begin (erased b') else some (slot b.cap b.first k))
        ≡ position (erased b') (k - 1)
    unfolding erased begin empty
    erased-position = elim (ℕ_discrete k 0) [
      | yes e ↦
          rw
            (
              ==_of_eq b.first (slot b.cap b.first k)
                  (sym (ap (slot b.cap b.first) e ∙ first_zero)),
              e,
            )
            (elim (ℕ_discrete (b'.size - 1) 0) [
              | yes z ↦ rw (==_of_eq (b'.size - 1) 0 z, ==_of_eq 0 (b'.size - 1) (sym z))
              | no nz ↦
                  rw (==_of_ne (b'.size - 1) 0 nz, ==_of_ne 0 (b'.size - 1) (λ z. nz (sym z)))
                    (ap some (sym at_second))
            ])
      | no ne ↦
          rw
            (
              ==_of_ne b.first (slot b.cap b.first k) (λ q. ne (
                  sym (
                    slot-injective b.cap b.first 0 k first_lt (omega arith)
                      (omega (arith, r.size_le)) (first_zero ∙ q)))),
              ==_of_ne (k - 1) (b'.size - 1) (omega (arith, u.frame.size_eq)),
            )
            (ap some (sym (at_index ne)))
    ]

    step : increment (record b' { cell = update b'.cell b'.first none }) b'.first ≡ second
    step =
        let b'' = record b' { cell = update b'.cell b'.first none } in
        ap (increment b'') (u.frame.first_eq ∙ sym first_zero)
        ∙ increment_at b'' u.frame.cap_eq b.first first_lt 0
        ∙ ap (slot b.cap b.first) (omega arith)

    finish :
        rerase_finish (slot b.cap b.first k) b.first b'
        ≡ ok (position (erased b') (k - 1)) (erased b')
    unfolding rerase_finish erased
    finish =
        let (v, held) = u.hole in
        rw (destroy_item-ok b' b'.first v (ap b'.cell (u.frame.first_eq ∙ sym first_zero) ∙ held))
          (rw (step, u.frame.first_eq) (ap (λ it. ok it (erased b')) erased-position))

  -- In a buffer that represents the list xs, an erasure by rerase of the element of an index k
  -- below the size returns or leaves an element's exception. If it returns, the capacity is as
  -- before, the buffer represents xs without that element, and the iterator is that of the index k
  -- - 1, or of 0 if k is 0. If an element throws, the buffer still represents a list, of as many
  -- elements or one more.
  pub rerase_refines :
      Ensures (BecomesAt b (erase_at k xs) (k - 1)) (Survives b xs) (rerase (position b k) b)
  unfolding rerase erased
  rerase_refines = rw (==_of_ne k b.size (omega arith)) (
      Ensures-and_then
        (rerase_loop-Up b.cap b.first first_lt (suc b.cap) k (decrement b (slot b.cap b.first k)) b
          refl refl (omega (arith, r.size_le)) (omega (arith, r.size_le)) before
          (λ i l. live r i (omega arith)))
        (λ p b' (p_eq, u).
          rw (p_eq, finish b' u) (returns (Represents-erased b' u, u.frame.cap_eq, refl)))
        (λ e b' (err_eq, x). rw err_eq (Survives-Mixed r 0 k inside x)))
    where
      before : 0 < k → decrement b (slot b.cap b.first k) ≡ slot b.cap b.first (k - 1)
      before p =
          ap (λ x. decrement b (slot b.cap b.first x)) (omega arith)
          ∙ decrement_at b refl b.first first_lt (k - 1)
