-- ===== src/Buffer/Clear/Content.antt =====
-- base.hpp, `destroy_content` and `clear` against the list that the buffer stands for.
use circular_buffer.Common.{
  ℕ, zero, suc, ◌-◌, ◌≤◌, ◌<◌, ◌≡◌, refl, sym, ap, ap₂, ◌∙◌, subst, inl, inr, true, none, List, [],
  ◌∷◌, Bool-cases, length, drop, arith,
}
use circular_buffer.Common.Outcome.{ok}
use mathlib.Core.Bool.{false≢true}
use native.Mathlib.Decide.{dec_lt}
use circular_buffer.Element.{Element}
use circular_buffer.Buffer.{Buffer, update, add, capacity}
use circular_buffer.Buffer.Slot.{slot, slot-zero, slot-lt}
use circular_buffer.Buffer.Pointers.{increment_one, add-slot}
use circular_buffer.Buffer.Memory.{destroy_item-ok}
use circular_buffer.Buffer.Represents.{Represents, live}
use circular_buffer.Buffer.Push.Pop.{Represents-without_front, first_zero}
use circular_buffer.Buffer.Clear.{destroy_loop, destroy_content, clear}

-- The buffer has given up its elements, all but the count of them.
pub record Emptied {ℓ} {A : Type ℓ} ⦃t : Element A⦄ (b b' : Buffer A) : Type ℓ where
  pub vacant : Represents (record b' { size = 0 }) []
  pub cap_eq : b'.cap ≡ b.cap
  pub size_eq : b'.size ≡ b.size
  pub clock_eq : b'.clock ≡ b.clock

module _ {ℓ} {A : Type ℓ} ⦃t : Element A⦄ where
  no_items : (xs : List A) → length xs ≡ 0 → xs ≡ []
  no_items [] h = refl
  no_items (x ∷ xs) h = absurd (omega arith)

  destroy_loop-Emptied :
      (n : ℕ) (b : Buffer A) (xs : List A)
      → Represents (record b { size = n }) xs
      → (b' : Buffer A) × (destroy_loop n b ≡ ok tt b') × Emptied b b'
  unfolding destroy_loop
  destroy_loop-Emptied zero b xs r = (
    b,
    refl,
    record {
      vacant = subst (Represents (record b { size = 0 })) (no_items xs r.length_eq) r;
      cap_eq = refl;
      size_eq = refl;
      clock_eq = refl;
    },
  )
  destroy_loop-Emptied (suc n) b xs r =
      let (v, held) = live r 0 (omega arith) in
      let first_lt : b.first < b.cap = omega (arith, r.first_in, r.size_le) in
      let emptied = record b { cell = update b.cell b.first none } in
      let (b', ran, e) =
        destroy_loop-Emptied n (record emptied { first = slot b.cap b.first 1 }) (drop 1 xs)
          (subst
            (λ k.
              Represents (record emptied { first = slot b.cap b.first 1; size = k }) (drop 1 xs))
            (omega arith) (Represents-without_front r (omega arith))) in
      (
        b',
        rw (destroy_item-ok b b.first v (ap b.cell (first_zero r (omega arith)) ∙ held))
            (rw (increment_one emptied b.first first_lt) ran),
        record { vacant = e.vacant; cap_eq = e.cap_eq; size_eq = e.size_eq; clock_eq = e.clock_eq },
      )

add_none {ℓ} : {A : Type ℓ} (b : Buffer A) → add b 0 0 ≡ 0
unfolding add capacity
add_none b = ground arith

module _ {ℓ} {A : Type ℓ} ⦃t : Element A⦄ {b : Buffer A} {xs : List A} (r : Represents b xs) where
  off_ring : b.first ≡ 0 → b.size ≡ 0 → add b b.first b.size ≡ 0
  off_ring e e' = ap₂ (add b) e e' ∙ add_none b

  -- Scalars stay where they are: the cells count as vacant.
  skipped : t.scalar ≡ true → Emptied b (record b { first = add b b.first b.size })
  skipped s = record {
    vacant = record {
      first_in = first_le;
      size_le = omega arith;
      last_eq = last_here;
      length_eq = refl;
      held = λ i h. absurd (omega arith);
      raw = λ i h k v. absurd (false≢true (sym v ∙ s));
      beyond = r.beyond;
    };
    cap_eq = refl;
    size_eq = refl;
    clock_eq = refl;
  }
    where
      here : b.first < b.cap → add b b.first b.size ≡ slot b.cap b.first b.size
      here h = add-slot b b.first b.size h r.size_le

      none_here : b.cap ≤ b.first → add b b.first b.size ≡ 0
      none_here h = omega (
        arith,
        r.first_in,
        r.size_le,
        off_ring (omega (arith, r.first_in)) (omega (arith, r.first_in, r.size_le)),
      )

      first_le : add b b.first b.size ≤ b.cap - 1
      first_le = elim (dec_lt b.first b.cap) [
        | yes h ↦ omega (arith, here h, slot-lt b.cap b.first b.size (omega arith))
        | no h ↦ omega (arith, none_here (omega arith))
      ]

      last_here : b.last ≡ slot b.cap (add b b.first b.size) 0
      last_here = elim (dec_lt b.first b.cap) [
        | yes h ↦
            r.last_eq
            ∙ sym (
                slot-zero b.cap (slot b.cap b.first b.size)
                  (slot-lt b.cap b.first b.size (omega arith)))
            ∙ ap (λ f. slot b.cap f 0) (sym (here h))
        | no h ↦
            let e : b.first ≡ 0 = omega (arith, r.first_in) in
            let e' : b.size ≡ 0 = omega (arith, r.first_in, r.size_le) in
            r.last_eq ∙ ap₂ (slot b.cap) (e ∙ sym (none_here (omega arith))) e'
      ]

  pub destroy_content-Emptied : (b' : Buffer A) × (destroy_content b ≡ ok tt b') × Emptied b b'
  unfolding destroy_content
  destroy_content-Emptied = elim (Bool-cases t.scalar) [
    | inl s ↦ (record b { first = add b b.first b.size }, rw s, skipped s)
    | inr s ↦ let (b', ran, e) = destroy_loop-Emptied b.size b xs r in (b', rw s ran, e)
  ]

  -- In a buffer that represents a list, clear returns, destroys every element, and leaves a buffer
  -- of the same capacity that represents the empty list.
  pub clear_refines : (b' : Buffer A) × (clear b ≡ ok tt b') × Represents b' [] × (b'.cap ≡ b.cap)
  unfolding clear
  clear_refines =
      let (b', ran, e) = destroy_content-Emptied in
      (record b' { size = 0 }, rw ran, e.vacant, e.cap_eq)
