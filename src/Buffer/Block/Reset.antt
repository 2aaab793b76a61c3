-- ===== src/Buffer/Block/Reset.antt =====
-- base.hpp, `reset`: the block becomes the storage.
use circular_buffer.Common.{
  ℕ, ◌+◌, ◌%◌, ◌≤◌, ◌<◌, ◌≡◌, refl, sym, ap, ap₂, ◌∙◌, none, List, ◌==◌, ==_of_ne, ==_of_eq,
  if◌then◌else◌, length, get_elem?, arith,
}
use circular_buffer.Common.Outcome.{ok}
use circular_buffer.Element.{Element}
use circular_buffer.Buffer.{Buffer}
use circular_buffer.Buffer.Slot.{slot, slot-below, slot_turn, slot-zero}
use circular_buffer.Buffer.Represents.{Represents}
use circular_buffer.Buffer.Clear.{destroy, deallocate}
use circular_buffer.Buffer.Clear.Content.{destroy_content-Emptied}
use circular_buffer.Buffer.Block.{Pending, reset}
use circular_buffer.Buffer.Block.Walk.{Loaded}
use native.Mathlib.Nat.{mod-zero}
use native.Mathlib.Decide.{ℕ_discrete, dec_lt}

-- A place behind the last cell is the first one.
pub slot_wrap : (cap n : ℕ) → n ≤ cap → (if n == cap then 0 else n) ≡ slot cap 0 n
unfolding slot
slot_wrap cap n h = elim (ℕ_discrete n cap) [
  | no ne ↦ rw (==_of_ne n cap ne) (unshifted ∙ sym (slot-below cap 0 n (omega arith)))
  | yes e ↦ rw (==_of_eq n cap e) (sym (ap (slot cap 0) e ∙ whole))
]
  where
    unshifted : n ≡ 0 + n
    unshifted = omega arith

    whole : slot cap 0 cap ≡ 0
    whole = elim (dec_lt 0 cap) [
      | yes l ↦ slot_turn cap 0 cap 0 (omega arith) ∙ slot-zero cap 0 l
      | no l ↦
          let none_left : cap ≡ 0 = omega arith in
          ap (λ c. (0 + c) % c) none_left ∙ mod-zero (0 + 0) ∙ omega arith
    ]

module _ {ℓ} {A : Type ℓ} ⦃t : Element A⦄ where
  -- The storage is a block that holds a list from its first cell on.
  pub Represents-block :
      (b : Buffer A) (vs : List A)
      → b.first ≡ 0
      → b.size ≡ length vs
      → length vs ≤ b.cap
      → b.last ≡ slot b.cap 0 (length vs)
      → ((i : ℕ) → i < length vs → b.cell i ≡ get_elem? vs i)
      → ((p : ℕ) → length vs ≤ p → b.cell p ≡ none)
      → Represents b vs
  Represents-block b vs f s le l held behind = record {
    first_in = omega arith;
    size_le = omega arith;
    last_eq = l ∙ ap₂ (slot b.cap) (sym f) (sym s);
    length_eq = sym s;
    held = λ i h. ap b.cell (place i (omega arith)) ∙ held i (omega arith);
    raw = λ i h k v. ap b.cell (place i k) ∙ behind i (omega arith);
    beyond = λ p h. behind p (omega arith);
  }
    where
      place : (i : ℕ) → i < b.cap → slot b.cap b.first i ≡ i
      place i h = ap (λ k. slot b.cap k i) f ∙ slot-below b.cap 0 i (omega arith) ∙ omega arith

  -- The storage that was is emptied, and the buffer represents the list of the block.
  pub reset_refines :
      {s s' : Pending A} {vs : List A} {dest : ℕ}
      → Loaded s 0 vs dest s'
      → length vs ≤ s.room
      → (s'' : Pending A) × (reset dest s.room s' ≡ ok tt s'')
        × Represents s''.own vs
        × (s''.own.cap ≡ s.room)
  unfolding reset destroy deallocate
  reset_refines {s} {s'} {vs} {dest} q le =
      let (b, ran, e) = destroy_content-Emptied q.own in
      let after = record s' {
        own = record b {
          cell = s'.block;
          cap = s.room;
          first = 0;
          last = if dest == s.room then 0 else dest;
          size = dest;
        };
      } in
      (
        after,
        rw ran refl,
        Represents-block after.own vs refl (omega (arith, q.dest_eq)) le
            (slot_wrap s.room dest (omega (arith, q.dest_eq))
              ∙ ap (slot s.room 0) (omega (arith, q.dest_eq)))
            (λ i h. ap s'.block (omega arith) ∙ q.held i h)
            (λ p h. q.behind p (omega (arith, q.dest_eq))),
        refl,
      )
