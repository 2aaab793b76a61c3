-- ===== src/Buffer/Insert/Before.antt =====
-- base.hpp, `insert` before an element, against the list that the buffer stands for.
use circular_buffer.Common.{
  ℕ, ◌+◌, ◌-◌, ◌≤◌, ◌<◌, ◌≡◌, refl, sym, ap, ◌∙◌, inl, inr, Bool, true, false, not, some, List,
  ==_of_ne, length, get_elem?, insert_at, length-insert_at, get_elem?-insert_at_lt,
  get_elem?-insert_at_self, get_elem?-insert_at_gt, arith,
}
use circular_buffer.Common.Outcome.{element_error, ok, Ensures, returns, Ensures-and_then}
use circular_buffer.Element.{Element}
use circular_buffer.Buffer.{Buffer, full, increment}
use circular_buffer.Buffer.Slot.{slot, slot-lt}
use circular_buffer.Buffer.Pointers.{increment_at}
use circular_buffer.Buffer.Memory.{IsReady}
use circular_buffer.Buffer.Moves.{IsLive, Frame, Frame-clock}
use circular_buffer.Buffer.Shifts.{Mixed}
use circular_buffer.Buffer.Represents.{Represents, live, position, BecomesAt, Survives}
use circular_buffer.Buffer.Rebuild.{Represents-Layout, Represents-some, Represents-Stalled}
use circular_buffer.Buffer.Insert.{insert_item, insert_unwind, insert_finish}
use circular_buffer.Buffer.Insert.Room.{Placed, Interrupted, insert_before-Ensures}
use native.Mathlib.Decide.{ℕ_discrete, dec_lt}

-- The cells after the block hold the list with the item in it.
module _ {ℓ} {A : Type ℓ} (cap base k m : ℕ) (item : A) {b b' : Buffer A} (xs : List A) (h : k ≤ m)
    (lt : m < cap) (length_eq : length xs ≡ m)
    (held : (i : ℕ) → i < m → b.cell (slot cap base i) ≡ get_elem? xs i)
    (p : Placed cap base k m item b b') where
  pub Placed-held :
      (i : ℕ) → i < m + 1 → b'.cell (slot cap base i) ≡ get_elem? (insert_at k item xs) i
  Placed-held i hi = elim (dec_lt i k) [
    | yes low ↦
        p.same i (omega arith) (inl low)
        ∙ held i (omega arith)
        ∙ sym (get_elem?-insert_at_lt k item xs i (omega arith) low)
    | no high ↦ elim (ℕ_discrete i k) [
      | yes e ↦ rw e (p.placed ∙ sym (get_elem?-insert_at_self k item xs (omega arith)))
      | no ne ↦
          let e : i - 1 + 1 ≡ i = omega arith in
          ap (λ x. b'.cell (slot cap base x)) (sym e)
          ∙ p.shifted (i - 1) (omega arith) (omega arith)
          ∙ held (i - 1) (omega arith)
          ∙ sym (get_elem?-insert_at_gt k item xs (i - 1) (omega arith))
          ∙ ap (get_elem? (insert_at k item xs)) (omega arith)
    ]
  ]

module _ {ℓ} {A : Type ℓ} ⦃t : Element A⦄ {b : Buffer A} {xs : List A} (r : Represents b xs)
    (item : A) (k : ℕ) (inside : k < b.size) (room : b.size < b.cap) where
  first_lt : b.first < b.cap
  first_lt = omega (arith, r.first_in)

  not_full : (b' : Buffer A) → Frame b b' → full b' ≡ false
  unfolding full
  not_full b' f = ==_of_ne b'.cap b'.size (omega (arith, f.cap_eq, f.size_eq))

  -- `insert_finish` on a buffer with a free cell counts the new element.
  finished : Buffer A → Buffer A
  finished b' = record b' { last = slot b.cap b.first (b.size + 1); size = b'.size + 1 }

  finish : (b' : Buffer A) (p : ℕ) → Frame b b' → insert_finish p b' ≡ ok (some p) (finished b')
  unfolding insert_finish finished full
  finish b' p f =
      let step : increment b' b'.last ≡ slot b.cap b.first (b.size + 1) =
        ap (increment b') (f.last_eq ∙ r.last_eq)
        ∙ increment_at b' f.cap_eq b.first first_lt b.size in
      rw (step, ==_of_ne b'.cap b'.size (omega (arith, f.cap_eq, f.size_eq)))

  Represents-inserted :
      (b' : Buffer A)
      → Placed b.cap b.first k b.size item b b'
      → Represents (finished b') (insert_at k item xs)
  unfolding finished
  Represents-inserted b' p =
      Represents-Layout {cap = b.cap} {base = b.first} {n = b.size + 1} (record {
        cap_eq = p.frame.cap_eq;
        first_eq = p.frame.first_eq;
        size_eq = ap (λ s. s + 1) p.frame.size_eq;
        last_eq = refl;
        base_in = r.first_in;
        size_le = omega arith;
        length_eq = length-insert_at k item xs ∙ ap (λ s. s + 1) r.length_eq;
        held = Placed-held b.cap b.first k b.size item xs (omega arith) room r.length_eq r.held p;
        raw = λ i h l v. p.same i l (inr (omega arith)) ∙ r.raw i (omega arith) l v;
        beyond = λ q h. p.frame.beyond q h ∙ r.beyond q h;
      })

  unwind_false : (b' : Buffer A) → Frame b b' → insert_unwind false b' ≡ ok tt (finished b')
  unfolding insert_unwind finished full
  unwind_false b' f =
      let step : increment b' b'.last ≡ slot b.cap b.first (b.size + 1) =
        ap (increment b') (f.last_eq ∙ r.last_eq)
        ∙ increment_at b' f.cap_eq b.first first_lt b.size in
      rw (==_of_ne b'.cap b'.size (omega (arith, f.cap_eq, f.size_eq))) (rw step)

  -- The handler makes an element of what has been built behind the last one.
  Survives-finished :
      (b' : Buffer A)
      → Mixed b.cap b.first k b.size b b'
      → Survives b xs element_error (finished b')
  unfolding finished
  Survives-finished b' x =
      let (ys, rep, len) =
        Represents-some b.cap b.first (b.size + 1) (finished b') x.frame.cap_eq x.frame.first_eq
          (ap (λ s. s + 1) x.frame.size_eq) refl r.first_in (omega arith) all_live
          (λ i h l v. x.same i l (inr (omega arith)) ∙ r.raw i (omega arith) l v)
          (λ q h. x.frame.beyond q h ∙ r.beyond q h) in
      (ys, rep, x.frame.cap_eq, refl, omega (arith, len), omega (arith, len))
    where
      all_live : (i : ℕ) → i < b.size + 1 → IsLive (b'.cell (slot b.cap b.first i))
      all_live i h = elim (dec_lt i k) [
        | yes low ↦ let (v, e) = live r i (omega arith) in (v, x.same i (omega arith) (inl low) ∙ e)
        | no high ↦ x.all_live i (omega arith) (omega arith)
      ]

  handled :
      (fresh : Bool) (b' : Buffer A)
      → Interrupted b.cap b.first k b.size true b fresh b'
      → Ensures (λ _ b''. Survives b xs element_error b'') (Survives b xs) (insert_unwind fresh b')
  unfolding insert_unwind
  handled fresh b' (inl (e, f, s)) = rw e (
      returns (
        xs,
        Represents-Stalled r s,
        s.frame.cap_eq,
        refl,
        omega (arith, r.length_eq),
        omega (arith, r.length_eq),
      ))
  handled fresh b' (inr (e, x)) =
      rw e (rw (unwind_false b' x.frame) (returns (Survives-finished b' x)))

  finished-position :
      (b' : Buffer A) → Frame b b' → some (slot b.cap b.first k) ≡ position (finished b') k
  unfolding finished
  finished-position b' f =
      rw (==_of_ne k (b'.size + 1) (omega (arith, f.size_eq)), f.cap_eq, f.first_eq)

  pub insert_item_room :
      Ensures
        (BecomesAt b (insert_at k item xs) k)
        (Survives b xs)
        (insert_item (some (slot b.cap b.first k)) item b)
  unfolding insert_item finished
  insert_item_room =
      Ensures-and_then
        (insert_before-Ensures b.cap b.first k b.size first_lt item b {Q = Survives b xs} refl
          inside room r.last_eq (λ i ki im. live r i im) ready
          (rw (not_full b (Frame-clock b b.clock)) handled))
        (λ _ b' p.
          rw (finish b' (slot b.cap b.first k) p.frame)
            (returns (Represents-inserted b' p, p.frame.cap_eq, finished-position b' p.frame)))
        (λ e b' s. s)
    where
      ready : IsReady (not (full b)) b (slot b.cap b.first b.size)
      ready =
          rw (not_full b (Frame-clock b b.clock))
            (slot-lt b.cap b.first b.size (omega arith), r.raw b.size (omega arith) room)
