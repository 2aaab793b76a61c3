-- ===== src/Buffer/Insert/Full.antt =====
-- base.hpp, `insert` before an element of a full buffer, which overwrites the oldest one.
use circular_buffer.Common.{
  ℕ, ◌+◌, ◌-◌, ◌≤◌, ◌<◌, ◌≡◌, refl, sym, ap, ◌∙◌, subst, if◌then◌else◌, inl, inr, Bool, true, false,
  not, some, List, ◌==◌, ==_of_ne, ==_of_eq, get_elem?, drop, insert_at, length-insert_at,
  drop-insert_at, length-drop, get_elem?-drop, arith,
}
use circular_buffer.Common.Outcome.{element_error, ok, Ensures, returns, Ensures-and_then}
use circular_buffer.Element.{Element}
use circular_buffer.Buffer.{Buffer, full, increment}
use circular_buffer.Buffer.Slot.{slot, slot-lt, slot-zero, slot_from, slot_turn}
use circular_buffer.Buffer.Pointers.{increment_at}
use circular_buffer.Buffer.Memory.{IsReady}
use circular_buffer.Buffer.Moves.{IsLive, Frame, Frame-clock}
use circular_buffer.Buffer.Shifts.{Mixed}
use circular_buffer.Buffer.Represents.{Represents, live, position, BecomesAt, Survives}
use circular_buffer.Buffer.Rebuild.{Represents-Layout, Represents-some}
use circular_buffer.Buffer.Insert.{insert_item, insert_unwind, insert_finish}
use circular_buffer.Buffer.Insert.Room.{Placed, Interrupted, insert_before-Ensures}
use circular_buffer.Buffer.Insert.Before.{Placed-held}
use mathlib.Core.Bool.{false≢true}
use native.Mathlib.Decide.{ℕ_discrete, dec_lt}

module _ {ℓ} {A : Type ℓ} ⦃t : Element A⦄ {b : Buffer A} {xs : List A} (r : Represents b xs)
    (item : A) (k : ℕ) (behind : 0 < k) (inside : k < b.size) (none_free : b.size ≡ b.cap) where
  first_lt : b.first < b.cap
  first_lt = omega (arith, r.first_in)

  -- The ring counted from its second element: the oldest one comes last.
  abbrev second : ℕ
  second = slot b.cap b.first 1

  second_lt : second < b.cap
  second_lt = slot-lt b.cap b.first 1 (omega arith)

  from_second : (i : ℕ) → slot b.cap second i ≡ slot b.cap b.first (i + 1)
  from_second i = slot_from b.cap b.first 1 i (i + 1) (omega arith)

  oldest : slot b.cap second (b.cap - 1) ≡ slot b.cap b.first 0
  oldest = from_second (b.cap - 1) ∙ slot_turn b.cap b.first (b.cap - 1 + 1) 0 (omega arith)

  at_end : b.last ≡ slot b.cap second (b.cap - 1)
  at_end = r.last_eq ∙ slot_turn b.cap b.first b.size 0 (omega arith) ∙ sym oldest

  is_full : (b' : Buffer A) → Frame b b' → full b' ≡ true
  unfolding full
  is_full b' f = ==_of_eq b'.cap b'.size (omega (arith, f.cap_eq, f.size_eq))

  held_second : (i : ℕ) → i < b.cap - 1 → b.cell (slot b.cap second i) ≡ get_elem? (drop 1 xs) i
  held_second i h =
      ap b.cell (from_second i)
      ∙ r.held (i + 1) (omega arith)
      ∙ sym (get_elem?-drop 1 xs i ∙ ap (get_elem? xs) (omega arith))

  -- `insert_finish` on a full buffer moves its begin on.
  rolled : Buffer A → Buffer A
  rolled b' = record b' { first = second; last = second }

  finish : (b' : Buffer A) (p : ℕ) → Frame b b' → insert_finish p b' ≡ ok (some p) (rolled b')
  unfolding insert_finish rolled full
  finish b' p f =
      let step : increment b' b'.last ≡ second =
        ap (increment b') (f.last_eq ∙ at_end)
        ∙ increment_at b' f.cap_eq second second_lt (b.cap - 1)
        ∙ slot_turn b.cap second (b.cap - 1 + 1) 0 (omega arith)
        ∙ slot-zero b.cap second second_lt in
      rw (step, ==_of_eq b'.cap b'.size (omega (arith, f.cap_eq, f.size_eq)))

  Represents-rolled :
      (b' : Buffer A)
      → Placed b.cap second (k - 1) (b.cap - 1) item b b'
      → Represents (rolled b') (insert_at (k - 1) item (drop 1 xs))
  unfolding rolled
  Represents-rolled b' p = Represents-Layout {cap = b.cap} {base = second} {n = b.cap} (record {
    cap_eq = p.frame.cap_eq;
    first_eq = refl;
    size_eq = p.frame.size_eq ∙ none_free;
    last_eq = sym (slot_turn b.cap second b.cap 0 (omega arith) ∙ slot-zero b.cap second second_lt);
    base_in = omega (arith, second_lt);
    size_le = omega arith;
    length_eq =
        omega (arith, length-insert_at (k - 1) item (drop 1 xs), length-drop 1 xs, r.length_eq);
    held = λ i h.
        Placed-held b.cap second (k - 1) (b.cap - 1) item (drop 1 xs) (omega arith) (omega arith)
          (omega (arith, length-drop 1 xs, r.length_eq)) held_second p i (omega arith);
    raw = λ i h l v. absurd (omega arith);
    beyond = λ q h. p.frame.beyond q h ∙ r.beyond q h;
  })

  -- Every cell of the full buffer still holds an object, so the handler has nothing to do.
  Survives-Mixed :
      (b' : Buffer A) → Mixed b.cap second (k - 1) (b.cap - 1) b b' → Survives b xs element_error b'
  Survives-Mixed b' x =
      let (ys, rep, len) =
        Represents-some b.cap b.first b.size b' x.frame.cap_eq x.frame.first_eq x.frame.size_eq
          (x.frame.last_eq ∙ r.last_eq) r.first_in r.size_le all_live
          (λ i h l v. absurd (omega arith)) (λ q h. x.frame.beyond q h ∙ r.beyond q h) in
      (ys, rep, x.frame.cap_eq, refl, omega (arith, len), omega (arith, len))
    where
      kept :
          (i : ℕ)
          → i < b.cap
          → IsLive (b.cell (slot b.cap second i))
          → IsLive (b'.cell (slot b.cap second i))
      kept i h (v, e) = elim (dec_lt i (k - 1)) [
        | yes low ↦ (v, x.same i h (inl low) ∙ e)
        | no high ↦ x.all_live i (omega arith) (omega arith)
      ]

      index : ℕ → ℕ
      index i = if i == 0 then b.cap - 1 else i - 1

      there : (i : ℕ) → i < b.cap → slot b.cap second (index i) ≡ slot b.cap b.first i
      there i h = elim (ℕ_discrete i 0) [
        | yes e ↦ rw e oldest
        | no ne ↦ rw (==_of_ne i 0 ne) (from_second (i - 1) ∙ ap (slot b.cap b.first) (omega arith))
      ]

      all_live : (i : ℕ) → i < b.size → IsLive (b'.cell (slot b.cap b.first i))
      all_live i h =
          let (v, e) = live r i h in
          let (w, f) = kept (index i) (ground arith) (v, ap b.cell (there i (omega arith)) ∙ e) in
          (w, ap b'.cell (sym (there i (omega arith))) ∙ f)

  handled :
      (fresh : Bool) (b' : Buffer A)
      → Interrupted b.cap second (k - 1) (b.cap - 1) false b fresh b'
      → Ensures (λ _ b''. Survives b xs element_error b'') (Survives b xs) (insert_unwind fresh b')
  unfolding insert_unwind
  handled fresh b' (inl (e, f, s)) = absurd (false≢true f)
  handled fresh b' (inr (e, x)) = rw (e, is_full b' x.frame) (returns (Survives-Mixed b' x))

  here : slot b.cap second (k - 1) ≡ slot b.cap b.first k
  here = from_second (k - 1) ∙ ap (slot b.cap b.first) (omega arith)

  rolled-position :
      (b' : Buffer A) → Frame b b' → some (slot b.cap second (k - 1)) ≡ position (rolled b') (k - 1)
  unfolding rolled
  rolled-position b' f = rw (==_of_ne (k - 1) b'.size (omega (arith, f.size_eq)), f.cap_eq)

  insert_at-second :
      Ensures
        (BecomesAt b (drop 1 (insert_at k item xs)) (k - 1))
        (Survives b xs)
        (insert_item (some (slot b.cap second (k - 1))) item b)
  unfolding insert_item rolled
  insert_at-second =
      Ensures-and_then
        (insert_before-Ensures b.cap second (k - 1) (b.cap - 1) second_lt item b {Q = Survives b xs}
          refl (omega arith) (omega arith) at_end stretch ready
          (rw (is_full b (Frame-clock b b.clock)) handled))
        (λ _ b' p. rw (finish b' (slot b.cap second (k - 1)) p.frame) (
          returns (
            rw (drop-insert_at k item xs behind (omega (arith, r.length_eq)))
                (Represents-rolled b' p),
            p.frame.cap_eq,
            rolled-position b' p.frame,
          )))
        (λ e b' s. s)
    where
      stretch : (i : ℕ) → k - 1 ≤ i → i < b.cap - 1 → IsLive (b.cell (slot b.cap second i))
      stretch i ki im =
          let (v, e) = live r (i + 1) (omega arith) in (v, ap b.cell (from_second i) ∙ e)

      ready : IsReady (not (full b)) b (slot b.cap second (b.cap - 1))
      ready =
          let (v, e) = live r 0 (omega arith) in
          rw (is_full b (Frame-clock b b.clock)) (v, ap b.cell oldest ∙ e)

  pub insert_item_full :
      Ensures
        (BecomesAt b (drop 1 (insert_at k item xs)) (k - 1))
        (Survives b xs)
        (insert_item (some (slot b.cap b.first k)) item b)
  insert_item_full =
      subst
        (λ p.
          Ensures (BecomesAt b (drop 1 (insert_at k item xs)) (k - 1)) (Survives b xs)
            (insert_item (some p) item b))
        here insert_at-second
