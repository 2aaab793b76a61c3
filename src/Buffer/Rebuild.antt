-- ===== src/Buffer/Rebuild.antt =====
-- How a method shows that the buffer which it leaves stands for a list.
use circular_buffer.Common.{
  ℕ, ◌-◌, ◌≤◌, ◌<◌, ◌≡◌, refl, sym, ap, ◌∙◌, inl, inr, none, List, length, get_elem?, collect,
  arith,
}
use circular_buffer.Common.Outcome.{element_error}
use circular_buffer.Element.{Element}
use circular_buffer.Buffer.{Buffer}
use circular_buffer.Buffer.Slot.{slot}
use circular_buffer.Buffer.Memory.{IsVacant}
use circular_buffer.Buffer.Moves.{IsLive, Stalled}
use circular_buffer.Buffer.Shifts.{Mixed}
use circular_buffer.Buffer.Represents.{Represents, Survives, live}
use native.Mathlib.Decide.{dec_lt}

-- The fields and cells of a buffer that stands for a list, in numbers that need not be its fields.
pub record Layout {ℓ} {A : Type ℓ} ⦃t : Element A⦄ (cap base n : ℕ) (b : Buffer A) (xs : List A)
    : Type ℓ where
  pub cap_eq : b.cap ≡ cap
  pub first_eq : b.first ≡ base
  pub size_eq : b.size ≡ n
  pub last_eq : b.last ≡ slot cap base n
  pub base_in : base ≤ cap - 1
  pub size_le : n ≤ cap
  pub length_eq : length xs ≡ n
  pub held : (i : ℕ) → i < n → b.cell (slot cap base i) ≡ get_elem? xs i
  pub raw : (i : ℕ) → n ≤ i → i < cap → IsVacant (b.cell (slot cap base i))
  pub beyond : (p : ℕ) → cap ≤ p → b.cell p ≡ none

module _ {ℓ} {A : Type ℓ} ⦃t : Element A⦄ where
  pub Represents-Layout :
      {cap base n : ℕ} {b : Buffer A} {xs : List A} → Layout cap base n b xs → Represents b xs
  Represents-Layout {cap} {base} {n} {b} {xs} l = record {
    first_in = omega (arith, l.cap_eq, l.first_eq, l.base_in);
    size_le = omega (arith, l.cap_eq, l.size_eq, l.size_le);
    last_eq = l.last_eq ∙ ap (λ s. slot cap base s) (sym l.size_eq) ∙ same b.size;
    length_eq = l.length_eq ∙ sym l.size_eq;
    held = λ i h. ap b.cell (sym (same i)) ∙ l.held i (omega (arith, l.size_eq));
    raw = λ i h k s.
        ap b.cell (sym (same i)) ∙ l.raw i (omega (arith, l.size_eq)) (omega (arith, l.cap_eq)) s;
    beyond = λ p h. l.beyond p (omega (arith, l.cap_eq));
  }
    where
      same : (i : ℕ) → slot cap base i ≡ slot b.cap b.first i
      same i = ap (λ c. slot c base i) (sym l.cap_eq) ∙ ap (λ f. slot b.cap f i) (sym l.first_eq)

  -- A buffer whose cells hold objects stands for some list.
  pub Represents-some :
      (cap base n : ℕ) (b : Buffer A)
      → b.cap ≡ cap
      → b.first ≡ base
      → b.size ≡ n
      → b.last ≡ slot cap base n
      → base ≤ cap - 1
      → n ≤ cap
      → ((i : ℕ) → i < n → IsLive (b.cell (slot cap base i)))
      → ((i : ℕ) → n ≤ i → i < cap → IsVacant (b.cell (slot cap base i)))
      → ((p : ℕ) → cap ≤ p → b.cell p ≡ none)
      → (xs : List A) × Represents b xs × (length xs ≡ n)
  Represents-some cap base n b c f s l hb hn live raw beyond =
      let (xs, len, held) = collect n (λ i. b.cell (slot cap base i)) live in
      (
        xs,
        Represents-Layout (record {
          cap_eq = c;
          first_eq = f;
          size_eq = s;
          last_eq = l;
          base_in = hb;
          size_le = hn;
          length_eq = len;
          held = held;
          raw = raw;
          beyond = beyond;
        }),
        len,
      )

  -- A call that has changed nothing.
  pub Represents-Stalled :
      {b b' : Buffer A} {xs : List A} → Represents b xs → Stalled b b' → Represents b' xs
  Represents-Stalled {b} r s = Represents-Layout (record {
    cap_eq = s.frame.cap_eq;
    first_eq = s.frame.first_eq;
    size_eq = s.frame.size_eq;
    last_eq = s.frame.last_eq ∙ r.last_eq;
    base_in = r.first_in;
    size_le = r.size_le;
    length_eq = r.length_eq;
    held = λ i h. s.cells (slot b.cap b.first i) ∙ r.held i h;
    raw = λ i h k v. s.cells (slot b.cap b.first i) ∙ r.raw i h k v;
    beyond = λ p h. s.cells p ∙ r.beyond p h;
  })

  -- A run of moves within the elements that an exception has cut short.
  pub Survives-Mixed :
      {b b' : Buffer A} {xs : List A} (r : Represents b xs) (k j : ℕ)
      → j < b.size
      → Mixed b.cap b.first k j b b'
      → Survives b xs element_error b'
  Survives-Mixed {b} {b'} r k j h x =
      let (ys, rep, len) =
        Represents-some b.cap b.first b.size b' x.frame.cap_eq x.frame.first_eq x.frame.size_eq
          (x.frame.last_eq ∙ r.last_eq) r.first_in r.size_le all_live
          (λ i l u v. x.same i u (inr (omega arith)) ∙ r.raw i l u v)
          (λ q l. x.frame.beyond q l ∙ r.beyond q l) in
      (ys, rep, x.frame.cap_eq, refl, omega (arith, len), omega (arith, len))
    where
      all_live : (i : ℕ) → i < b.size → IsLive (b'.cell (slot b.cap b.first i))
      all_live i l = elim (dec_lt i k) [
        | yes low ↦
            let (v, e) = live r i l in (v, x.same i (omega (arith, r.size_le)) (inl low) ∙ e)
        | no high ↦ elim (dec_lt j i) [
          | yes over ↦
              let (v, e) = live r i l in (v, x.same i (omega (arith, r.size_le)) (inr over) ∙ e)
          | no under ↦ x.all_live i (omega arith) (omega arith)
        ]
      ]
