-- ===== src/Buffer/ReraseRange/Raise.antt =====
-- base.hpp, `rerase` of a range: the loop that moves the elements before the range up.
use circular_buffer.Common.{
  ℕ, zero, suc, ◌+◌, ◌-◌, ◌≤◌, ◌<◌, ◌≡◌, refl, sym, ap, ◌∙◌, inl, inr, false, some, List, ==_of_eq,
  ==_of_ne, Bool-cases, length, get_elem?, set, get_elem?-set_self, get_elem?-set_ne, arith,
}
use circular_buffer.Common.Outcome.{Ensures, returns, throws, Ensures-mono}
use circular_buffer.Element.{Element}
use circular_buffer.Buffer.{Buffer, decrement}
use circular_buffer.Buffer.Slot.{slot, slot-zero, slot-injective}
use circular_buffer.Buffer.Pointers.{decrement_at}
use circular_buffer.Buffer.Memory.{move_item-ok, move_item-throws_live}
use circular_buffer.Buffer.Represents.{Represents, Represents-set, live}
use circular_buffer.Buffer.EraseRange.Lower.{
  Rewritten, Scattered, carried, carry, Represents-carried,
}
use circular_buffer.Buffer.ReraseRange.{raise_loop}
use native.Mathlib.Decide.{ℕ_discrete}

-- The elements in front of the index `f` have come to those in front of `l`.
pub record Raised {ℓ} {A : Type ℓ} ⦃t : Element A⦄ (b : Buffer A) (ys : List A) (f l : ℕ) (p : ℕ)
    (b' : Buffer A) : Type ℓ where
  pub zs : List A
  pub rewritten : Rewritten b zs b'
  pub p_eq : p ≡ slot b.cap b.first (l - f)
  pub same : (i : ℕ) → l ≤ i → get_elem? zs i ≡ get_elem? ys i
  pub raised : (i : ℕ) → i < f → get_elem? zs (i + (l - f)) ≡ get_elem? ys i

module _ {ℓ} {A : Type ℓ} ⦃t : Element A⦄ where
  Raised-step :
      {b : Buffer A} {ys : List A} {f l : ℕ} {v : A} {p : ℕ} {b' : Buffer A}
      → 0 < f
      → f < l
      → l ≤ length ys
      → get_elem? ys (f - 1) ≡ some v
      → Raised (carried b (l - 1) (f - 1) v) (carry ys (l - 1) (f - 1) v) (f - 1) (l - 1) p b'
      → Raised b ys f l p b'
  Raised-step {b} {ys} {f} {l} {v} pos h len held q = record {
    zs = q.zs;
    rewritten = record {
      ring = q.rewritten.ring;
      cap_eq = q.rewritten.cap_eq;
      first_eq = q.rewritten.first_eq;
      size_eq = q.rewritten.size_eq;
    };
    p_eq = q.p_eq ∙ ap (slot b.cap b.first) (omega arith);
    same = λ i hi.
        q.same i (omega arith) ∙ other i (λ e. absurd (omega arith)) (λ e. absurd (omega arith));
    raised = λ i hi. elim (ℕ_discrete (f - 1) i) [
      | yes e ↦
          let at : i + (l - f) ≡ l - 1 = omega arith in
          ap (get_elem? q.zs) at
          ∙ q.same (l - 1) (omega arith)
          ∙ get_elem?-set_ne (set ys (l - 1) v) (f - 1) (l - 1) (t.moved v)
              (λ e'. absurd (omega arith))
          ∙ get_elem?-set_self ys (l - 1) v (omega arith)
          ∙ sym held
          ∙ ap (get_elem? ys) e
      | no ne ↦
          let at : i + (l - f) ≡ i + (l - 1 - (f - 1)) = omega arith in
          ap (get_elem? q.zs) at
          ∙ q.raised i (omega arith)
          ∙ other i (λ e. absurd (omega arith)) (λ e. absurd (omega arith))
    ];
  }
    where
      other :
          (i : ℕ)
          → ¬ (l - 1 ≡ i)
          → ¬ (f - 1 ≡ i)
          → get_elem? (carry ys (l - 1) (f - 1) v) i ≡ get_elem? ys i
      other i nl nf =
          get_elem?-set_ne (set ys (l - 1) v) (f - 1) i (t.moved v) nf
          ∙ get_elem?-set_ne ys (l - 1) i v nl

  pub raise_loop-Ensures :
      (n f l : ℕ) (b : Buffer A) (ys : List A) (r : Represents b ys)
      → f < l
      → l ≤ b.size
      → f < n
      → Ensures
          (Raised b ys f l)
          (Scattered b)
          (raise_loop n (slot b.cap b.first f) (slot b.cap b.first l) b)
  unfolding raise_loop
  raise_loop-Ensures zero f l b ys r h k fuel = absurd (omega arith)
  raise_loop-Ensures (suc n) f l b ys r h k fuel = elim (ℕ_discrete f 0) [
    | yes e ↦
        let at_first : slot b.cap b.first f ≡ b.first =
          ap (slot b.cap b.first) e
          ∙ slot-zero b.cap b.first (omega (arith, r.first_in, r.size_le)) in
        rw (==_of_eq (slot b.cap b.first f) b.first at_first, raise_loop)
          (returns (record {
            zs = ys;
            rewritten = record { ring = r; cap_eq = refl; first_eq = refl; size_eq = refl };
            p_eq = ap (slot b.cap b.first) (omega arith);
            same = λ i hi. refl;
            raised = λ i hi. absurd (omega arith);
          }))
    | no ne ↦
        let first_lt : b.first < b.cap = omega (arith, r.first_in, r.size_le) in
        let past : ¬ (slot b.cap b.first f ≡ b.first) = λ q. ne (
          slot-injective b.cap b.first f 0 first_lt (omega (arith, r.size_le))
            (omega (arith, r.size_le)) (q ∙ sym (slot-zero b.cap b.first first_lt))) in
        let back : (i : ℕ)
            → 0 < i
            → decrement b (slot b.cap b.first i) ≡ slot b.cap b.first (i - 1) =
          λ i hi.
            ap (λ j. decrement b (slot b.cap b.first j)) (omega arith)
            ∙ decrement_at b refl b.first first_lt (i - 1) in
        let (v, held) = live r (f - 1) (omega arith) in
        let (w, below) = live r (l - 1) (omega arith) in
        rw (==_of_ne (slot b.cap b.first f) b.first past, raise_loop)
          (rw (back f (omega arith), back l (omega arith))
            (elim (Bool-cases (t.throws_at b.clock)) [
              | inl storm ↦
                  rw
                    (move_item-throws_live b (slot b.cap b.first (f - 1))
                      (slot b.cap b.first (l - 1)) v held storm w below)
                    (throws (
                      set ys (l - 1) (t.torn w v),
                      record {
                        ring = Represents-set r (l - 1) (t.torn w v) (b.clock + 1) (omega arith);
                        cap_eq = refl;
                        first_eq = refl;
                        size_eq = refl;
                      },
                      refl,
                    ))
              | inr calm ↦
                  rw
                    (move_item-ok b (slot b.cap b.first (f - 1)) (slot b.cap b.first (l - 1)) v held
                      false (w, below) calm)
                    (Ensures-mono
                      (raise_loop-Ensures n (f - 1) (l - 1) (carried b (l - 1) (f - 1) v)
                        (carry ys (l - 1) (f - 1) v)
                        (Represents-carried r (l - 1) (f - 1) v (omega arith) (omega arith))
                        (omega arith) (omega arith) (omega arith))
                      (λ p b' q.
                        Raised-step (omega arith) h (omega (arith, r.length_eq))
                          (sym (r.held (f - 1) (omega arith)) ∙ held) q)
                      (λ e b' (zs, q, err). (
                        zs,
                        record {
                          ring = q.ring;
                          cap_eq = q.cap_eq;
                          first_eq = q.first_eq;
                          size_eq = q.size_eq;
                        },
                        err,
                      )))
            ]))
  ]
