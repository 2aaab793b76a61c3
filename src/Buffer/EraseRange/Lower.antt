-- ===== src/Buffer/EraseRange/Lower.antt =====
-- base.hpp, `erase` of a range: the loop that moves the elements behind the range down.
use circular_buffer.Common.{
  ℕ, zero, suc, ◌+◌, ◌-◌, ◌≤◌, ◌<◌, ◌≡◌, refl, sym, ap, ◌∙◌, inl, inr, false, some, List, ==_of_eq,
  ==_of_ne, Bool-cases, length, get_elem?, set, get_elem?-set_self, get_elem?-set_ne, arith,
}
use circular_buffer.Common.Outcome.{Error, element_error, Ensures, returns, throws, Ensures-mono}
use circular_buffer.Element.{Element}
use circular_buffer.Buffer.{Buffer, Iterator}
use circular_buffer.Buffer.Slot.{slot}
use circular_buffer.Buffer.Memory.{moved_to, move_item-ok, move_item-throws_live}
use circular_buffer.Buffer.Represents.{Represents, Represents-set, position, live}
use circular_buffer.Buffer.Iterate.Steps.{next_inside}
use circular_buffer.Buffer.EraseRange.{lower_loop}
use native.Mathlib.Decide.{ℕ_discrete}

-- `b'` has the fields of `b` but for its storage, and represents `zs`.
pub record Rewritten {ℓ} {A : Type ℓ} ⦃t : Element A⦄ (b : Buffer A) (zs : List A) (b' : Buffer A)
    : Type ℓ where
  pub ring : Represents b' zs
  pub cap_eq : b'.cap ≡ b.cap
  pub first_eq : b'.first ≡ b.first
  pub size_eq : b'.size ≡ b.size

-- The elements from the index `l` on have come to those from `f` on.
pub record Lowered {ℓ} {A : Type ℓ} ⦃t : Element A⦄ (b : Buffer A) (ys : List A) (f l : ℕ)
    (it : Iterator) (b' : Buffer A) : Type ℓ where
  pub zs : List A
  pub rewritten : Rewritten b zs b'
  pub it_eq : it ≡ position b (f + (b.size - l))
  pub same : (i : ℕ) → i < f → get_elem? zs i ≡ get_elem? ys i
  pub lowered : (i : ℕ) → f ≤ i → i + (l - f) < b.size → get_elem? zs i ≡ get_elem? ys (i + (l - f))

module _ {ℓ} {A : Type ℓ} ⦃t : Element A⦄ where
  -- What an exception leaves: as many elements as before.
  abbrev pub Scattered : Buffer A → Error → Buffer A → Type ℓ
  Scattered b e b' = (zs : List A) × Rewritten b zs b' × (e ≡ element_error)

  -- The buffer and the list after a move of the value `v` from the index `l` to `f`.
  abbrev pub carried : Buffer A → (f l : ℕ) → A → Buffer A
  carried b f l v = moved_to b (slot b.cap b.first l) (slot b.cap b.first f) v

  abbrev pub carry : List A → (f l : ℕ) → A → List A
  carry ys f l v = set (set ys f v) l (t.moved v)

  pub Represents-carried :
      {b : Buffer A} {ys : List A} (r : Represents b ys) (f l : ℕ) (v : A)
      → f < b.size
      → l < b.size
      → Represents (carried b f l v) (carry ys f l v)
  Represents-carried {b} r f l v hf hl =
      Represents-set (Represents-set r f v (b.clock + 1) hf) l (t.moved v) (b.clock + 1) hl

  Lowered-step :
      {b : Buffer A} {ys : List A} {f l : ℕ} {v : A} {it : Iterator} {b' : Buffer A}
      → f < l
      → l < b.size
      → length ys ≡ b.size
      → get_elem? ys l ≡ some v
      → Lowered (carried b f l v) (carry ys f l v) (f + 1) (l + 1) it b'
      → Lowered b ys f l it b'
  Lowered-step {b} {ys} {f} {l} {v} h k len held q = record {
    zs = q.zs;
    rewritten = record {
      ring = q.rewritten.ring;
      cap_eq = q.rewritten.cap_eq;
      first_eq = q.rewritten.first_eq;
      size_eq = q.rewritten.size_eq;
    };
    it_eq = q.it_eq ∙ ap (position b) (omega arith);
    same = λ i hi.
        q.same i (omega arith) ∙ other i (λ e. absurd (omega arith)) (λ e. absurd (omega arith));
    lowered = λ i hi bound. elim (ℕ_discrete f i) [
      | yes e ↦
          q.same i (omega arith)
          ∙ get_elem?-set_ne (set ys f v) l i (t.moved v) (λ e'. absurd (omega arith))
          ∙ ap (get_elem? (set ys f v)) (sym e)
          ∙ get_elem?-set_self ys f v (omega arith)
          ∙ sym held
          ∙ ap (get_elem? ys) (omega arith)
      | no ne ↦
          q.lowered i (omega arith) (omega arith)
          ∙ other (i + (l + 1 - (f + 1))) (λ e. absurd (omega arith)) (λ e. absurd (omega arith))
          ∙ ap (get_elem? ys) (omega arith)
    ];
  }
    where
      other : (i : ℕ) → ¬ (f ≡ i) → ¬ (l ≡ i) → get_elem? (carry ys f l v) i ≡ get_elem? ys i
      other i nf nl =
          get_elem?-set_ne (set ys f v) l i (t.moved v) nl ∙ get_elem?-set_ne ys f i v nf

  pub lower_loop-Ensures :
      (n f l : ℕ) (b : Buffer A) (ys : List A) (r : Represents b ys)
      → f < l
      → l ≤ b.size
      → b.size < l + n
      → Ensures (Lowered b ys f l) (Scattered b) (lower_loop n (position b f) (position b l) b)
  unfolding lower_loop
  lower_loop-Ensures zero f l b ys r h k fuel = absurd (omega arith)
  lower_loop-Ensures (suc n) f l b ys r h k fuel = elim (ℕ_discrete l b.size) [
    | yes e ↦
        rw (==_of_eq l b.size e, lower_loop)
          (returns (record {
            zs = ys;
            rewritten = record { ring = r; cap_eq = refl; first_eq = refl; size_eq = refl };
            it_eq = ap (position b) (omega arith);
            same = λ i hi. refl;
            lowered = λ i hi bound. absurd (omega arith);
          }))
    | no ne ↦
        let (v, held) = live r l (omega arith) in
        let (w, below) = live r f (omega arith) in
        rw (==_of_ne l b.size ne, ==_of_ne f b.size (omega arith))
          (rw (next_inside r f (omega arith), next_inside r l (omega arith))
            (elim (Bool-cases (t.throws_at b.clock)) [
              | inl storm ↦
                  rw
                    (move_item-throws_live b (slot b.cap b.first l) (slot b.cap b.first f) v held
                      storm w below)
                    (throws (
                      set ys f (t.torn w v),
                      record {
                        ring = Represents-set r f (t.torn w v) (b.clock + 1) (omega arith);
                        cap_eq = refl;
                        first_eq = refl;
                        size_eq = refl;
                      },
                      refl,
                    ))
              | inr calm ↦
                  rw
                    (move_item-ok b (slot b.cap b.first l) (slot b.cap b.first f) v held false
                      (w, below) calm)
                    (Ensures-mono
                      (lower_loop-Ensures n (f + 1) (l + 1) (carried b f l v) (carry ys f l v)
                        (Represents-carried r f l v (omega arith) (omega arith)) (omega arith)
                        (omega arith) (omega arith))
                      (λ it b' q.
                        Lowered-step h (omega arith) r.length_eq
                          (sym (r.held l (omega arith)) ∙ held) q)
                      (λ e b' (zs, q, err). (
                        zs,
                        record {
                          ring = q.ring;
                          cap_eq = q.cap_eq;
                          first_eq = q.first_eq;
                          size_eq = q.size_eq;
                        },
                        err,
                      )))
            ]))
  ]
