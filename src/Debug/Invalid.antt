-- ===== src/Debug/Invalid.antt =====
-- debug.hpp: the invalidation of the registered iterators that point to an element.
use circular_buffer.Common.{
  ℕ, zero, suc, ◌≤◌, ◌≡◌, refl, sym, ap, ◌∙◌, subst, inl, inr, Bool, true, false, not, Option, none,
  some, List, [], ◌∷◌, if◌then◌else◌, Bool-cases, length, arith,
}
use circular_buffer.Debug.{
  Store, same, invalidate, invalidate_loop, invalidate_iterators, invalidate_iterators_except,
}
use circular_buffer.Debug.Chain.{
  Chain, Fresh, Distinct, Off, link, Edited, set_at_self, set_at_ne, step_over, TakenOut, take_out,
}
use circular_buffer.Debug.Registry.{Registers}
use mathlib.Core.Bool.{true≢false}
use native.Mathlib.Decide.{ℕ_discrete}

-- The iterators that do not point to an element that the test is true of.
abbrev pub kept : (Option ℕ → Bool) → (ℕ → Option ℕ) → List ℕ → List ℕ
kept test pointee [] = []
kept test pointee (i ∷ is) =
    let rest = kept test pointee is in if test (pointee i) then rest else i ∷ rest

-- The registry of `j` has become null if the test is true of it.
abbrev pub dropped : (Option ℕ → Bool) → Store → ℕ → Option ℕ
dropped test s j = if test (s.pointee j) then none else s.registry j

record Swept (g : ℕ) (test : Option ℕ → Bool) (previous : Option ℕ) (ids : List ℕ) (s s' : Store)
    : Type 0 where
  edited : Edited g previous ids s s' (kept test s.pointee ids)
  valid : (j : ℕ) → ¬ Fresh j ids → s'.registry j ≡ dropped test s j
  others : (j : ℕ) → Fresh j ids → s'.registry j ≡ s.registry j

Runs : (n g : ℕ) → (Option ℕ → Bool) → Option ℕ → List ℕ → Store → Option ℕ → Type 0
Runs n g test previous ids s p =
    (s' : Store) × (invalidate_loop n g test p previous s ≡ some s')
    × Swept g test previous ids s s'

Swept-over :
    {g i : ℕ} {test : Option ℕ → Bool} {previous : Option ℕ} {rest : List ℕ} {s s' : Store}
    → link s g previous ≡ some i
    → Off previous (i ∷ rest)
    → Fresh i rest
    → test (s.pointee i) ≡ false
    → Swept g test (some i) rest s s'
    → Swept g test previous (i ∷ rest) s s'
Swept-over {g} {i} {test} {previous} {rest} {s} {s'} e off fresh miss w = record {
  edited = rw miss (step_over previous i e off fresh w.edited);
  valid = λ j h. elim (ℕ_discrete j i) [
    | yes q ↦
        subst (λ j. s'.registry j ≡ dropped test s j) (sym q) (w.others i fresh ∙ rw miss refl)
    | no ne ↦ w.valid j (λ f. h (ne, f))
  ];
  others = λ j (ne, f). w.others j f;
}

-- The removal of `i`, then the rest of the loop.
Swept-out :
    {g i : ℕ} {test : Option ℕ → Bool} {previous : Option ℕ} {rest : List ℕ} {s m s' : Store}
    → Fresh i rest
    → test (s.pointee i) ≡ true
    → TakenOut g i previous rest (invalidate i s) m
    → Swept g test previous rest m s'
    → Swept g test previous (i ∷ rest) s s'
unfolding invalidate
Swept-out {g} {i} {test} {previous} {rest} {s} {m} {s'} fresh hit o w = record {
  edited = rw hit (record {
    chain =
        subst (λ f. Chain s'.next (link s' g previous) (kept test f rest)) o.pointee_eq
          w.edited.chain;
    nexts = λ j (ne, f) k. w.edited.nexts j f k ∙ o.edited.nexts j (ne, f) k;
    heads = λ q k. w.edited.heads q k ∙ o.edited.heads q k;
    elsewhere = λ h ne. w.edited.elsewhere h ne ∙ o.edited.elsewhere h ne;
  });
  valid = λ j h. elim (ℕ_discrete j i) [
    | yes q ↦
        subst (λ j. s'.registry j ≡ dropped test s j) (sym q)
          (w.others i fresh
            ∙ ap (λ f. f i) o.registry_eq
            ∙ set_at_self s.registry i none
            ∙ rw hit refl)
    | no ne ↦
        w.valid j (λ f. h (ne, f))
        ∙ ap (λ f. if test (f j) then none else m.registry j) o.pointee_eq
        ∙ ap (λ f. if test (s.pointee j) then none else f j) o.registry_eq
        ∙ ap (λ v. if test (s.pointee j) then none else v)
            (set_at_ne s.registry i j none (λ k. ne (sym k)))
  ];
  others = λ j (ne, f).
      w.others j f ∙ ap (λ f. f j) o.registry_eq ∙ set_at_ne s.registry i j none (λ k. ne (sym k));
}

Off-rest : (previous : Option ℕ) (i : ℕ) (is : List ℕ) → Off previous (i ∷ is) → Off previous is
Off-rest none i is off = tt
Off-rest (some q) i is (ne, off) = off

sweep :
    (n g : ℕ) (test : Option ℕ → Bool) (ids : List ℕ) (previous : Option ℕ) (s : Store)
    (p : Option ℕ)
    → link s g previous ≡ p
    → Chain s.next p ids
    → Off previous ids
    → Distinct ids
    → length ids ≤ n
    → Runs n g test previous ids s p
unfolding invalidate_loop Runs invalidate
sweep n g test [] previous s p e c off distinct fuel = rw c (
  s,
  refl,
  record {
    edited = record {
      chain = e ∙ c;
      nexts = λ j f h. refl;
      heads = λ q k. refl;
      elsewhere = λ h ne. refl;
    };
    valid = λ j h. absurd (h tt);
    others = λ j f. refl;
  },
)
sweep zero g test (i ∷ is) previous s p e c off distinct fuel = absurd (omega arith)
sweep (suc n) g test (i ∷ is) previous s p e (e', c) off (fresh, distinct) fuel =
    subst (Runs (suc n) g test previous (i ∷ is) s) (sym e')
      (elim (Bool-cases (test (s.pointee i))) [
        | inl hit ↦
            let (m, ran, o) = take_out {g = g} {s = invalidate i s} previous i (e ∙ e') off c in
            let c' = subst (λ p. Chain m.next p is) o.link_eq o.edited.chain in
            let (s', rest, w) =
              sweep n g test is previous m (m.next i) o.link_eq c' (Off-rest previous i is off)
                distinct (omega arith) in
            (s', rw (hit, ran, invalidate_loop) rest, Swept-out fresh hit o w)
        | inr miss ↦
            let (s', ran, w) =
              sweep n g test is (some i) s (s.next i) refl c fresh distinct (omega arith) in
            (s', rw (miss, invalidate_loop) ran, Swept-over (e ∙ e') off fresh miss w)
      ])

Fresh-kept :
    (test : Option ℕ → Bool) (pointee : ℕ → Option ℕ) (i : ℕ) (ids : List ℕ)
    → Fresh i ids
    → Fresh i (kept test pointee ids)
Fresh-kept test pointee i [] f = f
Fresh-kept test pointee i (j ∷ js) (ne, f) = elim (Bool-cases (test (pointee j))) [
  | inl hit ↦ rw hit (Fresh-kept test pointee i js f)
  | inr miss ↦ rw miss (ne, Fresh-kept test pointee i js f)
]

Distinct-kept :
    (test : Option ℕ → Bool) (pointee : ℕ → Option ℕ) (ids : List ℕ)
    → Distinct ids
    → Distinct (kept test pointee ids)
Distinct-kept test pointee [] d = d
Distinct-kept test pointee (j ∷ js) (f, d) = elim (Bool-cases (test (pointee j))) [
  | inl hit ↦ rw hit (Distinct-kept test pointee js d)
  | inr miss ↦ rw miss (Fresh-kept test pointee j js f, Distinct-kept test pointee js d)
]

-- An iterator that the test is true of is not kept.
kept-hit :
    (test : Option ℕ → Bool) (pointee : ℕ → Option ℕ) (i : ℕ) (ids : List ℕ)
    → test (pointee i) ≡ true
    → Fresh i (kept test pointee ids)
kept-hit test pointee i [] hit = tt
kept-hit test pointee i (j ∷ js) hit = elim (Bool-cases (test (pointee j))) [
  | inl h ↦ rw h (kept-hit test pointee i js hit)
  | inr miss ↦ rw miss (
    (λ e. true≢false (sym hit ∙ ap (λ k. test (pointee k)) e ∙ miss)),
    kept-hit test pointee i js hit,
  )
]

-- The registered iterators that the test is true of are taken out of the chain and are valid no
-- more, and the others stay as they are.
abbrev pub Invalidated : Store → ℕ → List ℕ → (Option ℕ → Bool) → Option Store → Type 0
Invalidated s g ids test r =
    (s' : Store) × (r ≡ some s')
    × Registers s' g (kept test s.pointee ids)
    × ((j : ℕ) → ¬ Fresh j ids → s'.registry j ≡ dropped test s j)

module _ {s : Store} {g : ℕ} {ids : List ℕ} (r : Registers s g ids) (n : ℕ)
    (fuel : length ids ≤ n) where
  invalidated :
      (test : Option ℕ → Bool)
      → Invalidated s g ids test (invalidate_loop n g test (s.head g) none s)
  unfolding Runs
  invalidated test =
      let (s', ran, w) = sweep n g test ids none s (s.head g) refl r.chain tt r.distinct fuel in
      (
        s',
        ran,
        record {
          chain = w.edited.chain;
          distinct = Distinct-kept test s.pointee ids r.distinct;
          valid = λ i h.
              let here : ¬ Fresh i ids = λ f. h (Fresh-kept test s.pointee i ids f) in
              w.valid i here ∙ elim (Bool-cases (test (s.pointee i))) [
                | inl hit ↦ absurd (h (kept-hit test s.pointee i ids hit))
                | inr miss ↦ rw miss (r.valid i here)
              ];
        },
        w.valid,
      )

  -- Where the chain of a registry links exactly the iterators of a list, each once and all valid,
  -- and the fuel is at least their number, invalidate_iterators ends and takes out of the chain
  -- exactly the iterators to the element that p points to, and invalidate_iterators_except exactly
  -- the others: these are valid no more, and the rest keep their order and their registry.
  pub invalidate_refines :
      (p : Option ℕ)
      → Invalidated s g ids (same p) (invalidate_iterators n g p s)
        × Invalidated s g ids (λ q. not (same p q)) (invalidate_iterators_except n g p s)
  unfolding invalidate_iterators invalidate_iterators_except
  invalidate_refines p = (invalidated (same p), invalidated (λ q. not (same p q)))
