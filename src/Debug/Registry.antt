-- ===== src/Debug/Registry.antt =====
-- debug.hpp: what the operations of the registry do to the list of the registered iterators.
use circular_buffer.Common.{
  ℕ, zero, suc, ◌≤◌, ◌≡◌, refl, sym, ap, ◌∙◌, subst, Option, none, some, List, [], ◌∷◌, ◌==◌,
  if◌then◌else◌, ==_of_ne, ==_of_eq, length, arith,
}
use circular_buffer.Debug.{
  Store, set_at, set_next, register_iterator, remove, find_previous, unregister_iterator, create,
  unregister_self, register_self, assign, ◌>>=◌,
}
use circular_buffer.Debug.Chain.{
  Chain, Fresh, Distinct, Off, link, Edited, set_at_self, set_at_ne, Chain-set_at, Chain-agree,
  step_over, take_out,
}
use mathlib.Core.Option.{some-injective, some-ne-none}
use native.Mathlib.Decide.{ℕ_discrete}

-- The iterators of the chain, each of them once, are valid.
pub record Registers (s : Store) (g : ℕ) (ids : List ℕ) : Type 0 where
  pub chain : Chain s.next (s.head g) ids
  pub distinct : Distinct ids
  pub valid : (i : ℕ) → ¬ Fresh i ids → s.registry i ≡ some g

abbrev pub without : ℕ → List ℕ → List ℕ
without i [] = []
without i (j ∷ js) = let rest = without i js in if j == i then js else j ∷ rest

Detached : (g it : ℕ) → Option ℕ → List ℕ → Store → Option Store → Type 0
Detached g it previous ids s r =
    (s' : Store) × (r ≡ some s')
    × Edited g previous ids s s' (without it ids)
    × (s'.registry ≡ s.registry)

detach :
    (n g it : ℕ) (ids : List ℕ) (previous : Option ℕ) (s : Store) (p : Option ℕ)
    → link s g previous ≡ p
    → Chain s.next p ids
    → Off previous ids
    → Distinct ids
    → ¬ Fresh it ids
    → length ids ≤ n
    → Detached g it previous ids s (find_previous n it p previous s >>= λ q. remove g it q s)
unfolding find_previous Detached
detach n g it [] previous s p e c off distinct here fuel = absurd (here tt)
detach zero g it (i ∷ is) previous s p e c off distinct here fuel = absurd (omega arith)
detach (suc n) g it (i ∷ is) previous s p e (e', c) off (fresh, distinct) here fuel =
    subst
      (λ p.
        Detached g it previous (i ∷ is) s
          (find_previous (suc n) it p previous s >>= λ q. remove g it q s))
      (sym e')
      (elim (ℕ_discrete i it) [
        | yes q ↦
            let (s', ran, out) = take_out previous i (e ∙ e') off c in
            rw (==_of_eq i it q)
              (s', subst (λ k. remove g k previous s ≡ some s') q ran, out.edited, out.registry_eq)
        | no ne ↦
            let (s', ran, edited, registry_eq) =
              detach n g it is (some i) s (s.next i) refl c fresh distinct
                (λ f. here (λ k. ne (sym k), f)) (omega arith) in
            rw (==_of_ne i it ne)
              (s', ran, step_over previous i (e ∙ e') off fresh edited, registry_eq)
      ])

Fresh-without : (i it : ℕ) (ids : List ℕ) → Fresh i ids → Fresh i (without it ids)
Fresh-without i it [] f = f
Fresh-without i it (j ∷ js) (ne, f) = elim (ℕ_discrete j it) [
  | yes e ↦ rw (==_of_eq j it e) f
  | no d ↦ rw (==_of_ne j it d) (ne, Fresh-without i it js f)
]

Distinct-without : (it : ℕ) (ids : List ℕ) → Distinct ids → Distinct (without it ids)
Distinct-without it [] d = d
Distinct-without it (j ∷ js) (f, d) = elim (ℕ_discrete j it) [
  | yes e ↦ rw (==_of_eq j it e) d
  | no ne ↦ rw (==_of_ne j it ne) (Fresh-without j it js f, Distinct-without it js d)
]

-- An iterator that is taken out is in the list no more.
without-Fresh : (it : ℕ) (ids : List ℕ) → Distinct ids → Fresh it (without it ids)
without-Fresh it [] d = tt
without-Fresh it (j ∷ js) (f, d) = elim (ℕ_discrete j it) [
  | yes e ↦ rw (==_of_eq j it e) (subst (λ k. Fresh k js) e f)
  | no ne ↦ rw (==_of_ne j it ne) (λ k. ne (sym k), without-Fresh it js d)
]

dec_Fresh : (i : ℕ) (ids : List ℕ) → Dec (Fresh i ids)
dec_Fresh i [] = yes tt
dec_Fresh i (j ∷ js) = elim (ℕ_discrete i j) [
  | yes e ↦ no (λ f. f.0 e)
  | no ne ↦ elim (dec_Fresh i js) [ yes f ↦ yes (ne, f) | no n ↦ no (λ f. n f.1) ]
]

register_self-valid :
    (s : Store) (it g : ℕ) → s.registry it ≡ some g → register_self it s ≡ register_iterator g it s
unfolding register_self
register_self-valid s it g own = rw (own, register_self) refl

module _ {s : Store} {g : ℕ} {ids : List ℕ} (r : Registers s g ids) where
  -- An iterator belongs to one registry.
  apart :
      (h : ℕ) (js : List ℕ) → ¬ (g ≡ h) → Registers s h js → (j : ℕ) → ¬ Fresh j js → Fresh j ids
  apart h js ne q j here = elim (dec_Fresh j ids) [
    | yes f ↦ f
    | no n ↦ absurd (ne (some-injective _ _ (sym (r.valid j n) ∙ q.valid j here)))
  ]

  renamed :
      (it : ℕ) (v : Option ℕ)
      → Fresh it ids
      → Registers (record s { registry = set_at s.registry it v }) g ids
  renamed it v fresh = record {
    chain = r.chain;
    distinct = r.distinct;
    valid = λ i h.
        set_at_ne s.registry it i v (λ e. h (subst (λ k. Fresh k ids) e fresh)) ∙ r.valid i h;
  }

  registered :
      (it : ℕ)
      → Fresh it ids
      → s.registry it ≡ some g
      → Registers (register_iterator g it s) g (it ∷ ids)
  unfolding register_iterator set_next
  registered it fresh own = record {
    chain = (
      set_at_self s.head g (some it),
      subst (λ p. Chain (set_at s.next it (s.head g)) p ids)
          (sym (set_at_self s.next it (s.head g)))
          (Chain-set_at s.next it (s.head g) (s.head g) ids fresh r.chain),
    );
    distinct = (fresh, r.distinct);
    valid = λ i h. elim (ℕ_discrete i it) [
      | yes e ↦ ap s.registry e ∙ own
      | no ne ↦ r.valid i (λ f. h (ne, f))
    ];
  }

  registered_elsewhere :
      (h it : ℕ) → Fresh it ids → ¬ (h ≡ g) → Registers (register_iterator h it s) g ids
  unfolding register_iterator set_next
  registered_elsewhere h it fresh ne = record {
    chain =
        subst (λ p. Chain (set_at s.next it (s.head h)) p ids)
          (sym (set_at_ne s.head h g (some it) ne))
          (Chain-set_at s.next it (s.head h) (s.head g) ids fresh r.chain);
    distinct = r.distinct;
    valid = r.valid;
  }

module _ {s : Store} {g : ℕ} {ids : List ℕ} (r : Registers s g ids) where
  -- Where the chain of a registry links exactly the iterators of a list, each once and all valid,
  -- the constructor with that registry puts an iterator that is not in the list at the head of the
  -- chain, before the others, and it is valid.
  pub create_refines : (it : ℕ) → Fresh it ids → Registers (create it (some g) s) g (it ∷ ids)
  unfolding create
  create_refines it fresh =
      let own = set_at_self s.registry it (some g) in
      let s' = record s {
        registry = set_at s.registry it (some g);
        next = set_at s.next it none;
      } in
      let fits : Registers s' g ids = record {
        chain = Chain-set_at s.next it none (s.head g) ids fresh r.chain;
        distinct = r.distinct;
        valid = (renamed r it (some g) fresh).valid;
      } in
      subst (λ s''. Registers s'' g (it ∷ ids)) (sym (register_self-valid s' it g own))
        (registered fits it fresh own)

  -- What the removal of `it` from the chain leaves, of every registry
  abbrev pub Unregistered : ℕ → Store → Type 0
  Unregistered it s' =
      Registers s' g (without it ids)
      × (s'.registry ≡ s.registry)
      × ((h : ℕ) (js : List ℕ) → ¬ (g ≡ h) → Registers s h js → Registers s' h js)

  -- Where the iterator is in the chain of a registry and the fuel is at least the number of
  -- iterators there, unregister_iterator ends, takes it out of that chain, and leaves the chains
  -- of the other registries and every m_registry as they are.
  pub unregister_refines :
      (n it : ℕ)
      → ¬ Fresh it ids
      → length ids ≤ n
      → (s' : Store) × (unregister_iterator n g it s ≡ some s') × Unregistered it s'
  unfolding unregister_iterator Detached
  unregister_refines n it here fuel =
      let (s', ran, edited, registry_eq) =
        detach n g it ids none s (s.head g) refl r.chain tt r.distinct here fuel in
      (
        s',
        ran,
        (
          record {
            chain = edited.chain;
            distinct = Distinct-without it ids r.distinct;
            valid =
                λ i h. ap (λ f. f i) registry_eq ∙ r.valid i (λ f. h (Fresh-without i it ids f));
          },
          registry_eq,
          λ h js ne q. record {
            chain =
                Chain-agree s.next s'.next (s'.head h) js
                  (λ j k. edited.nexts j (apart r h js ne q j k) (λ e. some-ne-none j (sym e)))
                  (subst (λ p. Chain s.next p js) (sym (edited.elsewhere h ne)) q.chain);
            distinct = q.distinct;
            valid = λ i k. ap (λ f. f i) registry_eq ∙ q.valid i k;
          },
        ),
      )

assign-moves :
    (s s' : Store) (g h n it rhs : ℕ)
    → s.registry it ≡ some g
    → s.registry rhs ≡ some h
    → ¬ (g ≡ h)
    → unregister_iterator n g it s ≡ some s'
    → s'.registry rhs ≡ some h
    → assign n it rhs s
      ≡ some (register_iterator h it (record s' { registry = set_at s'.registry it (some h) }))
unfolding assign unregister_self
assign-moves s s' g h n it rhs own theirs ne ran still =
    rw (own, theirs, ==_of_ne g h ne, ran, still, unregister_self)
      (ap some (register_self-valid _ it h (set_at_self s'.registry it (some h))))

-- Where two different registries chain their iterators, an assignment of an iterator of the second
-- to one of the first ends, if the fuel is at least the number of iterators of the first, takes it
-- out of the first chain and puts it at the head of the second.
pub assign_refines :
    {s : Store} {g h : ℕ} {ids js : List ℕ} (n it rhs : ℕ)
    → Registers s g ids
    → Registers s h js
    → ¬ (g ≡ h)
    → ¬ Fresh it ids
    → ¬ Fresh rhs js
    → length ids ≤ n
    → (s' : Store) × (assign n it rhs s ≡ some s')
      × Registers s' g (without it ids)
      × Registers s' h (it ∷ js)
unfolding assign unregister_self register_self
assign_refines {s} {g} {h} {ids} {js} n it rhs r q ne here there fuel =
    let (s', ran, (out, registry_eq, others)) = unregister_refines r n it here fuel in
    let moved = record s' { registry = set_at s'.registry it (some h) } in
    let own = set_at_self s'.registry it (some h) in
    let free = apart q g ids (λ e. ne (sym e)) r it here in
    let left = renamed out it (some h) (without-Fresh it ids r.distinct) in
    let joins = renamed (others h js ne q) it (some h) free in
    (
      register_iterator h it moved,
      assign-moves s s' g h n it rhs (r.valid it here) (q.valid rhs there) ne ran
          (ap (λ f. f rhs) registry_eq ∙ q.valid rhs there),
      registered_elsewhere left h it (without-Fresh it ids r.distinct) (λ e. ne (sym e)),
      registered joins it free own,
    )
