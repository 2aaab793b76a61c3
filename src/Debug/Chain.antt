-- ===== src/Debug/Chain.antt =====
-- debug.hpp: the chain of iterators in memory as a list of addresses, and a removal from it.
use circular_buffer.Common.{
  ℕ, ◌≡◌, refl, sym, ap, ◌∙◌, subst, Option, none, some, List, [], ◌∷◌, ==-refl, ==_of_ne,
}
use circular_buffer.Debug.{Store, set_at, set_next, remove}
use mathlib.Core.Option.{some-injective, some-ne-none}

-- The pointer `p` leads through the iterators `ids`, the last of which has no next one.
abbrev pub Chain : (ℕ → Option ℕ) → Option ℕ → List ℕ → Type 0
Chain next p [] = p ≡ none
Chain next p (i ∷ is) = (p ≡ some i) × Chain next (next i) is

abbrev pub Fresh : ℕ → List ℕ → Type 0
Fresh i [] = Unit
Fresh i (j ∷ js) = ¬ (i ≡ j) × Fresh i js

abbrev pub Distinct : List ℕ → Type 0
Distinct [] = Unit
Distinct (i ∷ is) = Fresh i is × Distinct is

-- The iterator before a place of the chain, null at its start, is not behind that place.
abbrev pub Off : Option ℕ → List ℕ → Type 0
Off none ids = Unit
Off (some q) ids = Fresh q ids

-- The pointer that follows `previous` in the chain
abbrev pub link : Store → ℕ → Option ℕ → Option ℕ
link s g none = s.head g
link s g (some q) = s.next q

-- From `previous` on, the chain of `ids` has become that of `out`, and no other pointer has changed.
pub record Edited (g : ℕ) (previous : Option ℕ) (ids : List ℕ) (s s' : Store) (out : List ℕ)
    : Type 0 where
  pub chain : Chain s'.next (link s' g previous) out
  pub nexts : (j : ℕ) → Fresh j ids → ¬ (previous ≡ some j) → s'.next j ≡ s.next j
  pub heads : (q : ℕ) → previous ≡ some q → s'.head g ≡ s.head g
  pub elsewhere : (h : ℕ) → ¬ (g ≡ h) → s'.head h ≡ s.head h

pub set_at_self {ℓ} : {A : Type ℓ} (f : ℕ → A) (i : ℕ) (v : A) → set_at f i v i ≡ v
set_at_self f i v = rw (==-refl i)

pub set_at_ne {ℓ} : {A : Type ℓ} (f : ℕ → A) (i j : ℕ) (v : A) → ¬ (i ≡ j) → set_at f i v j ≡ f j
set_at_ne f i j v h = rw (==_of_ne i j h)

pub Chain-set_at :
    (next : ℕ → Option ℕ) (q : ℕ) (v p : Option ℕ) (ids : List ℕ)
    → Fresh q ids
    → Chain next p ids
    → Chain (set_at next q v) p ids
Chain-set_at next q v p [] fresh c = c
Chain-set_at next q v p (i ∷ is) (ne, fresh) (e, c) = (
  e,
  subst (λ k. Chain (set_at next q v) k is) (sym (set_at_ne next q i v ne))
      (Chain-set_at next q v (next i) is fresh c),
)

-- A chain rests on the pointers of its own iterators only.
pub Chain-agree :
    (next next' : ℕ → Option ℕ) (p : Option ℕ) (ids : List ℕ)
    → ((j : ℕ) → ¬ Fresh j ids → next' j ≡ next j)
    → Chain next p ids
    → Chain next' p ids
Chain-agree next next' p [] agree c = c
Chain-agree next next' p (i ∷ is) agree (e, c) = (
  e,
  subst (λ k. Chain next' k is) (sym (agree i (λ f. f.0 refl)))
      (Chain-agree next next' (next i) is (λ j h. agree j (λ f. h f.1)) c),
)

pub step_over :
    {g : ℕ} {s s' : Store} {out rest : List ℕ} (previous : Option ℕ) (i : ℕ)
    → link s g previous ≡ some i
    → Off previous (i ∷ rest)
    → Fresh i rest
    → Edited g (some i) rest s s' out
    → Edited g previous (i ∷ rest) s s' (i ∷ out)
step_over none i e off fresh d = record {
  chain = (d.heads i refl ∙ e, d.chain);
  nexts = λ j (ne, f) h. d.nexts j f (λ k. ne (sym (some-injective _ _ k)));
  heads = λ q k. absurd (some-ne-none q (sym k));
  elsewhere = d.elsewhere;
}
step_over (some q) i e (ne, off) fresh d = record {
  chain = (d.nexts q off (λ k. ne (sym (some-injective _ _ k))) ∙ e, d.chain);
  nexts = λ j (ne, f) h. d.nexts j f (λ k. ne (sym (some-injective _ _ k)));
  heads = λ q k. d.heads i refl;
  elsewhere = d.elsewhere;
}

-- What `remove` does of the iterator `i` behind `previous`
pub record TakenOut (g i : ℕ) (previous : Option ℕ) (rest : List ℕ) (s s' : Store) : Type 0 where
  pub edited : Edited g previous (i ∷ rest) s s' rest
  pub link_eq : link s' g previous ≡ s'.next i
  pub registry_eq : s'.registry ≡ s.registry
  pub pointee_eq : s'.pointee ≡ s.pointee

pub take_out :
    {g : ℕ} {s : Store} {rest : List ℕ} (previous : Option ℕ) (i : ℕ)
    → link s g previous ≡ some i
    → Off previous (i ∷ rest)
    → Chain s.next (s.next i) rest
    → (s' : Store) × (remove g i previous s ≡ some s') × TakenOut g i previous rest s s'
unfolding remove set_next
take_out {g} {s} {rest} none i e off c = (
  record s { head = set_at s.head g (s.next i) },
  rw (e, remove) refl,
  record {
    edited = record {
      chain = subst (λ p. Chain s.next p rest) (sym (set_at_self s.head g (s.next i))) c;
      nexts = λ j f h. refl;
      heads = λ q k. absurd (some-ne-none q (sym k));
      elsewhere = λ h ne. set_at_ne s.head g h (s.next i) ne;
    };
    link_eq = set_at_self s.head g (s.next i);
    registry_eq = refl;
    pointee_eq = refl;
  },
)
take_out {g} {s} {rest} (some q) i e (ne, off) c = (
  _,
  refl,
  record {
    edited = record {
      chain =
          subst (λ p. Chain (set_at s.next q (s.next i)) p rest)
            (sym (set_at_self s.next q (s.next i)))
            (Chain-set_at s.next q (s.next i) (s.next i) rest off c);
      nexts = λ j f h. set_at_ne s.next q j (s.next i) (λ k. h (ap some k));
      heads = λ q k. refl;
      elsewhere = λ h ne. refl;
    };
    link_eq = set_at_self s.next q (s.next i) ∙ sym (set_at_ne s.next q i (s.next i) ne);
    registry_eq = refl;
    pointee_eq = refl;
  },
)
