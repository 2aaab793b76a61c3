-- ===== src/Buffer/Represents.antt =====
-- When the storage of a buffer stands for a list: the invariant between the methods.
use circular_buffer.Common.{
  ℕ, ◌+◌, ◌+◌, ◌-◌, ◌≤◌, ◌<◌, ◌≡◌, sym, ap, sym, ap, ◌∙◌, subst, Option, none, some, List, ◌==◌,
  if◌then◌else◌, ==-refl, ==_of_ne, ==_of_eq, refl, length, get_elem?, get_elem?-lt, set,
  length-set, get_elem?-set_self, get_elem?-set_ne, arith,
}
use circular_buffer.Common.Outcome.{Error, element_error}
use circular_buffer.Element.{Element}
use circular_buffer.Buffer.{Buffer, Iterator, update, begin, empty}
use circular_buffer.Buffer.Slot.{slot, slot-lt, slot-zero, slot-injective}
use circular_buffer.Buffer.Memory.{IsVacant}
use native.Mathlib.Decide.{ℕ_discrete}

pub record Represents {ℓ} {A : Type ℓ} ⦃t : Element A⦄ (b : Buffer A) (xs : List A) : Type ℓ where
  pub first_in : b.first ≤ b.cap - 1
  pub size_le : b.size ≤ b.cap
  pub last_eq : b.last ≡ slot b.cap b.first b.size
  pub length_eq : length xs ≡ b.size
  -- The elements lie in order from `m_first` on, round the end of the storage.
  pub held : (i : ℕ) → i < b.size → b.cell (slot b.cap b.first i) ≡ get_elem? xs i
  -- No other cell holds an object (a scalar may be left behind).
  pub raw : (i : ℕ) → b.size ≤ i → i < b.cap → IsVacant (b.cell (slot b.cap b.first i))
  pub beyond : (p : ℕ) → b.cap ≤ p → b.cell p ≡ none

-- The iterator to the element of index `k`, and `end()` behind the last one.
abbrev pub position {ℓ} : {A : Type ℓ} → Buffer A → ℕ → Iterator
position b k = if k == b.size then none else some (slot b.cap b.first k)

module _ {ℓ} {A : Type ℓ} ⦃t : Element A⦄ (b : Buffer A) (xs : List A) where
  -- What a call on `b` leaves: a buffer of the same capacity for the list `xs`.
  abbrev pub Becomes {κ} : {B : Type κ} → B → Buffer A → Type ℓ
  Becomes _ b' = Represents b' xs × (b'.cap ≡ b.cap)

  -- The same, with an iterator to the element of index `k`.
  abbrev pub BecomesAt : ℕ → Iterator → Buffer A → Type ℓ
  BecomesAt k it b' = Represents b' xs × (b'.cap ≡ b.cap) × (it ≡ position b' k)

  -- The same, where an element threw.
  abbrev pub Unwinds : Error → Buffer A → Type ℓ
  Unwinds e b' = Represents b' xs × (b'.cap ≡ b.cap) × (e ≡ element_error)

  -- The same, where the elements are not what they were: none of the old ones is lost from the
  -- count, and at most one has joined them.
  abbrev pub Survives : Error → Buffer A → Type ℓ
  Survives e b' =
      (ys : List A) × Represents b' ys
      × (b'.cap ≡ b.cap)
      × (e ≡ element_error)
      × (b.size ≤ length ys)
      × (length ys ≤ b.size + 1)

module _ {ℓ} {A : Type ℓ} ⦃t : Element A⦄ where
  -- The list in which an assignment of `v` to the element of index `i` has thrown.
  abbrev pub torn_at : ℕ → A → List A → List A
  torn_at i v xs = elim (get_elem? xs i) [ some w ↦ set xs i (t.torn w v) | none ↦ xs ]

  -- The list of a buffer in which the building of `v` has thrown. A full one was to overwrite the
  -- element of index `i`.
  abbrev pub spoilt : Buffer A → ℕ → A → List A → List A
  spoilt b i v xs = if b.cap == b.size then torn_at i v xs else xs

  pub spoilt-room :
      (b : Buffer A) (i : ℕ) (v : A) (xs : List A) → b.size < b.cap → spoilt b i v xs ≡ xs
  spoilt-room b i v xs h = rw (==_of_ne b.cap b.size (omega arith)) refl

  pub spoilt-full :
      (b : Buffer A) (i : ℕ) (v : A) (xs : List A)
      → b.cap ≡ b.size
      → spoilt b i v xs ≡ torn_at i v xs
  spoilt-full b i v xs h = rw (==_of_eq b.cap b.size h) refl

module _ {ℓ} {A : Type ℓ} (cell : ℕ → Option A) (c : Option A) where
  pub update_self : (p : ℕ) → update cell p c p ≡ c
  update_self p = rw (==-refl p)

  pub update_ne : (p q : ℕ) → ¬ (p ≡ q) → update cell p c q ≡ cell q
  update_ne p q h = rw (==_of_ne p q h)

  -- A write at an index leaves every other index of the ring alone.
  pub update-slot_ne :
      (cap base i j : ℕ)
      → base < cap
      → i < cap
      → j < cap
      → ¬ (i ≡ j)
      → update cell (slot cap base i) c (slot cap base j) ≡ cell (slot cap base j)
  update-slot_ne cap base i j hb hi hj ne =
      update_ne (slot cap base i) (slot cap base j)
        (λ e. ne (slot-injective cap base i j hb hi hj e))

module _ {ℓ} {A : Type ℓ} ⦃t : Element A⦄ {b : Buffer A} {xs : List A} (r : Represents b xs) where
  -- The element of index `i` is live.
  pub live : (i : ℕ) → i < b.size → (v : A) × (b.cell (slot b.cap b.first i) ≡ some v)
  live i h = let (v, e) = get_elem?-lt xs i (omega (arith, r.length_eq)) in (v, r.held i h ∙ e)

  -- The clock is no part of what a buffer stands for.
  pub Represents-clock : (k : ℕ) → Represents (record b { clock = k }) xs
  Represents-clock k = record {
    first_in = r.first_in;
    size_le = r.size_le;
    last_eq = r.last_eq;
    length_eq = r.length_eq;
    held = r.held;
    raw = r.raw;
    beyond = r.beyond;
  }

  -- `begin()` is the iterator to index 0, and `end()` in an empty buffer.
  pub begin-position : begin b ≡ position b 0
  unfolding begin empty
  begin-position = elim (ℕ_discrete b.size 0) [
    | yes e ↦ rw e
    | no ne ↦
        rw (==_of_ne b.size 0 ne, ==_of_ne 0 b.size (λ e. ne (sym e)))
          (ap some (sym (slot-zero b.cap b.first (omega (arith, r.first_in, r.size_le)))))
  ]

  -- A write over the element of index `i`.
  pub Represents-set :
      (i : ℕ) (v : A) (k : ℕ)
      → i < b.size
      → Represents
          (record b { cell = update b.cell (slot b.cap b.first i) (some v); clock = k })
          (set xs i v)
  Represents-set i v k h = record {
    first_in = r.first_in;
    size_le = r.size_le;
    last_eq = r.last_eq;
    length_eq = length-set xs i v ∙ r.length_eq;
    held = held;
    raw = λ j l u s. other j u (λ e. absurd (omega arith)) ∙ r.raw j l u s;
    beyond = λ p l.
        update_ne b.cell (some v) (slot b.cap b.first i) p
          (λ e. absurd (omega (arith, slot-lt b.cap b.first i (omega (arith, r.size_le)))))
        ∙ r.beyond p l;
  }
    where
      other :
          (j : ℕ)
          → j < b.cap
          → ¬ (i ≡ j)
          → update b.cell (slot b.cap b.first i) (some v) (slot b.cap b.first j)
            ≡ b.cell (slot b.cap b.first j)
      other j u ne =
          update-slot_ne b.cell (some v) b.cap b.first i j (omega (arith, r.first_in, r.size_le))
            (omega (arith, r.size_le)) u ne

      held :
          (j : ℕ)
          → j < b.size
          → update b.cell (slot b.cap b.first i) (some v) (slot b.cap b.first j)
            ≡ get_elem? (set xs i v) j
      held j l = elim (ℕ_discrete i j) [
        | yes e ↦
            ap (λ k. update b.cell (slot b.cap b.first i) (some v) (slot b.cap b.first k)) (sym e)
            ∙ update_self b.cell (some v) (slot b.cap b.first i)
            ∙ sym (get_elem?-set_self xs i v (omega (arith, r.length_eq)))
            ∙ ap (get_elem? (set xs i v)) e
        | no ne ↦
            other j (omega (arith, r.size_le)) ne ∙ r.held j l ∙ sym (get_elem?-set_ne xs i j v ne)
      ]

  -- An assignment over the element of index `i` that has thrown.
  pub Represents-torn :
      (i : ℕ) (v : A) {w : A}
      → i < b.size
      → get_elem? xs i ≡ some w
      → Represents
          (record b {
            cell = update b.cell (slot b.cap b.first i) (some (t.torn w v));
            clock = b.clock + 1;
          })
          (torn_at i v xs)
  Represents-torn i v {w} h e =
      let c = record b {
        cell = update b.cell (slot b.cap b.first i) (some (t.torn w v));
        clock = b.clock + 1;
      } in
      subst (Represents c) (sym (ap (λ o. elim o [ some w ↦ set xs i (t.torn w v) | none ↦ xs ]) e))
        (Represents-set i (t.torn w v) (b.clock + 1) h)
