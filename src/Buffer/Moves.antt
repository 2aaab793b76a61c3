-- ===== src/Buffer/Moves.antt =====
-- Moves of elements by one cell, on which `insert`, `rinsert`, `erase` and `rerase` are built.
use circular_buffer.Common.{
  ℕ, ◌+◌, ◌≤◌, ◌<◌, ◌≡◌, refl, sym, ◌∙◌, subst, ◌⊎◌, inl, inr, Bool, true, false, Option, some,
  Bool-cases, arith,
}
use circular_buffer.Common.Outcome.{element_error, Ensures, returns, throws}
use circular_buffer.Element.{Element}
use circular_buffer.Buffer.{Buffer, update, move_item}
use circular_buffer.Buffer.Slot.{slot, slot-lt}
use circular_buffer.Buffer.Memory.{
  IsReady, moved_to, written, move_item-ok, move_item-throws, move_item-throws_live,
}
use circular_buffer.Buffer.Represents.{update_self, update_ne, update-slot_ne}

-- The cell holds an object.
abbrev pub IsLive {ℓ} : {A : Type ℓ} → Option A → Type ℓ
IsLive {A} c = (v : A) × (c ≡ some v)

-- `b'` is `b` but for the objects in its storage.
pub record Frame {ℓ} {A : Type ℓ} (b b' : Buffer A) : Type ℓ where
  pub cap_eq : b'.cap ≡ b.cap
  pub first_eq : b'.first ≡ b.first
  pub last_eq : b'.last ≡ b.last
  pub size_eq : b'.size ≡ b.size
  pub beyond : (p : ℕ) → b.cap ≤ p → b'.cell p ≡ b.cell p

pub Frame-trans {ℓ} : {A : Type ℓ} {b b' b'' : Buffer A} → Frame b b' → Frame b' b'' → Frame b b''
Frame-trans f g = record {
  cap_eq = g.cap_eq ∙ f.cap_eq;
  first_eq = g.first_eq ∙ f.first_eq;
  last_eq = g.last_eq ∙ f.last_eq;
  size_eq = g.size_eq ∙ f.size_eq;
  beyond = λ p h. g.beyond p (omega (arith, f.cap_eq)) ∙ f.beyond p h;
}

pub Frame-clock {ℓ} : {A : Type ℓ} (b : Buffer A) (k : ℕ) → Frame b (record b { clock = k })
Frame-clock b k = record {
  cap_eq = refl;
  first_eq = refl;
  last_eq = refl;
  size_eq = refl;
  beyond = λ p h. refl;
}

-- Indices count from `base`. The object of index `a` has been moved to index `d`.
pub record Moved {ℓ} {A : Type ℓ} (cap base a d : ℕ) (b b' : Buffer A) : Type ℓ where
  pub frame : Frame b b'
  pub arrived : b'.cell (slot cap base d) ≡ b.cell (slot cap base a)
  pub left : IsLive (b'.cell (slot cap base a))
  pub same :
      (i : ℕ)
      → i < cap
      → ¬ (a ≡ i)
      → ¬ (d ≡ i)
      → b'.cell (slot cap base i) ≡ b.cell (slot cap base i)

-- An assignment to the object of index `d` threw, and has left some object there.
pub record Torn {ℓ} {A : Type ℓ} (cap base d : ℕ) (b b' : Buffer A) : Type ℓ where
  pub frame : Frame b b'
  pub spoilt : IsLive (b'.cell (slot cap base d))
  pub same : (i : ℕ) → i < cap → ¬ (d ≡ i) → b'.cell (slot cap base i) ≡ b.cell (slot cap base i)

-- An element threw, and nothing has changed.
pub record Stalled {ℓ} {A : Type ℓ} (b b' : Buffer A) : Type ℓ where
  pub frame : Frame b b'
  pub cells : (p : ℕ) → b'.cell p ≡ b.cell p

-- The move of an object to index `d` that threw: a construction has changed nothing, an assignment
-- has left some object.
abbrev pub Unmoved {ℓ} : {A : Type ℓ} → (cap base d : ℕ) → Bool → Buffer A → Buffer A → Type ℓ
Unmoved cap base d fresh b b' =
    ((fresh ≡ true) × Stalled b b') ⊎ ((fresh ≡ false) × Torn cap base d b b')

module _ {ℓ} {A : Type ℓ} ⦃t : Element A⦄ (b : Buffer A) (base a d : ℕ) (inside : base < b.cap)
    (a_in : a < b.cap) (d_in : d < b.cap) (apart : ¬ (a ≡ d)) where
  abbrev src : ℕ
  src = slot b.cap base a

  abbrev dest : ℕ
  dest = slot b.cap base d

  a_lt : src < b.cap
  a_lt = slot-lt b.cap base a (omega arith)

  d_lt : dest < b.cap
  d_lt = slot-lt b.cap base d (omega arith)

  low : (q : ℕ) → q < b.cap → (p : ℕ) → b.cap ≤ p → ¬ (q ≡ p)
  low q hq p hp e = omega arith

  Moved-moved_to : (v : A) → b.cell src ≡ some v → Moved b.cap base a d b (moved_to b src dest v)
  Moved-moved_to v h = record {
    frame = record {
      cap_eq = refl;
      first_eq = refl;
      last_eq = refl;
      size_eq = refl;
      beyond = λ p h.
          update_ne (update b.cell dest (some v)) (some (t.moved v)) src p (low src a_lt p h)
          ∙ update_ne b.cell (some v) dest p (low dest d_lt p h);
    };
    arrived =
        update-slot_ne (update b.cell dest (some v)) (some (t.moved v)) b.cap base a d inside a_in
          d_in apart
        ∙ update_self b.cell (some v) dest
        ∙ sym h;
    left = (t.moved v, update_self (update b.cell dest (some v)) (some (t.moved v)) src);
    same = λ i i_in na nd.
        update-slot_ne (update b.cell dest (some v)) (some (t.moved v)) b.cap base a i inside a_in
          i_in na
        ∙ update-slot_ne b.cell (some v) b.cap base d i inside d_in i_in nd;
  }

  Torn-written : (c : A) → Torn b.cap base d b (written b dest (some c))
  Torn-written c = record {
    frame = record {
      cap_eq = refl;
      first_eq = refl;
      last_eq = refl;
      size_eq = refl;
      beyond = λ p h. update_ne b.cell (some c) dest p (low dest d_lt p h);
    };
    spoilt = (c, update_self b.cell (some c) dest);
    same = λ i i_in nd. update-slot_ne b.cell (some c) b.cap base d i inside d_in i_in nd;
  }

  move_item_storm :
      (fresh : Bool) (v : A)
      → b.cell src ≡ some v
      → IsReady fresh b dest
      → t.throws_at b.clock ≡ true
      → Ensures
          (λ _ b'. Moved b.cap base a d b b')
          (λ e b'. Unmoved b.cap base d fresh b b' × (e ≡ element_error))
          (move_item fresh src dest b)
  move_item_storm true v held ready storm =
      rw (move_item-throws b src dest v held storm) (
        throws
          (inl (refl, record { frame = Frame-clock b (b.clock + 1); cells = λ p. refl }), refl))
  move_item_storm false v held (w, below) storm =
      rw (move_item-throws_live b src dest v held storm w below)
        (throws (inr (refl, Torn-written (t.torn w v)), refl))

  move_item_here :
      (fresh : Bool)
      → IsLive (b.cell src)
      → IsReady fresh b dest
      → Ensures
          (λ _ b'. Moved b.cap base a d b b')
          (λ e b'. Unmoved b.cap base d fresh b b' × (e ≡ element_error))
          (move_item fresh src dest b)
  move_item_here fresh (v, held) ready = elim (Bool-cases (t.throws_at b.clock)) [
    | inl storm ↦ move_item_storm fresh v held ready storm
    | inr calm ↦
        rw (move_item-ok b src dest v held fresh ready calm) (returns (Moved-moved_to v held))
  ]

-- A move between two indices of a ring of `cap` cells happens, or throws.
pub move_item-Ensures {ℓ} :
    {A : Type ℓ} ⦃t : Element A⦄ (b : Buffer A) (cap base a d : ℕ) (fresh : Bool)
    → b.cap ≡ cap
    → base < cap
    → a < cap
    → d < cap
    → ¬ (a ≡ d)
    → IsLive (b.cell (slot cap base a))
    → IsReady fresh b (slot cap base d)
    → Ensures
        (λ _ b'. Moved cap base a d b b')
        (λ e b'. Unmoved cap base d fresh b b' × (e ≡ element_error))
        (move_item fresh (slot cap base a) (slot cap base d) b)
move_item-Ensures b cap base a d fresh e hb ha hd ne =
    subst
      (λ c.
        IsLive (b.cell (slot c base a))
        → IsReady fresh b (slot c base d)
        → Ensures (λ _ b'. Moved c base a d b b')
            (λ e b'. Unmoved c base d fresh b b' × (e ≡ element_error))
            (move_item fresh (slot c base a) (slot c base d) b))
      e (move_item_here b base a d (omega arith) (omega arith) (omega arith) ne fresh)
