-- ===== src/Buffer/Shifts.antt =====
-- Runs of moves: a stretch of the ring shifted by one cell towards its end or its begin.
use circular_buffer.Common.{ℕ, ◌+◌, ◌≤◌, ◌<◌, ◌≡◌, refl, sym, ap, ◌∙◌, ◌⊎◌, inl, inr, false, arith}
use circular_buffer.Buffer.{Buffer}
use circular_buffer.Buffer.Slot.{slot}
use circular_buffer.Buffer.Moves.{IsLive, Frame, Frame-trans, Frame-clock, Moved, Torn, Unmoved}
use mathlib.Core.Bool.{false≢true}
use native.Mathlib.Decide.{ℕ_discrete, dec_lt}

-- An index outside of the stretch from `k` to `j`.
abbrev pub IsOutside : ℕ → ℕ → ℕ → Type 0
IsOutside k j i = (i < k) ⊎ (j < i)

-- The objects of the indices from `k` below `j` lie one index further.
pub record Up {ℓ} {A : Type ℓ} (cap base k j : ℕ) (b b' : Buffer A) : Type ℓ where
  pub frame : Frame b b'
  pub shifted : (i : ℕ) → k ≤ i → i < j → b'.cell (slot cap base (i + 1)) ≡ b.cell (slot cap base i)
  pub hole : IsLive (b'.cell (slot cap base k))
  pub same :
      (i : ℕ) → i < cap → IsOutside k j i → b'.cell (slot cap base i) ≡ b.cell (slot cap base i)

-- The objects of the indices above `k` up to `j` lie one index nearer.
pub record Down {ℓ} {A : Type ℓ} (cap base k j : ℕ) (b b' : Buffer A) : Type ℓ where
  pub frame : Frame b b'
  pub shifted : (i : ℕ) → k ≤ i → i < j → b'.cell (slot cap base i) ≡ b.cell (slot cap base (i + 1))
  pub hole : IsLive (b'.cell (slot cap base j))
  pub same :
      (i : ℕ) → i < cap → IsOutside k j i → b'.cell (slot cap base i) ≡ b.cell (slot cap base i)

-- The stretch is full of objects, whichever they are.
pub record Mixed {ℓ} {A : Type ℓ} (cap base k j : ℕ) (b b' : Buffer A) : Type ℓ where
  pub frame : Frame b b'
  pub all_live : (i : ℕ) → k ≤ i → i ≤ j → IsLive (b'.cell (slot cap base i))
  pub same :
      (i : ℕ) → i < cap → IsOutside k j i → b'.cell (slot cap base i) ≡ b.cell (slot cap base i)

module _ {ℓ} {A : Type ℓ} (cap base : ℕ) {b : Buffer A} where
  pub Up-none : (k : ℕ) → IsLive (b.cell (slot cap base k)) → Up cap base k k b b
  Up-none k live = record {
    frame = Frame-clock b b.clock;
    shifted = λ i h l. absurd (omega arith);
    hole = live;
    same = λ i h o. refl;
  }

  pub Down-none : (j : ℕ) → IsLive (b.cell (slot cap base j)) → Down cap base j j b b
  Down-none j live = record {
    frame = Frame-clock b b.clock;
    shifted = λ i h l. absurd (omega arith);
    hole = live;
    same = λ i h o. refl;
  }

module _ {ℓ} {A : Type ℓ} (cap base : ℕ) {b b' b'' : Buffer A} where
  -- The last object of the stretch is moved first.
  pub Up-step :
      (k j : ℕ)
      → k ≤ j
      → j + 1 < cap
      → Moved cap base j (j + 1) b b'
      → Up cap base k j b' b''
      → Up cap base k (j + 1) b b''
  Up-step k j h lt m u = record {
    frame = Frame-trans m.frame u.frame;
    shifted = λ i ki ij. elim (ℕ_discrete i j) [
      | yes e ↦ rw e (u.same (j + 1) lt (inr (omega arith)) ∙ m.arrived)
      | no ne ↦
          u.shifted i ki (omega arith)
          ∙ m.same i (omega arith) (λ e. ne (sym e)) (λ e. absurd (omega arith))
    ];
    hole = u.hole;
    same = λ i i_in o. u.same i i_in (ground arith) ∙ m.same i i_in (ground arith) (ground arith);
  }

  -- The first object of the stretch is moved first.
  pub Down-step :
      (k j : ℕ)
      → k < j
      → j < cap
      → Moved cap base (k + 1) k b b'
      → Down cap base (k + 1) j b' b''
      → Down cap base k j b b''
  Down-step k j h lt m u = record {
    frame = Frame-trans m.frame u.frame;
    shifted = λ i ki ij. elim (ℕ_discrete i k) [
      | yes e ↦ rw e (u.same k (omega arith) (inl (omega arith)) ∙ m.arrived)
      | no ne ↦
          u.shifted i (omega arith) ij
          ∙ m.same (i + 1) (omega arith) (λ e. absurd (omega arith)) (λ e. absurd (omega arith))
    ];
    hole = u.hole;
    same = λ i i_in o. u.same i i_in (ground arith) ∙ m.same i i_in (ground arith) (ground arith);
  }

module _ {ℓ} {A : Type ℓ} (cap base : ℕ) {b b' : Buffer A} where
  -- A stretch of objects in which one has been spoilt.
  pub Mixed-Torn :
      (k j d : ℕ)
      → j < cap
      → k ≤ d
      → d ≤ j
      → ((i : ℕ) → k ≤ i → i ≤ j → ¬ (d ≡ i) → IsLive (b.cell (slot cap base i)))
      → Torn cap base d b b'
      → Mixed cap base k j b b'
  Mixed-Torn k j d lt kd dj live s = record {
    frame = s.frame;
    all_live = λ i h l. elim (ℕ_discrete d i) [
      | yes e ↦ rw (← e) s.spoilt
      | no ne ↦ let (v, e) = live i h l ne in (v, s.same i (omega arith) ne ∙ e)
    ];
    same = λ i i_in o. s.same i i_in (ground arith);
  }

  -- A stretch of objects in which a move threw that was to overwrite one.
  pub Mixed-Unmoved :
      (k j d : ℕ)
      → j < cap
      → k ≤ d
      → d ≤ j
      → ((i : ℕ) → k ≤ i → i ≤ j → IsLive (b.cell (slot cap base i)))
      → Unmoved cap base d false b b'
      → Mixed cap base k j b b'
  Mixed-Unmoved k j d lt kd dj live (inl (f, s)) = absurd (false≢true f)
  Mixed-Unmoved k j d lt kd dj live (inr (f, s)) =
      Mixed-Torn k j d lt kd dj (λ i h l ne. live i h l) s

  -- A move leaves no hole but fills one.
  pub Moved-IsLive :
      {a d : ℕ}
      → Moved cap base a d b b'
      → IsLive (b.cell (slot cap base a))
      → (i : ℕ) → i < cap
      → (¬ (d ≡ i) → IsLive (b.cell (slot cap base i)))
      → IsLive (b'.cell (slot cap base i))
  Moved-IsLive {a} {d} m (w, held) i h live = elim (ℕ_discrete a i) [
    | yes e ↦ rw (← e) m.left
    | no na ↦ elim (ℕ_discrete d i) [
      | yes e ↦ (w, ap (λ k. b'.cell (slot cap base k)) (sym e) ∙ m.arrived ∙ held)
      | no nd ↦ let (v, e) = live nd in (v, m.same i h na nd ∙ e)
    ]
  ]

  -- A run of moves that an exception has cut short, behind its first move.
  pub Mixed-step :
      {b'' : Buffer A} {a d : ℕ} (k j k' j' : ℕ)
      → k ≤ k'
      → j' ≤ j
      → j < cap
      → ((i : ℕ) → k ≤ i → i ≤ j → ¬ (d ≡ i) → IsLive (b.cell (slot cap base i)))
      → k ≤ a
      → a ≤ j
      → k ≤ d
      → d ≤ j
      → ¬ (a ≡ d)
      → Moved cap base a d b b'
      → Mixed cap base k' j' b' b''
      → Mixed cap base k j b b''
  Mixed-step {b''} {a} {d} k j k' j' hk hj lt live ka aj kd dj ne m u = record {
    frame = Frame-trans m.frame u.frame;
    all_live = survives;
    same = λ i i_in o. u.same i i_in (ground arith) ∙ m.same i i_in (ground arith) (ground arith);
  }
    where
      there : (i : ℕ) → k ≤ i → i ≤ j → IsLive (b'.cell (slot cap base i))
      there i h l = Moved-IsLive m (live a ka aj (λ e. ne (sym e))) i (omega arith) (live i h l)

      survives : (i : ℕ) → k ≤ i → i ≤ j → IsLive (b''.cell (slot cap base i))
      survives i h l = elim (dec_lt i k') [
        | yes low ↦ let (v, e) = there i h l in (v, u.same i (omega arith) (inl low) ∙ e)
        | no high ↦ elim (dec_lt j' i) [
          | yes over ↦ let (v, e) = there i h l in (v, u.same i (omega arith) (inr over) ∙ e)
          | no under ↦ u.all_live i (omega arith) (omega arith)
        ]
      ]
