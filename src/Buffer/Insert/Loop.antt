-- ===== src/Buffer/Insert/Loop.antt =====
-- base.hpp, the loop of `insert_item`: it makes room by a run of moves from the end.
use circular_buffer.Common.{
  ℕ, zero, suc, ◌+◌, ◌-◌, ◌≤◌, ◌<◌, ◌≡◌, refl, ◌∙◌, subst, ◌⊎◌, inl, inr, Bool, true, false,
  ==-refl, ==_of_ne, arith,
}
use circular_buffer.Common.Outcome.{
  Error, element_error, ok, Ensures, returns, Ensures-at_locals, Ensures-mono,
}
use circular_buffer.Element.{Element}
use circular_buffer.Buffer.{Buffer}
use circular_buffer.Buffer.Slot.{slot, slot-injective}
use circular_buffer.Buffer.Pointers.{decrement_at}
use circular_buffer.Buffer.Memory.{IsReady}
use circular_buffer.Buffer.Moves.{IsLive, Moved, Stalled, Unmoved, move_item-Ensures}
use circular_buffer.Buffer.Shifts.{
  Up, Up-none, Up-step, Mixed, Mixed-Torn, Mixed-step, Moved-IsLive,
}
use circular_buffer.Buffer.Insert.{insert_loop}
use mathlib.Core.Bool.{false≢true}
use native.Mathlib.Decide.{ℕ_discrete}

-- What a loop has done that starts with the object of index `j`, when it ends and when it throws.
abbrev pub Raises {ℓ} : {A : Type ℓ} → (cap base k j : ℕ) → Buffer A → Bool → Buffer A → Type ℓ
Raises cap base k j b fresh b' = (fresh ≡ false) × Up cap base k j b b'

abbrev pub Breaks {ℓ} :
    {A : Type ℓ} → (cap base k j : ℕ) → Buffer A → Error × Bool → Buffer A → Type ℓ
Breaks cap base k j b (e, fresh) b' =
    (e ≡ element_error) × (fresh ≡ false) × Mixed cap base k j b b'

-- The throw of a loop that was to start at a cell with or without an object.
abbrev pub Fails {ℓ} :
    {A : Type ℓ} → (cap base k j : ℕ) → Bool → Buffer A → Error × Bool → Buffer A → Type ℓ
Fails cap base k j fresh b (e, fresh') b' =
    (e ≡ element_error)
    × (((fresh' ≡ fresh) × (fresh ≡ true) × Stalled b b')
        ⊎ ((fresh' ≡ false) × Mixed cap base k j b b'))

fails→breaks {ℓ} :
    {A : Type ℓ} {cap base : ℕ} (k j : ℕ) (b : Buffer A) (e : Error) (fresh : Bool) (b' : Buffer A)
    → ((i : ℕ) → k ≤ i → i ≤ j → IsLive (b.cell (slot cap base i)))
    → e ≡ element_error
    → ((fresh ≡ false) × (false ≡ true) × Stalled b b')
      ⊎ ((fresh ≡ false) × Mixed cap base k j b b')
    → Breaks cap base k j b (e, fresh) b'
fails→breaks k j b e fresh b' live h (inl (f, g, s)) = absurd (false≢true g)
fails→breaks k j b e fresh b' live h (inr (f, m)) = (h, f, m)

module _ {ℓ} {A : Type ℓ} ⦃t : Element A⦄ (cap base : ℕ) (inside : base < cap) where
  -- One round, and a loop that goes on from index `j`.
  insert_round :
      (n k j : ℕ) (fresh : Bool) (b : Buffer A)
      → b.cap ≡ cap
      → k ≤ j
      → j + 1 < cap
      → ((i : ℕ) → k ≤ i → i ≤ j → IsLive (b.cell (slot cap base i)))
      → IsReady fresh b (slot cap base (j + 1))
      → ((b' : Buffer A)
          → b'.cap ≡ cap
          → ((i : ℕ) → k ≤ i → i ≤ j → IsLive (b'.cell (slot cap base i)))
          → Ensures
              (Raises cap base k j b')
              (Breaks cap base k j b')
              (insert_loop n (slot cap base k) (slot cap base j) (slot cap base j) false b'))
      → Ensures (Raises cap base k (j + 1) b) (Fails cap base k (j + 1) fresh b) (
          insert_loop
            (suc n)
            (slot cap base k)
            (slot cap base (j + 1))
            (slot cap base (j + 1))
            fresh
            b)
  unfolding insert_loop
  insert_round n k j fresh b e h lt live ready rest =
      rw (==_of_ne (slot cap base (j + 1)) (slot cap base k) apart, insert_loop)
        (rw (decrement_at b e base inside j) (
          Ensures-at_locals fresh
            (move_item-Ensures b cap base j (j + 1) fresh e inside (omega arith) lt (omega arith)
              (live j h (omega arith)) ready)
            (λ a b' m.
              Ensures-mono (rest b' (m.frame.cap_eq ∙ e) (still b' m))
                (λ c b'' (c_eq, up). (c_eq, Up-step cap base k j h lt m up))
                (λ (err, c) b'' (err_eq, c_eq, mix). (err_eq, inr (c_eq, broken m mix))))
            (λ err b' (unmoved, err_eq). (err_eq, failed unmoved))))
    where
      apart : ¬ (slot cap base (j + 1) ≡ slot cap base k)
      apart q = absurd (omega (arith, slot-injective cap base (j + 1) k inside lt (omega arith) q))

      failed :
          {b' : Buffer A}
          → Unmoved cap base (j + 1) fresh b b'
          → ((fresh ≡ fresh) × (fresh ≡ true) × Stalled b b')
            ⊎ ((fresh ≡ false) × Mixed cap base k (j + 1) b b')
      failed (inl (f, s)) = inl (refl, f, s)
      failed (inr (f, s)) = inr (
        f,
        Mixed-Torn cap base k (j + 1) (j + 1) lt (omega arith) (omega arith)
            (λ i ki ij ne. live i ki (ground arith)) s,
      )

      still :
          (b' : Buffer A)
          → Moved cap base j (j + 1) b b'
          → (i : ℕ) → k ≤ i
          → i ≤ j
          → IsLive (b'.cell (slot cap base i))
      still b' m i ki ij =
          Moved-IsLive cap base m (live j h (omega arith)) i (omega arith) (λ ne. live i ki ij)

      broken :
          {b' b'' : Buffer A}
          → Moved cap base j (j + 1) b b'
          → Mixed cap base k j b' b''
          → Mixed cap base k (j + 1) b b''
      broken m mix =
          Mixed-step cap base k (j + 1) k j (omega arith) (omega arith) lt
            (λ i ki ij ne. live i ki (omega arith)) h (omega arith) (omega arith) (omega arith)
            (omega arith) m mix

  -- The loop ends where it meets its position.
  insert_loop_done :
      (n p dest : ℕ) (fresh : Bool) (b : Buffer A)
      → insert_loop (suc n) p p dest fresh b ≡ ok fresh b
  unfolding insert_loop
  insert_loop_done n p dest fresh b = rw (==-refl p, insert_loop)

  -- A loop that starts with a hole that holds an object.
  insert_loop-Up :
      (n k j : ℕ) (b : Buffer A)
      → b.cap ≡ cap
      → k ≤ j
      → j < cap
      → j < n + k
      → ((i : ℕ) → k ≤ i → i ≤ j → IsLive (b.cell (slot cap base i)))
      → Ensures
          (Raises cap base k j b)
          (Breaks cap base k j b)
          (insert_loop n (slot cap base k) (slot cap base j) (slot cap base j) false b)
  insert_loop-Up zero k j b e h lt fuel live = absurd (omega arith)
  insert_loop-Up (suc n) k j b e h lt fuel live = elim (ℕ_discrete j k) [
    | yes done ↦
        rw (done, insert_loop_done n (slot cap base k) (slot cap base k) false b)
          (returns (refl, Up-none cap base k (live k (omega arith) (omega arith))))
    | no more ↦
        let i = j - 1 in
        let up : i + 1 ≡ j = omega arith in
        subst
          (λ m.
            Ensures (Raises cap base k m b) (Breaks cap base k m b)
              (insert_loop (suc n) (slot cap base k) (slot cap base m) (slot cap base m) false b))
          up
          (Ensures-mono
            (insert_round n k i false b e (omega arith) (omega arith)
              (λ x kx xi. live x kx (omega arith)) (rw up (live j h (omega arith)))
              (λ b' e' live'.
                insert_loop-Up n k i b' e' (omega arith) (omega arith) (omega arith) live'))
            (λ c b' r. r)
            (λ (err, c) b' (err_eq, cases).
              fails→breaks k (i + 1) b err c b' (rw up live) err_eq cases))
  ]

  -- The loop from the cell behind the last element, or from the oldest element of a full buffer.
  pub insert_loop-Ensures :
      (n k j : ℕ) (fresh : Bool) (b : Buffer A)
      → b.cap ≡ cap
      → k ≤ j
      → j + 1 < cap
      → j < n + k
      → ((i : ℕ) → k ≤ i → i ≤ j → IsLive (b.cell (slot cap base i)))
      → IsReady fresh b (slot cap base (j + 1))
      → Ensures (Raises cap base k (j + 1) b) (Fails cap base k (j + 1) fresh b) (
          insert_loop
            (suc n)
            (slot cap base k)
            (slot cap base (j + 1))
            (slot cap base (j + 1))
            fresh
            b)
  insert_loop-Ensures n k j fresh b e h lt fuel live ready =
      insert_round n k j fresh b e h lt live ready
        (λ b' e' live'. insert_loop-Up n k j b' e' h (omega arith) fuel live')
