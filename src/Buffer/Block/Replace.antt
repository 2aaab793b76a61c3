-- ===== src/Buffer/Block/Replace.antt =====
-- base.hpp: the storage replaced by a new block, or left as it was where an exception is thrown.
use circular_buffer.Common.{
  ℕ, ◌≤◌, ◌≡◌, refl, sym, ap, ◌∙◌, subst, none, List, ◌==◌, ==_of_eq, ltb, not, ◌&&◌, Bool-cases,
  inl, inr, length,
}
use circular_buffer.Common.Outcome.{
  Error, element_error, out_of_range, Outcome, pure, ◌>>=◌, Ensures, returns, throws,
  Ensures-and_then, Ensures-with_locals, Ensures-and_rethrow, and_then, try_rethrow, at_locals,
}
use circular_buffer.Element.{Element}
use circular_buffer.Buffer.{Buffer}
use circular_buffer.Buffer.Represents.{Represents}
use circular_buffer.Buffer.Block.{
  Pending, Transfer, own_only, in_block, allocate, deallocate_block, in_new_block, reallocate,
  reset,
}
use circular_buffer.Buffer.Block.Copy.{Undone, at_clock}
use circular_buffer.Buffer.Block.Walk.{Loaded}
use circular_buffer.Buffer.Block.Reset.{reset_refines}

no_range : ¬ (element_error ≡ out_of_range)
no_range e = cc

module _ {ℓ} {A : Type ℓ} ⦃t : Element A⦄ where
  -- What an exception of an element or of the allocator leaves: the buffer as it was, but for its
  -- clock.
  abbrev pub Untouched : Buffer A → Error → Buffer A → Type ℓ
  Untouched b e b' = (b' ≡ at_clock b'.clock b) × ¬ (e ≡ out_of_range)

  -- The state in which a new block has just been allocated.
  abbrev pub allocated : ℕ → Buffer A → Pending A
  allocated n b = record { own = b; block = λ p. none; room = n }

  pub allocate-Ensures :
      (n : ℕ) (b : Buffer A)
      → Ensures (λ _ b'. b' ≡ b) (λ e b'. (b' ≡ b) × ¬ (e ≡ out_of_range)) (allocate n b)
  unfolding allocate
  allocate-Ensures n b = elim (Bool-cases (ltb t.max_size n)) [
    | inl e ↦ rw e (throws (refl, λ k. cc))
    | inr e ↦ rw e (elim (Bool-cases (not (n == 0) && t.denies n)) [
      | inl k ↦ rw k (throws (refl, λ q. cc))
      | inr k ↦ rw k (returns refl)
    ])
  ]

  -- Where a guarded block undoes all its work on an exception, and nothing behind it throws, the
  -- buffer is either what the statements leave or untouched.
  pub in_new_block-Ensures :
      {B : Type 0} {P : B → Pending A → Type ℓ} {R : Buffer A → Type ℓ} (n given : ℕ)
      (body : Transfer A B) (next : B → Transfer A (Unit {0})) (b : Buffer A)
      → ((e : Error) (s' : Pending A) → Undone (allocated n b) 0 e s' → given ≡ n)
      → Ensures P (Undone (allocated n b) 0) (body (allocated n b))
      → ((v : B) (s' : Pending A)
          → P v s'
          → Ensures (λ _ s''. R s''.own) (Undone (allocated n b) 0) (next v s'))
      → Ensures (λ _ b'. R b') (Untouched b) (in_new_block n given body next b)
  unfolding in_new_block deallocate_block
  in_new_block-Ensures {B} {P} {R} n given body next b count done after =
      Ensures-and_then (allocate-Ensures n b)
        (λ _ b' e.
          subst (λ c. Ensures (λ _ b'. R b') (Untouched b) (in_block n guarded c)) (sym e)
            (Ensures-own_only (
              Ensures-and_then
                (Ensures-and_rethrow {R = λ e s. Undone (allocated n b) 0 e.0 s}
                  (Ensures-with_locals tt done (λ _ s p. p) (λ e s q. q))
                  (λ e l s q.
                    rw (==_of_eq given s.room (count e s q ∙ sym q.beside.room_eq)) (returns q)))
                after (λ e s q. q))))
        (λ e b' q. (q.0 ∙ ap (λ c. at_clock c.clock b) (sym q.0), q.1))
    where
      guarded : Transfer A (Unit {0})
      guarded = do
        v ← try_rethrow (λ s. at_locals tt body s) (λ (_ : Unit {0}). deallocate_block given)
        next v

      Ensures-own_only :
          {r : Outcome Error (Pending A) (Unit {0})}
          → Ensures (λ _ s'. R s'.own) (Undone (allocated n b) 0) r
          → Ensures (λ _ b'. R b') (Untouched b) (own_only r)
      Ensures-own_only (returns p) = returns p
      Ensures-own_only (throws q) = throws (q.beside.own_eq, λ k. no_range (sym q.error_eq ∙ k))

  pub reallocate-Ensures :
      {P : Buffer A → Type ℓ} (n : ℕ) (body : Transfer A (Unit {0})) (b : Buffer A)
      → Ensures (λ _ s'. P s'.own) (Undone (allocated n b) 0) (body (allocated n b))
      → Ensures (λ _ b'. P b') (Untouched b) (reallocate n body b)
  unfolding reallocate
  reallocate-Ensures {P} n body b done =
      in_new_block-Ensures {P = λ _ s'. P s'.own} n n body (λ v. pure v) b (λ e s' q. refl) done
        (λ v s' p. returns p)

  -- A block that has been loaded with a list becomes the storage of a buffer for it.
  pub reset-Loaded :
      {s : Pending A} {vs : List A} {r : Outcome Error (Pending A) ℕ}
      → Ensures (Loaded s 0 vs) (Undone s 0) r
      → length vs ≤ s.room
      → Ensures
          (λ _ s'. Represents s'.own vs × (s'.own.cap ≡ s.room))
          (Undone s 0)
          (and_then r (λ dest. reset dest s.room))
  reset-Loaded done fits =
      Ensures-and_then done
        (λ dest s' q.
          let (s'', ran, stands, cap_eq) = reset_refines q fits in
          rw ran (returns (stands, cap_eq)))
        (λ e s' q. q)
