-- ===== src/Common/Outcome.antt =====
-- C++ statements as functions on a state: what a call returns, what it throws, and the behaviour
-- that the language leaves undefined.

-- What leaves a call by an exception.
pub data Error : Type 0 where
  element_error : Error
  length_error : Error
  bad_alloc : Error
  out_of_range : Error

-- `fault` is undefined behaviour: a failed BOOST_CB_ASSERT, an access to a cell with no object, an
-- object built over a live one, a wrong deallocation, or a loop that outruns its fuel.
pub data Outcome {ℓ κ} (E : Type 0) (S : Type ℓ) (A : Type κ) : Type (ℓ ⊔ κ) where
  ok : A → S → Outcome E S A
  thrown : E → S → Outcome E S A
  fault : Outcome E S A

-- A statement over the state `S` that throws an `E`.
abbrev pub Action {ℓ κ} : Type 0 → Type ℓ → Type κ → Type (ℓ ⊔ κ)
Action E S A = S → Outcome E S A

module _ {ℓ κ} {S : Type ℓ} {A : Type κ} where
  -- Sequencing, on the outcome of the first statement.
  abbrev pub and_then {μ} :
      {E : Type 0} {B : Type μ} → Outcome E S A → (A → Action E S B) → Outcome E S B
  and_then (ok a s) f = f a s
  and_then (thrown e s) f = thrown e s
  and_then fault f = fault

module _ {ℓ κ} {S : Type ℓ} {A : Type κ} where
  -- The values `l` of the locals that an exception leaves behind for the handler.
  abbrev pub with_locals : {E L : Type 0} → L → Outcome E S A → Outcome (E × L) S A
  with_locals l (ok a s) = ok a s
  with_locals l (thrown e s) = thrown (e, l) s
  with_locals l fault = fault

  -- `BOOST_CATCH(...) { handler; BOOST_RETHROW }`, on the outcome of the guarded block.
  abbrev pub and_rethrow :
      {E L : Type 0} → Outcome (E × L) S A → (L → Action E S (Unit {0})) → Outcome E S A
  and_rethrow (ok a s) handler = ok a s
  and_rethrow (thrown (e, l) s) handler = and_then (handler l s) (λ _ s'. thrown e s')
  and_rethrow fault handler = fault

module _ {ℓ} {E : Type 0} {S : Type ℓ} where
  abbrev pub pure {κ} : {A : Type κ} → A → Action E S A
  pure a s = ok a s

  infixl 5 ◌>>=◌ ◌>>◌
  abbrev pub ◌>>=◌ {κ μ} :
      {A : Type κ} {B : Type μ} → Action E S A → (A → Action E S B) → Action E S B
  ◌>>=◌ m f s = and_then (m s) f

  abbrev pub ◌>>◌ {κ μ} : {A : Type κ} {B : Type μ} → Action E S A → Action E S B → Action E S B
  m >> k = m >>= λ _. k

  -- `throw_exception`
  abbrev pub throw {κ} : {A : Type κ} → E → Action E S A
  throw e s = thrown e s

  -- `BOOST_TRY { m } BOOST_CATCH(...) { handler; BOOST_RETHROW }`. The handler reads the locals `L`
  -- of the block that it guards, which the exception carries.
  abbrev pub try_rethrow {κ} :
      {A : Type κ} {L : Type 0} → Action (E × L) S A → (L → Action E S (Unit {0})) → Action E S A
  try_rethrow m handler s = and_rethrow (m s) handler

  -- A statement of such a block, run where the locals have the values `l`.
  abbrev pub at_locals {κ} : {A : Type κ} {L : Type 0} → L → Action E S A → Action (E × L) S A
  at_locals l m s = with_locals l (m s)

-- The outcome is no fault: the result satisfies `P`, or the exception `Q`.
pub data Ensures {ℓ κ μ} {E : Type 0} {S : Type ℓ} {A : Type κ} (P : A → S → Type μ)
    (Q : E → S → Type μ) : Outcome E S A → Type (ℓ ⊔ κ ⊔ μ) where
  returns : {a : A} {s : S} → P a s → Ensures P Q (ok a s)
  throws : {e : E} {s : S} → Q e s → Ensures P Q (thrown e s)

module _ {ℓ κ μ} {E : Type 0} {S : Type ℓ} {A : Type κ} {P : A → S → Type μ}
    {Q : E → S → Type μ} where
  pub Ensures-and_then {κ' μ'} :
      {B : Type κ'} {P' : B → S → Type μ'} {Q' : E → S → Type μ'} {f : A → Action E S B}
      {r : Outcome E S A}
      → Ensures P Q r
      → ((a : A) (s : S) → P a s → Ensures P' Q' (f a s))
      → ((e : E) (s : S) → Q e s → Q' e s)
      → Ensures P' Q' (and_then r f)
  Ensures-and_then (returns p) next fail = next _ _ p
  Ensures-and_then (throws q) next fail = throws (fail _ _ q)

  pub Ensures-mono {μ'} :
      {P' : A → S → Type μ'} {Q' : E → S → Type μ'} {r : Outcome E S A}
      → Ensures P Q r
      → ((a : A) (s : S) → P a s → P' a s)
      → ((e : E) (s : S) → Q e s → Q' e s)
      → Ensures P' Q' r
  Ensures-mono (returns p) next fail = returns (next _ _ p)
  Ensures-mono (throws q) next fail = throws (fail _ _ q)

  pub Ensures-with_locals {μ'} :
      {L : Type 0} (l : L) {P' : A → S → Type μ'} {Q' : E × L → S → Type μ'} {r : Outcome E S A}
      → Ensures P Q r
      → ((a : A) (s : S) → P a s → P' a s)
      → ((e : E) (s : S) → Q e s → Q' (e, l) s)
      → Ensures P' Q' (with_locals l r)
  Ensures-with_locals l (returns p) next fail = returns (next _ _ p)
  Ensures-with_locals l (throws q) next fail = throws (fail _ _ q)

  -- A guarded statement, and what follows it in the block.
  pub Ensures-at_locals {κ' μ'} :
      {L : Type 0} (l : L) {B : Type κ'} {P' : B → S → Type μ'} {Q' : E × L → S → Type μ'}
      {f : A → Action (E × L) S B} {r : Outcome E S A}
      → Ensures P Q r
      → ((a : A) (s : S) → P a s → Ensures P' Q' (f a s))
      → ((e : E) (s : S) → Q e s → Q' (e, l) s)
      → Ensures P' Q' (and_then (with_locals l r) f)
  Ensures-at_locals l (returns p) next fail = next _ _ p
  Ensures-at_locals l (throws q) next fail = throws (fail _ _ q)

  -- The handler runs from every state that an exception of the block may leave.
  pub Ensures-and_rethrow :
      {L : Type 0} {handler : L → Action E S (Unit {0})} {R : E × L → S → Type μ}
      {r : Outcome (E × L) S A}
      → Ensures P R r
      → ((e : E) (l : L) (s : S) → R (e, l) s → Ensures (λ _ s'. Q e s') Q (handler l s))
      → Ensures P Q (and_rethrow r handler)
  Ensures-and_rethrow (returns p) fail = returns p
  Ensures-and_rethrow (throws {e} {s} q) fail = handled (fail e.0 e.1 s q)
    where
      handled :
          {h : Outcome E S (Unit {0})}
          → Ensures (λ _ s'. Q e.0 s') Q h
          → Ensures P Q (and_then h (λ _ s'. thrown e.0 s'))
      handled (returns p) = throws p
      handled (throws q) = throws q
