-- ===== src/Buffer/Assign/Storage.antt =====
-- base.hpp, `assign_n`: the storage filled by a functor, kept or replaced.
use circular_buffer.Common.{
  ℕ, ◌≤◌, ◌≡◌, ◌⊎◌, inl, inr, refl, sym, ap, ◌∙◌, subst, false, Option, none, List, [], ◌==◌,
  ==_of_eq, ==_of_ne, if◌then◌else◌, length, replicate, length-replicate, Bool-cases, arith,
}
use circular_buffer.Common.Outcome.{
  Error, Outcome, Ensures, returns, throws, Ensures-mono, Ensures-and_then, Ensures-and_rethrow,
  Ensures-with_locals, try_rethrow, at_locals, ◌>>◌,
}
use circular_buffer.Element.{Element}
use circular_buffer.Buffer.{Buffer, add, capacity}
use circular_buffer.Buffer.Represents.{Represents}
use circular_buffer.Buffer.Uninitialized.{before_first, from_first}
use circular_buffer.Buffer.Clear.{destroy_content, destroy, deallocate, set_size}
use circular_buffer.Buffer.Clear.Content.{destroy_content-Emptied}
use circular_buffer.Buffer.Block.{Pending, Transfer, own_only, on_own, adopt_block, in_new_block}
use circular_buffer.Buffer.Block.Copy.{
  Built, Undone, uninitialized_copy-Ensures, uninitialized_fill_n-Ensures,
}
use circular_buffer.Buffer.Block.Walk.{Built-Loaded}
use circular_buffer.Buffer.Block.Reset.{Represents-block, slot_wrap}
use circular_buffer.Buffer.Block.Replace.{allocated, Untouched, in_new_block-Ensures}
use circular_buffer.Buffer.Assign.{stored, in_storage, set_content, assign_n, fill_with, fill_from}
use native.Mathlib.Decide.{dec_lt, ℕ_discrete}

module _ {ℓ} {A : Type ℓ} ⦃t : Element A⦄ where
  -- A functor of details.hpp that fills a raw block with a list, or undoes what it has built.
  abbrev pub Fills : Transfer A (Unit {0}) → List A → Type ℓ
  Fills fnc vs =
      (s : Pending A)
      → ((p : ℕ) → s.block p ≡ none)
      → length vs ≤ s.room
      → Ensures (λ _ s'. Built s 0 vs (length vs) s') (Undone s 0) (fnc s)

  pub fill_from-Fills : (items : List A) → Fills (fill_from items) items
  unfolding fill_from
  fill_from-Fills items s free fits =
      Ensures-and_then (uninitialized_copy-Ensures items 0 s (λ p h. free p) (omega arith))
        (λ dest s' q. returns (subst (λ d. Built s 0 items d s') (omega (arith, q.dest_eq)) q))
        (λ e s' q. q)

  pub fill_with-Fills : (n : ℕ) (item : A) → Fills (fill_with n item) (replicate n item)
  unfolding fill_with
  fill_with-Fills n item s free fits =
      let len = length-replicate n item in
      Ensures-mono (uninitialized_fill_n-Ensures 0 n item s (λ p h. free p) (omega (arith, len)))
        (λ _ s' q. subst (λ d. Built s 0 (replicate n item) d s') (omega (arith, len)) q)
        (λ e s' q. q)

  -- `add(m_buff, n)`
  add_wrap : (b : Buffer A) (n : ℕ) → n ≤ b.cap → add b 0 n ≡ (if n == b.cap then 0 else n)
  unfolding add capacity
  add_wrap b n h = elim (ℕ_discrete n b.cap) [
    | yes e ↦ rw (==_of_eq n b.cap e) (ground arith)
    | no ne ↦ rw (==_of_ne n b.cap ne) (ground arith)
  ]

  -- The end of `assign_n`
  content_stands :
      {s s' : Pending A} {vs : List A} {Q : Error → Buffer A → Type ℓ} (b : Buffer A)
      → Built s 0 vs (length vs) s'
      → length vs ≤ s.room
      → b.cell ≡ s'.block
      → b.cap ≡ s.room
      → Ensures (λ _ b'. Represents b' vs × (b'.cap ≡ s.room)) Q (set_content (length vs) b)
  unfolding set_content
  content_stands {s} {s'} {vs} b q fits cell_eq cap_eq = returns (
    Represents-block (record b { size = length vs; first = 0; last = add b 0 (length vs) }) vs refl
        refl (omega arith)
        (add_wrap b (length vs) (omega arith) ∙ slot_wrap b.cap (length vs) (omega arith))
        (λ i h. ap (λ c. c i) cell_eq ∙ ap s'.block (omega arith) ∙ q.held i h)
        (λ p h. ap (λ c. c p) cell_eq ∙ q.behind p h),
    cap_eq,
  )

  in_storage-Ensures :
      {P : Unit {0} → Pending A → Type ℓ} {Q : Error → Pending A → Type ℓ}
      {P' : Unit {0} → Buffer A → Type ℓ} {Q' : Error → Buffer A → Type ℓ}
      (m : Transfer A (Unit {0})) (b : Buffer A)
      → Ensures P Q
          (m (record { own = b; block = if t.scalar then (λ p. none) else b.cell; room = b.cap }))
      → ((v : Unit {0}) (s : Pending A) → P v s → P' v (record s.own { cell = s.block }))
      → ((e : Error) (s : Pending A) → Q e s → Q' e (record s.own { cell = s.block }))
      → Ensures P' Q' (in_storage m b)
  unfolding in_storage
  in_storage-Ensures {P} {Q} {P'} {Q'} m b done good bad = through done
    where
      through :
          {r : Outcome Error (Pending A) (Unit {0})}
          → Ensures P Q r
          → Ensures P' Q' (own_only (stored r))
      through (returns p) = returns (good _ _ p)
      through (throws q) = throws (bad _ _ q)

  -- The cells of an empty buffer may be cleared.
  Represents-cleared :
      {b : Buffer A} (c : ℕ → Option A) (k : ℕ)
      → Represents b []
      → ((p : ℕ) → c p ≡ none)
      → Represents (record b { cell = c; clock = k }) []
  Represents-cleared c k r gone = record {
    first_in = r.first_in;
    size_le = r.size_le;
    last_eq = r.last_eq;
    length_eq = r.length_eq;
    held = λ i h. absurd (omega (arith, r.length_eq));
    raw = λ i h l s. gone _;
    beyond = λ p h. gone p;
  }

  -- Before its first element a buffer is vacant everywhere.
  vacant_everywhere :
      {b : Buffer A} → Represents b [] → t.scalar ≡ false → (p : ℕ) → b.cell p ≡ none
  vacant_everywhere {b} r s p = elim (dec_lt p b.cap) [
    | no h ↦ r.beyond p (omega arith)
    | yes h ↦ elim (dec_lt p b.first) [
      | yes l ↦ before_first r p l (omega (arith, r.length_eq)) s
      | no l ↦ from_first r p h (omega arith) (omega (arith, r.length_eq)) s
    ]
  ]

  -- What an exception leaves of a buffer that is assigned to: nothing is changed where the storage
  -- would have been replaced, and nothing is left where it is kept.
  abbrev pub Unassigned : Buffer A → ℕ → Error → Buffer A → Type ℓ
  Unassigned b n e b' = ((n ≡ b.cap) × Represents b' [] × (b'.cap ≡ b.cap)) ⊎ Untouched b e b'

  module _ {b : Buffer A} {xs : List A} (r : Represents b xs) (fnc : Transfer A (Unit {0}))
      (vs : List A) (fills : Fills fnc vs) where
    assign_kept :
        length vs ≤ b.cap
        → Ensures
            (λ _ b'. Represents b' vs × (b'.cap ≡ b.cap))
            (λ e b'. Represents b' [] × (b'.cap ≡ b.cap))
            ((do
              destroy_content
              in_storage
                  (try_rethrow (λ s. at_locals tt fnc s) (λ (_ : Unit {0}). on_own (set_size 0)))
              set_content (length vs))
              b)
    unfolding set_size
    assign_kept fits =
        let (b', ran, e) = destroy_content-Emptied r in
        let s : Pending A = record {
          own = b';
          block = if t.scalar then (λ p. none) else b'.cell;
          room = b'.cap;
        } in
        let free : (p : ℕ) → s.block p ≡ none = λ p. elim (Bool-cases t.scalar) [
          | inl k ↦ ap (λ c. (if c then (λ p. none) else b'.cell) p) k
          | inr k ↦
              ap (λ c. (if c then (λ p. none) else b'.cell) p) k ∙ vacant_everywhere e.vacant k p
        ] in
        rw ran (
          Ensures-and_then
            (in_storage-Ensures {P = λ _ s'. Built s 0 vs (length vs) s'}
              {Q = λ e s'.
                (s'.own ≡ record b' { size = 0; clock = s'.own.clock })
                × ((p : ℕ) → s'.block p ≡ none)}
              {P' = λ _ c.
                (s' : Pending A) × Built s 0 vs (length vs) s'
                × (c.cell ≡ s'.block)
                × (c.cap ≡ b'.cap)}
              {Q' = λ e c. Represents c [] × (c.cap ≡ b.cap)}
              (try_rethrow (λ s. at_locals tt fnc s) (λ (_ : Unit {0}). on_own (set_size 0))) b'
              (Ensures-and_rethrow {R = λ e s'. Undone s 0 e.0 s'}
                (Ensures-with_locals tt (fills s free (omega (arith, e.cap_eq))) (λ _ s' q. q)
                  (λ e s' q. q))
                (λ x l s' q. returns (
                  ap {A = Buffer A} {B = Buffer A} (λ o. record o { size = 0 }) q.beside.own_eq,
                  λ p. q.behind p (omega arith),
                )))
              (λ _ s' q. (s', q, refl, ap (λ o. o.cap) q.beside.own_eq))
              (λ x s' q.
                subst (λ o. Represents (record o { cell = s'.block }) [] × (o.cap ≡ b.cap))
                  (sym q.0) (Represents-cleared s'.block s'.own.clock e.vacant q.1, e.cap_eq)))
            (λ _ c (s', q, cell_eq, cap_eq).
              Ensures-mono
                (content_stands {Q = λ _ o. Represents o [] × (o.cap ≡ b.cap)} c q
                  (omega (arith, e.cap_eq)) cell_eq cap_eq)
                (λ _ o p. (p.0, p.1 ∙ e.cap_eq)) (λ x o p. p))
            (λ x c q. q))

    assign_replaced :
        (n : ℕ)
        → length vs ≤ n
        → Ensures
            (λ _ b'. Represents b' vs × (b'.cap ≡ n))
            (Untouched b)
            ((do
              in_new_block n n fnc (λ (_ : Unit {0}). (do on_own destroy; adopt_block))
              set_content (length vs))
              b)
    unfolding destroy deallocate adopt_block
    assign_replaced n fits =
        Ensures-and_then
          (in_new_block-Ensures {P = λ _ s'. Built (allocated n b) 0 vs (length vs) s'}
            {R = λ c.
              (s' : Pending A) × Built (allocated n b) 0 vs (length vs) s'
              × (c.cell ≡ s'.block)
              × (c.cap ≡ n)}
            n n fnc (λ _. (do on_own destroy; adopt_block)) b (λ e s' q. refl)
            (fills (allocated n b) (λ p. refl) fits)
            (λ _ s' q.
              let own = Built-Loaded r q in
              let (c, ran, e) = destroy_content-Emptied own.own in
              rw ran (returns (s', q, refl, q.beside.room_eq))))
          (λ _ c (s', q, cell_eq, cap_eq). content_stands c q fits cell_eq cap_eq) (λ e c q. q)

    pub assign_n-Ensures :
        (n : ℕ)
        → length vs ≤ n
        → Ensures
            (λ _ b'. Represents b' vs × (b'.cap ≡ n))
            (Unassigned b n)
            (assign_n n (length vs) fnc b)
    unfolding assign_n capacity
    assign_n-Ensures n fits = elim (ℕ_discrete n b.cap) [
      | yes e ↦ rw (==_of_eq n b.cap e) (
          Ensures-mono (assign_kept (omega arith)) (λ _ b' q. (q.0, q.1 ∙ sym e))
            (λ x b' q. inl (e, q.0, q.1)))
      | no ne ↦
          rw (==_of_ne n b.cap ne)
            (Ensures-mono (assign_replaced n fits) (λ _ b' q. q) (λ x b' q. inr q))
    ]
