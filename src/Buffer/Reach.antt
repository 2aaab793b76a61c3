-- ===== src/Buffer/Reach.antt =====
-- base.hpp: sequences of calls on one buffer, and what holds after each of them.
use circular_buffer.Common.{ℕ, ◌≤◌, ◌<◌, ◌≡◌, inl, inr, sym, Option, subst, List, []}
use circular_buffer.Common.Outcome.{
  Error, Outcome, ok, thrown, fault, pure, ◌>>=◌, Ensures, returns, throws, Ensures-mono,
  Ensures-and_then,
}
use circular_buffer.Element.{Element}
use circular_buffer.Buffer.{Buffer, Method}
use circular_buffer.Buffer.Represents.{Represents, Represents-clock, position}
use circular_buffer.Buffer.Push.{push_back, push_front, pop_back, pop_front}
use circular_buffer.Buffer.Push.Back.{push_back_refines}
use circular_buffer.Buffer.Push.Front.{push_front_refines}
use circular_buffer.Buffer.Push.Pop.{pop_back_refines, pop_front_refines}
use circular_buffer.Buffer.Insert.{insert}
use circular_buffer.Buffer.Insert.Refine.{insert_refines}
use circular_buffer.Buffer.Erase.{erase, rerase}
use circular_buffer.Buffer.Erase.Forward.{erase_refines}
use circular_buffer.Buffer.Erase.Backward.{rerase_refines}
use circular_buffer.Buffer.EraseRange.{erase_range}
use circular_buffer.Buffer.EraseRange.Refine.{erase_range_refines}
use circular_buffer.Buffer.ReraseRange.{rerase_range}
use circular_buffer.Buffer.ReraseRange.Refine.{rerase_range_refines}
use circular_buffer.Buffer.EraseEnds.{erase_begin, erase_end}
use circular_buffer.Buffer.EraseEnds.Cut.{erase_begin_refines, erase_end_refines}
use circular_buffer.Buffer.Clear.{clear}
use circular_buffer.Buffer.Clear.Content.{clear_refines}
use circular_buffer.Buffer.Capacity.{set_capacity, rset_capacity}
use circular_buffer.Buffer.Capacity.Set.{set_capacity_refines, rset_capacity_refines}
use circular_buffer.Buffer.Block.Replace.{Untouched}
use circular_buffer.Buffer.Assign.{assign_items_with_capacity, assign_range_with_capacity}
use circular_buffer.Buffer.Assign.Storage.{Unassigned}
use circular_buffer.Buffer.Assign.Refine.{
  assign_items_with_capacity_refines, assign_range_with_capacity_refines,
}
use circular_buffer.Buffer.Create.{create_with_capacity}
use circular_buffer.Buffer.Create.Built.{create_with_capacity_refines}

-- A call of a method, with the indices of its iterators.
pub data Call {ℓ} (A : Type ℓ) : Type ℓ where
  append : A → Call A
  prepend : A → Call A
  drop_last : Call A
  drop_first : Call A
  put_in : ℕ → A → Call A
  take_out : ℕ → Call A
  take_out_back : ℕ → Call A
  cut_out : ℕ → ℕ → Call A
  cut_out_back : ℕ → ℕ → Call A
  cut_begin : ℕ → Call A
  cut_end : ℕ → Call A
  empty_out : Call A
  resize_first : ℕ → Call A
  resize_last : ℕ → Call A
  refill : ℕ → ℕ → A → Call A
  reload : ℕ → List A → Call A

module _ {ℓ} {A : Type ℓ} ⦃t : Element A⦄ where
  abbrev pub run : Call A → Method A (Unit {0})
  run (append v) = push_back v
  run (prepend v) = push_front v
  run drop_last = pop_back
  run drop_first = pop_front
  run (put_in k v) = λ b. (do _ ← insert (position b k) v; pure tt) b
  run (take_out k) = λ b. (do _ ← erase (position b k); pure tt) b
  run (take_out_back k) = λ b. (do _ ← rerase (position b k); pure tt) b
  run (cut_out f l) = λ b. (do _ ← erase_range (position b f) (position b l); pure tt) b
  run (cut_out_back f l) = λ b. (do _ ← rerase_range (position b f) (position b l); pure tt) b
  run (cut_begin n) = erase_begin n
  run (cut_end n) = erase_end n
  run empty_out = clear
  run (resize_first n) = set_capacity n
  run (resize_last n) = rset_capacity n
  run (refill cap n v) = assign_items_with_capacity cap n v
  run (reload cap vs) = assign_range_with_capacity cap vs

  -- What the documentation asks of the caller.
  abbrev pub Allowed : Call A → Buffer A → Type 0
  Allowed drop_last b = 0 < b.size
  Allowed drop_first b = 0 < b.size
  Allowed (put_in k v) b = k ≤ b.size
  Allowed (take_out k) b = k < b.size
  Allowed (take_out_back k) b = k < b.size
  Allowed (cut_out f l) b = (f ≤ l) × (l ≤ b.size)
  Allowed (cut_out_back f l) b = (f ≤ l) × (l ≤ b.size)
  Allowed (cut_begin n) b = n ≤ b.size
  Allowed (cut_end n) b = n ≤ b.size
  Allowed (refill cap n v) b = n ≤ cap
  Allowed _ b = Unit {0}

  -- The buffers that a constructor and allowed calls lead to, whether these return or throw.
  pub data Reachable : Buffer A → Type ℓ where
    created :
        (n : ℕ) (bytes : Buffer A) {b : Buffer A}
        → create_with_capacity n bytes ≡ ok tt b
        → Reachable b
    returned :
        (b : Buffer A) {b' : Buffer A} (c : Call A)
        → Reachable b
        → Allowed c b
        → run c b ≡ ok tt b'
        → Reachable b'
    raised :
        (b : Buffer A) {b' : Buffer A} (e : Error) (c : Call A)
        → Reachable b
        → Allowed c b
        → run c b ≡ thrown e b'
        → Reachable b'

  -- The buffer represents some list.
  abbrev pub IsSound : Buffer A → Type ℓ
  IsSound b = (xs : List A) × Represents b xs

  -- A run that is no fault, and leaves a sound buffer.
  abbrev pub Sound {κ} : {B : Type κ} → Outcome Error (Buffer A) B → Type (ℓ ⊔ κ)
  Sound r = Ensures (λ _ b. IsSound b) (λ _ b. IsSound b) r

  -- The three forms in which the theorems on the methods are stated.
  from_Ensures {κ} :
      {B : Type κ} {P : B → Buffer A → Type ℓ} {Q : Error → Buffer A → Type ℓ}
      {r : Outcome Error (Buffer A) B}
      → Ensures P Q r
      → ((v : B) (b : Buffer A) → P v b → IsSound b)
      → ((e : Error) (b : Buffer A) → Q e b → IsSound b)
      → Sound r
  from_Ensures done good bad = Ensures-mono done good bad

  discarding :
      (m : Method A (Option ℕ)) (b : Buffer A) → Sound {0} (m b) → Sound {0} ((do _ ← m; pure tt) b)
  discarding m b done = Ensures-and_then done (λ it b' q. returns q) (λ e b' q. q)

  from_run :
      {r : Outcome Error (Buffer A) (Unit {0})} {b : Buffer A} → r ≡ ok tt b → IsSound b → Sound r
  from_run ran q = rw ran (returns q)

  module _ {b : Buffer A} {xs : List A} (r : Represents b xs) where
    untouched : {e : Error} {b' : Buffer A} → Untouched b e b' → IsSound b'
    untouched {e} {b'} (same, _) =
        (xs, subst (λ o. Represents o xs) (sym same) (Represents-clock r b'.clock))

    unassigned : {n : ℕ} {e : Error} {b' : Buffer A} → Unassigned b n e b' → IsSound b'
    unassigned (inl (_, q, _)) = ([], q)
    unassigned (inr q) = untouched q

    run-Sound : (c : Call A) → Allowed c b → Sound (run c b)
    run-Sound (append v) h =
        from_Ensures (push_back_refines v r) (λ _ b' q. (_, q.0)) (λ e b' q. (_, q.0))
    run-Sound (prepend v) h =
        from_Ensures (push_front_refines v r) (λ _ b' q. (_, q.0)) (λ e b' q. (_, q.0))
    run-Sound drop_last h = let (b', ran, q, _) = pop_back_refines r h in from_run ran (_, q)
    run-Sound drop_first h = let (b', ran, q, _) = pop_front_refines r h in from_run ran (_, q)
    run-Sound (put_in k v) h =
        discarding (insert (position b k) v) b
          (from_Ensures (insert_refines r v k h) (λ _ b' q. (_, q.0)) (λ e b' q. (q.0, q.1)))
    run-Sound (take_out k) h =
        discarding (erase (position b k)) b
          (from_Ensures (erase_refines r k h) (λ _ b' q. (_, q.0)) (λ e b' q. (q.0, q.1)))
    run-Sound (take_out_back k) h =
        discarding (rerase (position b k)) b
          (from_Ensures (rerase_refines r k h) (λ _ b' q. (_, q.0)) (λ e b' q. (q.0, q.1)))
    run-Sound (cut_out f l) h = discarding (erase_range (position b f) (position b l)) b (
        from_Ensures (erase_range_refines r f l h.0 h.1) (λ _ b' q. (_, q.0))
          (λ e b' (ys, q, _). (ys, q.ring)))
    run-Sound (cut_out_back f l) h = discarding (rerase_range (position b f) (position b l)) b (
        from_Ensures (rerase_range_refines r f l h.0 h.1) (λ _ b' q. (_, q.0))
          (λ e b' (ys, q, _). (ys, q.ring)))
    run-Sound (cut_begin n) h =
        from_Ensures (erase_begin_refines r n h) (λ _ b' q. (_, q.0))
          (λ e b' (ys, q, _). (ys, q.ring))
    run-Sound (cut_end n) h =
        from_Ensures (erase_end_refines r n h) (λ _ b' q. (_, q.0))
          (λ e b' (ys, q, _). (ys, q.ring))
    run-Sound empty_out h = let (b', ran, q, _) = clear_refines r in from_run ran (_, q)
    run-Sound (resize_first n) h =
        from_Ensures (set_capacity_refines r n) (λ _ b' q. (_, q.0)) (λ e b' q. untouched q)
    run-Sound (resize_last n) h =
        from_Ensures (rset_capacity_refines r n) (λ _ b' q. (_, q.0)) (λ e b' q. untouched q)
    run-Sound (refill cap n v) h =
        from_Ensures (assign_items_with_capacity_refines r cap n v h) (λ _ b' q. (_, q.0))
          (λ e b' q. unassigned q)
    run-Sound (reload cap vs) h =
        from_Ensures (assign_range_with_capacity_refines r cap vs) (λ _ b' q. (_, q.0))
          (λ e b' q. unassigned q)

  -- What a run that returned, or threw, has left.
  ensured_ok :
      {P : Buffer A → Type ℓ} {Q : Error → Buffer A → Type ℓ}
      {r : Outcome Error (Buffer A) (Unit {0})} {b : Buffer A}
      → Ensures (λ _ b. P b) Q r
      → r ≡ ok tt b
      → P b
  ensured_ok {P} {b = b} (returns {s = c} q) e = let same : c ≡ b = cc in subst P same q
  ensured_ok (throws q) e = cc

  ensured_thrown :
      {P Q : Buffer A → Type ℓ} {r : Outcome Error (Buffer A) (Unit {0})} {e : Error} {b : Buffer A}
      → Ensures (λ _ b. P b) (λ _ b. Q b) r
      → r ≡ thrown e b
      → Q b
  ensured_thrown (returns q) k = cc
  ensured_thrown {Q = Q} {b = b} (throws {s = c} q) k = let same : c ≡ b = cc in subst Q same q

  no_fault : {r : Outcome Error (Buffer A) (Unit {0})} → Sound r → ¬ (r ≡ fault)
  no_fault (returns q) e = cc
  no_fault (throws q) e = cc

  -- A buffer that the constructor with a capacity and any sequence of calls of sixteen methods
  -- have led to, where each call met its documented precondition and returned or threw, represents
  -- some list: the size is at most the capacity, the pointer m_last is where m_first and the size
  -- say, and the cells of the elements hold live objects. The calls are push_back, push_front,
  -- pop_back, pop_front, insert, erase and rerase of one element, erase and rerase of a range,
  -- erase_begin, erase_end, clear, set_capacity, rset_capacity, and assign with a capacity of
  -- copies and of a range.
  pub Reachable-Represents : {b : Buffer A} → Reachable b → IsSound b
  Reachable-Represents (created n bytes made) =
      ([], (ensured_ok (create_with_capacity_refines n bytes) made).0)
  Reachable-Represents (returned b c path h ran) =
      let (xs, r) = Reachable-Represents path in ensured_ok (run-Sound r c h) ran
  Reachable-Represents (raised b e c path h ran) =
      let (xs, r) = Reachable-Represents path in ensured_thrown (run-Sound r c h) ran

  -- A buffer that the constructor with a capacity and any sequence of calls have led to, where
  -- each call met its documented precondition and returned or threw, runs the next such call
  -- without undefined behaviour: the call returns or throws. The calls are push_back, push_front,
  -- pop_back, pop_front, insert, erase and rerase of one element and of a range, erase_begin,
  -- erase_end, clear, set_capacity, rset_capacity, and assign with a capacity of copies and of a
  -- range.
  pub Reachable-safe :
      {b : Buffer A} → Reachable b → (c : Call A) → Allowed c b → ¬ (run c b ≡ fault)
  Reachable-safe path c h = let (xs, r) = Reachable-Represents path in no_fault (run-Sound r c h)
