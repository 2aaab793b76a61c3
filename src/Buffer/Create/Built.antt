-- ===== src/Buffer/Create/Built.antt =====
-- base.hpp, the constructors: the lists that the new buffers represent.
use circular_buffer.Common.{
  ℕ, zero, suc, ◌+◌, ◌<◌, ◌-◌, ◌≤◌, ◌≡◌, ◌⊎◌, inl, inr, refl, sym, ap, ◌∙◌, subst, true, false,
  none, List, [], ◌==◌, ==-refl, ==_of_eq, ==_of_ne, if◌then◌else◌, ltb, leb, length, replicate,
  length-replicate, length-drop, arith,
}
use circular_buffer.Common.Outcome.{
  Error, out_of_range, ok, fault, Ensures, returns, Ensures-mono, Ensures-and_then, ◌>>◌,
}
use circular_buffer.Element.{Element}
use circular_buffer.Spec.{keep_last, keep_last_all}
use circular_buffer.Buffer.{Buffer, assert, capacity}
use circular_buffer.Buffer.Slot.{slot}
use circular_buffer.Buffer.Represents.{Represents}
use circular_buffer.Buffer.Compare.Traverse.{range_refines}
use circular_buffer.Buffer.Block.{
  Pending, adopt_block, allocate, fill_loop, construct_in, deallocate_block, destroy_range,
  uninitialized_fill_n_with_alloc, uninitialized_copy, in_new_block,
}
use circular_buffer.Buffer.Block.Copy.{
  Built, Undone, uninitialized_copy-Ensures, uninitialized_fill_n-Ensures,
}
use circular_buffer.Buffer.Block.Reset.{Represents-block, slot_wrap}
use circular_buffer.Buffer.Block.Replace.{
  allocated, allocate-Ensures, Untouched, in_new_block-Ensures,
}
use circular_buffer.Buffer.Create.{
  initialize_buffer, create_with_capacity, create_full, create_filled, create_copy, create_of_range,
  initialize_filled, create_with_range, initialize, adopt_filled, set_ends, objects_of,
}
use mathlib.Core.Bool.{false≢true}
use circular_buffer.Buffer.Clear.{set_size}
use native.Mathlib.Decide.{dec_lt, ℕ_discrete}

-- A constructor that throws leaves no object: nothing has become its storage.
abbrev pub NoObject {ℓ} : {A : Type ℓ} → Buffer A → Error → Buffer A → Type ℓ
NoObject b e b' = (b'.cell ≡ b.cell) × ¬ (e ≡ out_of_range)

module _ {ℓ} {A : Type ℓ} ⦃t : Element A⦄ where
  -- A block that has been filled from its first cell on becomes the storage.
  pub Built-stands :
      {n : ℕ} {b : Buffer A} {vs : List A} (dest last : ℕ) (s' : Pending A)
      → b.size ≡ length vs
      → length vs ≤ n
      → last ≡ (if dest == n then 0 else dest)
      → Built (allocated n b) 0 vs dest s'
      → Represents (record s'.own { cell = s'.block; cap = s'.room; first = 0; last = last }) vs
        × (s'.room ≡ n)
  Built-stands {n} {b} {vs} dest last s' size_eq fits last_eq q =
      let after = record s'.own { cell = s'.block; cap = s'.room; first = 0; last = last } in
      let d : dest ≡ length vs = omega (arith, q.dest_eq) in
      let room : n ≡ s'.room = sym q.beside.room_eq in
      (
        Represents-block after vs refl (ap (λ o. o.size) q.beside.own_eq ∙ size_eq) (omega arith)
            (last_eq
              ∙ slot_wrap n dest (omega arith)
              ∙ ap (λ c. slot c 0 dest) room
              ∙ ap (slot s'.room 0) d)
            (λ i h. ap s'.block (omega arith) ∙ q.held i h) (λ p h. q.behind p (omega arith)),
        sym room,
      )

  adopt_filled-Ensures :
      {n : ℕ} {b : Buffer A} {vs : List A} {Q : Error → Pending A → Type ℓ} (dest : ℕ)
      (s' : Pending A)
      → b.size ≡ length vs
      → length vs ≤ n
      → Built (allocated n b) 0 vs dest s'
      → Ensures (λ _ s''. Represents s''.own vs × (s''.own.cap ≡ n)) Q (adopt_filled n dest s')
  unfolding adopt_filled set_ends
  adopt_filled-Ensures dest s' size_eq fits q = returns (Built-stands dest _ s' size_eq fits refl q)

  pub objects_of-ok :
      {cb : Buffer A} {ys : List A} (r : Represents cb ys) (b : Buffer A)
      → objects_of cb b ≡ ok ys b
  unfolding objects_of
  objects_of-ok r b = rw (range_refines r, objects_of) refl

  -- What a copy of `vs` into a new block of the buffer leaves.
  pub copied :
      (n : ℕ) (b : Buffer A) (vs : List A)
      → b.size ≡ length vs
      → length vs ≤ n
      → Ensures
          (λ _ b'. Represents b' vs × (b'.cap ≡ n))
          (Untouched b)
          (in_new_block n n (uninitialized_copy vs 0) (adopt_filled n) b)
  copied n b vs size_eq fits =
      in_new_block-Ensures {P = Built (allocated n b) 0 vs} n n (uninitialized_copy vs 0)
        (adopt_filled n) b (λ e s' q. refl)
        (uninitialized_copy-Ensures vs 0 (allocated n b) (λ p h. refl) (omega arith))
        (λ dest s' q. adopt_filled-Ensures {Q = Undone (allocated n b) 0} dest s' size_eq fits q)

  -- The copy constructor, called on a buffer that represents a list and run over any bytes,
  -- returns or throws. If it returns, the new buffer has the same capacity and represents the same
  -- list; if the allocator or an element throws, nothing has become its storage.
  pub create_copy_refines :
      {cb : Buffer A} {ys : List A} (r : Represents cb ys) (b : Buffer A)
      → Ensures (λ _ b'. Represents b' ys × (b'.cap ≡ cb.cap)) (NoObject b) (create_copy cb b)
  unfolding create_copy capacity set_size
  create_copy_refines {cb} {ys} r b = rw (objects_of-ok r (record b { size = cb.size })) (
      Ensures-mono
        (copied cb.cap (record b { size = cb.size }) ys (sym r.length_eq)
          (omega (arith, r.length_eq, r.size_le)))
        (λ _ b' q. q) (λ e b' q. (ap (λ o. o.cell) q.0, q.1)))

  initialize-Ensures :
      (n : ℕ) (items : List A) (b : Buffer A)
      → Ensures
          (λ _ b'. Represents b' (keep_last n items) × (b'.cap ≡ n))
          (NoObject b)
          (initialize n items (length items) b)
  unfolding initialize
  initialize-Ensures n items b = elim (dec_lt n (length items)) [
    | yes over ↦
        let e : ltb n (length items) ≡ true = ground arith in
        let len : length (keep_last n items) ≡ n =
          omega (arith, length-drop (length items - n) items) in
        rw e (
          Ensures-mono
            (copied n (record b { size = n }) (keep_last n items) (sym len) (omega arith))
            (λ _ b' q. q) (λ e b' q. (ap (λ o. o.cell) q.0, q.1)))
    | no within ↦
        let e : ltb n (length items) ≡ false = ground arith in
        rw (e, keep_last_all n items (omega arith))
          (Ensures-mono (copied n (record b { size = length items }) items refl (omega arith))
            (λ _ b' q. q) (λ e b' q. (ap (λ o. o.cell) q.0, q.1)))
  ]

  -- The constructor from a capacity n and a range, run over any bytes, returns or throws. If it
  -- returns, the buffer has the capacity n and represents the last n objects of the range; if the
  -- allocator or an element throws, nothing has become its storage, and the error is no
  -- out_of_range.
  pub create_with_range_refines :
      (n : ℕ) (items : List A) (b : Buffer A)
      → Ensures
          (λ _ b'. Represents b' (keep_last n items) × (b'.cap ≡ n))
          (NoObject b)
          (create_with_range n items b)
  unfolding create_with_range
  create_with_range_refines n items b = initialize-Ensures n items b

  pub create_of_range_refines :
      (items : List A) (b : Buffer A)
      → Ensures
          (λ _ b'. Represents b' items × (b'.cap ≡ length items))
          (NoObject b)
          (create_of_range items b)
  unfolding create_of_range
  create_of_range_refines items b =
      subst
        (λ vs.
          Ensures (λ _ b'. Represents b' vs × (b'.cap ≡ length items)) (NoObject b)
            (initialize (length items) items (length items) b))
        (keep_last_all (length items) items (omega arith))
        (initialize-Ensures (length items) items b)

  pub initialize_filled-Ensures :
      (cap last : ℕ) (item : A) (b : Buffer A)
      → b.size ≤ cap
      → (b.size ≡ cap) ⊎ ((k : ℕ) → b.clock ≤ k → t.throws_at k ≡ false)
      → last ≡ (if b.size == cap then 0 else b.size)
      → Ensures
          (λ _ b'. Represents b' (replicate b.size item) × (b'.cap ≡ cap))
          (NoObject b)
          ((do initialize_filled cap item; set_ends 0 last) b)
  unfolding initialize_filled adopt_block set_ends
  initialize_filled-Ensures cap last item b fits safe last_eq =
      let len = length-replicate b.size item in
      let from_zero : b.size ≡ 0 + b.size = omega arith in
      Ensures-and_then
        (in_new_block-Ensures
          {P = λ _ s'. Built (allocated cap b) 0 (replicate b.size item) (0 + b.size) s'}
          {R = λ b'.
            Represents (record b' { first = 0; last = last }) (replicate b.size item)
            × (b'.cap ≡ cap)}
          cap b.size (uninitialized_fill_n_with_alloc 0 b.size item) (λ _. adopt_block) b
          (λ e s' q. elim safe [
            | inl same ↦ same
            | inr calm ↦ let (k, l, storm) = q.storm in absurd (false≢true (sym (calm k l) ∙ storm))
          ])
          (uninitialized_fill_n-Ensures 0 b.size item (allocated cap b) (λ p h. refl) (omega arith))
          (λ v s' q. returns (
            Built-stands {b = b} (0 + b.size) last s' (sym len) (omega arith)
              (last_eq ∙ ap (λ d. if d == cap then 0 else d) from_zero) q)))
        (λ _ b' q. returns q) (λ e b' q. (ap (λ o. o.cell) q.0, q.1))

  -- The buffer of the constructor from n copies is full of them.
  pub create_full_refines :
      (n : ℕ) (item : A) (b : Buffer A)
      → Ensures
          (λ _ b'. Represents b' (replicate n item) × (b'.cap ≡ n))
          (NoObject b)
          (create_full n item b)
  unfolding create_full
  create_full_refines n item b =
      initialize_filled-Ensures n 0 item (record b { size = n }) (omega arith) (inl refl)
        (rw (==-refl n) refl)

  -- With another capacity too, where no later copy throws.
  pub create_filled_refines :
      (cap n : ℕ) (item : A) (b : Buffer A)
      → n ≤ cap
      → (n ≡ cap) ⊎ ((k : ℕ) → b.clock ≤ k → t.throws_at k ≡ false)
      → Ensures
          (λ _ b'. Represents b' (replicate n item) × (b'.cap ≡ cap))
          (NoObject b)
          (create_filled cap n item b)
  unfolding create_filled assert
  create_filled_refines cap n item b fits safe =
      let e : leb n cap ≡ true = ground arith in
      rw e (
        initialize_filled-Ensures cap (if cap == n then 0 else n) item (record b { size = n }) fits
          safe (ends cap n))
    where
      ends : (cap n : ℕ) → (if cap == n then 0 else n) ≡ (if n == cap then 0 else n)
      ends cap n = elim (ℕ_discrete n cap) [
        | yes e ↦ rw (==_of_eq n cap e, ==_of_eq cap n (sym e)) refl
        | no ne ↦ rw (==_of_ne n cap ne, ==_of_ne cap n (λ e. ne (sym e))) refl
      ]

  -- The constructor with a capacity and a smaller positive number of copies of an item runs into
  -- undefined behaviour where the allocator gives the storage and the first copy throws: its
  -- handler deallocates the block with another count than it was allocated with.
  pub create_filled_faults :
      (cap n : ℕ) (item : A) (b : Buffer A)
      → 0 < n
      → n < cap
      → cap ≤ t.max_size
      → t.denies cap ≡ false
      → t.throws_at b.clock ≡ true
      → create_filled cap n item b ≡ fault
  unfolding create_filled assert initialize_filled in_new_block allocate
      uninitialized_fill_n_with_alloc fill_loop construct_in deallocate_block destroy_range set_size
  create_filled_faults cap zero item b p h most allowed storm = absurd (omega arith)
  create_filled_faults cap (suc n) item b p h most allowed storm =
      let e : leb (suc n) cap ≡ true = ground arith in
      let small : ltb t.max_size cap ≡ false = ground arith in
      rw (e, small, ==_of_ne cap 0 (omega arith), allowed, storm)
        (rw (==_of_ne (suc n) cap (λ q. absurd (omega arith)), deallocate_block) refl)

  -- The object without storage
  abbrev pub nothing : ℕ → Buffer A
  nothing k = record { cell = λ p. none; cap = 0; first = 0; last = 0; size = 0; clock = k }

  pub Represents-nothing : (k : ℕ) → Represents (nothing k) []
  Represents-nothing k =
      Represents-block (nothing k) [] refl refl (omega arith) (slot_wrap 0 0 (omega arith))
        (λ i h. absurd (omega arith)) (λ p h. refl)

  pub create_with_capacity_refines :
      (n : ℕ) (b : Buffer A)
      → Ensures (λ _ b'. Represents b' [] × (b'.cap ≡ n)) (NoObject b) (create_with_capacity n b)
  unfolding create_with_capacity initialize_buffer adopt_block set_ends set_size
  create_with_capacity_refines n b =
      Ensures-and_then
        (Ensures-and_then {P' = λ _ b'. b' ≡ record b { cell = λ p. none; cap = n; size = 0 }}
          {Q' = NoObject b} (allocate-Ensures n (record b { size = 0 }))
          (λ _ b' e.
            returns
              (ap {A = Buffer A} {B = Buffer A} (λ c. record c { cell = λ p. none; cap = n }) e))
          (λ e b' q. (ap (λ o. o.cell) q.0, q.1)))
        (λ _ b' e. returns (
          subst (λ c. Represents (record c { first = 0; last = 0 }) [] × (c.cap ≡ n)) (sym e)
            (stands, refl)))
        (λ e b' q. q)
    where
      first_slot : (n : ℕ) → slot n 0 0 ≡ 0
      first_slot n = elim (ℕ_discrete 0 n) [
        | yes e ↦ sym (slot_wrap n 0 (omega arith)) ∙ rw (==_of_eq 0 n e) refl
        | no ne ↦ sym (slot_wrap n 0 (omega arith)) ∙ rw (==_of_ne 0 n ne) refl
      ]

      stands : Represents (record b { cell = λ p. none; cap = n; size = 0; first = 0; last = 0 }) []
      stands =
          Represents-block (record b { cell = λ p. none; cap = n; size = 0; first = 0; last = 0 })
            [] refl refl (omega arith) (sym (first_slot n)) (λ i h. absurd (omega arith))
            (λ p h. refl)
