-- ===== src/SpaceOptimized/Adaptor/Places.antt =====
-- space_optimized.hpp: the insertion and the erasures of one element at a position of the adaptor.
use circular_buffer.Common.{
  ℕ, ◌+◌, ◌-◌, ◌≤◌, ◌<◌, ◌≡◌, refl, ap, ◌∙◌, subst, List, leb, true, length, insert_at, erase_at,
  length-erase_at, length-insert_at, arith,
}
use circular_buffer.Common.Int.{pos}
use circular_buffer.Common.Outcome.{Error, ok, Ensures, returns, Ensures-and_then, ◌>>=◌, ◌>>◌}
use circular_buffer.Element.{Element}
use circular_buffer.Spec.{keep_last}
use circular_buffer.Buffer.{Buffer, Iterator, begin}
use circular_buffer.Buffer.Represents.{Represents, position, BecomesAt, Survives, begin-position}
use circular_buffer.Buffer.Iterate.{difference}
use circular_buffer.Buffer.Iterate.Order.{iterators_ordered}
use circular_buffer.Buffer.Iterate.Counted.{advance-begin}
use circular_buffer.Buffer.Insert
use circular_buffer.Buffer.Insert.Refine.{insert_refines, excess}
use circular_buffer.Buffer.Erase
use circular_buffer.Buffer.Erase.Forward.{erase_refines}
use circular_buffer.Buffer.Erase.Backward.{rerase_refines}
use native.Mathlib.Decide.{dec_le}
use circular_buffer.SpaceOptimized.Adaptor.{
  Adaptor, on_ring, index_of, at_index, release_room, insert, erase, rerase,
}
use circular_buffer.SpaceOptimized.Adaptor.Adjust.{
  Stands, Keeps, kept, on_ring-Ensures, ensure_room-Ensures, one_more, release_room-Ensures,
}
use circular_buffer.SpaceOptimized.Adaptor.Ends.{same_kept}

module _ {ℓ} {A : Type ℓ} ⦃t : Element A⦄ {b : Buffer A} {xs : List A} (r : Represents b xs) where
  index_of-position : (k : ℕ) → k ≤ b.size → index_of (position b k) b ≡ ok k b
  unfolding index_of
  index_of-position k h =
      let (apart, _, _) = iterators_ordered r k 0 h (omega arith) in
      let signed : leb 0 k ≡ true = ground arith in
      let same : k - 0 ≡ k = omega arith in
      let at_first : difference b (position b k) (begin b) ≡ pos k =
        ap (difference b (position b k)) (begin-position r) ∙ apart ∙ rw signed (ap pos same) in
      rw (at_first, index_of) refl

  at_index-ok : (k : ℕ) → k ≤ b.size → at_index k b ≡ ok (position b k) b
  unfolding at_index
  at_index-ok k h = advance-begin r k h

module _ {ℓ} {A : Type ℓ} ⦃t : Element A⦄ {a : Adaptor A} {xs : List A} (s : Stands a xs) where
  -- What an exception leaves: the adaptor stands for a list, of at most one element more or less.
  abbrev pub KeepsSome : Error → Adaptor A → Type ℓ
  KeepsSome e a' =
      (ys : List A) × Stands a' ys
      × (a'.control ≡ a.control)
      × (length xs ≤ length ys + 1)
      × (length ys ≤ length xs + 1)

  -- The end of an erasure, whose iterator is that of the index `j`.
  settled :
      {ys : List A} {a' : Adaptor A} (j : ℕ) (it : Iterator)
      → Keeps a ys it a'
      → it ≡ position a'.ring j
      → j ≤ length ys
      → length ys + 1 ≡ length xs
      → Ensures
          (λ it' a''. Keeps a ys it' a'' × (it' ≡ position a''.ring j))
          KeepsSome
          ((do index ← on_ring (index_of it); release_room; on_ring (at_index index)) a')
  settled {ys} {a'} j it (s', same) at within len =
      let here : index_of it a'.ring ≡ ok j a'.ring =
        ap (λ i. index_of i a'.ring) at
        ∙ index_of-position s'.ring j (omega (arith, s'.ring.length_eq)) in
      rw here (
        Ensures-and_then (release_room-Ensures s')
          (λ _ a'' (s'', again).
            rw (at_index-ok s''.ring j (omega (arith, s''.ring.length_eq)))
              (returns ((s'', again ∙ same), refl)))
          (λ e a'' (s'', again). (ys, s'', again ∙ same, omega arith, omega arith)))

  -- What a call of the ring that changes at most one element leaves.
  unwound :
      {e : Error} {b : Buffer A} {a' : Adaptor A}
      → Stands a' xs
      → a'.control ≡ a.control
      → Survives a'.ring xs e b
      → KeepsSome e (record { ring = b; control = a'.control })
  unwound s' same (ys, r, cap_eq, _, least, most) =
      let (s'', again) = kept s' same r cap_eq in
      (ys, s'', again, omega (arith, s'.ring.length_eq), omega (arith, s'.ring.length_eq))

  module _ (k : ℕ) (inside : k < a.ring.size) where
    less_one : length (erase_at k xs) + 1 ≡ length xs
    less_one = length-erase_at k xs (omega (arith, s.ring.length_eq))

    -- Where an adaptor stands for the list xs, an erasure of the element of an index k below the
    -- size returns or throws. If it returns, the adaptor stands for xs without that element and
    -- the iterator is that of the index k in the ring as it then is; if it throws, the adaptor
    -- stands for some list whose length differs by one at most. The control is the same.
    pub erase-Keeps :
        Ensures
          (λ it a'. Keeps a (erase_at k xs) it a' × (it ≡ position a'.ring k))
          KeepsSome
          (erase (position a.ring k) a)
    unfolding erase
    erase-Keeps =
        Ensures-and_then
          (on_ring-Ensures {P' = λ it a'. Keeps a (erase_at k xs) it a' × (it ≡ position a'.ring k)}
            {Q' = KeepsSome} (Erase.erase (position a.ring k)) a (erase_refines s.ring k inside)
            (λ it b (r, cap_eq, at). (kept s refl r cap_eq, at)) (λ e b q. unwound s refl q))
          (λ it a' (q, at). settled k it q at (omega (arith, less_one, s.ring.length_eq)) less_one)
          (λ e a' q. q)

    pub rerase-Keeps :
        Ensures
          (λ it a'. Keeps a (erase_at k xs) it a' × (it ≡ position a'.ring (k - 1)))
          KeepsSome
          (rerase (position a.ring k) a)
    unfolding rerase
    rerase-Keeps =
        Ensures-and_then
          (on_ring-Ensures
            {P' = λ it a'. Keeps a (erase_at k xs) it a' × (it ≡ position a'.ring (k - 1))}
            {Q' = KeepsSome} (Erase.rerase (position a.ring k)) a (rerase_refines s.ring k inside)
            (λ it b (r, cap_eq, at). (kept s refl r cap_eq, at)) (λ e b q. unwound s refl q))
          (λ it a' (q, at).
            settled (k - 1) it q at (omega (arith, less_one, s.ring.length_eq)) less_one)
          (λ e a' q. q)

  -- Where an adaptor stands for the list xs, which its ring represents in a capacity of at most
  -- the guaranteed one, an insertion of an item at the iterator of an index k up to the size
  -- returns or throws. If it returns, the adaptor stands for the last elements, as many as the
  -- guaranteed capacity, of xs with the item put in at k, whatever the capacity of the ring was,
  -- and the iterator is that of the item, or of index 0 where the item itself is dropped. If it
  -- throws, the adaptor stands for some list whose length differs by one at most. The control is
  -- the same. An adaptor that stands for a list has a guaranteed capacity below 2^62.
  pub insert-Keeps :
      (k : ℕ) (item : A)
      → k ≤ a.ring.size
      → Ensures
          (λ it a'.
            Keeps a (keep_last a.control.capacity (insert_at k item xs)) it a'
            × (it ≡ position a'.ring (k - (length xs + 1 - a.control.capacity))))
          KeepsSome
          (insert (position a.ring k) item a)
  unfolding insert
  insert-Keeps k item h =
      let more = length-insert_at k item xs in
      rw (index_of-position s.ring k h) (
        Ensures-and_then (ensure_room-Ensures s 1 (one_more s))
          (λ _ a' ((s', same), enough, grown).
            let most : a'.ring.cap ≤ a.control.capacity =
              omega (arith, s'.cap_le, ap (λ c. c.capacity) same) in
            let (last_eq, _) = same_kept s (insert_at k item xs) more enough grown most in
            let k' : k ≤ a'.ring.size = omega (arith, s.ring.length_eq, s'.ring.length_eq) in
            on_ring-Ensures
              {P = BecomesAt a'.ring (keep_last a'.ring.cap (insert_at k item xs))
                (k - excess a'.ring)}
              {Q = Survives a'.ring xs} (λ b. (do it' ← at_index k; Insert.insert it' item) b) a'
              (rw (at_index-ok s'.ring k k') (insert_refines s'.ring item k k'))
              (λ it b (r, cap_eq, at). (
                kept s' same (subst (Represents b) last_eq r) cap_eq,
                at ∙ ap (position b) (dropped a' s' enough grown most),
              ))
              (λ e b q. unwound s' same q))
          (λ e a' (s', same). (xs, s', same, omega arith, omega arith)))
    where
      dropped :
          (a' : Adaptor A)
          → Stands a' xs
          → (a.ring.size + 1 ≤ a.control.capacity → a.ring.size + 1 ≤ a'.ring.cap)
          → a.ring.cap ≤ a'.ring.cap
          → a'.ring.cap ≤ a.control.capacity
          → k - excess a'.ring ≡ k - (length xs + 1 - a.control.capacity)
      dropped a' s' enough grown most = elim (dec_le (a.ring.size + 1) a.control.capacity) [
        | yes fits ↦ omega (arith, enough fits, s.ring.length_eq, s'.ring.length_eq)
        | no over ↦ omega (arith, s.ring.length_eq, s'.ring.length_eq, s.ring.size_le)
      ]
