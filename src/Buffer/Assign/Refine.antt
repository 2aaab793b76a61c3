-- ===== src/Buffer/Assign/Refine.antt =====
-- base.hpp, the assignments: the lists that the buffers represent after them.
use circular_buffer.Common.{
  ℕ, ◌-◌, ◌≤◌, ◌≡◌, refl, subst, true, false, List, ltb, leb, length, replicate, length-replicate,
  length-drop, arith,
}
use circular_buffer.Common.Outcome.{ok, Ensures, Ensures-mono}
use circular_buffer.Element.{Element}
use circular_buffer.Spec.{keep_last, keep_last_all}
use circular_buffer.Buffer.{Buffer, assert, capacity}
use circular_buffer.Buffer.Represents.{Represents}
use circular_buffer.Buffer.Block.Copy.{uninitialized_copy-Ensures}
use circular_buffer.Buffer.Block.Walk.{Built-Loaded}
use circular_buffer.Buffer.Block.Replace.{allocated, Untouched, reallocate-Ensures, reset-Loaded}
use circular_buffer.Buffer.Create.Built.{objects_of-ok}
use circular_buffer.Buffer.Assign.{
  assign_copy, copy_and_reset, assign_n, fill_with, fill_from, assign_items,
  assign_items_with_capacity, assign_range, assign_range_with_capacity,
}
use circular_buffer.Buffer.Assign.Storage.{
  Unassigned, fill_from-Fills, fill_with-Fills, assign_n-Ensures,
}
use native.Mathlib.Decide.{dec_lt}

module _ {ℓ} {A : Type ℓ} ⦃t : Element A⦄ {b : Buffer A} {xs : List A} (r : Represents b xs) where
  -- Where two different buffers represent lists, an assignment of the second to the first returns
  -- or throws. If it returns, the first has the capacity of the second and represents the same
  -- list; if the allocator or an element throws, the first is as it was but for its clock.
  pub assign_copy_refines :
      {cb : Buffer A} {ys : List A}
      → Represents cb ys
      → Ensures
          (λ _ b'. Represents b' ys × (b'.cap ≡ cb.cap))
          (Untouched b)
          (assign_copy false cb b)
  unfolding assign_copy copy_and_reset capacity
  assign_copy_refines {cb} {ys} s = rw (objects_of-ok s b) (
      reallocate-Ensures cb.cap (copy_and_reset ys cb.cap) b (
        reset-Loaded
          (Ensures-mono
            (uninitialized_copy-Ensures ys 0 (allocated cb.cap b) (λ p h. refl)
              (omega (arith, s.length_eq, s.size_le)))
            (λ dest s' q. Built-Loaded r q) (λ e s' q. q))
          (omega (arith, s.length_eq, s.size_le))))

  -- An assignment from the buffer itself changes nothing.
  assign_copy_self : assign_copy true b b ≡ ok tt b
  unfolding assign_copy
  assign_copy_self = refl

  pub assign_items_refines :
      (n : ℕ) (item : A)
      → Ensures
          (λ _ b'. Represents b' (replicate n item) × (b'.cap ≡ n))
          (Unassigned b n)
          (assign_items n item b)
  unfolding assign_items
  assign_items_refines n item =
      let len = length-replicate n item in
      subst
        (λ k.
          Ensures (λ _ b'. Represents b' (replicate n item) × (b'.cap ≡ n)) (Unassigned b n)
            (assign_n n k (fill_with n item) b))
        len
        (assign_n-Ensures r (fill_with n item) (replicate n item) (fill_with-Fills n item) n
          (omega (arith, len)))

  pub assign_items_with_capacity_refines :
      (cap n : ℕ) (item : A)
      → n ≤ cap
      → Ensures
          (λ _ b'. Represents b' (replicate n item) × (b'.cap ≡ cap))
          (Unassigned b cap)
          (assign_items_with_capacity cap n item b)
  unfolding assign_items_with_capacity assert
  assign_items_with_capacity_refines cap n item h =
      let len = length-replicate n item in
      let e : leb n cap ≡ true = ground arith in
      rw e (
        subst
          (λ k.
            Ensures (λ _ b'. Represents b' (replicate n item) × (b'.cap ≡ cap)) (Unassigned b cap)
              (assign_n cap k (fill_with n item) b))
          len
          (assign_n-Ensures r (fill_with n item) (replicate n item) (fill_with-Fills n item) cap
            (omega (arith, len))))

  pub assign_range_refines :
      (items : List A)
      → Ensures
          (λ _ b'. Represents b' items × (b'.cap ≡ length items))
          (Unassigned b (length items))
          (assign_range items b)
  unfolding assign_range
  assign_range_refines items =
      assign_n-Ensures r (fill_from items) items (fill_from-Fills items) (length items)
        (omega arith)

  -- In a buffer that represents a list, an assignment of a range with a capacity n returns or
  -- throws. If it returns, the capacity is n and the buffer represents the last n objects of the
  -- range. If the allocator or an element throws, the buffer is empty, with the capacity it had,
  -- where n is that capacity, or is as it was but for its clock.
  pub assign_range_with_capacity_refines :
      (n : ℕ) (items : List A)
      → Ensures
          (λ _ b'. Represents b' (keep_last n items) × (b'.cap ≡ n))
          (Unassigned b n)
          (assign_range_with_capacity n items b)
  unfolding assign_range_with_capacity
  assign_range_with_capacity_refines n items = elim (dec_lt n (length items)) [
    | yes over ↦
        let e : ltb n (length items) ≡ true = ground arith in
        let kept = keep_last n items in
        let len : length kept ≡ n = omega (arith, length-drop (length items - n) items) in
        rw e (
          subst
            (λ k.
              Ensures (λ _ b'. Represents b' kept × (b'.cap ≡ n)) (Unassigned b n)
                (assign_n n k (fill_from kept) b))
            len (assign_n-Ensures r (fill_from kept) kept (fill_from-Fills kept) n (omega arith)))
    | no within ↦
        let e : ltb n (length items) ≡ false = ground arith in
        rw (e, keep_last_all n items (omega arith))
          (assign_n-Ensures r (fill_from items) items (fill_from-Fills items) n (omega arith))
  ]
