-- ===== src/SpaceOptimized/Adaptor/Build/Built.antt =====
-- space_optimized.hpp: what the constructors and assignments of the adaptor leave.
use circular_buffer.Common.{
  ℕ, ◌≤◌, ◌≡◌, refl, true, false, List, [], leb, length, replicate, min, max, arith,
}
use circular_buffer.Common.Outcome.{Error, ◌>>◌, Ensures, returns, Ensures-mono, Ensures-and_then}
use circular_buffer.Element.{Element}
use circular_buffer.Spec.{keep_last}
use circular_buffer.Buffer.{Method, assert}
use circular_buffer.Buffer.Represents.{Represents}
use circular_buffer.Buffer.Create
use circular_buffer.Buffer.Create.Built.{
  NoObject, create_with_capacity_refines, create_of_range_refines, create_with_range_refines,
  objects_of-ok,
}
use circular_buffer.Buffer.Assign
use circular_buffer.Buffer.Assign.Storage.{Unassigned}
use circular_buffer.Buffer.Assign.Refine.{
  assign_range_refines, assign_items_with_capacity_refines, assign_range_with_capacity_refines,
}
use circular_buffer.SpaceOptimized.{CapacityControl}
use circular_buffer.SpaceOptimized.Adaptor.{Adaptor, on_ring, set_control}
use circular_buffer.SpaceOptimized.Adaptor.Adjust.{Stands, IsAdmissible, on_ring-Ensures}
use circular_buffer.SpaceOptimized.Adaptor.Change.{Changed}
use circular_buffer.SpaceOptimized.Adaptor.Build.{
  create_with_capacity, create_copy, create_with_range, init_capacity_of_range, assign_copy,
  assign_items_with_capacity, assign_range_with_capacity,
}

module _ {ℓ} {A : Type ℓ} ⦃t : Element A⦄ where
  -- A constructor that throws leaves the ring without an object.
  abbrev pub NoRing : Adaptor A → Error → Adaptor A → Type ℓ
  NoRing a e a' = NoObject a.ring e a'.ring

  -- An assignment that throws keeps the control, and leaves the ring as that of the ring does.
  abbrev pub Kept : Adaptor A → ℕ → Error → Adaptor A → Type ℓ
  Kept a n e a' = Unassigned a.ring n e a'.ring × (a'.control ≡ a.control)

  module _ (c : CapacityControl) (low : IsAdmissible c) where
    -- The control is set after a call of the ring has built a list in a capacity that it allows.
    controlled :
        {xs : List A} {n : ℕ} {Q : Error → Adaptor A → Type ℓ} (a : Adaptor A)
        (m : Method A (Unit {0}))
        → n ≤ c.capacity
        → Ensures
            (λ _ b. Represents b xs × (b.cap ≡ n))
            (λ e b. Q e (record a { ring = b }))
            (m a.ring)
        → Ensures (Changed c low xs) Q ((do on_ring m; set_control c) a)
    unfolding set_control
    controlled {xs} {n} {Q} a m h done =
        Ensures-and_then
          (on_ring-Ensures {P' = λ _ a'. Represents a'.ring xs × (a'.ring.cap ≡ n)} {Q' = Q} m a
            done (λ _ b p. p) (λ e b q. q))
          (λ _ a' (r, cap_eq). returns (
            record {
              ring = r;
              cap_le = omega (arith, h, cap_eq);
              min_le = low.0;
              in_range = low.1;
            },
            refl,
          ))
          (λ e a' q. q)

    -- The constructor with a range keeps the last objects that the guaranteed capacity has room for.
    pub create_with_range-Changed :
        (items : List A) (a : Adaptor A)
        → Ensures
            (Changed c low (keep_last (init_capacity_of_range c (length items)) items))
            (NoRing a)
            (create_with_range c items a)
    unfolding create_with_range init_capacity_of_range
    create_with_range-Changed items a =
        controlled a
          (Create.create_with_range (max c.min_capacity (min c.capacity (length items))) items)
          (omega arith)
          (create_with_range_refines (max c.min_capacity (min c.capacity (length items))) items
            a.ring)

    -- A new adaptor stands for the empty list.
    pub create_with_capacity-Changed :
        (a : Adaptor A) → Ensures (Changed c low []) (NoRing a) (create_with_capacity c a)
    unfolding create_with_capacity
    create_with_capacity-Changed a =
        controlled a (Create.create_with_capacity c.min_capacity) low.0
          (create_with_capacity_refines c.min_capacity a.ring)

    module _ (a : Adaptor A) {xs : List A} (r : Represents a.ring xs) where
      -- An assignment of copies of an item
      pub assign_items_with_capacity-Changed :
          (n : ℕ) (item : A)
          → n ≤ c.capacity
          → Ensures
              (Changed c low (replicate n item))
              (Kept a (max c.min_capacity n))
              (assign_items_with_capacity c n item a)
      unfolding assign_items_with_capacity assert
      assign_items_with_capacity-Changed n item h =
          let e : leb n c.capacity ≡ true = ground arith in
          rw e (
            controlled a (Assign.assign_items_with_capacity (max c.min_capacity n) n item)
              (omega arith)
              (Ensures-mono
                (assign_items_with_capacity_refines r (max c.min_capacity n) n item (omega arith))
                (λ _ b p. p) (λ e b q. (q, refl))))

      -- An assignment of a range replaces the control before it may throw.
      pub assign_range_with_capacity-Changed :
          (items : List A)
          → Ensures
              (Changed c low (keep_last c.capacity items))
              (λ e a'. Unassigned a.ring c.capacity e a'.ring × (a'.control ≡ c))
              (assign_range_with_capacity c items a)
      unfolding assign_range_with_capacity set_control
      assign_range_with_capacity-Changed items =
          on_ring-Ensures (Assign.assign_range_with_capacity c.capacity items)
            (record a { control = c }) (assign_range_with_capacity_refines r c.capacity items)
            (λ _ b (r', cap_eq). (
              record {
                ring = r';
                cap_le = omega (arith, cap_eq);
                min_le = low.0;
                in_range = low.1;
              },
              refl,
            ))
            (λ e b q. (q, refl))

  module _ {cb : Adaptor A} {ys : List A} (s : Stands cb ys) where
    fits : length ys ≤ cb.control.capacity
    fits = omega (arith, s.ring.length_eq, s.ring.size_le, s.cap_le)

    -- A copy stands for the same list under the same control.
    pub create_copy-Changed :
        (a : Adaptor A)
        → Ensures (Changed cb.control (s.min_le, s.in_range) ys) (NoRing a) (create_copy cb a)
    unfolding create_copy
    create_copy-Changed a = rw (objects_of-ok s.ring a.ring) (
        controlled cb.control (s.min_le, s.in_range) a (Create.create_of_range ys) fits
          (create_of_range_refines ys a.ring))

    -- Where an adaptor stands for a list and the ring of another adaptor represents some list, an
    -- assignment of the first adaptor to the second returns or throws. If it returns, the second
    -- stands for the list of the first and has its control. If the allocator or an element throws,
    -- the second keeps its control, and its ring is as it was but for its clock or, where its
    -- capacity is the number of the elements to copy, is empty with the capacity it had. An
    -- adaptor that stands for a list has a guaranteed capacity below 2^62.
    pub assign_copy-Changed :
        (a : Adaptor A) {xs : List A}
        → Represents a.ring xs
        → Ensures
            (Changed cb.control (s.min_le, s.in_range) ys)
            (Kept a (length ys))
            (assign_copy false cb a)
    unfolding assign_copy
    assign_copy-Changed a r = rw (objects_of-ok s.ring a.ring) (
        controlled cb.control (s.min_le, s.in_range) a (Assign.assign_range ys) fits
          (Ensures-mono (assign_range_refines r ys) (λ _ b p. p) (λ e b q. (q, refl))))
