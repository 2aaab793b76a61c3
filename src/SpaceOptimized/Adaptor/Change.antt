-- ===== src/SpaceOptimized/Adaptor/Change.antt =====
-- space_optimized.hpp: the changes of the adaptor's capacity.
use circular_buffer.Common.{
  ℕ, ◌-◌, ◌≤◌, ◌<◌, ◌*◌, ◌≡◌, refl, sym, ap, subst, true, false, some, List, ltb, length, take,
  drop, length-take_le, length-drop, arith,
}
use circular_buffer.Common.Outcome.{Error, Ensures, Ensures-and_then}
use circular_buffer.Element.{Element}
use circular_buffer.Spec.{keep_first, keep_last, keep_first_all, keep_last_all}
use circular_buffer.Buffer.Represents.{Represents, Represents-clock}
use circular_buffer.Buffer.EraseEnds
use circular_buffer.Buffer.EraseEnds.Cut.{erase_first-Ensures, erase_last-Ensures}
use circular_buffer.Buffer.Capacity
use circular_buffer.Buffer.Capacity.Set.{set_capacity_refines}
use circular_buffer.SpaceOptimized.{size_quarter, CapacityControl}
use circular_buffer.SpaceOptimized.Bounds.{check_high_capacity-fits}
use circular_buffer.SpaceOptimized.Adaptor.{
  Adaptor, adjust, release_room, adjust_min_capacity, set_control, set_capacity, rset_capacity,
}
use circular_buffer.SpaceOptimized.Adaptor.Adjust.{Stands, IsAdmissible, on_ring-Ensures}
use native.Mathlib.Decide.{dec_lt}

module _ {ℓ} {A : Type ℓ} ⦃t : Element A⦄ (c : CapacityControl) (low : IsAdmissible c) where
  -- What a change to the control `c` leaves, and what an exception leaves: the ring represents some
  -- list of at most the old length, and may have more cells than the control allows.
  abbrev pub Changed : List A → Unit {0} → Adaptor A → Type ℓ
  Changed xs _ a' = Stands a' xs × (a'.control ≡ c)

  abbrev pub Halted : Adaptor A → Error → Adaptor A → Type ℓ
  Halted a e a' =
      (ys : List A) × Represents a'.ring ys × (a'.control ≡ c) × (length ys ≤ a.ring.size)

  -- The ring's capacity is set to one that the control allows.
  adjust-fits :
      (a₀ a : Adaptor A) {xs : List A} (n : ℕ)
      → Represents a.ring xs
      → a.control ≡ c
      → a.ring.size ≤ n
      → n ≤ c.capacity
      → a.ring.size ≤ a₀.ring.size
      → Ensures (Changed xs) (Halted a₀) (adjust (some n) a)
  unfolding adjust
  adjust-fits a₀ a {xs} n r same holds most fewer =
      on_ring-Ensures {P' = Changed xs} {Q' = Halted a₀} (Capacity.set_capacity n) a
        (set_capacity_refines r n)
        (λ _ b (r', cap_eq). (
          record {
            ring = subst (Represents b) (keep_first_all n xs (omega (arith, r.length_eq))) r';
            cap_le = omega (arith, cap_eq, ap (λ k. k.capacity) same);
            min_le = omega (arith, low.0, ap (λ k. k.capacity) same, ap (λ k. k.min_capacity) same);
            in_range = omega (arith, low.1, ap (λ k. k.capacity) same);
          },
          same,
        ))
        (λ e b (kept, _). (
          xs,
          subst (λ o. Represents o xs) (sym kept) (Represents-clock r b.clock),
          same,
          omega (arith, r.length_eq),
        ))

  adjust_min_capacity-Ensures :
      (a₀ a : Adaptor A) {xs : List A}
      → Represents a.ring xs
      → a.control ≡ c
      → a.ring.size ≤ c.capacity
      → a.ring.size ≤ a₀.ring.size
      → a.ring.cap < size_quarter * 2
      → Ensures (Changed xs) (Halted a₀) (adjust_min_capacity a)
  unfolding adjust_min_capacity release_room
  adjust_min_capacity-Ensures a₀ a {xs} r same fits fewer below =
      elim (dec_lt a.ring.cap a.control.min_capacity) [
        | yes l ↦
            let e : ltb a.ring.cap a.control.min_capacity ≡ true = ground arith in
            rw e (
              adjust-fits a₀ a a.control.min_capacity r same (omega (arith, r.size_le))
                (omega (arith, low.0, ap (λ k. k.min_capacity) same)) fewer)
        | no l ↦
            let e : ltb a.ring.cap a.control.min_capacity ≡ false = ground arith in
            let (n, found, holds, most) =
              check_high_capacity-fits a.control a.ring.cap a.ring.size r.size_le
                (omega (arith, ap (λ k. k.capacity) same))
                (omega (arith, low.0, ap (λ k. k.capacity) same, ap (λ k. k.min_capacity) same))
                below (omega (arith, low.1, ap (λ k. k.capacity) same)) in
            rw e (
              subst (λ o. Ensures (Changed xs) (Halted a₀) (adjust o a)) (sym found)
                (adjust-fits a₀ a n r same holds (omega (arith, most, ap (λ k. k.capacity) same))
                  fewer))
      ]

  module _ (a : Adaptor A) {xs : List A} (r : Represents a.ring xs)
      (below : a.ring.cap < size_quarter * 2) where
    -- Where the ring of an adaptor represents the list xs in less than 2^63 cells, and the minimum
    -- of a new control is at most its capacity and this below 2^62, set_capacity of the adaptor
    -- returns or throws. If it returns, the adaptor has the new control, its ring represents the
    -- first elements of xs, as many as the new guaranteed capacity at most, and the ring's
    -- capacity is at most that of the control. If it throws, the new control is in place all the
    -- same, and the ring represents some list that is not longer than xs.
    pub set_capacity-Changed :
        Ensures (Changed (keep_first c.capacity xs)) (Halted a) (set_capacity c a)
    unfolding set_capacity set_control
    set_capacity-Changed = elim (dec_lt c.capacity a.ring.size) [
      | yes over ↦
          let e : ltb c.capacity a.ring.size ≡ true = ground arith in
          let n = a.ring.size - c.capacity in
          let left : a.ring.size - n ≡ c.capacity = omega arith in
          rw e (
            Ensures-and_then
              (on_ring-Ensures
                {P' = λ _ a'.
                  Represents a'.ring (keep_first c.capacity xs)
                  × (a'.control ≡ c)
                  × (a'.ring.cap ≡ a.ring.cap)}
                {Q' = Halted a} (EraseEnds.erase_last n) (record a { control = c })
                (erase_last-Ensures r n (omega arith))
                (λ _ b (r', cap_eq). (subst (λ k. Represents b (take k xs)) left r', refl, cap_eq))
                (λ e b (zs, w, _). (zs, w.ring, refl, omega (arith, w.ring.length_eq, w.size_eq))))
              (λ _ a' (r', same, cap_eq).
                let len = length-take_le c.capacity xs (omega (arith, r.length_eq)) in
                adjust_min_capacity-Ensures a a' r' same (omega (arith, r'.length_eq, len))
                  (omega (arith, r'.length_eq, len)) (omega arith))
              (λ e a' q. q))
      | no within ↦
          let e : ltb c.capacity a.ring.size ≡ false = ground arith in
          rw (e, keep_first_all c.capacity xs (omega (arith, r.length_eq)))
            (adjust_min_capacity-Ensures a (record a { control = c }) r refl (omega arith)
              (omega arith) below)
    ]

    -- `rset_capacity` keeps the last elements, as `set_capacity` keeps the first.
    pub rset_capacity-Changed :
        Ensures (Changed (keep_last c.capacity xs)) (Halted a) (rset_capacity c a)
    unfolding rset_capacity set_control
    rset_capacity-Changed = elim (dec_lt c.capacity a.ring.size) [
      | yes over ↦
          let e : ltb c.capacity a.ring.size ≡ true = ground arith in
          let n = a.ring.size - c.capacity in
          let left : n ≡ length xs - c.capacity = omega (arith, r.length_eq) in
          rw e (
            Ensures-and_then
              (on_ring-Ensures
                {P' = λ _ a'.
                  Represents a'.ring (keep_last c.capacity xs)
                  × (a'.control ≡ c)
                  × (a'.ring.cap ≡ a.ring.cap)}
                {Q' = Halted a} (EraseEnds.erase_first n) (record a { control = c })
                (erase_first-Ensures r n (omega arith))
                (λ _ b (r', cap_eq). (subst (λ k. Represents b (drop k xs)) left r', refl, cap_eq))
                (λ e b (zs, w, _). (zs, w.ring, refl, omega (arith, w.ring.length_eq, w.size_eq))))
              (λ _ a' (r', same, cap_eq).
                let len = length-drop (length xs - c.capacity) xs in
                adjust_min_capacity-Ensures a a' r' same
                  (omega (arith, r'.length_eq, len, r.length_eq))
                  (omega (arith, r'.length_eq, len, r.length_eq)) (omega arith))
              (λ e a' q. q))
      | no within ↦
          let e : ltb c.capacity a.ring.size ≡ false = ground arith in
          rw (e, keep_last_all c.capacity xs (omega (arith, r.length_eq)))
            (adjust_min_capacity-Ensures a (record a { control = c }) r refl (omega arith)
              (omega arith) below)
    ]
