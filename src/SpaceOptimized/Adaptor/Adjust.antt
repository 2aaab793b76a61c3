-- ===== src/SpaceOptimized/Adaptor/Adjust.antt =====
-- space_optimized.hpp: the adjustments of the ring's capacity keep the elements.
use circular_buffer.Common.{ℕ, ◌+◌, ◌≤◌, ◌<◌, ◌≡◌, refl, sym, ap, subst, some, List, arith}
use circular_buffer.Common.Outcome.{Error, Outcome, Ensures, returns, throws, Ensures-mono}
use circular_buffer.Element.{Element}
use circular_buffer.Spec.{keep_first_all}
use circular_buffer.Buffer.{Buffer, Method}
use circular_buffer.Buffer.Represents.{Represents, Represents-clock}
use circular_buffer.Buffer.Capacity
use circular_buffer.Buffer.Capacity.Set.{set_capacity_refines}
use circular_buffer.SpaceOptimized.{size_quarter, CapacityControl}
use circular_buffer.SpaceOptimized.Bounds.{check_low_capacity-bounds, check_high_capacity-fits}
use circular_buffer.SpaceOptimized.Adaptor.{
  Adaptor, with_control, on_ring, adjust, ensure_room, release_room,
}

-- The adaptor stands for a list: its ring does, and has at most the guaranteed capacity.
pub record Stands {ℓ} {A : Type ℓ} ⦃t : Element A⦄ (a : Adaptor A) (xs : List A) : Type ℓ where
  pub ring : Represents a.ring xs
  pub cap_le : a.ring.cap ≤ a.control.capacity
  pub min_le : a.control.min_capacity ≤ a.control.capacity
  -- A quarter of `size_type` is enough for the guaranteed capacity, so that no doubling wraps round.
  pub in_range : a.control.capacity < size_quarter

-- What the documentation asks of a control, and a capacity below a quarter of `size_type`.
abbrev pub IsAdmissible : CapacityControl → Type 0
IsAdmissible c = (c.min_capacity ≤ c.capacity) × (c.capacity < size_quarter)

module _ {ℓ} {A : Type ℓ} ⦃t : Element A⦄ where
  -- What a call leaves: an adaptor for the list `xs`, of the same control.
  abbrev pub Keeps {κ} : {B : Type κ} → Adaptor A → List A → B → Adaptor A → Type ℓ
  Keeps a xs _ a' = Stands a' xs × (a'.control ≡ a.control)

  -- A call of the ring
  pub on_ring-Ensures {κ μ μ'} :
      {B : Type κ} {P : B → Buffer A → Type μ} {Q : Error → Buffer A → Type μ}
      {P' : B → Adaptor A → Type μ'} {Q' : Error → Adaptor A → Type μ'} (m : Method A B)
      (a : Adaptor A)
      → Ensures P Q (m a.ring)
      → ((v : B) (b : Buffer A) → P v b → P' v (record { ring = b; control = a.control }))
      → ((e : Error) (b : Buffer A) → Q e b → Q' e (record { ring = b; control = a.control }))
      → Ensures P' Q' (on_ring m a)
  on_ring-Ensures {B} {P} {Q} {P'} {Q'} m a done good bad = through done
    where
      through :
          {r : Outcome Error (Buffer A) B}
          → Ensures P Q r
          → Ensures P' Q' (with_control a.control r)
      through (returns p) = returns (good _ _ p)
      through (throws q) = throws (bad _ _ q)

  -- The ring has changed, and has the same capacity.
  pub kept :
      {c : CapacityControl} {a' : Adaptor A} {xs ys : List A} {b : Buffer A}
      → Stands a' xs
      → a'.control ≡ c
      → Represents b ys
      → b.cap ≡ a'.ring.cap
      → Stands (record { ring = b; control = a'.control }) ys × (a'.control ≡ c)
  kept s same r cap_eq = (
    record { ring = r; cap_le = omega (arith, s.cap_le); min_le = s.min_le; in_range = s.in_range },
    same,
  )

  module _ {a : Adaptor A} {xs : List A} (s : Stands a xs) where
    adjust-Ensures :
        (n : ℕ)
        → a.ring.size ≤ n
        → n ≤ a.control.capacity
        → Ensures (λ v a'. Keeps a xs v a' × (a'.ring.cap ≡ n)) (Keeps a xs) (adjust (some n) a)
    unfolding adjust
    adjust-Ensures n holds most =
        on_ring-Ensures (Capacity.set_capacity n) a (set_capacity_refines s.ring n)
          (λ _ b (r, cap_eq). (
            (
              record {
                ring =
                    subst (Represents b) (keep_first_all n xs (omega (arith, s.ring.length_eq))) r;
                cap_le = omega arith;
                min_le = s.min_le;
                in_range = s.in_range;
              },
              refl,
            ),
            cap_eq,
          ))
          (λ e b (same, _). (
            record {
              ring = subst (λ o. Represents o xs) (sym same) (Represents-clock s.ring b.clock);
              cap_le = omega (arith, s.cap_le, ap (λ o. o.cap) same);
              min_le = s.min_le;
              in_range = s.in_range;
            },
            refl,
          ))

    -- The elements stay, and the ring has room for `n` more if the adaptor may have it.
    pub ensure_room-Ensures :
        (n : ℕ)
        → a.ring.size + n ≤ size_quarter
        → Ensures
            (λ v a'.
              Keeps a xs v a'
              × (a.ring.size + n ≤ a.control.capacity → a.ring.size + n ≤ a'.ring.cap)
              × (a.ring.cap ≤ a'.ring.cap))
            (Keeps a xs)
            (ensure_room n a)
    unfolding ensure_room
    ensure_room-Ensures n few =
        let (r, e, grown, most, enough) =
          check_low_capacity-bounds a.control n a.ring.cap a.ring.size s.ring.size_le s.cap_le
            few in
        subst
          (λ o.
            Ensures
              (λ v a'.
                Keeps a xs v a'
                × (a.ring.size + n ≤ a.control.capacity → a.ring.size + n ≤ a'.ring.cap)
                × (a.ring.cap ≤ a'.ring.cap))
              (Keeps a xs) (adjust o a))
          (sym e)
          (Ensures-mono (adjust-Ensures r (omega (arith, s.ring.size_le)) most)
            (λ _ a' (k, cap_eq). (k, λ fits. omega (arith, enough fits), omega arith))
            (λ e a' q. q))

    -- One more element is in range.
    pub one_more : a.ring.size + 1 ≤ size_quarter
    one_more = omega (arith, s.ring.size_le, s.cap_le, s.in_range)

    pub release_room-Ensures : Ensures (Keeps a xs) (Keeps a xs) (release_room a)
    unfolding release_room
    release_room-Ensures =
        let (r, e, holds, most) =
          check_high_capacity-fits a.control a.ring.cap a.ring.size s.ring.size_le
            (omega (arith, s.ring.size_le, s.cap_le)) s.min_le (omega (arith, s.cap_le, s.in_range))
            s.in_range in
        subst (λ o. Ensures (Keeps a xs) (Keeps a xs) (adjust o a)) (sym e)
          (Ensures-mono (adjust-Ensures r holds most) (λ _ a' (k, cap_eq). k) (λ e a' q. q))
