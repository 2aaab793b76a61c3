-- ===== src/SpaceOptimized/Adaptor/Swap.antt =====
-- space_optimized.hpp: `swap`, the move constructor and the move assignment, on two adaptors.
use circular_buffer.Common.{◌≡◌, refl, List, [], arith}
use circular_buffer.Common.Outcome.{Error, Outcome, ok, thrown, fault, Action, ◌>>◌}
use circular_buffer.Element.{Element}
use circular_buffer.Buffer.Represents.{Represents-clock}
use circular_buffer.Buffer.Clear.{destroy, deallocate}
use circular_buffer.Buffer.Clear.Content.{destroy_content-Emptied}
use circular_buffer.Buffer.Create
use circular_buffer.Buffer.Create.Built.{nothing, Represents-nothing}
use circular_buffer.Buffer.Swap
use circular_buffer.Buffer.Swap.{Both, swap_with_temporary}
use circular_buffer.SpaceOptimized.{CapacityControl}
use circular_buffer.SpaceOptimized.Adaptor.{Adaptor, with_control}
use circular_buffer.SpaceOptimized.Adaptor.Adjust.{Stands}
use circular_buffer.SpaceOptimized.Adaptor.Build.{capacity_control}

-- The adaptor that a method is called on, and the one that it takes.
abbrev pub BothAdaptors {ℓ} : Type ℓ → Type ℓ
BothAdaptors A = Adaptor A × Adaptor A

module _ {ℓ} {A : Type ℓ} where
  abbrev with_controls :
      (c d : CapacityControl)
      → Outcome Error (Both A) (Unit {0})
      → Outcome Error (BothAdaptors A) (Unit {0})
  with_controls c d (ok v (b, cb)) =
      ok v (record { ring = b; control = c }, record { ring = cb; control = d })
  with_controls c d (thrown e (b, cb)) =
      thrown e (record { ring = b; control = c }, record { ring = cb; control = d })
  with_controls c d fault = fault

  -- A call in which the two change places
  abbrev flip :
      Outcome Error (BothAdaptors A) (Unit {0}) → Outcome Error (BothAdaptors A) (Unit {0})
  flip (ok v (a, cb)) = ok v (cb, a)
  flip (thrown e (a, cb)) = thrown e (cb, a)
  flip fault = fault

  -- A call on one of the two
  abbrev first_adaptor :
      Adaptor A → Outcome Error (Adaptor A) (Unit {0}) → Outcome Error (BothAdaptors A) (Unit {0})
  first_adaptor cb (ok v a) = ok v (a, cb)
  first_adaptor cb (thrown e a) = thrown e (a, cb)
  first_adaptor cb fault = fault

  abbrev second_adaptor :
      Adaptor A → Outcome Error (Adaptor A) (Unit {0}) → Outcome Error (BothAdaptors A) (Unit {0})
  second_adaptor a (ok v cb) = ok v (a, cb)
  second_adaptor a (thrown e cb) = thrown e (a, cb)
  second_adaptor a fault = fault

  -- `swap(cb)`
  unfoldable pub swap : Action Error (BothAdaptors A) (Unit {0})
  unfolding Swap.swap
  swap (a, cb) = with_controls cb.control a.control (Swap.swap (a.ring, cb.ring))

  -- The move constructor
  unfoldable pub move_create : Action Error (BothAdaptors A) (Unit {0})
  unfolding swap capacity_control Create.create_empty
  move_create = do
    (λ (a, cb). first_adaptor cb (with_control (capacity_control 0) (Create.create_empty a.ring)))
    (λ (a, cb). flip (swap (cb, a)))

module _ {ℓ} {A : Type ℓ} ⦃t : Element A⦄ where
  -- `operator =` that moves. The temporary object is a ring, and its swap leaves the control.
  unfoldable pub move_assign : Action Error (BothAdaptors A) (Unit {0})
  unfolding swap swap_with_temporary
  move_assign = do
    (λ (a, cb). flip (swap (cb, a)))
    (λ (a, cb). second_adaptor a (with_control cb.control (swap_with_temporary cb.ring)))

  module _ {cb : Adaptor A} {ys : List A} (s : Stands cb ys) where
    -- The new adaptor stands for the list and has the control of the old one, which is empty and has
    -- a control that guarantees nothing.
    pub move_create-Stands :
        (a : Adaptor A)
        → (a' : Adaptor A) × (cb' : Adaptor A) × (move_create (a, cb) ≡ ok tt (a', cb'))
          × Stands a' ys
          × Stands cb' []
          × (a'.control ≡ cb.control)
          × (cb'.control ≡ capacity_control 0)
    unfolding move_create swap capacity_control Create.create_empty Swap.swap
    move_create-Stands a = (
      record { ring = record cb.ring { clock = a.ring.clock }; control = cb.control },
      record { ring = nothing cb.ring.clock; control = capacity_control 0 },
      refl,
      record {
        ring = Represents-clock s.ring a.ring.clock;
        cap_le = s.cap_le;
        min_le = s.min_le;
        in_range = s.in_range;
      },
      record {
        ring = Represents-nothing cb.ring.clock;
        cap_le = omega arith;
        min_le = omega arith;
        in_range = omega arith;
      },
      refl,
      refl,
    )

    -- The first adaptor stands for the list of the second and has its control; the second is empty and
    -- has the control that the first one had.
    pub move_assign-Stands :
        {a : Adaptor A} {xs : List A} (r : Stands a xs)
        → (a' : Adaptor A) × (cb' : Adaptor A) × (move_assign (a, cb) ≡ ok tt (a', cb'))
          × Stands a' ys
          × Stands cb' []
          × (a'.control ≡ cb.control)
          × (cb'.control ≡ a.control)
    unfolding move_assign swap Swap.swap swap_with_temporary Create.create_empty destroy deallocate
    move_assign-Stands {a} r =
        let (gone, destroyed, e) =
          destroy_content-Emptied (Represents-clock r.ring cb.ring.clock) in
        (
          record { ring = record cb.ring { clock = a.ring.clock }; control = cb.control },
          record { ring = nothing cb.ring.clock; control = a.control },
          rw destroyed refl,
          record {
            ring = Represents-clock s.ring a.ring.clock;
            cap_le = s.cap_le;
            min_le = s.min_le;
            in_range = s.in_range;
          },
          record {
            ring = Represents-nothing cb.ring.clock;
            cap_le = omega arith;
            min_le = r.min_le;
            in_range = r.in_range;
          },
          refl,
          refl,
        )
