-- ===== src/Buffer/Swap.antt =====
-- base.hpp: `swap`, the move constructor and the move assignment, on two buffers.
use circular_buffer.Common.{◌≡◌, refl, List, []}
use circular_buffer.Common.Outcome.{Error, Outcome, ok, thrown, fault, Action, ◌>>◌}
use circular_buffer.Element.{Element}
use circular_buffer.Buffer.{Buffer, Method}
use circular_buffer.Buffer.Represents.{Represents, Represents-clock}
use circular_buffer.Buffer.Clear.{destroy, deallocate}
use circular_buffer.Buffer.Clear.Content.{destroy_content-Emptied}
use circular_buffer.Buffer.Create.{create_empty}
use circular_buffer.Buffer.Create.Built.{nothing, Represents-nothing}

-- The buffer that a method is called on, and the one that it takes.
abbrev pub Both {ℓ} : Type ℓ → Type ℓ
Both A = Buffer A × Buffer A

module _ {ℓ} {A : Type ℓ} where
  abbrev first_of :
      Buffer A → Outcome Error (Buffer A) (Unit {0}) → Outcome Error (Both A) (Unit {0})
  first_of cb (ok v b) = ok v (b, cb)
  first_of cb (thrown e b) = thrown e (b, cb)
  first_of cb fault = fault

  abbrev second_of :
      Buffer A → Outcome Error (Buffer A) (Unit {0}) → Outcome Error (Both A) (Unit {0})
  second_of b (ok v cb) = ok v (b, cb)
  second_of b (thrown e cb) = thrown e (b, cb)
  second_of b fault = fault

  -- What is left when the first of the two is gone.
  abbrev second_only : Outcome Error (Both A) (Unit {0}) → Outcome Error (Buffer A) (Unit {0})
  second_only (ok v (b, cb)) = ok v cb
  second_only (thrown e (b, cb)) = thrown e cb
  second_only fault = fault

  abbrev on_first : Method A (Unit {0}) → Action Error (Both A) (Unit {0})
  on_first m (b, cb) = first_of cb (m b)

  abbrev on_second : Method A (Unit {0}) → Action Error (Both A) (Unit {0})
  on_second m (b, cb) = second_of b (m cb)

  -- `swap(cb)`; each of the two keeps its clock, which is no field of it.
  unfoldable pub swap : Action Error (Both A) (Unit {0})
  swap (b, cb) = ok tt (record cb { clock = b.clock }, record b { clock = cb.clock })

  -- The move constructor: the first object has no fields yet.
  unfoldable pub move_create : Action Error (Both A) (Unit {0})
  unfolding swap create_empty
  move_create = do on_first create_empty; swap

module _ {ℓ} {A : Type ℓ} ⦃t : Element A⦄ where
  -- `circular_buffer(get_allocator()).swap(cb)`, and the destructor of the temporary object, which
  -- takes the place of some bytes.
  unfoldable pub swap_with_temporary : Method A (Unit {0})
  unfolding swap create_empty destroy
  swap_with_temporary cb =
      let bytes = cb in second_only ((do on_first create_empty; swap; on_first destroy) (bytes, cb))

  -- `operator =` that moves
  unfoldable pub move_assign : Action Error (Both A) (Unit {0})
  unfolding swap swap_with_temporary
  move_assign = do swap; on_second swap_with_temporary

  module _ {cb : Buffer A} {ys : List A} (s : Represents cb ys) where
    -- Each of the two buffers represents the list of the other, with the other's capacity.
    pub swap_refines :
        {b : Buffer A} {xs : List A} (r : Represents b xs)
        → (b' : Buffer A) × (cb' : Buffer A) × (swap (b, cb) ≡ ok tt (b', cb'))
          × Represents b' ys
          × Represents cb' xs
          × (b'.cap ≡ cb.cap)
          × (cb'.cap ≡ b.cap)
    unfolding swap
    swap_refines {b} r = (
      record cb { clock = b.clock },
      record b { clock = cb.clock },
      refl,
      Represents-clock s b.clock,
      Represents-clock r cb.clock,
      refl,
      refl,
    )

    -- The new buffer represents the list, and the old one is empty.
    pub move_create_refines :
        (b : Buffer A)
        → (b' : Buffer A) × (cb' : Buffer A) × (move_create (b, cb) ≡ ok tt (b', cb'))
          × Represents b' ys
          × Represents cb' []
          × (b'.cap ≡ cb.cap)
          × (cb'.cap ≡ 0)
    unfolding move_create swap create_empty
    move_create_refines b = (
      record cb { clock = b.clock },
      nothing cb.clock,
      refl,
      Represents-clock s b.clock,
      Represents-nothing cb.clock,
      refl,
      refl,
    )

    -- Where two different buffers represent lists, the move assignment of the second to the first
    -- returns, the first then represents the list of the second with its capacity, and the second
    -- is empty with the capacity 0.
    pub move_assign_refines :
        {b : Buffer A} {xs : List A} (r : Represents b xs)
        → (b' : Buffer A) × (cb' : Buffer A) × (move_assign (b, cb) ≡ ok tt (b', cb'))
          × Represents b' ys
          × Represents cb' []
          × (b'.cap ≡ cb.cap)
          × (cb'.cap ≡ 0)
    unfolding move_assign swap_with_temporary swap create_empty destroy deallocate
    move_assign_refines {b} {xs} r =
        let (gone, destroyed, e) = destroy_content-Emptied (Represents-clock r cb.clock) in
        (
          record cb { clock = b.clock },
          nothing cb.clock,
          rw destroyed refl,
          Represents-clock s b.clock,
          Represents-nothing cb.clock,
          refl,
          refl,
        )
