-- ===== src/SpaceOptimized/Bounds.antt =====
-- space_optimized.hpp: the bounds of the capacities that the adaptor chooses.
use circular_buffer.Common.{
  ℕ, zero, suc, ◌+◌, ◌*◌, ◌/◌, ◌≤◌, ◌<◌, ◌≡◌, refl, ap, true, false, some, ◌==◌, leb, if◌then◌else◌,
  ltb_of_lt, arith,
}
use circular_buffer.SpaceOptimized.{
  size_limit, size_quarter, to_size, CapacityControl, ensure_reserve, double_up, reserved,
  check_low_capacity, halve_down, check_high_capacity,
}
use native.Mathlib.Nat.{mod-eq_of_lt}
use native.Mathlib.Decide.{dec_lt, dec_le}

-- Numbers below the limit do not wrap round.
to_size-small : (n : ℕ) → n < size_limit → to_size n ≡ n
unfolding to_size
to_size-small n h = mod-eq_of_lt h

-- The chosen capacity is at most the guaranteed one, and at least as large as all that the proposed
-- one and the guaranteed one reach.
ensure_reserve-bounds :
    (c : CapacityControl) (n size m : ℕ)
    → n < size_quarter * 2
    → size ≤ size_quarter
    → m ≤ n
    → m ≤ c.capacity
    → (ensure_reserve c n size ≤ c.capacity) × (m ≤ ensure_reserve c n size)
unfolding ensure_reserve
ensure_reserve-bounds c n size m small few h k =
    rw (to_size-small (size + n / 5) (omega arith), to_size-small (n * 2) (omega arith))
      (ground arith, ground arith)

double_up-enough :
    (n size capacity : ℕ)
    → 0 < capacity
    → size ≤ capacity + n
    → capacity < size * 2
    → size ≤ size_quarter
    → (r : ℕ) × (double_up (suc n) size capacity ≡ some r)
      × (size ≤ r)
      × (capacity ≤ r)
      × (r < size * 2)
unfolding double_up
double_up-enough zero size capacity p h two few =
    (capacity, ground arith, omega arith, omega arith, two)
double_up-enough (suc n) size capacity p h two few = elim (dec_lt capacity size) [
  | no l ↦ (capacity, ground arith, omega arith, omega arith, two)
  | yes l ↦
      let (r, e, above, more, less) =
        double_up-enough n size (capacity * 2) (omega arith) (omega arith) (omega arith) few in
      (
        r,
        rw (ltb_of_lt capacity size l, to_size-small (capacity * 2) (omega arith)) e,
        above,
        omega arith,
        less,
      )
]

halve_down-enough :
    (n : ℕ) (c : CapacityControl) (size capacity : ℕ)
    → capacity < n
    → c.min_capacity ≤ capacity
    → size ≤ capacity
    → (r : ℕ) × (halve_down n c size capacity ≡ some r)
      × (size ≤ r)
      × (c.min_capacity ≤ r)
      × (r ≤ capacity)
unfolding halve_down
halve_down-enough zero c size capacity h low fits = absurd (omega arith)
halve_down-enough (suc n) c size capacity h low fits = elim (dec_le size (capacity / 3)) [
  | no l ↦ (capacity, ground arith, fits, low, omega arith)
  | yes l ↦ elim (dec_le (capacity / 2) c.min_capacity) [
    | yes k ↦ (c.min_capacity, ground arith, omega arith, omega arith, low)
    | no k ↦
        let (r, e, above, more, less) =
          halve_down-enough n c size (capacity / 2) (omega arith) (omega arith) (omega arith) in
        let one : leb size (capacity / 3) ≡ true = ground arith in
        let two : leb (capacity / 2) c.min_capacity ≡ false = ground arith in
        (r, rw (one, two) e, above, more, omega arith)
  ]
]

-- In the 64-bit arithmetic of size_type, where the ring's size is at most its capacity, this at
-- most the guaranteed one, and the size with n at most 2^62, check_low_capacity ends, on the fuel
-- given, and leaves a capacity no smaller than before, at most the guaranteed one, with room for n
-- more elements if that has.
pub check_low_capacity-bounds :
    (c : CapacityControl) (n capacity size : ℕ)
    → size ≤ capacity
    → capacity ≤ c.capacity
    → size + n ≤ size_quarter
    → (r : ℕ) × (check_low_capacity c n capacity size ≡ some r)
      × (capacity ≤ r)
      × (r ≤ c.capacity)
      × (size + n ≤ c.capacity → size + n ≤ r)
unfolding check_low_capacity reserved
check_low_capacity-bounds c n capacity size h k few =
    rw (to_size-small (size + n) (omega arith)) (elim (dec_lt capacity (size + n)) [
      | no l ↦ (capacity, ground arith, omega arith, k, λ fits. omega arith)
      | yes l ↦
          let start = if capacity == 0 then 1 else capacity in
          let positive : 0 < start = ground arith in
          let from : capacity ≤ start = ground arith in
          let below : start < (size + n) * 2 = ground arith in
          let (r, e, above, more, less) =
            double_up-enough (size + n) (size + n) start positive (omega arith) below few in
          let (most, least) =
            ensure_reserve-bounds c r (size + n) capacity (omega arith) few (omega arith) k in
          (
            ensure_reserve c r (size + n),
            rw (ltb_of_lt capacity (size + n) l) (ap (reserved c (size + n)) e),
            least,
            most,
            λ fits.
                (ensure_reserve-bounds c r (size + n) (size + n) (omega arith) few above fits).1,
          )
    ])

-- Where the ring's size and the minimal capacity are at most its capacity, and this at most the
-- guaranteed one, check_high_capacity ends, on the fuel given, and leaves a capacity that holds
-- every element and lies between the minimal and the guaranteed one.
pub check_high_capacity-bounds :
    (c : CapacityControl) (capacity size : ℕ)
    → size ≤ capacity
    → c.min_capacity ≤ capacity
    → capacity ≤ c.capacity
    → capacity < size_quarter
    → (r : ℕ) × (check_high_capacity c capacity size ≡ some r)
      × (size ≤ r)
      × (c.min_capacity ≤ r)
      × (r ≤ c.capacity)
unfolding check_high_capacity reserved
check_high_capacity-bounds c capacity size h low k small =
    let (r, e, above, more, less) =
      halve_down-enough (suc capacity) c size capacity (omega arith) low h in
    let (most, holds) =
      ensure_reserve-bounds c r size size (omega arith) (omega arith) above (omega arith) in
    let (_, least) =
      ensure_reserve-bounds c r size c.min_capacity (omega arith) (omega arith) more
        (omega arith) in
    (ensure_reserve c r size, ap (reserved c size) e, holds, least, most)

-- The ring may also start below the minimal capacity, from an assignment, or above the guaranteed
-- one, where that has been lowered.
pub check_high_capacity-fits :
    (c : CapacityControl) (capacity size : ℕ)
    → size ≤ capacity
    → size ≤ c.capacity
    → c.min_capacity ≤ c.capacity
    → capacity < size_quarter * 2
    → c.capacity < size_quarter
    → (r : ℕ) × (check_high_capacity c capacity size ≡ some r) × (size ≤ r) × (r ≤ c.capacity)
unfolding check_high_capacity reserved halve_down
check_high_capacity-fits c capacity size h k low below small =
    elim (dec_lt capacity c.min_capacity) [
      | no l ↦
          let (r, e, above, more, less) =
            halve_down-enough (suc capacity) c size capacity (omega arith) (omega arith) h in
          let (most, holds) =
            ensure_reserve-bounds c r size size (omega arith) (omega arith) above k in
          (ensure_reserve c r size, ap (reserved c size) e, holds, most)
      | yes l ↦
          let two : leb (capacity / 2) c.min_capacity ≡ true = ground arith in
          elim (dec_le size (capacity / 3)) [
            | yes m ↦
                let one : leb size (capacity / 3) ≡ true = ground arith in
                let (most, holds) =
                  ensure_reserve-bounds c c.min_capacity size size (omega arith) (omega arith)
                    (omega arith) k in
                (ensure_reserve c c.min_capacity size, rw (one, two) refl, holds, most)
            | no m ↦
                let one : leb size (capacity / 3) ≡ false = ground arith in
                let (most, holds) =
                  ensure_reserve-bounds c capacity size size (omega arith) (omega arith) h k in
                (ensure_reserve c capacity size, rw one refl, holds, most)
          ]
    ]
