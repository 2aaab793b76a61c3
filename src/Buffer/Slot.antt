-- ===== src/Buffer/Slot.antt =====
-- Positions of the ring: the cell of an element is its index, counted on from a base round the end
-- of the storage.
use circular_buffer.Common.{ℕ, ◌+◌, ◌-◌, ◌%◌, ◌≤◌, ◌<◌, ◌≡◌, ap, ◌∙◌, arith}
use native.Mathlib.Nat.{mod-lt, mod-eq_of_lt, mod-eq-sub-mod, mod-add-mod, add-mod_right}
use native.Mathlib.Decide.{dec_lt}

-- The cell that lies `i` steps after `base` in a storage of `cap` cells.
unfoldable pub slot : ℕ → ℕ → ℕ → ℕ
slot cap base i = (base + i) % cap

pub slot-lt : (cap base i : ℕ) → 0 < cap → slot cap base i < cap
unfolding slot
slot-lt cap base i h = mod-lt _ h

pub slot-zero : (cap base : ℕ) → base < cap → slot cap base 0 ≡ base
unfolding slot
slot-zero cap base h = omega (arith, mod-eq_of_lt {n = base + 0} {m = cap} (omega arith))

pub slot-slot : (cap base i j : ℕ) → slot cap (slot cap base i) j ≡ slot cap base (i + j)
unfolding slot
slot-slot cap base i j = rw (mod-add-mod (base + i) cap j) (ap (λ k. k % cap) (omega arith))

-- Short of one turn a position is found by one subtraction.
pub slot-below : (cap base i : ℕ) → base + i < cap → slot cap base i ≡ base + i
unfolding slot
slot-below cap base i h = mod-eq_of_lt h

pub slot-above :
    (cap base i : ℕ) → cap ≤ base + i → base + i < cap + cap → slot cap base i ≡ base + i - cap
unfolding slot
slot-above cap base i h k = omega (
  arith,
  mod-eq-sub-mod {n = base + i} {m = cap} h,
  mod-eq_of_lt {n = base + i - cap} {m = cap} (omega arith),
)

pub slot-cap : (cap base i : ℕ) → slot cap base (i + cap) ≡ slot cap base i
unfolding slot
slot-cap cap base i = ap (λ k. k % cap) (omega arith) ∙ add-mod_right (base + i) cap

-- An index that is a turn further lies in the same cell.
pub slot_turn : (cap base i j : ℕ) → i ≡ j + cap → slot cap base i ≡ slot cap base j
slot_turn cap base i j e = ap (slot cap base) e ∙ slot-cap cap base j

-- The cell of an index, counted from the cell of another.
pub slot_from : (cap base i j k : ℕ) → i + j ≡ k → slot cap (slot cap base i) j ≡ slot cap base k
slot_from cap base i j k e = slot-slot cap base i j ∙ ap (slot cap base) e

-- Indices counted from the cell before the base are one larger.
pub slot_before :
    (cap base i : ℕ) → base < cap → slot cap (slot cap base (cap - 1)) (i + 1) ≡ slot cap base i
slot_before cap base i h =
    slot-slot cap base (cap - 1) (i + 1) ∙ slot_turn cap base (cap - 1 + (i + 1)) i (omega arith)

-- Within one turn different indices lie in different cells.
pub slot-injective :
    (cap base i j : ℕ) → base < cap → i < cap → j < cap → slot cap base i ≡ slot cap base j → i ≡ j
slot-injective cap base i j hb hi hj e = elim (dec_lt (base + i) cap) [
  | yes p ↦ elim (dec_lt (base + j) cap) [
    | yes q ↦ omega (arith, slot-below cap base i p, slot-below cap base j q)
    | no q ↦
        omega (arith, slot-below cap base i p, slot-above cap base j (omega arith) (omega arith))
  ]
  | no p ↦ elim (dec_lt (base + j) cap) [
    | yes q ↦
        omega (arith, slot-above cap base i (omega arith) (omega arith), slot-below cap base j q)
    | no q ↦ omega (
      arith,
      slot-above cap base i (omega arith) (omega arith),
      slot-above cap base j (omega arith) (omega arith),
    )
  ]
]

-- Before the end no cell is the one behind the last element.
pub apart_from_end :
    (cap base i m : ℕ)
    → base < cap
    → 0 < i
    → i < m
    → m ≤ cap
    → ¬ (slot cap base i ≡ slot cap base m)
apart_from_end cap base i m hb p h l e = elim (dec_lt m cap) [
  | yes short ↦ absurd (omega (arith, slot-injective cap base i m hb (omega arith) short e))
  | no turn ↦
      let e' : slot cap base i ≡ slot cap base 0 = e ∙ slot_turn cap base m 0 (omega arith) in
      absurd (omega (arith, slot-injective cap base i 0 hb (omega arith) (omega arith) e'))
]
