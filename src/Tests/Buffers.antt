-- ===== src/Tests/Buffers.antt =====
-- Concrete buffers of include/boost/circular_buffer/base.hpp and the lists they represent.
use circular_buffer.Common.{
  ℕ, zero, suc, ◌≤◌, ◌<◌, ◌≡◌, refl, true, false, none, some, [], ◌∷◌, ◌==◌, get_elem?, arith,
}
use circular_buffer.Element.{Element}
use circular_buffer.Buffer.{Buffer, update}
use circular_buffer.Buffer.Slot.{slot}
use circular_buffer.Buffer.Represents.{Represents}

-- Numbers as a class type: a moved-from object holds 0, and the fourth operation throws.
instance abbrev pub number : Element ℕ
number = record {
  scalar = false;
  moved = λ v. 0;
  throws_at = λ n. n == 3;
  nothrow_move = true;
  torn = λ w v. 0;
  max_size = 100;
  denies = λ n. n == 50;
}

-- 8, then 9, round the end of three cells.
abbrev pub wrapped : Buffer ℕ
wrapped = record {
  cell = update (update (λ p. none) 2 (some 8)) 0 (some 9);
  cap = 3;
  first = 2;
  last = 1;
  size = 2;
  clock = 0;
}

-- 5, 6 and 7, which fill three cells.
abbrev pub filled : Buffer ℕ
filled = record {
  cell = update (update (update (λ p. none) 1 (some 5)) 2 (some 6)) 0 (some 7);
  cap = 3;
  first = 1;
  last = 1;
  size = 3;
  clock = 3;
}

pub wrapped-Represents : Represents wrapped (8 ∷ 9 ∷ [])
unfolding slot
wrapped-Represents = record {
  first_in = omega arith;
  size_le = omega arith;
  last_eq = refl;
  length_eq = refl;
  held = held;
  raw = raw;
  beyond = λ p h. ground arith;
}
  where
    held : (i : ℕ) → i < 2 → wrapped.cell (slot 3 2 i) ≡ get_elem? (8 ∷ 9 ∷ []) i
    held zero h = refl
    held (suc zero) h = refl
    held (suc (suc i)) h = absurd (omega arith)

    raw : (i : ℕ) → 2 ≤ i → i < 3 → false ≡ false → wrapped.cell (slot 3 2 i) ≡ none
    raw zero h k s = absurd (omega arith)
    raw (suc zero) h k s = absurd (omega arith)
    raw (suc (suc zero)) h k s = refl
    raw (suc (suc (suc i))) h k s = absurd (omega arith)

pub filled-Represents : Represents filled (5 ∷ 6 ∷ 7 ∷ [])
unfolding slot
filled-Represents = record {
  first_in = omega arith;
  size_le = omega arith;
  last_eq = refl;
  length_eq = refl;
  held = held;
  raw = λ i h k s. absurd (omega arith);
  beyond = λ p h. ground arith;
}
  where
    held : (i : ℕ) → i < 3 → filled.cell (slot 3 1 i) ≡ get_elem? (5 ∷ 6 ∷ 7 ∷ []) i
    held zero h = refl
    held (suc zero) h = refl
    held (suc (suc zero)) h = refl
    held (suc (suc (suc i))) h = absurd (omega arith)
