-- ===== src/Common/Int.antt =====
-- Signed differences: `difference_type` values, which never leave the range of the type here.
use Prim.Native.Nat.{ℕ, ◌-◌}
use circular_buffer.Common.Tests.{leb, if◌then◌else◌}

-- `negsuc n` is -(n + 1).
pub data ℤ : Type 0 where
  pos : ℕ → ℤ
  negsuc : ℕ → ℤ

-- a - b
abbrev pub sub_ℕ : ℕ → ℕ → ℤ
sub_ℕ a b = if leb b a then pos (a - b) else negsuc (b - a - 1)
