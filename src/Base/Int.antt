-- ===== src/Base/Int.antt =====
-- Go's signed integers, and the conversion to uint32.
use Prim.Native.Nat.{ℕ, ◌-◌, ◌%◌, ◌<◌}
use native.Mathlib.Omega.{arith}

-- `negsuc n` is -(n + 1).
pub data ℤ : Type 0 where
  pos : ℕ → ℤ
  negsuc : ℕ → ℤ

abbrev pub u32_mod : ℕ
u32_mod = 4294967296

-- uint32(i)
abbrev pub to_u32 : ℤ → ℕ
to_u32 (pos n) = n % u32_mod
to_u32 (negsuc n) = u32_mod - 1 - n % u32_mod

pub to_u32-lt : (i : ℤ) → to_u32 i < u32_mod
to_u32-lt (pos n) = omega arith
to_u32-lt (negsuc n) = omega arith
