-- ===== src/Common/Int.antt =====
-- The C `int`s that the code uses for process ids and descriptors, where a negative one is an error.
use Prim.Native.Nat.{ℕ, zero, suc}
use mathlib.Core.Path.{◌≡◌, ap}
use native.Mathlib.Omega.{arith}
use mathlib.Core.Bool.{Bool, true, false}
use coder_desktop_linux.Common.Tests.{◌==◌}

-- `negsuc n` is -(n + 1).
pub data ℤ : Type 0 where
  pos : ℕ → ℤ
  negsuc : ℕ → ℤ

-- `x > 0`.
abbrev pub is_pos : ℤ → Bool
is_pos (pos zero) = false
is_pos (pos (suc n)) = true
is_pos (negsuc n) = false

-- `x == 0`.
abbrev pub is_zero : ℤ → Bool
is_zero (pos zero) = true
is_zero (pos (suc n)) = false
is_zero (negsuc n) = false

-- `x >= 0`.
abbrev pub is_nonneg : ℤ → Bool
is_nonneg (pos n) = true
is_nonneg (negsuc n) = false

-- `a == b`.
abbrev pub same_int : ℤ → ℤ → Bool
same_int (pos a) (pos b) = a == b
same_int (pos a) (negsuc b) = false
same_int (negsuc a) (pos b) = false
same_int (negsuc a) (negsuc b) = a == b

pub same_int_eq : (a b : ℤ) → same_int a b ≡ true → a ≡ b
same_int_eq (pos a) (pos b) e = let same : a ≡ b = ground arith in ap pos same
same_int_eq (pos a) (negsuc b) e = absurd (ground arith)
same_int_eq (negsuc a) (pos b) e = absurd (ground arith)
same_int_eq (negsuc a) (negsuc b) e = let same : a ≡ b = ground arith in ap negsuc same

pub same_int_refl : (a : ℤ) → same_int a a ≡ true
same_int_refl (pos n) = ground arith
same_int_refl (negsuc n) = ground arith
