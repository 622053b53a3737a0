-- ===== src/Prelude/Int.antt =====
-- Go's `int`, for values that the source tests for their sign. `negsuc n` is -(n + 1).
use Prim.Native.Nat.{ℕ, zero, suc}
use mathlib.Core.Bool.{Bool, true, false}
use mathlib.Core.Path.{◌≡◌}
use native.Mathlib.Omega.{arith}
use grudge_ai.Prelude.Tests.{leb, ltb}

pub data ℤ : Type 0 where
  pos : ℕ → ℤ
  negsuc : ℕ → ℤ

-- The number, with 0 for a negative one.
abbrev pub pos_part : ℤ → ℕ
pos_part (pos n) = n
pos_part (negsuc n) = 0

-- `0 < z`
abbrev pub is_positive : ℤ → Bool
is_positive (pos zero) = false
is_positive (pos (suc n)) = true
is_positive (negsuc n) = false

-- `n <= z` for a count n.
abbrev pub at_most : ℕ → ℤ → Bool
at_most n (pos m) = leb n m
at_most n (negsuc m) = false

-- `y < z`
abbrev pub int_ltb : ℤ → ℤ → Bool
int_ltb (pos m) (pos n) = ltb m n
int_ltb (pos m) (negsuc n) = false
int_ltb (negsuc m) (pos n) = true
int_ltb (negsuc m) (negsuc n) = ltb n m

-- No number is below itself.
pub int_ltb_irrefl : (z : ℤ) → int_ltb z z ≡ false
int_ltb_irrefl (pos n) = ground arith
int_ltb_irrefl (negsuc n) = ground arith
