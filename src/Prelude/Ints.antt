-- ===== src/Prelude/Ints.antt =====
-- A C++ `int` as an integer: `negsuc n` is -(n + 1).
use Prim.Native.Nat.{ℕ, zero, suc}
use mathlib.Core.Bool.{Bool, true, false}

pub data ℤ : Type 0 where
  pos : ℕ → ℤ
  negsuc : ℕ → ℤ

-- `if (i)`
abbrev pub is_nonzero : ℤ → Bool
is_nonzero (pos zero) = false
is_nonzero (pos (suc n)) = true
is_nonzero (negsuc n) = true

-- `if (i > 0) i--`
abbrev pub count_down : ℤ → ℤ
count_down (pos zero) = pos zero
count_down (pos (suc n)) = pos n
count_down (negsuc n) = negsuc n
