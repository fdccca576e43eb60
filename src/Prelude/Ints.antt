-- ===== src/Prelude/Ints.antt =====
-- Go's `int`, over the native numbers.
use Prim.Native.Nat.{ℕ, zero, suc, ◌<◌}
use mathlib.Core.Path.{◌≡◌}
use mathlib.Core.Bool.{Bool, true, false}
use native.Mathlib.Omega.{arith}

-- `negsuc n` is -(n + 1).
pub data ℤ : Type 0 where
  pos : ℕ → ℤ
  negsuc : ℕ → ℤ

abbrev pub neg : ℕ → ℤ
neg zero = pos 0
neg (suc n) = negsuc n

-- i > 0
abbrev pub is_positive : ℤ → Bool
is_positive (pos zero) = false
is_positive (pos (suc n)) = true
is_positive (negsuc n) = false

-- The integer, and 0 for the negative ones.
abbrev pub pos_part : ℤ → ℕ
pos_part (pos n) = n
pos_part (negsuc n) = 0

pub positive-pos_part : (i : ℤ) → is_positive i ≡ true → 0 < pos_part i
positive-pos_part (pos zero) h = ground (arith, h)
positive-pos_part (pos (suc n)) h = omega arith
positive-pos_part (negsuc n) h = ground (arith, h)
