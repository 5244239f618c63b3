-- ===== src/Prelude/Int.antt =====
-- Go's signed `int` where the source tests its sign: exit codes, limits and thresholds. The width
-- is left unbounded.
use Prim.Native.Nat.{ℕ, zero, suc}
use mathlib.Core.Bool.{Bool, true, false}
use gosupervisor.Prelude.Tests.{ltb, ◌==◌}

-- `negsuc n` is -(n + 1).
pub data ℤ : Type 0 where
  pos : ℕ → ℤ
  negsuc : ℕ → ℤ

-- `0 < z`
abbrev pub is_positive : ℤ → Bool
is_positive (pos zero) = false
is_positive (pos (suc n)) = true
is_positive (negsuc n) = false

-- `z < 0`
abbrev pub is_negative : ℤ → Bool
is_negative (pos n) = false
is_negative (negsuc n) = true

-- `n > z`
abbrev pub exceeds : ℕ → ℤ → Bool
exceeds n (pos m) = ltb m n
exceeds n (negsuc m) = true

-- `n >= z`
abbrev pub reaches : ℕ → ℤ → Bool
reaches n (pos m) = ltb m (suc n)
reaches n (negsuc m) = true

abbrev pub int_eq : ℤ → ℤ → Bool
int_eq (pos a) (pos b) = a == b
int_eq (negsuc a) (negsuc b) = a == b
int_eq (pos a) (negsuc b) = false
int_eq (negsuc a) (pos b) = false

-- The value of an `int` that is known to be positive.
abbrev pub nat_of : ℤ → ℕ
nat_of (pos n) = n
nat_of (negsuc n) = 0

-- `a < b`
abbrev pub int_lt : ℤ → ℤ → Bool
int_lt (pos a) (pos b) = ltb a b
int_lt (pos a) (negsuc b) = false
int_lt (negsuc a) (pos b) = true
int_lt (negsuc a) (negsuc b) = ltb b a
