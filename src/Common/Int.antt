-- ===== src/Common/Int.antt =====
-- Signed integers, and the conversions between C's `long` (64 bits) and `int` (32 bits).
use Prim.Native.Nat.{ℕ, ◌-◌, ◌%◌, ◌^◌}
use mathlib.Core.Bool.{Bool, true, false}
use mathlib.Core.Path.{◌≡◌}
use mathlib.Core.Logic.{◌↔◌}
use native.Mathlib.Omega.{arith}
use ebbnc.Common.Tests.{ltb, leb, ◌==◌, if◌then◌else◌}

-- `negsuc n` is -(n + 1).
pub data ℤ : Type 0 where
  pos : ℕ → ℤ
  negsuc : ℕ → ℤ

-- -m.
abbrev pub neg : ℕ → ℤ
neg m = if ltb 0 m then negsuc (m - 1) else pos 0

abbrev pub is_negative : ℤ → Bool
is_negative (pos n) = false
is_negative (negsuc n) = true

abbrev pub is_positive : ℤ → Bool
is_positive (pos n) = ltb 0 n
is_positive (negsuc n) = false

-- The int that a pattern of 32 bits stands for.
abbrev pub signed32 : ℕ → ℤ
signed32 w = if ltb w (2 ^ 31) then pos w else negsuc (2 ^ 32 - w - 1)

-- `(int) value` of a long: its low 32 bits.
unfoldable pub int_of_long : ℤ → ℤ
int_of_long (pos n) = signed32 (n % 2 ^ 32)
int_of_long (negsuc n) = signed32 (2 ^ 32 - 1 - n % 2 ^ 32)

-- The long for a sign and a magnitude, held at the ends of the range.
abbrev pub long_of : Bool → ℕ → ℤ
long_of false m = if leb (2 ^ 63) m then pos (2 ^ 63 - 1) else pos m
long_of true m = if leb (2 ^ 63) m then negsuc (2 ^ 63 - 1) else neg m

abbrev pub same_int : ℤ → ℤ → Bool
same_int (pos m) (pos n) = m == n
same_int (negsuc m) (negsuc n) = m == n
same_int _ _ = false

pub same_int_iff : (a b : ℤ) → (same_int a b ≡ true) ↔ (a ≡ b)
same_int_iff (pos m) (pos n) = ground arith
same_int_iff (pos m) (negsuc n) = ground arith
same_int_iff (negsuc m) (pos n) = ground arith
same_int_iff (negsuc m) (negsuc n) = ground arith
