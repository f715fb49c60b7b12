-- ===== src/Common/Xor.antt =====
-- Laws of the native exclusive or at every width, from its recursion on binary digits.
use Prim.Native.Nat.{
  ℕ, zero, suc, ◌+◌, ◌*◌, ◌/◌, ◌%◌, ◌^◌, ◌≤◌, ◌<◌, bit_xor, digits, differ, bit_xor-bitwise,
}
use mathlib.Core.Path.{◌≡◌, refl, sym, ap, ap₂, ◌∙◌}
use native.Mathlib.Nat.{pow-suc}
use native.Mathlib.Omega.{arith}

-- The recursion that the operation stands for, with `n` digits at most.
abbrev xor_digits : ℕ → ℕ → ℕ → ℕ
xor_digits n a b = digits (λ y. y) differ n a b

xor_digits_zero : (n m b : ℕ) → xor_digits n 0 b ≡ xor_digits m 0 b
xor_digits_zero zero zero b = refl
xor_digits_zero zero (suc m) b = refl
xor_digits_zero (suc n) zero b = refl
xor_digits_zero (suc n) (suc m) b = refl

-- More digits than `a` has make no difference.
xor_digits_more : (n m a b : ℕ) → a ≤ n → n ≤ m → xor_digits m a b ≡ xor_digits n a b
xor_digits_more n m zero b enough more = xor_digits_zero m n b
xor_digits_more zero m (suc a) b enough more = absurd (omega arith)
xor_digits_more (suc n) zero (suc a) b enough more = absurd (omega arith)
xor_digits_more (suc n) (suc m) (suc a) b enough more =
    ap (λ t. t * 2 + differ (suc a % 2) (b % 2))
      (xor_digits_more n m (suc a / 2) (b / 2) (omega arith) (omega arith))

differ-eq-mod : (x y : ℕ) → x < 2 → y < 2 → differ x y ≡ (x + y) % 2
differ-eq-mod zero zero hx hy = refl
differ-eq-mod zero (suc zero) hx hy = refl
differ-eq-mod zero (suc (suc y)) hx hy = absurd (omega arith)
differ-eq-mod (suc zero) zero hx hy = refl
differ-eq-mod (suc zero) (suc zero) hx hy = refl
differ-eq-mod (suc zero) (suc (suc y)) hx hy = absurd (omega arith)
differ-eq-mod (suc (suc x)) y hx hy = absurd (omega arith)

-- The lowest digit of an exclusive or, with the rest above it.
pub bit_xor_low : (a b : ℕ) → bit_xor a b ≡ bit_xor (a / 2) (b / 2) * 2 + (a % 2 + b % 2) % 2
bit_xor_low zero b = omega (arith, bit_xor-bitwise 0 b, bit_xor-bitwise 0 (b / 2))
bit_xor_low (suc a) b =
    bit_xor-bitwise (suc a) b
    ∙ ap₂ (λ t u. t * 2 + u)
        (xor_digits_more (suc a / 2) a (suc a / 2) (b / 2) (omega arith) (omega arith)
          ∙ sym (bit_xor-bitwise (suc a / 2) (b / 2)))
        (differ-eq-mod (suc a % 2) (b % 2) (omega arith) (omega arith))

bit_xor_cancel_fuel : (n a b : ℕ) → a ≤ n → b ≤ n → bit_xor (bit_xor a b) b ≡ a
bit_xor_cancel_fuel zero zero zero p q = refl
bit_xor_cancel_fuel zero (suc a) b p q = absurd (omega arith)
bit_xor_cancel_fuel zero zero (suc b) p q = absurd (omega arith)
bit_xor_cancel_fuel (suc n) a b p q = ground (
  arith,
  bit_xor_low a b,
  bit_xor_low (bit_xor a b) b,
  bit_xor_cancel_fuel n (a / 2) (b / 2) (omega arith) (omega arith),
)

pub bit_xor_cancel : (a b : ℕ) → bit_xor (bit_xor a b) b ≡ a
bit_xor_cancel a b = bit_xor_cancel_fuel (a + b) a b (omega arith) (omega arith)

pub bit_xor-lt : (k a b : ℕ) → a < 2 ^ k → b < 2 ^ k → bit_xor a b < 2 ^ k
bit_xor-lt zero zero zero p q = omega arith
bit_xor-lt zero (suc a) b p q = absurd (omega arith)
bit_xor-lt zero zero (suc b) p q = absurd (omega arith)
bit_xor-lt (suc k) a b p q = omega (
  arith,
  pow-suc 2 k,
  bit_xor_low a b,
  bit_xor-lt k (a / 2) (b / 2) (omega (arith, pow-suc 2 k)) (omega (arith, pow-suc 2 k)),
)
