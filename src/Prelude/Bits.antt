-- ===== src/Prelude/Bits.antt =====
-- Exclusive or at variables, from the digit recursion that the native operation stands for.
use Prim.Native.Nat.{
  ℕ, zero, suc, ◌+◌, ◌*◌, ◌/◌, ◌%◌, ◌^◌, ◌≤◌, ◌<◌, bit_xor, digits, differ, bit_xor-bitwise,
}
use mathlib.Core.Path.{◌≡◌, refl, ap}
use native.Mathlib.Nat.{pow-suc}
use native.Mathlib.Omega.{arith}

abbrev xor_digits : ℕ → ℕ → ℕ → ℕ
xor_digits = digits (λ y. y) differ

-- More digits to go than the first number has change nothing.
xor_digits_fuel : (n m a b : ℕ) → a ≤ n → a ≤ m → xor_digits n a b ≡ xor_digits m a b
xor_digits_fuel zero zero a b p q = refl
xor_digits_fuel zero (suc m) zero b p q = refl
xor_digits_fuel zero (suc m) (suc a) b p q = elim p [ ]
xor_digits_fuel (suc n) zero zero b p q = refl
xor_digits_fuel (suc n) zero (suc a) b p q = elim q [ ]
xor_digits_fuel (suc n) (suc m) zero b p q = refl
xor_digits_fuel (suc n) (suc m) (suc a) b p q =
    let shorter = xor_digits_fuel n m (suc a / 2) (b / 2) (omega arith) (omega arith) in
    ap (λ (t : ℕ). t * 2 + differ (suc a % 2) (b % 2)) shorter

zero-bit_xor : (b : ℕ) → bit_xor 0 b ≡ b
zero-bit_xor b = bit_xor-bitwise 0 b

pub bit_xor_step : (a b : ℕ) → bit_xor a b ≡ bit_xor (a / 2) (b / 2) * 2 + differ (a % 2) (b % 2)
bit_xor_step zero b = omega (arith, zero-bit_xor b, zero-bit_xor (b / 2))
bit_xor_step (suc a) b = omega (
  arith,
  bit_xor-bitwise (suc a) b,
  bit_xor-bitwise (suc a / 2) (b / 2),
  xor_digits_fuel a (suc a / 2) (suc a / 2) (b / 2) (omega arith) (omega arith),
)

-- The table of one digit.
differ_bits : (x y : ℕ) → x < 2 → y < 2 → (differ (differ x y) y ≡ x) × (differ x y < 2)
differ_bits zero zero p q = omega arith
differ_bits zero (suc zero) p q = omega arith
differ_bits (suc zero) zero p q = omega arith
differ_bits (suc zero) (suc zero) p q = omega arith
differ_bits (suc (suc x)) y p q = absurd (omega arith)
differ_bits x (suc (suc y)) p q = absurd (omega arith)

-- A number of `k` bits stays one.
pub bit_xor-lt : (k a b : ℕ) → a < 2 ^ k → b < 2 ^ k → bit_xor a b < 2 ^ k
bit_xor-lt zero zero zero p q = omega (arith, zero-bit_xor 0)
bit_xor-lt zero zero (suc b) p q = absurd (omega arith)
bit_xor-lt zero (suc a) b p q = absurd (omega arith)
bit_xor-lt (suc k) a b p q = omega (
  arith,
  pow-suc 2 k,
  bit_xor_step a b,
  differ_bits (a % 2) (b % 2) (omega arith) (omega arith),
  bit_xor-lt k (a / 2) (b / 2) (omega (arith, pow-suc 2 k)) (omega (arith, pow-suc 2 k)),
)

-- The same mask twice gives the number back.
pub bit_xor-bit_xor : (k a b : ℕ) → a < 2 ^ k → b < 2 ^ k → bit_xor (bit_xor a b) b ≡ a
bit_xor-bit_xor zero zero zero p q = refl
bit_xor-bit_xor zero zero (suc b) p q = absurd (omega arith)
bit_xor-bit_xor zero (suc a) b p q = absurd (omega arith)
bit_xor-bit_xor (suc k) a b p q = omega (
  arith,
  bit_xor_step (bit_xor a b) b,
  step_half,
  step_digit,
  bit_xor-bit_xor k (a / 2) (b / 2) (omega (arith, pow-suc 2 k)) (omega (arith, pow-suc 2 k)),
  table.0,
)
  where
    table : (differ (differ (a % 2) (b % 2)) (b % 2) ≡ a % 2) × (differ (a % 2) (b % 2) < 2)
    table = differ_bits (a % 2) (b % 2) (omega arith) (omega arith)

    half : bit_xor a b / 2 ≡ bit_xor (a / 2) (b / 2)
    half = omega (arith, bit_xor_step a b, table.1)

    digit : bit_xor a b % 2 ≡ differ (a % 2) (b % 2)
    digit = omega (arith, bit_xor_step a b, table.1)

    step_half : bit_xor (bit_xor a b / 2) (b / 2) ≡ bit_xor (bit_xor (a / 2) (b / 2)) (b / 2)
    step_half = ap (λ (t : ℕ). bit_xor t (b / 2)) half

    step_digit : differ (bit_xor a b % 2) (b % 2) ≡ differ (differ (a % 2) (b % 2)) (b % 2)
    step_digit = ap (λ (t : ℕ). differ t (b % 2)) digit
