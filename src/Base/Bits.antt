-- ===== src/Base/Bits.antt =====
-- `&` and `|` as arithmetic, where the program uses them: on one byte, and for a field above a
-- smaller number at every width.
use Prim.Native.Nat.{
  ℕ, zero, suc, ◌+◌, ◌*◌, ◌/◌, ◌%◌, ◌^◌, ◌≤◌, ◌<◌, min, max, bit_and, bit_or, digits,
  bit_and-bitwise, bit_or-bitwise,
}
use mathlib.Core.Path.{◌≡◌, refl, ap}
use native.Mathlib.Nat.{pow-suc}
use native.Mathlib.Omega.{arith}

module _ (z : ℕ → ℕ) (f : ℕ → ℕ → ℕ) where
  -- The count of digits to go does not matter once it covers the number.
  digits_enough : (n m a b : ℕ) → a ≤ n → a ≤ m → digits z f n a b ≡ digits z f m a b
  digits_enough zero zero a b p q = refl
  digits_enough (suc n) zero (suc a) b p q = absurd (omega arith)
  digits_enough zero (suc m) (suc a) b p q = absurd (omega arith)
  digits_enough (suc n) zero zero b p q = refl
  digits_enough zero (suc m) zero b p q = refl
  digits_enough (suc n) (suc m) zero b p q = refl
  digits_enough (suc n) (suc m) (suc a) b p q =
      omega (arith, digits_enough n m (suc a / 2) (b / 2) (omega arith) (omega arith))

-- One step of an operation that works on digits.
module _ (z : ℕ → ℕ) (f op : ℕ → ℕ → ℕ) (by_digits : (a b : ℕ) → op a b ≡ digits z f a a b) where
  step_positive : (a b : ℕ) → op (suc a) b ≡ op (suc a / 2) (b / 2) * 2 + f (suc a % 2) (b % 2)
  step_positive a b = omega (
    arith,
    digits_enough z f (suc a / 2) a (suc a / 2) (b / 2) (omega arith) (omega arith),
    by_digits (suc a / 2) (b / 2),
    by_digits (suc a) b,
  )

bit_and_step : (a b : ℕ) → bit_and a b ≡ bit_and (a / 2) (b / 2) * 2 + min (a % 2) (b % 2)
bit_and_step (suc a) b = step_positive (λ y. 0) min bit_and bit_and-bitwise a b
bit_and_step zero b = omega (arith, bit_and-bitwise 0 (b / 2), bit_and-bitwise 0 b)

bit_or_step : (a b : ℕ) → bit_or a b ≡ bit_or (a / 2) (b / 2) * 2 + max (a % 2) (b % 2)
bit_or_step (suc a) b = step_positive (λ y. y) max bit_or bit_or-bitwise a b
bit_or_step zero b = omega (arith, bit_or-bitwise 0 (b / 2), bit_or-bitwise 0 b)

bit_or_even : (a m : ℕ) → bit_or a (m * 2) ≡ bit_or (a / 2) m * 2 + a % 2
bit_or_even a m = omega (
  arith,
  bit_or_step a (m * 2),
  ap (bit_or (a / 2)) (let half : m * 2 / 2 ≡ m = omega arith in half),
)

bit_or_one : (a : ℕ) → a < 2 → bit_or a 1 ≡ 1
bit_or_one zero h = refl
bit_or_one (suc zero) h = refl
bit_or_one (suc (suc a)) h = absurd (omega (arith, h))

-- `byte | 0x80`
pub set_top_bit : (b : ℕ) → b < 256 → bit_or b 0x80 ≡ b % 128 + 128
set_top_bit b h = omega (
  arith,
  bit_or_even b 64,
  bit_or_even (b / 2) 32,
  bit_or_even (b / 2 / 2) 16,
  bit_or_even (b / 2 / 2 / 2) 8,
  bit_or_even (b / 2 / 2 / 2 / 2) 4,
  bit_or_even (b / 2 / 2 / 2 / 2 / 2) 2,
  bit_or_even (b / 2 / 2 / 2 / 2 / 2 / 2) 1,
  bit_or_one (b / 2 / 2 / 2 / 2 / 2 / 2 / 2) (omega (arith, h)),
)

no_digits : (fuel a : ℕ) → a < suc fuel → bit_and a 0 ≡ 0
no_digits fuel zero small = refl
no_digits (suc fuel) (suc a) small =
    omega (arith, no_digits fuel (suc a / 2) (omega arith), bit_and_step (suc a) 0)
no_digits zero (suc a) small = absurd (omega (arith, small))

-- `tag & 0x07`, at every width.
pub bit_and_seven : (a : ℕ) → bit_and a 0x07 ≡ a % 8
bit_and_seven a = omega (
  arith,
  bit_and_step a 7,
  bit_and_step (a / 2) 3,
  bit_and_step (a / 2 / 2) 1,
  no_digits (a / 2 / 2 / 2) (a / 2 / 2 / 2) (omega arith),
)

bit_and-zero : (a : ℕ) → bit_and a 0 ≡ 0
bit_and-zero a = no_digits a a (omega arith)

-- `byte & 0x7f`
pub low_bits : (b : ℕ) → bit_and b 0x7f ≡ b % 128
low_bits b = omega (
  arith,
  bit_and_step b 127,
  bit_and_step (b / 2) 63,
  bit_and_step (b / 2 / 2) 31,
  bit_and_step (b / 2 / 2 / 2) 15,
  bit_and_seven (b / 2 / 2 / 2 / 2),
)

bit_and_even : (a m : ℕ) → bit_and a (m * 2) ≡ bit_and (a / 2) m * 2
bit_and_even a m = omega (
  arith,
  bit_and_step a (m * 2),
  ap (bit_and (a / 2)) (let half : m * 2 / 2 ≡ m = omega arith in half),
)

-- `byte & 0x80`
pub top_bit : (b : ℕ) → bit_and b 0x80 ≡ b / 128 % 2 * 128
top_bit b = omega (
  arith,
  bit_and_even b 64,
  bit_and_even (b / 2) 32,
  bit_and_even (b / 2 / 2) 16,
  bit_and_even (b / 2 / 2 / 2) 8,
  bit_and_even (b / 2 / 2 / 2 / 2) 4,
  bit_and_even (b / 2 / 2 / 2 / 2 / 2) 2,
  bit_and_even (b / 2 / 2 / 2 / 2 / 2 / 2) 1,
  bit_and_step (b / 2 / 2 / 2 / 2 / 2 / 2 / 2) 1,
  bit_and-zero (b / 2 / 2 / 2 / 2 / 2 / 2 / 2 / 2),
)

double_field : (q k : ℕ) → q * 2 ^ suc k ≡ 2 * (q * 2 ^ k)
double_field q k = omega (arith, ap (λ (t : ℕ). q * t) (pow-suc 2 k))

-- `value | (q << k)` where `value` lies below bit `k`.
pub bit_or_above : (k q v : ℕ) → v < 2 ^ k → bit_or v (q * 2 ^ k) ≡ v + q * 2 ^ k
bit_or_above zero q zero fits = omega (arith, bit_or-bitwise 0 (q * 2 ^ 0))
bit_or_above zero q (suc v) fits = absurd (omega arith)
bit_or_above (suc k) q v fits =
    ground (
      arith,
      bit_or_step v (q * 2 ^ suc k),
      double_field q k,
      pow-suc 2 k,
      bit_or_above k q (v / 2),
    )

-- `byte & 1`
pub bit_and_one : (a : ℕ) → bit_and a 1 ≡ a % 2
bit_and_one a = omega (arith, bit_and_step a 1, no_digits (a / 2) (a / 2) (omega arith))
