-- ===== src/Base/Bits.antt =====
-- Masks and unions of binary digits at variables, from the digit recursion that they stand for.
use Prim.Native.Nat.{
  ℕ, zero, suc, ◌+◌, ◌*◌, ◌/◌, ◌%◌, ◌^◌, ◌≤◌, ◌<◌, min, max, bit_and, bit_or, digits,
  bit_and-bitwise, bit_or-bitwise,
}
use mathlib.Core.Path.{◌≡◌, refl}
use native.Mathlib.Nat.{pow-suc}
use native.Mathlib.Omega.{arith}

-- A count of digits that is large enough does not matter.
digits_count :
    (z : ℕ → ℕ) (f : ℕ → ℕ → ℕ) (n m a b : ℕ) → a ≤ n → a ≤ m → digits z f n a b ≡ digits z f m a b
digits_count z f zero zero zero b h k = refl
digits_count z f zero (suc m) zero b h k = refl
digits_count z f (suc n) zero zero b h k = refl
digits_count z f (suc n) (suc m) zero b h k = refl
digits_count z f zero m (suc a) b h k = absurd (omega arith)
digits_count z f (suc n) zero (suc a) b h k = absurd (omega arith)
digits_count z f (suc n) (suc m) (suc a) b h k =
    omega (arith, digits_count z f n m (suc a / 2) (b / 2) (omega arith) (omega arith))

digits_step :
    (z : ℕ → ℕ) (f : ℕ → ℕ → ℕ) (a b : ℕ)
    → digits z f (suc a) (suc a) b
      ≡ digits z f (suc a / 2) (suc a / 2) (b / 2) * 2 + f (suc a % 2) (b % 2)
digits_step z f a b =
    omega (arith, digits_count z f a (suc a / 2) (suc a / 2) (b / 2) (omega arith) (omega arith))

zero-bit_and : (b : ℕ) → bit_and 0 b ≡ 0
zero-bit_and b = bit_and-bitwise 0 b

bit_and_step : (a b : ℕ) → bit_and a b ≡ min (a % 2) (b % 2) + 2 * bit_and (a / 2) (b / 2)
bit_and_step zero b = omega (arith, zero-bit_and b, zero-bit_and (b / 2))
bit_and_step (suc a) b = omega (
  arith,
  bit_and-bitwise (suc a) b,
  digits_step (λ b. zero) min a b,
  bit_and-bitwise (suc a / 2) (b / 2),
)

pub zero-bit_or : (b : ℕ) → bit_or 0 b ≡ b
zero-bit_or b = bit_or-bitwise 0 b

bit_or_step : (a b : ℕ) → bit_or a b ≡ max (a % 2) (b % 2) + 2 * bit_or (a / 2) (b / 2)
bit_or_step zero b = omega (arith, zero-bit_or b, zero-bit_or (b / 2))
bit_or_step (suc a) b = omega (
  arith,
  bit_or-bitwise (suc a) b,
  digits_step (λ b. b) max a b,
  bit_or-bitwise (suc a / 2) (b / 2),
)

bit_and_nothing : (n a : ℕ) → a ≤ n → bit_and a 0 ≡ 0
bit_and_nothing n zero h = refl
bit_and_nothing zero (suc a) h = absurd (omega arith)
bit_and_nothing (suc n) (suc a) h =
    omega (arith, bit_and_step (suc a) 0, bit_and_nothing n (suc a / 2) (omega arith))

low_one : (a : ℕ) → bit_and a 1 ≡ a % 2
low_one a = omega (arith, bit_and_step a 1, bit_and_nothing (a / 2) (a / 2) (omega arith))

low_two : (a : ℕ) → bit_and a 3 ≡ a % 4
low_two a = omega (arith, bit_and_step a 3, low_one (a / 2))

low_three : (a : ℕ) → bit_and a 7 ≡ a % 8
low_three a = omega (arith, bit_and_step a 7, low_two (a / 2))

low_four : (a : ℕ) → bit_and a 15 ≡ a % 16
low_four a = omega (arith, bit_and_step a 15, low_three (a / 2))

low_five : (a : ℕ) → bit_and a 31 ≡ a % 32
low_five a = omega (arith, bit_and_step a 31, low_four (a / 2))

low_six : (a : ℕ) → bit_and a 63 ≡ a % 64
low_six a = omega (arith, bit_and_step a 63, low_five (a / 2))

-- `x & 0x7F`
pub bit_and-low_seven : (a : ℕ) → bit_and a 0x7f ≡ a % 128
bit_and-low_seven a = omega (arith, bit_and_step a 127, low_six (a / 2))

bit_and-even : (a m : ℕ) → bit_and a (m * 2) ≡ bit_and (a / 2) m * 2
bit_and-even a m = omega (arith, rw half at (bit_and_step a (m * 2)))
  where
    half : m * 2 / 2 ≡ m
    half = omega arith

high_one : (a : ℕ) → bit_and a 2 ≡ a / 2 % 2 * 2
high_one a = omega (arith, bit_and-even a 1, low_one (a / 2))

high_two : (a : ℕ) → bit_and a 4 ≡ a / 4 % 2 * 4
high_two a = omega (arith, bit_and-even a 2, high_one (a / 2))

high_three : (a : ℕ) → bit_and a 8 ≡ a / 8 % 2 * 8
high_three a = omega (arith, bit_and-even a 4, high_two (a / 2))

high_four : (a : ℕ) → bit_and a 16 ≡ a / 16 % 2 * 16
high_four a = omega (arith, bit_and-even a 8, high_three (a / 2))

high_five : (a : ℕ) → bit_and a 32 ≡ a / 32 % 2 * 32
high_five a = omega (arith, bit_and-even a 16, high_four (a / 2))

high_six : (a : ℕ) → bit_and a 64 ≡ a / 64 % 2 * 64
high_six a = omega (arith, bit_and-even a 32, high_five (a / 2))

high_seven : (a : ℕ) → bit_and a 128 ≡ a / 128 % 2 * 128
high_seven a = omega (arith, bit_and-even a 64, high_six (a / 2))

-- `x & 0x80`
pub bit_and-top_bit : (a : ℕ) → a < 256 → bit_and a 0x80 ≡ a / 128 * 128
bit_and-top_bit a h = omega (arith, high_seven a)

two_pow : (s : ℕ) → 2 ^ suc s ≡ 2 ^ s * 2
two_pow s = pow-suc 2 s

-- A number below 2 ^ s and a multiple of 2 ^ s have no digit in common.
pub bit_or_disjoint : (s a g : ℕ) → a < 2 ^ s → bit_or a (g * 2 ^ s) ≡ a + g * 2 ^ s
bit_or_disjoint zero zero g h = omega (arith, zero-bit_or (g * 2 ^ 0))
bit_or_disjoint zero (suc a) g h = absurd (omega arith)
bit_or_disjoint (suc s) a g h = rw two_pow (
    omega (
      arith,
      two_pow s,
      rw halved at (bit_or_step a (g * (2 ^ s * 2))),
      bit_or_disjoint s (a / 2) g (omega (arith, two_pow s)),
    ))
  where
    halved : g * (2 ^ s * 2) / 2 ≡ g * 2 ^ s
    halved = omega arith

-- `x | 0x80`
pub bit_or-top_bit : (a : ℕ) → a < 128 → bit_or a 0x80 ≡ a + 128
bit_or-top_bit a h = bit_or_disjoint 7 a 1 h

pub bit_or-lt : (n a b : ℕ) → a < 2 ^ n → b < 2 ^ n → bit_or a b < 2 ^ n
bit_or-lt zero a b h k = rw (zero_below a h) (rw zero-bit_or k)
  where
    zero_below : (c : ℕ) → c < 2 ^ 0 → c ≡ 0
    zero_below c p = omega arith
bit_or-lt (suc n) a b h k = omega (
  arith,
  two_pow n,
  bit_or_step a b,
  bit_or-lt n (a / 2) (b / 2) (omega (arith, two_pow n)) (omega (arith, two_pow n)),
)
