-- ===== src/Common/Bits.antt =====
-- `&` with a mask and `|` of disjoint fields, as arithmetic. The native operations come with their
-- definition by digits alone, so each law starts from one step of that recursion.
use Prim.Native.Nat.{
  ℕ, zero, suc, ◌+◌, ◌*◌, ◌/◌, ◌%◌, ◌^◌, ◌≤◌, ◌<◌, min, max, bit_and, bit_or, digits,
  bit_and-bitwise, bit_or-bitwise,
}
use mathlib.Core.Path.{◌≡◌, refl, ap}
use native.Mathlib.Nat.{pow-suc}
use native.Mathlib.Omega.{arith}

module _ (f : ℕ → ℕ) (g : ℕ → ℕ → ℕ) where
  -- The digit recursion gives one result on every fuel that covers the first number.
  digits_enough : (n m a b : ℕ) → a ≤ n → a ≤ m → digits f g n a b ≡ digits f g m a b
  digits_enough zero zero zero b p q = refl
  digits_enough zero (suc m) zero b p q = refl
  digits_enough (suc n) zero zero b p q = refl
  digits_enough (suc n) (suc m) zero b p q = refl
  digits_enough zero m (suc a) b p q = absurd (omega arith)
  digits_enough (suc n) zero (suc a) b p q = absurd (omega arith)
  digits_enough (suc n) (suc m) (suc a) b p q =
      omega (arith, digits_enough n m (suc a / 2) (b / 2) (omega arith) (omega arith))

bit_and_digit : (a b : ℕ) → bit_and a b ≡ bit_and (a / 2) (b / 2) * 2 + min (a % 2) (b % 2)
bit_and_digit zero b = omega (arith, bit_and-bitwise 0 b, bit_and-bitwise 0 (b / 2))
bit_and_digit (suc a) b = omega (
  arith,
  bit_and-bitwise (suc a) b,
  bit_and-bitwise (suc a / 2) (b / 2),
  digits_enough (λ x. zero) min a (suc a / 2) (suc a / 2) (b / 2) (omega arith) (omega arith),
)

bit_or_digit : (a b : ℕ) → bit_or a b ≡ bit_or (a / 2) (b / 2) * 2 + max (a % 2) (b % 2)
bit_or_digit zero b = omega (arith, bit_or-bitwise 0 b, bit_or-bitwise 0 (b / 2))
bit_or_digit (suc a) b = omega (
  arith,
  bit_or-bitwise (suc a) b,
  bit_or-bitwise (suc a / 2) (b / 2),
  digits_enough (λ x. x) max a (suc a / 2) (suc a / 2) (b / 2) (omega arith) (omega arith),
)

-- By fuel, since the digits of `a` are those of `a / 2` and one more.
bit_and-zero_below : (n a : ℕ) → a ≤ n → bit_and a 0 ≡ 0
bit_and-zero_below n zero h = refl
bit_and-zero_below zero (suc a) h = absurd (omega arith)
bit_and-zero_below (suc n) (suc a) h =
    omega (arith, bit_and_digit (suc a) 0, bit_and-zero_below n (suc a / 2) (omega arith))

bit_and-zero : (a : ℕ) → bit_and a 0 ≡ 0
bit_and-zero a = bit_and-zero_below a a (omega arith)

-- The low bits, one more at a time.
bit_and-one : (a : ℕ) → bit_and a 1 ≡ a % 2
bit_and-one a = omega (arith, bit_and_digit a 1, bit_and-zero (a / 2))

bit_and-two_bits : (a : ℕ) → bit_and a 3 ≡ a % 4
bit_and-two_bits a = omega (arith, bit_and_digit a 3, bit_and-one (a / 2))

bit_and-three_bits : (a : ℕ) → bit_and a 7 ≡ a % 8
bit_and-three_bits a = omega (arith, bit_and_digit a 7, bit_and-two_bits (a / 2))

bit_and-four_bits : (a : ℕ) → bit_and a 15 ≡ a % 16
bit_and-four_bits a = omega (arith, bit_and_digit a 15, bit_and-three_bits (a / 2))

bit_and-five_bits : (a : ℕ) → bit_and a 31 ≡ a % 32
bit_and-five_bits a = omega (arith, bit_and_digit a 31, bit_and-four_bits (a / 2))

bit_and-six_bits : (a : ℕ) → bit_and a 63 ≡ a % 64
bit_and-six_bits a = omega (arith, bit_and_digit a 63, bit_and-five_bits (a / 2))

-- `x & 0x7f` keeps the low seven bits.
pub bit_and-seven_bits : (a : ℕ) → bit_and a 0x7f ≡ a % 128
bit_and-seven_bits a = omega (arith, bit_and_digit a 127, bit_and-six_bits (a / 2))

bit_and-even : (a m : ℕ) → bit_and a (m * 2) ≡ bit_and (a / 2) m * 2
bit_and-even a m = ground (arith, bit_and_digit a (m * 2))

-- One bit alone, and the next one.
bit_and-bit_one : (a : ℕ) → bit_and a 2 ≡ a / 2 % 2 * 2
bit_and-bit_one a = omega (arith, bit_and-even a 1, bit_and-one (a / 2))

bit_and-bit_two : (a : ℕ) → bit_and a 4 ≡ a / 4 % 2 * 4
bit_and-bit_two a = omega (arith, bit_and-even a 2, bit_and-bit_one (a / 2))

bit_and-bit_three : (a : ℕ) → bit_and a 8 ≡ a / 8 % 2 * 8
bit_and-bit_three a = omega (arith, bit_and-even a 4, bit_and-bit_two (a / 2))

bit_and-bit_four : (a : ℕ) → bit_and a 16 ≡ a / 16 % 2 * 16
bit_and-bit_four a = omega (arith, bit_and-even a 8, bit_and-bit_three (a / 2))

bit_and-bit_five : (a : ℕ) → bit_and a 32 ≡ a / 32 % 2 * 32
bit_and-bit_five a = omega (arith, bit_and-even a 16, bit_and-bit_four (a / 2))

bit_and-bit_six : (a : ℕ) → bit_and a 64 ≡ a / 64 % 2 * 64
bit_and-bit_six a = omega (arith, bit_and-even a 32, bit_and-bit_five (a / 2))

-- `x & 0x80` is the eighth bit alone.
pub bit_and-top_bit : (a : ℕ) → bit_and a 0x80 ≡ a / 128 % 2 * 128
bit_and-top_bit a = omega (arith, bit_and-even a 64, bit_and-bit_six (a / 2))

shift_up : (q k : ℕ) → q * 2 ^ suc k ≡ q * 2 ^ k * 2
shift_up q k = omega (arith, ap (λ (t : ℕ). q * t) (pow-suc 2 k))

-- `x | (q << k)` is a sum when `x` fits in `k` bits.
pub bit_or_disjoint : (k a q : ℕ) → a < 2 ^ k → bit_or a (q * 2 ^ k) ≡ a + q * 2 ^ k
bit_or_disjoint zero zero q h = rw (bit_or-bitwise 0 (q * 2 ^ 0)) (omega arith)
bit_or_disjoint zero (suc a) q h = absurd (omega arith)
bit_or_disjoint (suc k) a q h =
    let ih = bit_or_disjoint k (a / 2) q (omega (arith, pow-suc 2 k)) in
    ground (arith, bit_or_digit a (q * 2 ^ suc k), shift_up q k, ih)
