-- ===== src/Base/Digits.antt =====
-- The bit operations, one binary digit at a time.
use Prim.Native.Nat.{ℕ, zero, suc, ◌+◌, ◌*◌, ◌/◌, ◌%◌, ◌≤◌, min, max, bit_and, bit_or, bit_xor}
use Prim.Native.Nat.{digits, bitwise, differ, bit_and-bitwise, bit_or-bitwise, bit_xor-bitwise}
use mathlib.Core.Path.{◌≡◌, refl, ap}
use native.Mathlib.Omega.{arith}

-- The native operations recur with fuel. Any fuel that reaches the first number does.
module _ (tail : ℕ → ℕ) (bit : ℕ → ℕ → ℕ) where
  digits_settle : (a b n m : ℕ) → a ≤ n → a ≤ m → digits tail bit n a b ≡ digits tail bit m a b
  digits_settle zero b zero zero hn hm = refl
  digits_settle zero b zero (suc m) hn hm = refl
  digits_settle zero b (suc n) zero hn hm = refl
  digits_settle zero b (suc n) (suc m) hn hm = refl
  digits_settle (suc a) b zero m hn hm = elim hn [ ]
  digits_settle (suc a) b (suc n) zero hn hm = elim hm [ ]
  digits_settle (suc a) b (suc n) (suc m) hn hm =
      ap (λ t. t * 2 + bit (suc a % 2) (b % 2))
        (digits_settle (suc a / 2) (b / 2) n m (omega arith) (omega arith))

  lowest_digit :
      (a b : ℕ)
      → bitwise tail bit (suc a) b
        ≡ bitwise tail bit (suc a / 2) (b / 2) * 2 + bit (suc a % 2) (b % 2)
  lowest_digit a b =
      omega (arith, digits_settle (suc a / 2) (b / 2) a (suc a / 2) (omega arith) (omega arith))

-- The lowest digit is the digits' own, and the rest is the operation on the halves.
pub bit_or_halves : (v w : ℕ) → bit_or v w ≡ max (v % 2) (w % 2) + 2 * bit_or (v / 2) (w / 2)
bit_or_halves zero w = simp bit_or-bitwise (omega arith)
bit_or_halves (suc v) w = omega (
  arith,
  bit_or-bitwise (suc v) w,
  bit_or-bitwise (suc v / 2) (w / 2),
  lowest_digit (λ y. y) max v w,
)

pub bit_and_halves : (v w : ℕ) → bit_and v w ≡ min (v % 2) (w % 2) + 2 * bit_and (v / 2) (w / 2)
bit_and_halves zero w = simp bit_and-bitwise (omega arith)
bit_and_halves (suc v) w = omega (
  arith,
  bit_and-bitwise (suc v) w,
  bit_and-bitwise (suc v / 2) (w / 2),
  lowest_digit (λ y. 0) min v w,
)

pub bit_xor_halves : (v w : ℕ) → bit_xor v w ≡ differ (v % 2) (w % 2) + 2 * bit_xor (v / 2) (w / 2)
bit_xor_halves zero w = simp bit_xor-bitwise (omega arith)
bit_xor_halves (suc v) w = omega (
  arith,
  bit_xor-bitwise (suc v) w,
  bit_xor-bitwise (suc v / 2) (w / 2),
  lowest_digit (λ y. y) differ v w,
)
