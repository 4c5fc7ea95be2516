-- ===== src/Base/Bits.antt =====
-- Masks, shifts and exclusive or at variables, in plain arithmetic.
use Prim.Native.Nat.{ℕ, zero, suc, ◌+◌, ◌-◌, ◌*◌, ◌/◌, ◌%◌, ◌^◌, ◌≤◌, ◌<◌}
use Prim.Native.Nat.{min, max, bit_and, bit_or, bit_or-bitwise}
use mathlib.Core.Path.{◌≡◌, refl, ap, ap₂, ◌∙◌, sym}
use native.Mathlib.Nat.{pow-suc, one-le-pow, mul_comm, div-add-mod, div-div-eq-div-mul}
use native.Mathlib.Omega.{arith}
use rust_mumble_protocol.Base.Digits.{bit_or_halves, bit_and_halves}

-- A number is at most its own fuel: induction on a bound serves for halving.
or_zero_below : (k a : ℕ) → a ≤ k → bit_or a 0 ≡ a
or_zero_below k zero h = refl
or_zero_below zero (suc a) h = elim h [ ]
or_zero_below (suc k) (suc a) h =
    omega (arith, bit_or_halves (suc a) 0, or_zero_below k (suc a / 2) (omega arith))

and_zero_below : (k a : ℕ) → a ≤ k → bit_and a 0 ≡ 0
and_zero_below k zero h = refl
and_zero_below zero (suc a) h = elim h [ ]
and_zero_below (suc k) (suc a) h =
    omega (arith, bit_and_halves (suc a) 0, and_zero_below k (suc a / 2) (omega arith))

pub bit_or-zero : (a : ℕ) → bit_or a 0 ≡ a
bit_or-zero a = or_zero_below a a (omega arith)

pub bit_and-zero : (a : ℕ) → bit_and a 0 ≡ 0
bit_and-zero a = and_zero_below a a (omega arith)

shift_suc : (q k : ℕ) → q * 2 ^ suc k ≡ 2 * (q * 2 ^ k)
shift_suc q k = omega (arith, ap (λ (t : ℕ). q * t) (pow-suc 2 k))

-- `(q << k) | r` is a sum when `r` has at most `k` bits.
pub bit_or-shift : (k q r : ℕ) → r < 2 ^ k → bit_or (q * 2 ^ k) r ≡ q * 2 ^ k + r
bit_or-shift zero q r h = ground (arith, bit_or-zero q)
bit_or-shift (suc k) q r h =
    ground (
      arith,
      bit_or_halves (q * 2 ^ suc k) r,
      shift_suc q k,
      bit_or-shift k q (r / 2) (omega arith),
    )

halve_shift : (a k : ℕ) → a / 2 ^ suc k ≡ a / 2 / 2 ^ k
halve_shift a k =
    ap (◌/◌ a) (pow-suc 2 k ∙ mul_comm (2 ^ k) 2) ∙ sym (div-div-eq-div-mul a 2 (2 ^ k))

halve_mod : (a k : ℕ) → a % 2 ^ suc k ≡ a / 2 % 2 ^ k * 2 + a % 2
halve_mod a k = omega (
  arith,
  div-add-mod a (2 ^ suc k),
  div-add-mod (a / 2) (2 ^ k),
  shift_suc (a / 2 ^ suc k) k,
  ap (λ (t : ℕ). t * 2 ^ k) (halve_shift a k),
)

-- A mask with `k` low zeros cuts those bits off, and keeps what it keeps of the others.
pub bit_and-shift : (k a m : ℕ) → bit_and a (m * 2 ^ k) ≡ bit_and (a / 2 ^ k) m * 2 ^ k
bit_and-shift zero a m = ground arith
bit_and-shift (suc k) a m = omega (
  arith,
  bit_and_halves a (m * 2 ^ suc k),
  ap (bit_and (a / 2)) halved,
  shift_suc m k,
  bit_and-shift k (a / 2) m,
  shift_suc (bit_and (a / 2 ^ suc k) m) k,
  ap (λ t. bit_and t m * 2 ^ k) (halve_shift a k),
)
  where
    halved : m * 2 ^ suc k / 2 ≡ m * 2 ^ k
    halved = omega (arith, shift_suc m k)

-- The mask of the `k` low bits.
pub bit_and-low : (k a : ℕ) → bit_and a (2 ^ k - 1) ≡ a % 2 ^ k
bit_and-low zero a = ground (arith, bit_and-zero a)
bit_and-low (suc k) a = omega (
  arith,
  bit_and_halves a (2 ^ suc k - 1),
  ap (bit_and (a / 2)) halved,
  pow-suc 2 k,
  one-le-pow k 2,
  bit_and-low k (a / 2),
  halve_mod a k,
)
  where
    halved : (2 ^ suc k - 1) / 2 ≡ 2 ^ k - 1
    halved = omega (arith, pow-suc 2 k)

lowest : (x t k : ℕ) → (x * 2 ^ suc k + t) % 2 ≡ t % 2
lowest x t k = omega (arith, shift_suc x k)

halved : (x t k : ℕ) → (x * 2 ^ suc k + t) / 2 ≡ x * 2 ^ k + t / 2
halved x t k = omega (arith, shift_suc x k)

same : (x : ℕ) → x * 2 ^ 0 + 0 ≡ x
same x = omega arith

and_low : (a b : ℕ) → bit_and a b % 2 ≡ min (a % 2) (b % 2)
and_low a b = omega (arith, bit_and_halves a b)

and_high : (a b : ℕ) → bit_and a b / 2 ≡ bit_and (a / 2) (b / 2)
and_high a b = omega (arith, bit_and_halves a b)

-- The fields above bit `k` and those below it are masked separately.
pub bit_and_fields :
    (k a b r s : ℕ)
    → r < 2 ^ k
    → s < 2 ^ k
    → bit_and (a * 2 ^ k + r) (b * 2 ^ k + s) ≡ bit_and a b * 2 ^ k + bit_and r s
bit_and_fields zero a b r s hr hs =
    let r0 : r ≡ 0 = omega arith in
    let s0 : s ≡ 0 = omega arith in
    rw (r0, s0) (ap₂ bit_and (same a) (same b) ∙ sym (same (bit_and a b)))
bit_and_fields (suc k) a b r s hr hs =
    let ih =
      bit_and_fields k a b (r / 2) (s / 2) (omega (arith, pow-suc 2 k))
        (omega (arith, pow-suc 2 k)) in
    omega (
      arith,
      and_low (a * 2 ^ suc k + r) (b * 2 ^ suc k + s),
      and_low r s,
      ap₂ min (lowest a r k) (lowest b s k),
      and_high (a * 2 ^ suc k + r) (b * 2 ^ suc k + s),
      and_high r s,
      ap₂ bit_and (halved a r k) (halved b s k),
      ih,
      shift_suc (bit_and a b) k,
    )

or_low : (a b : ℕ) → bit_or a b % 2 ≡ max (a % 2) (b % 2)
or_low a b = omega (arith, bit_or_halves a b)

or_high : (a b : ℕ) → bit_or a b / 2 ≡ bit_or (a / 2) (b / 2)
or_high a b = omega (arith, bit_or_halves a b)

-- The same for the union of bits.
pub bit_or_fields :
    (k a b r s : ℕ)
    → r < 2 ^ k
    → s < 2 ^ k
    → bit_or (a * 2 ^ k + r) (b * 2 ^ k + s) ≡ bit_or a b * 2 ^ k + bit_or r s
bit_or_fields zero a b r s hr hs =
    let r0 : r ≡ 0 = omega arith in
    let s0 : s ≡ 0 = omega arith in
    rw (r0, s0) (ap₂ bit_or (same a) (same b) ∙ sym (same (bit_or a b)))
bit_or_fields (suc k) a b r s hr hs =
    let ih =
      bit_or_fields k a b (r / 2) (s / 2) (omega (arith, pow-suc 2 k))
        (omega (arith, pow-suc 2 k)) in
    omega (
      arith,
      or_low (a * 2 ^ suc k + r) (b * 2 ^ suc k + s),
      or_low r s,
      ap₂ max (lowest a r k) (lowest b s k),
      or_high (a * 2 ^ suc k + r) (b * 2 ^ suc k + s),
      or_high r s,
      ap₂ bit_or (halved a r k) (halved b s k),
      ih,
      shift_suc (bit_or a b) k,
    )

pub zero-bit_or : (b : ℕ) → bit_or 0 b ≡ b
zero-bit_or b = bit_or-bitwise 0 b
