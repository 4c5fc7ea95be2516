-- ===== src/Base/Xor.antt =====
-- Exclusive or: it undoes itself, commutes, keeps a width, and works on fields separately.
use Prim.Native.Nat.{
  ℕ, zero, suc, ◌+◌, ◌*◌, ◌/◌, ◌%◌, ◌^◌, ◌≤◌, ◌<◌, bit_xor, differ, bit_xor-bitwise,
}
use mathlib.Core.Path.{◌≡◌, refl, sym, ap, ap₂, ◌∙◌}
use native.Mathlib.Nat.{pow-suc}
use native.Mathlib.Omega.{arith}
use rust_mumble_protocol.Base.Digits.{bit_xor_halves}

-- The digits.
differ-lt : (x y : ℕ) → x < 2 → y < 2 → differ x y < 2
differ-lt zero y hx hy = hy
differ-lt (suc zero) zero hx hy = omega arith
differ-lt (suc zero) (suc zero) hx hy = omega arith
differ-lt (suc zero) (suc (suc y)) hx hy = absurd (omega arith)
differ-lt (suc (suc x)) y hx hy = absurd (omega arith)

differ_comm : (x y : ℕ) → x < 2 → y < 2 → differ x y ≡ differ y x
differ_comm zero zero hx hy = refl
differ_comm zero (suc y) hx hy = refl
differ_comm (suc x) zero hx hy = refl
differ_comm (suc zero) (suc zero) hx hy = refl
differ_comm (suc zero) (suc (suc y)) hx hy = absurd (omega arith)
differ_comm (suc (suc x)) (suc y) hx hy = absurd (omega arith)

differ_cancel : (x y : ℕ) → x < 2 → y < 2 → differ (differ x y) y ≡ x
differ_cancel zero zero hx hy = refl
differ_cancel zero (suc zero) hx hy = refl
differ_cancel zero (suc (suc y)) hx hy = absurd (omega arith)
differ_cancel (suc zero) zero hx hy = refl
differ_cancel (suc zero) (suc zero) hx hy = refl
differ_cancel (suc zero) (suc (suc y)) hx hy = absurd (omega arith)
differ_cancel (suc (suc x)) y hx hy = absurd (omega arith)

-- The lowest digit of an exclusive or, and the digits above it.
xor_low : (a b : ℕ) → bit_xor a b % 2 ≡ differ (a % 2) (b % 2)
xor_low a b =
    omega (arith, bit_xor_halves a b, differ-lt (a % 2) (b % 2) (omega arith) (omega arith))

xor_high : (a b : ℕ) → bit_xor a b / 2 ≡ bit_xor (a / 2) (b / 2)
xor_high a b =
    omega (arith, bit_xor_halves a b, differ-lt (a % 2) (b % 2) (omega arith) (omega arith))

-- Two numbers with the same lowest digit and the same half are one.
by_digits : (a b : ℕ) → a % 2 ≡ b % 2 → a / 2 ≡ b / 2 → a ≡ b
by_digits a b h k = omega arith

xor_cancel_below : (k a b : ℕ) → a + b ≤ k → bit_xor (bit_xor a b) b ≡ a
xor_cancel_below zero zero zero h = refl
xor_cancel_below zero zero (suc b) h = absurd (omega arith)
xor_cancel_below zero (suc a) b h = absurd (omega arith)
xor_cancel_below (suc k) a b h =
    by_digits _ _
      (rw (xor_low, xor_low) (differ_cancel (a % 2) (b % 2) (omega arith) (omega arith)))
      (rw (xor_high, xor_high) (xor_cancel_below k (a / 2) (b / 2) (omega arith)))

xor_comm_below : (k a b : ℕ) → a + b ≤ k → bit_xor a b ≡ bit_xor b a
xor_comm_below zero zero zero h = refl
xor_comm_below zero zero (suc b) h = absurd (omega arith)
xor_comm_below zero (suc a) b h = absurd (omega arith)
xor_comm_below (suc k) a b h =
    by_digits _ _
      (rw (xor_low a b, xor_low b a) (differ_comm (a % 2) (b % 2) (omega arith) (omega arith)))
      (rw (xor_high a b, xor_high b a) (xor_comm_below k (a / 2) (b / 2) (omega arith)))

differ_assoc : (x y z : ℕ) → x < 2 → y < 2 → z < 2 → differ (differ x y) z ≡ differ x (differ y z)
differ_assoc zero zero zero hx hy hz = refl
differ_assoc zero zero (suc zero) hx hy hz = refl
differ_assoc zero (suc zero) zero hx hy hz = refl
differ_assoc zero (suc zero) (suc zero) hx hy hz = refl
differ_assoc (suc zero) zero zero hx hy hz = refl
differ_assoc (suc zero) zero (suc zero) hx hy hz = refl
differ_assoc (suc zero) (suc zero) zero hx hy hz = refl
differ_assoc (suc zero) (suc zero) (suc zero) hx hy hz = refl
differ_assoc (suc (suc x)) y z hx hy hz = absurd (omega arith)
differ_assoc zero (suc (suc y)) z hx hy hz = absurd (omega arith)
differ_assoc (suc zero) (suc (suc y)) z hx hy hz = absurd (omega arith)
differ_assoc zero zero (suc (suc z)) hx hy hz = absurd (omega arith)
differ_assoc zero (suc zero) (suc (suc z)) hx hy hz = absurd (omega arith)
differ_assoc (suc zero) zero (suc (suc z)) hx hy hz = absurd (omega arith)
differ_assoc (suc zero) (suc zero) (suc (suc z)) hx hy hz = absurd (omega arith)

xor_assoc_below : (k a b c : ℕ) → a + b + c ≤ k → bit_xor (bit_xor a b) c ≡ bit_xor a (bit_xor b c)
xor_assoc_below zero zero zero zero h = refl
xor_assoc_below zero zero zero (suc c) h = absurd (omega arith)
xor_assoc_below zero zero (suc b) c h = absurd (omega arith)
xor_assoc_below zero (suc a) b c h = absurd (omega arith)
xor_assoc_below (suc k) a b c h =
    by_digits _ _
      (rw (xor_low (bit_xor a b) c, xor_low a (bit_xor b c), xor_low a b, xor_low b c)
        (differ_assoc (a % 2) (b % 2) (c % 2) (omega arith) (omega arith) (omega arith)))
      (rw (xor_high (bit_xor a b) c, xor_high a (bit_xor b c), xor_high a b, xor_high b c)
        (xor_assoc_below k (a / 2) (b / 2) (c / 2) (omega arith)))

pub xor_assoc : (a b c : ℕ) → bit_xor (bit_xor a b) c ≡ bit_xor a (bit_xor b c)
xor_assoc a b c = xor_assoc_below (a + b + c) a b c (omega arith)

pub xor_cancel : (a b : ℕ) → bit_xor (bit_xor a b) b ≡ a
xor_cancel a b = xor_cancel_below (a + b) a b (omega arith)

pub xor_comm : (a b : ℕ) → bit_xor a b ≡ bit_xor b a
xor_comm a b = xor_comm_below (a + b) a b (omega arith)

pub xor_cancel_left : (a b : ℕ) → bit_xor a (bit_xor a b) ≡ b
xor_cancel_left a b = rw (xor_comm a (bit_xor a b)) (rw (xor_comm a b) (xor_cancel b a))

pub zero-xor : (a : ℕ) → bit_xor 0 a ≡ a
zero-xor a = bit_xor-bitwise 0 a

pub xor_self : (a : ℕ) → bit_xor a a ≡ 0
xor_self a = ap (λ t. bit_xor t a) (sym (zero-xor a)) ∙ xor_cancel 0 a

-- Exclusive or of `k`-bit words is a `k`-bit word.
pub xor-lt : (k a b : ℕ) → a < 2 ^ k → b < 2 ^ k → bit_xor a b < 2 ^ k
xor-lt zero zero zero h p = omega arith
xor-lt zero zero (suc b) h p = absurd (omega arith)
xor-lt zero (suc a) b h p = absurd (omega arith)
xor-lt (suc k) a b h p = omega (
  arith,
  xor_high a b,
  pow-suc 2 k,
  xor-lt k (a / 2) (b / 2) (omega (arith, pow-suc 2 k)) (omega (arith, pow-suc 2 k)),
)

-- The fields above bit `k` and those below it do not meet.
pub xor_fields :
    (k a b r s : ℕ)
    → r < 2 ^ k
    → s < 2 ^ k
    → bit_xor (a * 2 ^ k + r) (b * 2 ^ k + s) ≡ bit_xor a b * 2 ^ k + bit_xor r s
xor_fields zero a b r s hr hs =
    let r0 : r ≡ 0 = omega arith in
    let s0 : s ≡ 0 = omega arith in
    rw (r0, s0) (ap₂ bit_xor (same a) (same b) ∙ sym (same (bit_xor a b)))
  where
    same : (x : ℕ) → x * 2 ^ 0 + 0 ≡ x
    same x = omega arith
xor_fields (suc k) a b r s hr hs =
    let ih =
      xor_fields k a b (r / 2) (s / 2) (omega (arith, pow-suc 2 k)) (omega (arith, pow-suc 2 k)) in
    by_digits _ _
      (xor_low _ _
        ∙ ap₂ differ (lowest a r) (lowest b s)
        ∙ sym (xor_low r s)
        ∙ sym (lowest (bit_xor a b) (bit_xor r s)))
      (xor_high _ _
        ∙ ap₂ bit_xor (halved a r) (halved b s)
        ∙ ih
        ∙ ap (λ t. bit_xor a b * 2 ^ k + t) (sym (xor_high r s))
        ∙ sym (halved (bit_xor a b) (bit_xor r s)))
  where
    double : (x : ℕ) → x * 2 ^ suc k ≡ 2 * (x * 2 ^ k)
    double x = omega (arith, ap (λ (t : ℕ). x * t) (pow-suc 2 k))

    lowest : (x t : ℕ) → (x * 2 ^ suc k + t) % 2 ≡ t % 2
    lowest x t = omega (arith, double x)

    halved : (x t : ℕ) → (x * 2 ^ suc k + t) / 2 ≡ x * 2 ^ k + t / 2
    halved x t = omega (arith, double x)
