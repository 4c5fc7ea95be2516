-- ===== src/Base/Words.antt =====
-- Bytes, and machine words as big-endian and little-endian bytes.
use Prim.Native.Nat.{ℕ, zero, suc, ◌+◌, ◌-◌, ◌*◌, ◌/◌, ◌%◌, ◌^◌, ◌≤◌, ◌<◌}
use mathlib.Core.Path.{◌≡◌, refl, sym, ap, ap₂, ◌∙◌}
use mathlib.Core.List.{List, [], ◌∷◌}
use native.Mathlib.Nat.{pow-suc, one-le-pow, div-add-mod, div-div-eq-div-mul, mod-eq_of_lt}
use native.Mathlib.Nat.{add_comm, add-mul-div_right, mul-add-div_right, div-eq_of_lt}
use native.Mathlib.Omega.{arith}
use rust_mumble_protocol.Base.Lists.{length}

abbrev pub Bytes : Type 0
Bytes = List ℕ

abbrev pub IsBytes : List ℕ → Type 0
IsBytes [] = Unit
IsBytes (b ∷ bs) = (b < 256) × IsBytes bs

-- `as u8`, `as u32`, `as u64`.
abbrev pub u8 : ℕ → ℕ
u8 v = v % 2 ^ 8

abbrev pub u32 : ℕ → ℕ
u32 v = v % 2 ^ 32

abbrev pub u64 : ℕ → ℕ
u64 v = v % 2 ^ 64

abbrev pub IsU8 : ℕ → Type 0
IsU8 v = v < 2 ^ 8

abbrev pub IsU32 : ℕ → Type 0
IsU32 v = v < 2 ^ 32

abbrev pub IsU64 : ℕ → Type 0
IsU64 v = v < 2 ^ 64

-- `!v`, `v >> k` and `v << k` on a u64.
abbrev pub not64 : ℕ → ℕ
not64 v = 2 ^ 64 - 1 - v

infixl 75 ◌>>>◌ ◌<<<◌
abbrev pub ◌>>>◌ : ℕ → ℕ → ℕ
v >>> k = v / 2 ^ k

abbrev pub ◌<<<◌ : ℕ → ℕ → ℕ
v <<< k = v * 2 ^ k % 2 ^ 64

-- `to_be_bytes` of an unsigned integer of `n` bytes, and `from_be_bytes`.
abbrev pub to_be_bytes : ℕ → ℕ → List ℕ
to_be_bytes zero v = []
to_be_bytes (suc n) v = (v / 256 ^ n % 256) ∷ to_be_bytes n v

abbrev pub from_be_bytes : List ℕ → ℕ
from_be_bytes [] = 0
from_be_bytes (b ∷ bs) = b * 256 ^ length bs + from_be_bytes bs

abbrev pub to_le_bytes : ℕ → ℕ → List ℕ
to_le_bytes zero v = []
to_le_bytes (suc n) v = (v % 256) ∷ to_le_bytes n (v / 256)

abbrev pub from_le_bytes : List ℕ → ℕ
from_le_bytes [] = 0
from_le_bytes (b ∷ bs) = b + 256 * from_le_bytes bs

pub length-to_be_bytes : (n v : ℕ) → length (to_be_bytes n v) ≡ n
length-to_be_bytes zero v = refl
length-to_be_bytes (suc n) v = ap suc (length-to_be_bytes n v)

pub length-to_le_bytes : (n v : ℕ) → length (to_le_bytes n v) ≡ n
length-to_le_bytes zero v = refl
length-to_le_bytes (suc n) v = ap suc (length-to_le_bytes n (v / 256))

pub to_be_bytes-IsBytes : (n v : ℕ) → IsBytes (to_be_bytes n v)
to_be_bytes-IsBytes zero v = tt
to_be_bytes-IsBytes (suc n) v = (omega arith, to_be_bytes-IsBytes n v)

pub to_le_bytes-IsBytes : (n v : ℕ) → IsBytes (to_le_bytes n v)
to_le_bytes-IsBytes zero v = tt
to_le_bytes-IsBytes (suc n) v = (omega arith, to_le_bytes-IsBytes n (v / 256))

power_pos : (n : ℕ) → 0 < 256 ^ n
power_pos n = one-le-pow n 256 (omega arith)

pub from_be_bytes-lt : (bs : List ℕ) → IsBytes bs → from_be_bytes bs < 256 ^ length bs
from_be_bytes-lt [] h = omega arith
from_be_bytes-lt (b ∷ bs) (hb, hbs) =
    let below = from_be_bytes-lt bs hbs in
    let room : b * 256 ^ length bs ≤ 255 * 256 ^ length bs = grind arith in
    omega (arith, pow-suc 256 (length bs))

-- The digit above the radix `p`, and what is below it.
mod_split : (v p : ℕ) → v % (p * 256) ≡ v / p % 256 * p + v % p
mod_split v p = omega (
  arith,
  div-add-mod v (p * 256),
  ap (λ (t : ℕ). p * 256 * t) (div-div-eq-div-mul v p 256),
  div-add-mod v p,
  ap (λ (t : ℕ). p * t) (div-add-mod (v / p) 256),
)

-- A word of `n` bytes keeps the low bytes of a number.
pub from_be_bytes-to_be_bytes_mod : (n v : ℕ) → from_be_bytes (to_be_bytes n v) ≡ v % 256 ^ n
from_be_bytes-to_be_bytes_mod zero v = omega arith
from_be_bytes-to_be_bytes_mod (suc n) v =
    rw (length-to_be_bytes n v, from_be_bytes-to_be_bytes_mod n v)
      (sym (mod_split v (256 ^ n)) ∙ ap (λ (t : ℕ). v % t) (sym (pow-suc 256 n)))

pub from_be_bytes-to_be_bytes : (n v : ℕ) → v < 256 ^ n → from_be_bytes (to_be_bytes n v) ≡ v
from_be_bytes-to_be_bytes n v h = from_be_bytes-to_be_bytes_mod n v ∙ mod-eq_of_lt h

-- Whatever stands above the word is not written.
pub to_be_bytes-add : (n q v : ℕ) → to_be_bytes n (v + q * 256 ^ n) ≡ to_be_bytes n v
to_be_bytes-add zero q v = refl
to_be_bytes-add (suc n) q v =
    ap₂ ◌∷◌ digit (ap (to_be_bytes n) regrouped ∙ to_be_bytes-add n (q * 256) v)
  where
    regrouped : v + q * 256 ^ suc n ≡ v + q * 256 * 256 ^ n
    regrouped = omega (arith, ap (λ (t : ℕ). q * t) (pow-suc 256 n))

    digit : (v + q * 256 ^ suc n) / 256 ^ n % 256 ≡ v / 256 ^ n % 256
    digit =
        ap (λ (t : ℕ). t / 256 ^ n % 256) regrouped
        ∙ ap (λ (t : ℕ). t % 256) (add-mul-div_right v (q * 256) (power_pos n))
        ∙ omega arith

pub to_be_bytes-from_be_bytes :
    (bs : List ℕ) → IsBytes bs → to_be_bytes (length bs) (from_be_bytes bs) ≡ bs
to_be_bytes-from_be_bytes [] h = refl
to_be_bytes-from_be_bytes (b ∷ bs) (hb, hbs) =
    ap₂ ◌∷◌ digit (below ∙ to_be_bytes-from_be_bytes bs hbs)
  where
    digit : (b * 256 ^ length bs + from_be_bytes bs) / 256 ^ length bs % 256 ≡ b
    digit =
        ap (λ (t : ℕ). t % 256) (mul-add-div_right (power_pos (length bs)) b (from_be_bytes bs))
        ∙ omega (arith, div-eq_of_lt (from_be_bytes-lt bs hbs))

    below :
        to_be_bytes (length bs) (b * 256 ^ length bs + from_be_bytes bs)
        ≡ to_be_bytes (length bs) (from_be_bytes bs)
    below =
        ap (to_be_bytes (length bs)) (add_comm (b * 256 ^ length bs) (from_be_bytes bs))
        ∙ to_be_bytes-add (length bs) b (from_be_bytes bs)

pub from_le_bytes-lt : (bs : List ℕ) → IsBytes bs → from_le_bytes bs < 256 ^ length bs
from_le_bytes-lt [] h = omega arith
from_le_bytes-lt (b ∷ bs) (hb, hbs) =
    omega (arith, pow-suc 256 (length bs), from_le_bytes-lt bs hbs)

pub from_le_bytes-to_le_bytes : (n v : ℕ) → v < 256 ^ n → from_le_bytes (to_le_bytes n v) ≡ v
from_le_bytes-to_le_bytes zero v h = omega arith
from_le_bytes-to_le_bytes (suc n) v h =
    omega (arith, from_le_bytes-to_le_bytes n (v / 256) (omega (arith, pow-suc 256 n)))

pub to_le_bytes-from_le_bytes :
    (bs : List ℕ) → IsBytes bs → to_le_bytes (length bs) (from_le_bytes bs) ≡ bs
to_le_bytes-from_le_bytes [] h = refl
to_le_bytes-from_le_bytes (b ∷ bs) (hb, hbs) =
    ap₂ ◌∷◌ (omega arith)
      (ap (to_le_bytes (length bs)) (omega arith) ∙ to_le_bytes-from_le_bytes bs hbs)
