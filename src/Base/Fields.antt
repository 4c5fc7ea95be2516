-- ===== src/Base/Fields.antt =====
-- Big-endian words cut into a high and a low part.
use Prim.Native.Nat.{ℕ, zero, suc, ◌+◌, ◌*◌, ◌/◌, ◌%◌, ◌^◌}
use mathlib.Core.Path.{◌≡◌, refl, sym, ap, ap₂, ◌∙◌}
use mathlib.Core.List.{List, [], ◌∷◌, ◌++◌}
use native.Mathlib.Nat.{pow-suc, div-div-eq-div-mul}
use native.Mathlib.Numerals.{towards_suc}
use native.Mathlib.Omega.{arith}
use rust_mumble_protocol.Base.Lists.{
  length, length-append, take, drop, replicate, take-append_length, drop-append_length,
}
use rust_mumble_protocol.Base.Words.{to_be_bytes, from_be_bytes, length-to_be_bytes}

-- A byte is eight bits.
pub bytes-bits : (n : ℕ) → 256 ^ n ≡ 2 ^ (8 * n)
bytes-bits zero = refl
bytes-bits (suc n) =
    pow-suc 256 n
    ∙ ap (λ (t : ℕ). t * 256) (bytes-bits n)
    ∙ sym (eight_more (8 * n))
    ∙ ap (λ (t : ℕ). 2 ^ t) (omega arith)
  where
    eight_more : (s : ℕ) → 2 ^ (s + 8) ≡ 2 ^ s * 256
    eight_more s = simp towards_suc (omega arith)

times_one : (t : ℕ) → t ≡ t * 256 ^ 0
times_one t = omega arith

pub power_split : (n i j : ℕ) → n ≡ i + j → 256 ^ n ≡ 256 ^ j * 256 ^ i
power_split n zero j e = ap (λ (t : ℕ). 256 ^ t) (omega (arith, e)) ∙ times_one (256 ^ j)
power_split zero (suc i) j e = absurd (omega arith)
power_split (suc n) (suc i) j e = omega (
  arith,
  pow-suc 256 n,
  ap (λ (t : ℕ). 256 ^ j * t) (pow-suc 256 i),
  power_split n i j (omega arith),
)

pub from_be_bytes-append :
    (xs ys : List ℕ)
    → from_be_bytes (xs ++ ys) ≡ from_be_bytes xs * 256 ^ length ys + from_be_bytes ys
from_be_bytes-append [] ys = omega arith
from_be_bytes-append (x ∷ xs) ys = omega (
  arith,
  ap (λ (t : ℕ). x * t) (power_split _ (length xs) (length ys) (length-append xs ys)),
  from_be_bytes-append xs ys,
)

pub to_be_bytes-append :
    (n i j v : ℕ) → n ≡ i + j → to_be_bytes n v ≡ to_be_bytes i (v / 256 ^ j) ++ to_be_bytes j v
to_be_bytes-append n zero j v e = ap (λ t. to_be_bytes t v) (omega arith)
to_be_bytes-append zero (suc i) j v e = absurd (omega arith)
to_be_bytes-append (suc n) (suc i) j v e = ap₂ ◌∷◌ digit (to_be_bytes-append n i j v (omega arith))
  where
    digit : v / 256 ^ n % 256 ≡ v / 256 ^ j / 256 ^ i % 256
    digit =
        ap (λ (t : ℕ). t % 256)
          (ap (◌/◌ v) (power_split n i j (omega arith))
            ∙ sym (div-div-eq-div-mul v (256 ^ j) (256 ^ i)))

-- The front of a word and its end.
pub take-to_be_bytes : (i j v : ℕ) → take i (to_be_bytes (i + j) v) ≡ to_be_bytes i (v / 256 ^ j)
take-to_be_bytes i j v =
    ap (take i) (to_be_bytes-append (i + j) i j v refl)
    ∙ ap (λ t. take t (to_be_bytes i (v / 256 ^ j) ++ to_be_bytes j v))
        (sym (length-to_be_bytes i _))
    ∙ take-append_length (to_be_bytes i (v / 256 ^ j)) (to_be_bytes j v)

pub drop-to_be_bytes : (i j v : ℕ) → drop i (to_be_bytes (i + j) v) ≡ to_be_bytes j v
drop-to_be_bytes i j v =
    ap (drop i) (to_be_bytes-append (i + j) i j v refl)
    ∙ ap (λ t. drop t (to_be_bytes i (v / 256 ^ j) ++ to_be_bytes j v))
        (sym (length-to_be_bytes i _))
    ∙ drop-append_length (to_be_bytes i (v / 256 ^ j)) (to_be_bytes j v)

-- A tail of zeros.
pub drop-replicate : (i j : ℕ) (x : ℕ) → drop i (replicate (i + j) x) ≡ replicate j x
drop-replicate zero j x = ap (λ t. replicate t x) (omega arith)
drop-replicate (suc i) j x =
    ap (λ t. drop (suc i) (replicate t x)) suc_outside ∙ drop-replicate i j x
  where
    suc_outside : suc i + j ≡ suc (i + j)
    suc_outside = omega arith

pub from_be_bytes-zeros : (n : ℕ) → from_be_bytes (replicate n 0) ≡ 0
from_be_bytes-zeros zero = refl
from_be_bytes-zeros (suc n) = omega (arith, from_be_bytes-zeros n)
