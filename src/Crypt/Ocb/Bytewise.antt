-- ===== src/Crypt/Ocb/Bytewise.antt =====
-- Exclusive or of byte strings, as the description of the block cipher mode has it.
use rust_mumble_protocol.Base.{
  ℕ, zero, suc, ◌+◌, ◌*◌, ◌/◌, ◌%◌, ◌^◌, ◌<◌, bit_xor, ◌≡◌, refl, sym, ap, ap₂, ◌∙◌, arith, [], ◌∷◌,
  ◌++◌, Bytes, length, take, to_be_bytes, bytes-bits, xor_fields, xor-lt,
}
use native.Mathlib.Nat.{
  mul-add-div_right, mul-add-mod_self_right, div-eq_of_lt, mod-eq_of_lt, one-le-pow, div-add-mod',
  mod-lt,
}

-- Byte by byte, as long as the shorter one.
unfoldable pub xor_bytes : Bytes → Bytes → Bytes
xor_bytes [] ys = []
xor_bytes (x ∷ xs) [] = []
xor_bytes (x ∷ xs) (y ∷ ys) = bit_xor x y ∷ xor_bytes xs ys

pub take-xor_bytes :
    (front rest ys : Bytes)
    → take (length front) (xor_bytes (front ++ rest) ys) ≡ xor_bytes front ys
unfolding xor_bytes
take-xor_bytes [] rest ys = refl
take-xor_bytes (x ∷ xs) rest [] = refl
take-xor_bytes (x ∷ xs) rest (y ∷ ys) = ap (◌∷◌ (bit_xor x y)) (take-xor_bytes xs rest ys)

module _ (k a b : ℕ) where
  pow_pos : 0 < 2 ^ k
  pow_pos = one-le-pow k 2 (omega arith)

  split : bit_xor a b ≡ bit_xor (a / 2 ^ k) (b / 2 ^ k) * 2 ^ k + bit_xor (a % 2 ^ k) (b % 2 ^ k)
  split =
      sym (ap₂ bit_xor (div-add-mod' a (2 ^ k)) (div-add-mod' b (2 ^ k)))
      ∙ xor_fields k (a / 2 ^ k) (b / 2 ^ k) (a % 2 ^ k) (b % 2 ^ k) (mod-lt a pow_pos)
          (mod-lt b pow_pos)

  low : bit_xor (a % 2 ^ k) (b % 2 ^ k) < 2 ^ k
  low = xor-lt k _ _ (mod-lt a pow_pos) (mod-lt b pow_pos)

  -- The bits from `k` on, and those below.
  pub xor-div : bit_xor a b / 2 ^ k ≡ bit_xor (a / 2 ^ k) (b / 2 ^ k)
  xor-div =
      ap (λ (t : ℕ). t / 2 ^ k) split
      ∙ mul-add-div_right pow_pos (bit_xor (a / 2 ^ k) (b / 2 ^ k)) _
      ∙ omega (arith, div-eq_of_lt low)

  pub xor-mod : bit_xor a b % 2 ^ k ≡ bit_xor (a % 2 ^ k) (b % 2 ^ k)
  xor-mod = ap (λ (t : ℕ). t % 2 ^ k) split ∙ mul-add-mod_self_right _ _ _ ∙ mod-eq_of_lt low

pub to_be_bytes-xor :
    (n a b : ℕ) → to_be_bytes n (bit_xor a b) ≡ xor_bytes (to_be_bytes n a) (to_be_bytes n b)
unfolding xor_bytes
to_be_bytes-xor zero a b = refl
to_be_bytes-xor (suc n) a b = ap₂ ◌∷◌ digit (to_be_bytes-xor n a b)
  where
    digit : bit_xor a b / 256 ^ n % 256 ≡ bit_xor (a / 256 ^ n % 256) (b / 256 ^ n % 256)
    digit = rw (bytes-bits n) (
        ap (λ (t : ℕ). t % 256) (xor-div (8 * n) a b)
        ∙ xor-mod 8 (a / 2 ^ (8 * n)) (b / 2 ^ (8 * n)))
