-- ===== src/Crypt/Ocb/Padding.antt =====
-- The last, possibly short block: the buffer in front of the pad's end, and back. The widths `i` of
-- the buffer and `j` of what is missing stay variables.
use rust_mumble_protocol.Base.{
  ℕ, ◌+◌, ◌-◌, ◌*◌, ◌/◌, ◌%◌, ◌^◌, ◌≤◌, ◌<◌, bit_xor, ◌≡◌, refl, sym, ap, ap₂, ◌∙◌, subst, arith,
  ◌++◌, Bytes, IsBytes,
}
use rust_mumble_protocol.Base.{
  length, take, drop, replicate, length-replicate, to_be_bytes, from_be_bytes, length-to_be_bytes,
  from_be_bytes-to_be_bytes, from_be_bytes-to_be_bytes_mod, to_be_bytes-from_be_bytes,
  from_be_bytes-lt,
}
use rust_mumble_protocol.Base.{
  bytes-bits, from_be_bytes-append, take-to_be_bytes, drop-to_be_bytes, drop-replicate,
  from_be_bytes-zeros, xor_fields, xor_self, xor-lt, power_split,
}
use native.Mathlib.Nat.{
  mul-add-div_right, div-eq_of_lt, div-eq_of_eq-mul_left, one-le-pow, div-add-mod',
  div-lt_iff_lt-mul, mod-lt,
}

field-lt : (b q r p : ℕ) → b < q → r < p → b * p + r < q * p
field-lt b q r p hb hr = grind arith

xor_radix :
    (k p a b r s : ℕ)
    → p ≡ 2 ^ k
    → r < p
    → s < p
    → bit_xor (a * p + r) (b * p + s) ≡ bit_xor a b * p + bit_xor r s
xor_radix k p a b r s e hr hs =
    subst (λ p. bit_xor (a * p + r) (b * p + s) ≡ bit_xor a b * p + bit_xor r s) (sym e)
      (xor_fields k a b r s (subst (λ p. r < p) e hr) (subst (λ p. s < p) e hs))

module _ (i j pad : ℕ) (buf : Bytes) (size : length buf ≡ i) (h : IsBytes buf)
    (fits : pad < 256 ^ (i + j)) where
  abbrev pub padded : ℕ
  padded = from_be_bytes (buf ++ drop i (to_be_bytes (i + j) pad))

  above : ℕ
  above = bit_xor (pad / 256 ^ j) (from_be_bytes buf)

  radix_pos : 0 < 256 ^ j
  radix_pos = one-le-pow j 256 (omega arith)

  low-lt : pad % 256 ^ j < 256 ^ j
  low-lt = mod-lt pad radix_pos

  buf-lt : from_be_bytes buf < 256 ^ i
  buf-lt = subst (λ k. from_be_bytes buf < 256 ^ k) size (from_be_bytes-lt buf h)

  high-lt : pad / 256 ^ j < 256 ^ i
  high-lt = (div-lt_iff_lt-mul radix_pos).1 (omega (arith, power_split (i + j) i j refl))

  padded-eq : padded ≡ from_be_bytes buf * 256 ^ j + pad % 256 ^ j
  padded-eq =
      ap (λ t. from_be_bytes (buf ++ t)) (drop-to_be_bytes i j pad)
      ∙ from_be_bytes-append buf (to_be_bytes j pad)
      ∙ ap₂ (λ (a b : ℕ). from_be_bytes buf * 256 ^ a + b) (length-to_be_bytes j pad)
          (from_be_bytes-to_be_bytes_mod j pad)

  pub padded-lt : padded < 256 ^ (i + j)
  padded-lt =
      subst (λ t. t < 256 ^ (i + j)) (sym padded-eq)
        (omega (
          arith,
          power_split (i + j) i j refl,
          field-lt (from_be_bytes buf) (256 ^ i) (pad % 256 ^ j) (256 ^ j) buf-lt low-lt,
        ))

  above-lt : above < 256 ^ i
  unfolding above
  above-lt =
      subst (λ p. bit_xor (pad / 256 ^ j) (from_be_bytes buf) < p) (sym (bytes-bits i))
        (xor-lt (8 * i) _ _ (subst (λ p. pad / 256 ^ j < p) (bytes-bits i) high-lt)
          (subst (λ p. from_be_bytes buf < p) (bytes-bits i) buf-lt))

  -- Below the buffer the pad cancels itself.
  masked : bit_xor pad padded ≡ above * 256 ^ j
  unfolding above
  masked =
      ap₂ bit_xor (sym (div-add-mod' pad (256 ^ j))) padded-eq
      ∙ xor_radix (8 * j) (256 ^ j) (pad / 256 ^ j) (from_be_bytes buf) (pad % 256 ^ j)
          (pad % 256 ^ j) (bytes-bits j) low-lt low-lt
      ∙ omega (arith, xor_self (pad % 256 ^ j))

  -- What is written, with zeros behind it, is the masked word again.
  pub remade :
      from_be_bytes
        (take i (to_be_bytes (i + j) (bit_xor pad padded)) ++ drop i (replicate (i + j) 0))
      ≡ bit_xor pad padded
  remade =
      ap₂ (λ t u. from_be_bytes (t ++ u)) (take-to_be_bytes i j (bit_xor pad padded))
        (drop-replicate i j 0)
      ∙ from_be_bytes-append (to_be_bytes i (bit_xor pad padded / 256 ^ j)) (replicate j 0)
      ∙ ap₂
          (λ (a b : ℕ). from_be_bytes (to_be_bytes i (bit_xor pad padded / 256 ^ j)) * 256 ^ a + b)
          (length-replicate j 0) (from_be_bytes-zeros j)
      ∙ ap (λ (t : ℕ). from_be_bytes (to_be_bytes i t) * 256 ^ j + 0)
          (div-eq_of_eq-mul_left radix_pos masked)
      ∙ ap (λ (t : ℕ). t * 256 ^ j + 0) (from_be_bytes-to_be_bytes i above above-lt)
      ∙ omega (arith, masked)

  -- The front of the padded word is the buffer.
  pub front : take i (to_be_bytes (i + j) padded) ≡ buf
  front =
      take-to_be_bytes i j padded
      ∙ ap (to_be_bytes i) quotient
      ∙ ap (λ k. to_be_bytes k (from_be_bytes buf)) (sym size)
      ∙ to_be_bytes-from_be_bytes buf h
    where
      quotient : padded / 256 ^ j ≡ from_be_bytes buf
      quotient =
          ap (λ (t : ℕ). t / 256 ^ j) padded-eq
          ∙ mul-add-div_right radix_pos (from_be_bytes buf) (pad % 256 ^ j)
          ∙ omega (arith, div-eq_of_lt low-lt)

-- The same for a width `n` that the buffer fits.
module _ (n pad : ℕ) (buf : Bytes) (h : IsBytes buf) (room : length buf ≤ n)
    (fits : pad < 256 ^ n) where
  abbrev pub padded_to : ℕ
  padded_to = from_be_bytes (buf ++ drop (length buf) (to_be_bytes n pad))

  width : length buf + (n - length buf) ≡ n
  width = omega arith

  fits_width : pad < 256 ^ (length buf + (n - length buf))
  fits_width = subst (λ k. pad < 256 ^ k) (sym width) fits

  pub padded_to-remade :
      from_be_bytes (
        take (length buf) (to_be_bytes n (bit_xor pad padded_to))
        ++ drop (length buf) (replicate n 0))
      ≡ bit_xor pad padded_to
  padded_to-remade =
      subst
        (λ n.
          from_be_bytes (
            take (length buf) (
              to_be_bytes n
                (bit_xor pad (from_be_bytes (buf ++ drop (length buf) (to_be_bytes n pad)))))
            ++ drop (length buf) (replicate n 0))
          ≡ bit_xor pad (from_be_bytes (buf ++ drop (length buf) (to_be_bytes n pad))))
        width (remade (length buf) (n - length buf) pad buf refl h fits_width)

  pub padded_to-front : take (length buf) (to_be_bytes n padded_to) ≡ buf
  padded_to-front =
      subst
        (λ n.
          take (length buf)
            (to_be_bytes n (from_be_bytes (buf ++ drop (length buf) (to_be_bytes n pad))))
          ≡ buf)
        width (front (length buf) (n - length buf) pad buf refl h fits_width)
