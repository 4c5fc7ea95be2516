-- ===== src/Crypt/Ocb/Last.antt =====
-- src/crypt.rs: what stands behind the loops is the last block of the standard.
use rust_mumble_protocol.Base.{
  ℕ, ◌-◌, ◌*◌, ◌^◌, ◌≤◌, ◌<◌, bit_xor, ◌≡◌, sym, ap, ap₂, ◌∙◌, subst, arith, ◌++◌, Bytes, IsBytes,
  IsBytes-append, IsBytes-drop, IsBytes-replicate, some,
}
use rust_mumble_protocol.Base.{
  le→ltb, length, length-append, length-take, length-drop, length-replicate, take, drop, replicate,
  drop-replicate, to_be_bytes, from_be_bytes, length-to_be_bytes, to_be_bytes-IsBytes, xor_comm,
  xor_cancel,
}
use rust_mumble_protocol.Crypt.Ocb.{Aes128, s2, aes_encrypt, encrypt_rest, decrypt_rest}
use rust_mumble_protocol.Crypt.Ocb.Bytewise.{xor_bytes, take-xor_bytes, to_be_bytes-xor}
use rust_mumble_protocol.Crypt.Ocb.Cipher.{IsCipher, aes_encrypt-lt}
use rust_mumble_protocol.Crypt.Ocb.Padding.{padded_to-remade}
use rust_mumble_protocol.Crypt.Ocb.Rest.{first_back}

-- A word of `n` bytes that begins with `buf`, masked by `mask`, and cut.
module _ (n mask : ℕ) (buf rest : Bytes) (size : length (buf ++ rest) ≡ n)
    (h : IsBytes (buf ++ rest)) where
  masked-front :
      take (length buf) (to_be_bytes n (bit_xor (from_be_bytes (buf ++ rest)) mask))
      ≡ xor_bytes buf (to_be_bytes n mask)
  masked-front =
      ap (take (length buf)) (
        to_be_bytes-xor n (from_be_bytes (buf ++ rest)) mask
        ∙ ap (λ t. xor_bytes t (to_be_bytes n mask)) (first_back n (buf ++ rest) size h))
      ∙ take-xor_bytes buf rest (to_be_bytes n mask)

module _ (n : ℕ) (buf : Bytes) (room : length buf ≤ n) where
  zeros : drop (length buf) (replicate {A = ℕ} n 0) ≡ replicate {A = ℕ} (n - length buf) 0
  zeros =
      subst
        (λ (k : ℕ).
          drop (length buf) (replicate {A = ℕ} k 0) ≡ replicate {A = ℕ} (n - length buf) 0)
        (omega arith) (drop-replicate (length buf) (n - length buf) 0)

  module _ (mask : ℕ) (h : IsBytes buf) where
    -- Over the end of the mask, and over zeros.
    over_mask :
        mask < 256 ^ n
        → take (length buf) (
            to_be_bytes n
              (bit_xor mask (from_be_bytes (buf ++ drop (length buf) (to_be_bytes n mask)))))
          ≡ xor_bytes buf (to_be_bytes n mask)
    over_mask fits =
        ap (λ t. take (length buf) (to_be_bytes n t)) (xor_comm mask _)
        ∙ masked-front n mask buf (drop (length buf) (to_be_bytes n mask))
            (omega (
              arith,
              length-append buf (drop (length buf) (to_be_bytes n mask)),
              length-drop (length buf) (to_be_bytes n mask),
              length-to_be_bytes n mask,
            ))
            (IsBytes-append buf _ h
              (IsBytes-drop (length buf) (to_be_bytes n mask) (to_be_bytes-IsBytes n mask)))

    over_zeros :
        take (length buf) (
          to_be_bytes n
            (bit_xor (from_be_bytes (buf ++ drop (length buf) (replicate {A = ℕ} n 0))) mask))
        ≡ xor_bytes buf (to_be_bytes n mask)
    over_zeros =
        masked-front n mask buf (drop (length buf) (replicate {A = ℕ} n 0))
          (omega (
            arith,
            length-append buf (drop (length buf) (replicate {A = ℕ} n 0)),
            length-drop (length buf) (replicate {A = ℕ} n 0),
            length-replicate {A = ℕ} n 0,
          ))
          (IsBytes-append buf _ h (
            IsBytes-drop (length buf) (replicate {A = ℕ} n 0)
              (IsBytes-replicate n 0 (omega arith))))

    masked-length : length (xor_bytes buf (to_be_bytes n mask)) ≡ length buf
    masked-length =
        sym (ap length over_zeros)
        ∙ omega (arith, length-take (length buf) (to_be_bytes n _), length-to_be_bytes n _)

    -- The ciphertext with zeros behind it, masked again, is the word that was masked.
    unmasked :
        (fits : mask < 256 ^ n)
        → bit_xor
            (from_be_bytes
              (xor_bytes buf (to_be_bytes n mask) ++ replicate {A = ℕ} (n - length buf) 0))
            mask
          ≡ from_be_bytes (buf ++ drop (length buf) (to_be_bytes n mask))
    unmasked fits =
        ap₂ (λ s t. bit_xor (from_be_bytes (s ++ t)) mask) (sym (over_mask fits)) (sym zeros)
        ∙ ap (λ t. bit_xor t mask) (padded_to-remade n mask buf h room fits ∙ xor_comm mask _)
        ∙ xor_cancel _ mask

-- The offset of the last block, and its double.
module _ (aes : Aes128) (c : IsCipher aes) (key : Bytes) (l sum z z2 : ℕ) (buf : Bytes)
    (once : s2 l ≡ z) (twice : s2 z ≡ z2) (h : IsBytes buf) (short : length buf ≤ 16) where
  abbrev pub pad_at : ℕ → ℕ
  pad_at n = aes_encrypt aes key (bit_xor (n * 8) z)

  abbrev pub last_masked : Bytes
  last_masked = xor_bytes buf (to_be_bytes 16 (pad_at (length buf)))

  abbrev pub last_tag : Bytes → ℕ
  last_tag last = aes_encrypt aes key (
      bit_xor (bit_xor z z2) (
        bit_xor sum (
          bit_xor (from_be_bytes (last ++ replicate (16 - length last) 0)) (pad_at (length last)))))

  pub encrypt_rest-last : encrypt_rest aes key l sum buf ≡ some (last_tag last_masked, last_masked)
  unfolding encrypt_rest
  encrypt_rest-last = rw once (
      rw twice (
        rw (le→ltb 16 (length buf) short) (
          ap₂ (λ s t. some (aes_encrypt aes key (bit_xor (bit_xor z z2) (bit_xor sum s)), t))
            (sym (unmasked 16 buf short (pad_at (length buf)) h fits) ∙ ap again (sym size))
            (over_mask 16 buf short (pad_at (length buf)) h fits))))
    where
      fits : pad_at (length buf) < 256 ^ 16
      fits = aes_encrypt-lt aes c key (bit_xor (length buf * 8) z)

      size : length last_masked ≡ length buf
      size = masked-length 16 buf short (pad_at (length buf)) h

      again : ℕ → ℕ
      again n = bit_xor (from_be_bytes (last_masked ++ replicate (16 - n) 0)) (pad_at n)

  pub decrypt_rest-last : decrypt_rest aes key l sum buf ≡ some (last_tag buf, last_masked)
  unfolding decrypt_rest
  decrypt_rest-last = rw once (
      rw twice (
        rw (le→ltb 16 (length buf) short) (
          ap₂
            (λ s t. some (
              aes_encrypt aes key (
                  bit_xor (bit_xor z z2)
                    (bit_xor sum (bit_xor (from_be_bytes (buf ++ s)) (pad_at (length buf))))),
              t,
            ))
            (zeros 16 buf short) (over_zeros 16 buf short (pad_at (length buf)) h))))
