-- ===== src/Crypt/Ocb/Rest.antt =====
-- src/crypt.rs: what stands behind the loops of `ocb_encrypt` and `ocb_decrypt`, and `s2`.
use rust_mumble_protocol.Base.{
  ℕ, ◌+◌, ◌*◌, ◌/◌, ◌%◌, ◌^◌, ◌≤◌, ◌<◌, bit_and-low, bit_xor, ◌≡◌, refl, ap, ◌∙◌, subst, arith,
  ◌++◌, Bytes, IsBytes, IsBytes-take, Option, some,
}
use rust_mumble_protocol.Base.{
  le→ltb, length, take, drop, replicate, length-take, to_be_bytes, from_be_bytes,
  to_be_bytes-IsBytes, to_be_bytes-from_be_bytes, from_be_bytes-lt, xor-lt, xor_comm,
  xor_cancel_left,
}
use rust_mumble_protocol.Crypt.Ocb.{Aes128, s2, aes_encrypt, encrypt_rest, decrypt_rest}
use rust_mumble_protocol.Crypt.Ocb.Cipher.{IsCipher, aes_encrypt-lt}
use rust_mumble_protocol.Crypt.Ocb.Padding.{padded_to, padded_to-remade, padded_to-front}

pub s2-lt : (b : ℕ) → b < 2 ^ 128 → s2 b < 2 ^ 128
unfolding s2
s2-lt b h =
    xor-lt 128 _ _ (omega arith) (omega (arith, bit_and-low 1 (b * 2 % 2 ^ 128 + b / 2 ^ 127)))

pub first-lt :
    (n : ℕ) (block : Bytes) → length block ≡ n → IsBytes block → from_be_bytes block < 256 ^ n
first-lt n block e h = subst (λ k. from_be_bytes block < 256 ^ k) e (from_be_bytes-lt block h)

pub first_back :
    (n : ℕ) (block : Bytes)
    → length block ≡ n
    → IsBytes block
    → to_be_bytes n (from_be_bytes block) ≡ block
first_back n block e h =
    subst (λ k. to_be_bytes k (from_be_bytes block) ≡ block) e (to_be_bytes-from_be_bytes block h)

-- Encryption of a buffer succeeded, and decryption from the same offset and checksum undoes it.
pub record Undone (enc dec : Bytes → Option (ℕ × Bytes)) (buf : Bytes) : Type 0 where
  pub tag : ℕ
  pub out : Bytes
  pub encrypts : enc buf ≡ some (tag, out)
  pub decrypts : dec out ≡ some (tag, buf)
  pub same_length : length out ≡ length buf
  pub out-IsBytes : IsBytes out

module _ (aes : Aes128) (c : IsCipher aes) (key : Bytes) where
  abbrev pub tag_of : ℕ → ℕ → ℕ → ℕ
  tag_of offset checksum plain =
      aes_encrypt aes key (bit_xor (bit_xor (s2 offset) (s2 (s2 offset))) (bit_xor checksum plain))

  abbrev pub pad_of : ℕ → Bytes → ℕ
  pad_of offset buf = aes_encrypt aes key (bit_xor (length buf * 8) (s2 offset))

  pub decrypt_rest-from :
      (offset checksum : ℕ) (out buf : Bytes) (plain : ℕ)
      → length out ≡ length buf
      → length buf ≤ 16
      → from_be_bytes (out ++ drop (length buf) (replicate 16 0))
        ≡ bit_xor (pad_of offset buf) plain
      → decrypt_rest aes key offset checksum out
        ≡ some (tag_of offset checksum plain, take (length buf) (to_be_bytes 16 plain))
  unfolding decrypt_rest
  decrypt_rest-from offset checksum out buf plain size short e =
      rw size (rw e (rw plain_back (rw (le→ltb 16 (length buf) short) refl)))
    where
      plain_back : bit_xor (bit_xor (pad_of offset buf) plain) (pad_of offset buf) ≡ plain
      plain_back =
          xor_comm (bit_xor (pad_of offset buf) plain) (pad_of offset buf)
          ∙ xor_cancel_left (pad_of offset buf) plain

  pub rest-Undone :
      (offset checksum : ℕ) (buf : Bytes)
      → IsBytes buf
      → length buf ≤ 16
      → Undone (encrypt_rest aes key offset checksum) (decrypt_rest aes key offset checksum) buf
  rest-Undone offset checksum buf h short =
      let pad = pad_of offset buf in
      let fits = aes_encrypt-lt aes c key (bit_xor (length buf * 8) (s2 offset)) in
      let plain = padded_to 16 pad buf h short fits in
      let word = to_be_bytes 16 (bit_xor pad plain) in
      let size : length (take (length buf) word) ≡ length buf =
        omega (arith, length-take (length buf) word) in
      record {
        tag = tag_of offset checksum plain;
        out = take (length buf) word;
        encrypts = unfold encrypt_rest in rw (le→ltb 16 (length buf) short) refl;
        decrypts =
            decrypt_rest-from offset checksum (take (length buf) word) buf plain size short
              (padded_to-remade 16 pad buf h short fits)
            ∙ ap (λ t. some (tag_of offset checksum plain, t))
                (padded_to-front 16 pad buf h short fits);
        same_length = size;
        out-IsBytes = IsBytes-take (length buf) word (to_be_bytes-IsBytes 16 (bit_xor pad plain));
      }
