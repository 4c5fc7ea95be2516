-- ===== src/Crypt/Ocb/RoundTrip.antt =====
-- src/crypt.rs: `ocb_decrypt` undoes `ocb_encrypt` and computes the same tag.
use rust_mumble_protocol.Base.{
  ℕ, zero, suc, ◌+◌, ◌^◌, ◌≤◌, ◌<◌, bit_xor, ◌≡◌, refl, ap, ap₂, ◌∙◌, arith, ◌++◌, Bytes, IsBytes,
  IsBytes-append, IsBytes-take, IsBytes-drop, Option, some,
}
use rust_mumble_protocol.Base.{
  lt→ltb, le→ltb, length, length-append, take, drop, length-take, length-drop, take-append-drop,
  take-append_exact, drop-append_exact, to_be_bytes, from_be_bytes, length-to_be_bytes,
  to_be_bytes-IsBytes, from_be_bytes-to_be_bytes, xor-lt, xor_comm, xor_cancel, xor_cancel_left,
}
use rust_mumble_protocol.Crypt.Ocb.{
  Aes128, s2, to_be, aes_encrypt, aes_decrypt, encrypt_rest, decrypt_rest, encrypt_loop,
  decrypt_loop, ocb_encrypt, ocb_decrypt, ◌>>=◌,
}
use rust_mumble_protocol.Crypt.Ocb.Cipher.{IsCipher, aes_encrypt-lt, aes_decrypt-aes_encrypt}
use native.Mathlib.Decide.{dec_lt}
use rust_mumble_protocol.Crypt.Ocb.Rest.{s2-lt, first-lt, first_back, Undone, rest-Undone}

module _ (aes : Aes128) (c : IsCipher aes) (key : Bytes) where
  abbrev pub enciphered : ℕ → ℕ → ℕ
  enciphered offset plain = bit_xor (aes_encrypt aes key (bit_xor offset plain)) offset

  abbrev deciphered : ℕ → ℕ → ℕ
  deciphered offset word = bit_xor (aes_decrypt aes key (bit_xor offset word)) offset

  deciphered-enciphered :
      (offset plain : ℕ)
      → offset < 2 ^ 128
      → plain < 2 ^ 128
      → deciphered offset (enciphered offset plain) ≡ plain
  deciphered-enciphered offset plain ho hp =
      ap (λ t. bit_xor (aes_decrypt aes key t) offset)
        (xor_comm offset (enciphered offset plain)
          ∙ xor_cancel (aes_encrypt aes key (bit_xor offset plain)) offset)
      ∙ ap (λ t. bit_xor t offset)
          (aes_decrypt-aes_encrypt aes c key (bit_xor offset plain) (xor-lt 128 offset plain ho hp))
      ∙ xor_comm (bit_xor offset plain) offset
      ∙ xor_cancel_left offset plain

  enciphered-lt : (offset plain : ℕ) → offset < 2 ^ 128 → enciphered offset plain < 2 ^ 128
  enciphered-lt offset plain ho =
      xor-lt 128 (aes_encrypt aes key (bit_xor offset plain)) offset
        (aes_encrypt-lt aes c key (bit_xor offset plain)) ho

  abbrev pub behind : Bytes → Option (ℕ × Bytes) → Option (ℕ × Bytes)
  behind block next = next >>= λ (tag, out). some (tag, block ++ out)

  pub encrypt_loop-block :
      (rounds offset checksum : ℕ) (buf : Bytes)
      → 16 < length buf
      → encrypt_loop aes key (suc rounds) offset checksum buf
        ≡ behind (to_be_bytes 16 (enciphered (s2 offset) (from_be_bytes (take 16 buf)))) (
            encrypt_loop aes key rounds
              (s2 offset)
              (bit_xor checksum (from_be_bytes (take 16 buf)))
              (drop 16 buf))
  unfolding encrypt_loop
  encrypt_loop-block rounds offset checksum buf h = rw (lt→ltb 16 (length buf) h) refl

  decrypt_loop-block :
      (rounds offset checksum word : ℕ) (block out : Bytes)
      → length block ≡ 16
      → from_be_bytes block ≡ word
      → 0 < length out
      → decrypt_loop aes key (suc rounds) offset checksum (block ++ out)
        ≡ behind (to_be_bytes 16 (deciphered (s2 offset) word)) (
            decrypt_loop aes key rounds
              (s2 offset)
              (bit_xor checksum (deciphered (s2 offset) word))
              out)
  unfolding decrypt_loop
  decrypt_loop-block rounds offset checksum word block out size e more =
      rw (lt→ltb 16 (length (block ++ out)) (omega (arith, length-append block out))) (
        rw (take-append_exact 16 block out size)
          (rw (drop-append_exact 16 block out size) (rw e refl)))

  pub encrypt_loop-rest :
      (rounds offset checksum : ℕ) (buf : Bytes)
      → length buf ≤ 16
      → encrypt_loop aes key rounds offset checksum buf ≡ encrypt_rest aes key offset checksum buf
  unfolding encrypt_loop
  encrypt_loop-rest zero offset checksum buf h = refl
  encrypt_loop-rest (suc rounds) offset checksum buf h = rw (le→ltb 16 (length buf) h) refl

  pub decrypt_loop-rest :
      (rounds offset checksum : ℕ) (buf : Bytes)
      → length buf ≤ 16
      → decrypt_loop aes key rounds offset checksum buf ≡ decrypt_rest aes key offset checksum buf
  unfolding decrypt_loop
  decrypt_loop-rest zero offset checksum buf h = refl
  decrypt_loop-rest (suc rounds) offset checksum buf h = rw (le→ltb 16 (length buf) h) refl

  short-Undone :
      (rounds offset checksum : ℕ) (buf : Bytes)
      → IsBytes buf
      → length buf ≤ 16
      → Undone
          (encrypt_loop aes key rounds offset checksum)
          (decrypt_loop aes key rounds offset checksum)
          buf
  short-Undone rounds offset checksum buf h short =
      let u = rest-Undone aes c key offset checksum buf h short in
      record {
        tag = u.tag;
        out = u.out;
        encrypts = encrypt_loop-rest rounds offset checksum buf short ∙ u.encrypts;
        decrypts =
            decrypt_loop-rest rounds offset checksum u.out (omega (arith, u.same_length))
            ∙ u.decrypts;
        same_length = u.same_length;
        out-IsBytes = u.out-IsBytes;
      }

  -- One round, where `block` is what encryption writes for the first 16 bytes.
  block-Undone :
      (rounds offset checksum word : ℕ) (buf block : Bytes)
      → s2 offset < 2 ^ 128
      → IsBytes buf
      → 16 < length buf
      → word ≡ enciphered (s2 offset) (from_be_bytes (take 16 buf))
      → from_be_bytes (take 16 buf) < 2 ^ 128
      → to_be_bytes 16 (from_be_bytes (take 16 buf)) ≡ take 16 buf
      → length block ≡ 16
      → IsBytes block
      → from_be_bytes block ≡ word
      → to_be_bytes 16 (enciphered (s2 offset) (from_be_bytes (take 16 buf))) ≡ block
      → Undone
          (encrypt_loop aes key rounds (s2 offset) (bit_xor checksum (from_be_bytes (take 16 buf))))
          (decrypt_loop aes key rounds (s2 offset) (bit_xor checksum (from_be_bytes (take 16 buf))))
          (drop 16 buf)
      → Undone
          (encrypt_loop aes key (suc rounds) offset checksum)
          (decrypt_loop aes key (suc rounds) offset checksum)
          buf
  block-Undone rounds offset checksum word buf block ho hb more hw hp front size bytes value written
        u =
      record {
        tag = u.tag;
        out = block ++ u.out;
        encrypts =
            encrypt_loop-block rounds offset checksum buf more ∙ ap₂ behind written u.encrypts;
        decrypts =
            decrypt_loop-block rounds offset checksum word block u.out size value
              (omega (arith, u.same_length, length-drop 16 buf))
            ∙ ap
                (λ p.
                  behind (to_be_bytes 16 p)
                    (decrypt_loop aes key rounds (s2 offset) (bit_xor checksum p) u.out))
                back
            ∙ ap₂ behind front u.decrypts
            ∙ ap (λ t. some (u.tag, t)) (take-append-drop 16 buf);
        same_length = omega (arith, length-append block u.out, u.same_length, length-drop 16 buf);
        out-IsBytes = IsBytes-append block u.out bytes u.out-IsBytes;
      }
    where
      back : deciphered (s2 offset) word ≡ from_be_bytes (take 16 buf)
      back =
          ap (deciphered (s2 offset)) hw
          ∙ deciphered-enciphered (s2 offset) (from_be_bytes (take 16 buf)) ho hp

  loop-Undone :
      (rounds offset checksum : ℕ) (buf : Bytes)
      → offset < 2 ^ 128
      → IsBytes buf
      → length buf ≤ rounds + 16
      → Undone
          (encrypt_loop aes key rounds offset checksum)
          (decrypt_loop aes key rounds offset checksum)
          buf
  loop-Undone zero offset checksum buf ho h enough = short-Undone zero offset checksum buf h enough
  loop-Undone (suc rounds) offset checksum buf ho h enough = elim (dec_lt 16 (length buf)) [
    | no short ↦ short-Undone (suc rounds) offset checksum buf h (omega arith)
    | yes more ↦
        let plain = from_be_bytes (take 16 buf) in
        let word = enciphered (s2 offset) plain in
        let next = s2-lt offset ho in
        let size : length (take 16 buf) ≡ 16 = omega (arith, length-take 16 buf) in
        let below = first-lt 16 (take 16 buf) size (IsBytes-take 16 buf h) in
        block-Undone rounds offset checksum word buf (to_be_bytes 16 word) next h more refl below
          (first_back 16 (take 16 buf) size (IsBytes-take 16 buf h)) (length-to_be_bytes 16 word)
          (to_be_bytes-IsBytes 16 word)
          (from_be_bytes-to_be_bytes 16 word (enciphered-lt (s2 offset) plain next)) refl
          (loop-Undone rounds (s2 offset) (bit_xor checksum plain) (drop 16 buf) next
            (IsBytes-drop 16 buf h) (omega (arith, length-drop 16 buf)))
  ]

  ocb-Undone :
      (nonce : ℕ) (buf : Bytes)
      → IsBytes buf
      → Undone (ocb_encrypt aes key nonce) (ocb_decrypt aes key nonce) buf
  unfolding ocb_encrypt ocb_decrypt
  ocb-Undone nonce buf h =
      let u =
        loop-Undone (length buf) (aes_encrypt aes key (to_be nonce)) 0 buf
          (aes_encrypt-lt aes c key (to_be nonce)) h (omega arith) in
      record {
        tag = u.tag;
        out = u.out;
        encrypts = u.encrypts;
        decrypts =
            ap (λ n. decrypt_loop aes key n (aes_encrypt aes key (to_be nonce)) 0 u.out)
              u.same_length
            ∙ u.decrypts;
        same_length = u.same_length;
        out-IsBytes = u.out-IsBytes;
      }

  -- If AES permutes the blocks of 16 bytes under a key, then for any nonce `ocb_encrypt` succeeds on
  -- any bytes, and `ocb_decrypt` with the same nonce makes the bytes it wrote, as many as there
  -- were, the first ones again and computes the same tag.
  pub ocb_decrypt-ocb_encrypt :
      (nonce : ℕ) (buf : Bytes)
      → IsBytes buf
      → (tag : ℕ) × (out : Bytes) × (ocb_encrypt aes key nonce buf ≡ some (tag, out))
        × (ocb_decrypt aes key nonce out ≡ some (tag, buf))
        × (length out ≡ length buf)
        × IsBytes out
  ocb_decrypt-ocb_encrypt nonce buf h =
      let u = ocb-Undone nonce buf h in
      (u.tag, u.out, u.encrypts, u.decrypts, u.same_length, u.out-IsBytes)
