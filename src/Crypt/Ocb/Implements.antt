-- ===== src/Crypt/Ocb/Implements.antt =====
-- src/crypt.rs: `ocb_encrypt` and `ocb_decrypt` compute what the standard describes.
use rust_mumble_protocol.Base.{
  ℕ, zero, suc, ◌-◌, ◌/◌, ◌^◌, ◌≤◌, ◌<◌, bit_xor, ◌≡◌, refl, sym, ap, ap₂, ◌∙◌, subst, arith, ◌++◌,
  append_assoc, Bytes, IsBytes, IsBytes-drop, Option, some, xor_comm, xor_assoc, zero-xor,
}
use rust_mumble_protocol.Base.{
  lt→ltb, length, length-drop, take, drop, to_be_bytes, to_le_bytes, from_be_bytes,
  to_le_bytes-IsBytes, length-to_le_bytes,
}
use rust_mumble_protocol.Crypt.Ocb.{
  Aes128, s2, to_be, aes_encrypt, aes_decrypt, encrypt_loop, decrypt_loop, ocb_encrypt, ocb_decrypt,
  ◌>>=◌,
}
use rust_mumble_protocol.Crypt.Ocb.Cipher.{IsCipher, aes_encrypt-lt}
use rust_mumble_protocol.Crypt.Ocb.Double.{times_x, s2-times_x}
use rust_mumble_protocol.Crypt.Ocb.Last.{encrypt_rest-last, decrypt_rest-last}
use rust_mumble_protocol.Crypt.Ocb.Rest.{s2-lt, first_back}
use rust_mumble_protocol.Crypt.Ocb.RoundTrip.{encrypt_loop-rest, decrypt_loop-rest}
use rust_mumble_protocol.Crypt.Ocb.Standard.{
  full_blocks, behind_blocks, block_at, xor_below, blocks_below, sealed_block, opened_block, masked,
  checksum, tag, sealed_tag, sealed_bytes, opened_tag, opened_bytes, l_of,
}

xor-zero : (a : ℕ) → bit_xor a 0 ≡ a
xor-zero a = xor_comm a 0 ∙ zero-xor a

module _ (aes : Aes128) (c : IsCipher aes) (key : Bytes) where
  -- The tag where `sum` is the exclusive or of the full blocks of the plaintext.
  abbrev tag_at : ℕ → ℕ → Bytes → ℕ → ℕ
  tag_at l sum last i = tag aes key l (checksum aes key l sum last i) i

  abbrev behind : Bytes → Option (ℕ × Bytes) → Option (ℕ × Bytes)
  behind block next = next >>= λ (tag, out). some (tag, block ++ out)

  encrypt_loop-step :
      (rounds l sum z : ℕ) (buf : Bytes)
      → s2 l ≡ z
      → 16 < length buf
      → encrypt_loop aes key (suc rounds) l sum buf
        ≡ behind
            (to_be_bytes 16
              (bit_xor (aes_encrypt aes key (bit_xor z (from_be_bytes (take 16 buf)))) z))
            (encrypt_loop aes key rounds z
              (bit_xor sum (from_be_bytes (take 16 buf)))
              (drop 16 buf))
  unfolding encrypt_loop
  encrypt_loop-step rounds l sum z buf e more = rw (lt→ltb 16 (length buf) more) (rw e refl)

  decrypt_loop-step :
      (rounds l sum z : ℕ) (buf : Bytes)
      → s2 l ≡ z
      → 16 < length buf
      → decrypt_loop aes key (suc rounds) l sum buf
        ≡ behind
            (to_be_bytes 16
              (bit_xor (aes_decrypt aes key (bit_xor z (from_be_bytes (take 16 buf)))) z))
            (decrypt_loop aes key rounds z
              (bit_xor sum
                (bit_xor (aes_decrypt aes key (bit_xor z (from_be_bytes (take 16 buf)))) z))
              (drop 16 buf))
  unfolding decrypt_loop
  decrypt_loop-step rounds l sum z buf e more = rw (lt→ltb 16 (length buf) more) (rw e refl)

  encrypt_loop-standard :
      (n rounds l sum : ℕ) (buf : Bytes)
      → l < 2 ^ 128
      → IsBytes buf
      → n ≡ (length buf - 1) / 16
      → n ≤ rounds
      → encrypt_loop aes key rounds l sum buf
        ≡ some (
          tag_at l
              (bit_xor sum (xor_below n (block_at buf)))
              (masked aes key l (behind_blocks n buf) (suc n))
              (suc n),
          sealed_bytes aes key l n buf,
        )
  encrypt_loop-standard zero rounds l sum buf hl h size enough =
      encrypt_loop-rest aes c key rounds l sum buf (omega arith)
      ∙ encrypt_rest-last aes c key l sum (times_x l) (times_x (times_x l)) buf (s2-times_x l hl)
          (s2-times_x (times_x l) (subst (λ z. z < 2 ^ 128) (s2-times_x l hl) (s2-lt l hl))) h
          (omega arith)
      ∙ ap (λ t. some (tag_at l t (masked aes key l buf 1) 1, masked aes key l buf 1))
          (sym (xor-zero sum))
  encrypt_loop-standard (suc n) zero l sum buf hl h size enough = absurd (omega arith)
  encrypt_loop-standard (suc n) (suc rounds) l sum buf hl h size enough =
      encrypt_loop-step rounds l sum (times_x l) buf (s2-times_x l hl) (omega arith)
      ∙ ap₂ behind
          (ap (λ t. to_be_bytes 16 (bit_xor (aes_encrypt aes key t) (times_x l)))
            (xor_comm (times_x l) (from_be_bytes (take 16 buf))))
          (encrypt_loop-standard n rounds (times_x l) (bit_xor sum (from_be_bytes (take 16 buf)))
            (drop 16 buf) (subst (λ z. z < 2 ^ 128) (s2-times_x l hl) (s2-lt l hl))
            (IsBytes-drop 16 buf h) (omega (arith, length-drop 16 buf)) (omega arith))
      ∙ ap₂
          (λ s t. some (
            tag_at l s (masked aes key l (behind_blocks (suc n) buf) (suc (suc n))) (suc (suc n)),
            t,
          ))
          (xor_assoc sum (from_be_bytes (take 16 buf)) _)
          (sym (
            append_assoc (to_be_bytes 16 (sealed_block aes key l 1 (block_at buf 0)))
              (blocks_below n (λ i. sealed_block aes key l (suc (suc i)) (block_at buf (suc i))))
              (masked aes key (times_x l) (behind_blocks n (drop 16 buf)) (suc n))))

  decrypt_loop-standard :
      (n rounds l sum : ℕ) (buf : Bytes)
      → l < 2 ^ 128
      → IsBytes buf
      → n ≡ (length buf - 1) / 16
      → n ≤ rounds
      → decrypt_loop aes key rounds l sum buf
        ≡ some (
          tag_at l
              (bit_xor sum (xor_below n (λ i. opened_block aes key l (suc i) (block_at buf i))))
              (behind_blocks n buf)
              (suc n),
          opened_bytes aes key l n buf,
        )
  decrypt_loop-standard zero rounds l sum buf hl h size enough =
      decrypt_loop-rest aes c key rounds l sum buf (omega arith)
      ∙ decrypt_rest-last aes c key l sum (times_x l) (times_x (times_x l)) buf (s2-times_x l hl)
          (s2-times_x (times_x l) (subst (λ z. z < 2 ^ 128) (s2-times_x l hl) (s2-lt l hl))) h
          (omega arith)
      ∙ ap (λ t. some (tag_at l t buf 1, masked aes key l buf 1)) (sym (xor-zero sum))
  decrypt_loop-standard (suc n) zero l sum buf hl h size enough = absurd (omega arith)
  decrypt_loop-standard (suc n) (suc rounds) l sum buf hl h size enough =
      decrypt_loop-step rounds l sum (times_x l) buf (s2-times_x l hl) (omega arith)
      ∙ ap
          (λ t.
            behind (to_be_bytes 16 t)
              (decrypt_loop aes key rounds (times_x l) (bit_xor sum t) (drop 16 buf)))
          (ap (λ t. bit_xor (aes_decrypt aes key t) (times_x l))
            (xor_comm (times_x l) (from_be_bytes (take 16 buf))))
      ∙ ap (behind (to_be_bytes 16 (opened_block aes key l 1 (block_at buf 0)))) (
          decrypt_loop-standard n rounds (times_x l)
            (bit_xor sum (opened_block aes key l 1 (block_at buf 0))) (drop 16 buf)
            (subst (λ z. z < 2 ^ 128) (s2-times_x l hl) (s2-lt l hl)) (IsBytes-drop 16 buf h)
            (omega (arith, length-drop 16 buf)) (omega arith))
      ∙ ap₂ (λ s t. some (tag_at l s (behind_blocks (suc n) buf) (suc (suc n)), t))
          (xor_assoc sum (opened_block aes key l 1 (block_at buf 0)) _)
          (sym (
            append_assoc (to_be_bytes 16 (opened_block aes key l 1 (block_at buf 0)))
              (blocks_below n (λ i. opened_block aes key l (suc (suc i)) (block_at buf (suc i))))
              (masked aes key (times_x l) (behind_blocks n (drop 16 buf)) (suc n))))

  -- The nonce's bytes are enciphered lowest first.
  aes_encrypt-to_be : (nonce : ℕ) → aes_encrypt aes key (to_be nonce) ≡ l_of aes key nonce
  unfolding aes_encrypt
  aes_encrypt-to_be nonce =
      ap (λ t. from_be_bytes (take 16 (aes.encrypt_block key t)))
        (first_back 16 (to_le_bytes 16 nonce) (length-to_le_bytes 16 nonce)
          (to_le_bytes-IsBytes 16 nonce))

  l_of-lt : (nonce : ℕ) → l_of aes key nonce < 2 ^ 128
  l_of-lt nonce =
      subst (λ l. l < 2 ^ 128) (aes_encrypt-to_be nonce) (aes_encrypt-lt aes c key (to_be nonce))

  -- If AES makes blocks of blocks, `ocb_encrypt` computes the tag and the ciphertext of OCB2, and
  -- `ocb_decrypt` its tag and plaintext, as the standard describes them block by block.
  pub ocb-standard :
      (nonce : ℕ) (buf : Bytes)
      → IsBytes buf
      → (ocb_encrypt aes key nonce buf
          ≡ some (
            sealed_tag aes key (l_of aes key nonce) (full_blocks buf) buf,
            sealed_bytes aes key (l_of aes key nonce) (full_blocks buf) buf,
          ))
        × (ocb_decrypt aes key nonce buf
            ≡ some (
              opened_tag aes key (l_of aes key nonce) (full_blocks buf) buf,
              opened_bytes aes key (l_of aes key nonce) (full_blocks buf) buf,
            ))
  unfolding ocb_encrypt ocb_decrypt
  ocb-standard nonce buf h = (
    ap (λ l. encrypt_loop aes key (length buf) l 0 buf) (aes_encrypt-to_be nonce)
        ∙ encrypt_loop-standard (full_blocks buf) (length buf) (l_of aes key nonce) 0 buf
            (l_of-lt nonce) h refl (omega arith)
        ∙ ap
            (λ s. some (
              tag_at (l_of aes key nonce) s
                  (masked aes key (l_of aes key nonce) (behind_blocks (full_blocks buf) buf)
                    (suc (full_blocks buf)))
                  (suc (full_blocks buf)),
              sealed_bytes aes key (l_of aes key nonce) (full_blocks buf) buf,
            ))
            (zero-xor (xor_below (full_blocks buf) (block_at buf))),
    ap (λ l. decrypt_loop aes key (length buf) l 0 buf) (aes_encrypt-to_be nonce)
        ∙ decrypt_loop-standard (full_blocks buf) (length buf) (l_of aes key nonce) 0 buf
            (l_of-lt nonce) h refl (omega arith)
        ∙ ap
            (λ s. some (
              tag_at (l_of aes key nonce) s (behind_blocks (full_blocks buf) buf)
                  (suc (full_blocks buf)),
              opened_bytes aes key (l_of aes key nonce) (full_blocks buf) buf,
            ))
            (zero-xor (xor_below (full_blocks buf) _)),
  )
