-- ===== src/Crypt/Ocb/Forgery.antt =====
-- src/crypt.rs: a forgery against the mode that `ocb_encrypt` and `ocb_decrypt` implement.
use rust_mumble_protocol.Base.{
  ℕ, ◌*◌, ◌^◌, ◌<◌, bit_xor, ◌≡◌, refl, sym, ap, ◌∙◌, arith, ◌++◌, append-nil, Bytes, IsBytes, some,
}
use rust_mumble_protocol.Base.{
  length, take, drop, replicate, to_be_bytes, from_be_bytes, length-to_be_bytes,
  to_be_bytes-IsBytes, from_be_bytes-to_be_bytes, xor-lt, xor_comm, xor_assoc, xor_cancel,
  xor_cancel_left, zero-xor,
}
use rust_mumble_protocol.Crypt.Ocb.{
  Aes128, s2, to_be, aes_encrypt, encrypt_rest, decrypt_rest, encrypt_loop, ocb_encrypt,
  ocb_decrypt,
}
use rust_mumble_protocol.Crypt.Ocb.Cipher.{IsCipher, aes_encrypt-lt}
use rust_mumble_protocol.Crypt.Ocb.Rest.{s2-lt, first-lt, tag_of, pad_of, decrypt_rest-from}
use rust_mumble_protocol.Crypt.Ocb.RoundTrip.{
  enciphered, behind, encrypt_loop-block, encrypt_loop-rest, decrypt_loop-rest,
}

-- The length of a block in bits, as a block.
abbrev pub length_block : Bytes
length_block = to_be_bytes 16 128

-- From the two blocks of ciphertext and the second one of plaintext, without the key: a ciphertext
-- of one block, and its tag.
abbrev pub forged_block : Bytes → Bytes
forged_block c1 = to_be_bytes 16 (bit_xor (from_be_bytes c1) 128)

abbrev pub forged_tag : (second c2 : Bytes) → ℕ
forged_tag second c2 = bit_xor (from_be_bytes c2) (from_be_bytes second)

-- (o + p) + (0 + (o + b)) is p + b.
cancel_offset : (o p b : ℕ) → bit_xor (bit_xor o p) (bit_xor 0 (bit_xor o b)) ≡ bit_xor p b
cancel_offset o p b =
    ap (bit_xor (bit_xor o p)) (zero-xor (bit_xor o b))
    ∙ ap (λ t. bit_xor t (bit_xor o b)) (xor_comm o p)
    ∙ xor_assoc p o (bit_xor o b)
    ∙ ap (bit_xor p) (xor_cancel_left o b)

module _ (aes : Aes128) (c : IsCipher aes) (key : Bytes) where
  encrypt_rest-block :
      (offset checksum : ℕ) (second : Bytes)
      → length second ≡ 16
      → encrypt_rest aes key offset checksum second
        ≡ some (
          tag_of aes c key offset checksum (from_be_bytes second),
          (to_be_bytes 16
              (bit_xor (aes_encrypt aes key (bit_xor 128 (s2 offset))) (from_be_bytes second))),
        )
  unfolding encrypt_rest
  encrypt_rest-block offset checksum second size =
      rw (encrypt_rest, size) (rw (append-nil second) refl)

  decrypt_rest-forged :
      (offset : ℕ) (block : Bytes)
      → length block ≡ 16
      → from_be_bytes block ≡ bit_xor (enciphered aes c key (s2 offset) 128) 128
      → decrypt_rest aes key offset 0 block
        ≡ some (
          aes_encrypt aes key (bit_xor 128 (s2 (s2 offset))),
          to_be_bytes 16 (bit_xor (s2 offset) 128),
        )
  decrypt_rest-forged offset block size e =
      decrypt_rest-from aes c key offset 0 block block (bit_xor (s2 offset) 128) refl (omega arith)
        padded
      ∙ ap
          (λ n. some (
            tag_of aes c key offset 0 (bit_xor (s2 offset) 128),
            take n (to_be_bytes 16 (bit_xor (s2 offset) 128)),
          ))
          size
      ∙ ap (λ t. some (aes_encrypt aes key t, to_be_bytes 16 (bit_xor (s2 offset) 128)))
          (cancel_offset (s2 offset) (s2 (s2 offset)) 128 ∙ xor_comm (s2 (s2 offset)) 128)
    where
      padded :
          from_be_bytes (block ++ drop (length block) (replicate 16 0))
          ≡ bit_xor (pad_of aes c key offset block) (bit_xor (s2 offset) 128)
      padded =
          ap (λ n. from_be_bytes (block ++ drop n (replicate 16 0))) size
          ∙ ap from_be_bytes (append-nil block)
          ∙ e
          ∙ xor_assoc (aes_encrypt aes key (bit_xor (s2 offset) 128)) (s2 offset) 128
          ∙ ap (λ t. bit_xor (aes_encrypt aes key t) (bit_xor (s2 offset) 128))
              (xor_comm (s2 offset) 128)
          ∙ ap
              (λ (n : ℕ).
                bit_xor (aes_encrypt aes key (bit_xor (n * 8) (s2 offset)))
                  (bit_xor (s2 offset) 128))
              (sym size)

  encrypt_loop-blocks :
      (offset : ℕ) (second : Bytes)
      → length second ≡ 16
      → encrypt_loop aes key 32 offset 0 (length_block ++ second)
        ≡ some (
          tag_of aes c key (s2 offset) 128 (from_be_bytes second),
          to_be_bytes 16 (enciphered aes c key (s2 offset) 128)
              ++ to_be_bytes 16 (
                  bit_xor
                    (aes_encrypt aes key (bit_xor 128 (s2 (s2 offset))))
                    (from_be_bytes second)),
        )
  encrypt_loop-blocks offset second size =
      encrypt_loop-block aes c key 31 offset 0 (length_block ++ second) (omega arith)
      ∙ ap (behind aes c key (to_be_bytes 16 (enciphered aes c key (s2 offset) 128))) (
          encrypt_loop-rest aes c key 31 (s2 offset) 128 second (omega arith)
          ∙ encrypt_rest-block (s2 offset) 128 second size)

  -- If AES permutes blocks, then whoever sees the two blocks that `ocb_encrypt` makes, under a nonce
  -- and a key, of the block 128 and any second block, and knows the second block, can write a block
  -- and a tag without the key: under the same nonce `ocb_decrypt` computes this tag for that block.
  pub ocb_decrypt-forged :
      (nonce : ℕ) (second : Bytes)
      → IsBytes second
      → length second ≡ 16
      → (tag : ℕ) × (c1 : Bytes) × (c2 : Bytes) × (plain : Bytes) × (ocb_encrypt aes key nonce
            (length_block ++ second)
          ≡ some (tag, c1 ++ c2))
        × (length c1 ≡ 16)
        × (length c2 ≡ 16)
        × (ocb_decrypt aes key nonce (forged_block c1) ≡ some (forged_tag second c2, plain))
        × IsBytes plain
  unfolding ocb_encrypt ocb_decrypt
  ocb_decrypt-forged nonce second h size =
      let l = aes_encrypt aes key (to_be nonce) in
      let word1 = enciphered aes c key (s2 l) 128 in
      let pad = aes_encrypt aes key (bit_xor 128 (s2 (s2 l))) in
      let m2 = from_be_bytes second in
      (
        _,
        to_be_bytes 16 word1,
        to_be_bytes 16 (bit_xor pad m2),
        _,
        ap (λ n. encrypt_loop aes key n l 0 (length_block ++ second)) total
            ∙ encrypt_loop-blocks l second size,
        length-to_be_bytes 16 word1,
        length-to_be_bytes 16 (bit_xor pad m2),
        decrypt_loop-rest aes c key (length (forged_block (to_be_bytes 16 word1))) l 0
              (forged_block (to_be_bytes 16 word1)) (omega arith)
            ∙ decrypt_rest-forged l (forged_block (to_be_bytes 16 word1)) refl (
                block_word word1 (
                  xor-lt 128 (aes_encrypt aes key (bit_xor (s2 l) 128)) (s2 l)
                    (aes_encrypt-lt aes c key (bit_xor (s2 l) 128))
                    (s2-lt l (aes_encrypt-lt aes c key (to_be nonce)))))
            ∙ ap (λ t. some (t, to_be_bytes 16 (bit_xor (s2 l) 128)))
                (tag_word pad (aes_encrypt-lt aes c key (bit_xor 128 (s2 (s2 l))))),
        to_be_bytes-IsBytes 16 (bit_xor (s2 l) 128),
      )
    where
      total : length (length_block ++ second) ≡ 32
      total = omega arith

      word_back : (word : ℕ) → word < 2 ^ 128 → from_be_bytes (to_be_bytes 16 word) ≡ word
      word_back word h = from_be_bytes-to_be_bytes 16 word h

      block_word :
          (word : ℕ)
          → word < 2 ^ 128
          → from_be_bytes (forged_block (to_be_bytes 16 word)) ≡ bit_xor word 128
      block_word word h =
          ap (λ (w : ℕ). from_be_bytes (to_be_bytes 16 (bit_xor w 128))) (word_back word h)
          ∙ word_back (bit_xor word 128) (xor-lt 128 word 128 h (omega arith))

      tag_word :
          (pad : ℕ)
          → pad < 2 ^ 128
          → pad ≡ forged_tag second (to_be_bytes 16 (bit_xor pad (from_be_bytes second)))
      tag_word pad h' =
          sym (xor_cancel pad (from_be_bytes second))
          ∙ ap (λ (w : ℕ). bit_xor w (from_be_bytes second))
              (sym (
                word_back (bit_xor pad (from_be_bytes second))
                  (xor-lt 128 pad (from_be_bytes second) h' (first-lt 16 second size h))))
