-- ===== src/Crypt/Ocb/Cipher.antt =====
-- The block cipher on words, from what AES does with blocks.
use rust_mumble_protocol.Base.{ℕ, ◌^◌, ◌<◌, ◌≡◌, refl, sym, ap, ◌∙◌, subst, arith, Bytes, IsBytes}
use rust_mumble_protocol.Base.{
  length, take, take_all, to_be_bytes, from_be_bytes, length-to_be_bytes, to_be_bytes-IsBytes,
  from_be_bytes-to_be_bytes, to_be_bytes-from_be_bytes, from_be_bytes-lt,
}
use rust_mumble_protocol.Crypt.Ocb.{Aes128, aes_encrypt, aes_decrypt}

-- A key makes a block of 16 bytes another one, and decryption undoes encryption.
pub record IsCipher (aes : Aes128) : Type 0 where
  pub block_size :
      (key block : Bytes)
      → length block ≡ 16
      → IsBytes block
      → length (aes.encrypt_block key block) ≡ 16
  pub block_bytes :
      (key block : Bytes)
      → length block ≡ 16
      → IsBytes block
      → IsBytes (aes.encrypt_block key block)
  pub inverse :
      (key block : Bytes)
      → length block ≡ 16
      → IsBytes block
      → aes.decrypt_block key (aes.encrypt_block key block) ≡ block

-- `from_be_bytes(to_be_bytes(b))` through the cipher, for a width that stays a variable.
module _ (aes : Aes128) (c : IsCipher aes) (key : Bytes) (n b : ℕ) (w : n ≡ 16) where
  encrypted : Bytes
  encrypted = aes.encrypt_block key (to_be_bytes n b)

  size : length (to_be_bytes n b) ≡ 16
  size = length-to_be_bytes n b ∙ w

  encrypted-length : length encrypted ≡ n
  unfolding encrypted
  encrypted-length = c.block_size key (to_be_bytes n b) size (to_be_bytes-IsBytes n b) ∙ sym w

  encrypted-IsBytes : IsBytes encrypted
  unfolding encrypted
  encrypted-IsBytes = c.block_bytes key (to_be_bytes n b) size (to_be_bytes-IsBytes n b)

  word-lt : from_be_bytes (take n encrypted) < 256 ^ n
  word-lt =
      subst (λ t. from_be_bytes t < 256 ^ n)
        (sym (take_all n encrypted (omega (arith, encrypted-length))))
        (subst (λ k. from_be_bytes encrypted < 256 ^ k) encrypted-length
          (from_be_bytes-lt encrypted encrypted-IsBytes))

  word-inverse :
      b < 256 ^ n
      → from_be_bytes
          (take n (aes.decrypt_block key (to_be_bytes n (from_be_bytes (take n encrypted)))))
        ≡ b
  unfolding encrypted
  word-inverse h =
      ap (λ t. from_be_bytes (take n (aes.decrypt_block key t))) again
      ∙ ap (λ t. from_be_bytes (take n t))
          (c.inverse key (to_be_bytes n b) size (to_be_bytes-IsBytes n b))
      ∙ ap from_be_bytes (take_all n (to_be_bytes n b) (omega (arith, length-to_be_bytes n b)))
      ∙ from_be_bytes-to_be_bytes n b h
    where
      again : to_be_bytes n (from_be_bytes (take n encrypted)) ≡ encrypted
      again =
          ap (λ t. to_be_bytes n (from_be_bytes t))
            (take_all n encrypted (omega (arith, encrypted-length)))
          ∙ ap (λ k. to_be_bytes k (from_be_bytes encrypted)) (sym encrypted-length)
          ∙ to_be_bytes-from_be_bytes encrypted encrypted-IsBytes

module _ (aes : Aes128) (c : IsCipher aes) (key : Bytes) where
  pub aes_encrypt-lt : (b : ℕ) → aes_encrypt aes key b < 2 ^ 128
  unfolding aes_encrypt encrypted
  aes_encrypt-lt b = word-lt aes c key 16 b refl

  pub aes_decrypt-aes_encrypt :
      (b : ℕ) → b < 2 ^ 128 → aes_decrypt aes key (aes_encrypt aes key b) ≡ b
  unfolding aes_encrypt aes_decrypt encrypted
  aes_decrypt-aes_encrypt b h = word-inverse aes c key 16 b refl h
