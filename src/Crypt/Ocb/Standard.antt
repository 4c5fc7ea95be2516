-- ===== src/Crypt/Ocb/Standard.antt =====
-- OCB2 by its description (Krovetz and Rogaway, draft-krovetz-ocb-00), without associated data and
-- with the whole tag: every block on its own, by its number, from the message and L = E(nonce).
use rust_mumble_protocol.Base.{
  ℕ, zero, suc, ◌-◌, ◌*◌, ◌/◌, bit_xor, [], ◌++◌, Bytes, length, take, drop, replicate, to_be_bytes,
  to_le_bytes, from_be_bytes,
}
use rust_mumble_protocol.Crypt.Ocb.{Aes128, aes_encrypt, aes_decrypt}
use rust_mumble_protocol.Crypt.Ocb.Double.{times_x}
use rust_mumble_protocol.Crypt.Ocb.Bytewise.{xor_bytes}

-- A word times x to the power `n`.
abbrev pub times_power : ℕ → ℕ → ℕ
times_power zero b = b
times_power (suc n) b = times_power n (times_x b)

-- How many blocks stand before the last one, which has 1 to 16 bytes, or none in an empty message.
abbrev pub full_blocks : Bytes → ℕ
full_blocks bs = (length bs - 1) / 16

abbrev pub behind_blocks : ℕ → Bytes → Bytes
behind_blocks zero bs = bs
behind_blocks (suc i) bs = behind_blocks i (drop 16 bs)

abbrev pub block_at : Bytes → ℕ → ℕ
block_at bs i = from_be_bytes (take 16 (behind_blocks i bs))

-- The blocks below `n`, one after the other, and their exclusive or.
abbrev pub blocks_below : ℕ → (ℕ → ℕ) → Bytes
blocks_below zero f = []
blocks_below (suc n) f = to_be_bytes 16 (f 0) ++ blocks_below n (λ i. f (suc i))

abbrev pub xor_below : ℕ → (ℕ → ℕ) → ℕ
xor_below zero f = 0
xor_below (suc n) f = bit_xor (f 0) (xor_below n (λ i. f (suc i)))

module _ (aes : Aes128) (key : Bytes) (l : ℕ) where
  -- Of block `i`, counted from 1, and its ciphertext or plaintext.
  abbrev pub offset : ℕ → ℕ
  offset i = times_power i l

  abbrev pub sealed_block : ℕ → ℕ → ℕ
  sealed_block i plain = bit_xor (aes_encrypt aes key (bit_xor plain (offset i))) (offset i)

  abbrev pub opened_block : ℕ → ℕ → ℕ
  opened_block i cipher = bit_xor (aes_decrypt aes key (bit_xor cipher (offset i))) (offset i)

  -- The last block, of `n` bytes, is masked by its length, enciphered.
  abbrev pub pad : ℕ → ℕ → ℕ
  pad n i = aes_encrypt aes key (bit_xor (n * 8) (offset i))

  abbrev pub masked : Bytes → ℕ → Bytes
  masked last i = xor_bytes last (to_be_bytes 16 (pad (length last) i))

  -- From the exclusive or of the plaintext's full blocks and the last block of the ciphertext.
  abbrev pub checksum : ℕ → Bytes → ℕ → ℕ
  checksum full last i =
      bit_xor full
        (bit_xor (from_be_bytes (last ++ replicate (16 - length last) 0)) (pad (length last) i))

  -- The offset times x + 1 masks the checksum.
  abbrev pub tag : ℕ → ℕ → ℕ
  tag sum i = aes_encrypt aes key (bit_xor (bit_xor (offset i) (times_x (offset i))) sum)

  -- With `n` blocks before the last one.
  abbrev pub sealed_tag : ℕ → Bytes → ℕ
  sealed_tag n plain =
      tag (checksum (xor_below n (block_at plain)) (masked (behind_blocks n plain) (suc n)) (suc n))
        (suc n)

  abbrev pub sealed_bytes : ℕ → Bytes → Bytes
  sealed_bytes n plain =
      blocks_below n (λ i. sealed_block (suc i) (block_at plain i))
      ++ masked (behind_blocks n plain) (suc n)

  abbrev pub opened_tag : ℕ → Bytes → ℕ
  opened_tag n cipher =
      tag
        (checksum (xor_below n (λ i. opened_block (suc i) (block_at cipher i)))
          (behind_blocks n cipher) (suc n))
        (suc n)

  abbrev pub opened_bytes : ℕ → Bytes → Bytes
  opened_bytes n cipher =
      blocks_below n (λ i. opened_block (suc i) (block_at cipher i))
      ++ masked (behind_blocks n cipher) (suc n)

-- L: the bytes of the nonce, the lowest first, enciphered.
abbrev pub l_of : Aes128 → Bytes → ℕ → ℕ
l_of aes key nonce = from_be_bytes (take 16 (aes.encrypt_block key (to_le_bytes 16 nonce)))
