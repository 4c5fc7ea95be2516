-- ===== src/Crypt/Ocb.antt =====
-- src/crypt.rs, the block cipher: `aes_encrypt`, `aes_decrypt`, `s2`, `ocb_encrypt`, `ocb_decrypt`.
pub mod Aes
pub mod Cipher
pub mod Bytewise
pub mod Double
pub mod Examples
pub mod Implements
pub mod Last
pub mod Padding
pub mod Rest
pub mod RoundTrip
pub mod Standard
pub mod Total
pub mod Forgery
use rust_mumble_protocol.Base.{
  ℕ, zero, suc, ◌+◌, ◌*◌, ◌/◌, ◌%◌, ◌^◌, bit_and, bit_xor, ◌∷◌, ◌++◌, Option, none, some,
}
use rust_mumble_protocol.Base.{
  ltb, if◌then◌else◌, Bytes, length, take, drop, replicate, to_be_bytes, to_le_bytes, from_be_bytes,
}

-- AES-128 of the openssl library on one block: key, block, result.
pub record Aes128 : Type 0 where
  pub encrypt_block : Bytes → Bytes → Bytes
  pub decrypt_block : Bytes → Bytes → Bytes

-- `to_be` on a little-endian host swaps the bytes.
abbrev pub to_be : ℕ → ℕ
to_be n = from_be_bytes (to_le_bytes 16 n)

abbrev rotate_left_one : ℕ → ℕ
rotate_left_one block = block * 2 % 2 ^ 128 + block / 2 ^ 127

unfoldable pub s2 : ℕ → ℕ
s2 block =
    let rot = rotate_left_one block in let carry = bit_and rot 1 in bit_xor rot (carry * 0x86)

infixl 5 ◌>>=◌
abbrev pub ◌>>=◌ {ℓ κ} : {A : Type ℓ} {B : Type κ} → Option A → (A → Option B) → Option B
none >>= f = none
some a >>= f = f a

module _ (aes : Aes128) (key : Bytes) where
  unfoldable pub aes_encrypt : ℕ → ℕ
  aes_encrypt block = from_be_bytes (take 16 (aes.encrypt_block key (to_be_bytes 16 block)))

  unfoldable pub aes_decrypt : ℕ → ℕ
  aes_decrypt block = from_be_bytes (take 16 (aes.decrypt_block key (to_be_bytes 16 block)))

  -- What stands behind the loop of `ocb_encrypt`: the tag and the bytes written to the rest of the
  -- buffer, or `none` where the assertion fails.
  unfoldable pub encrypt_rest : ℕ → ℕ → Bytes → Option (ℕ × Bytes)
  encrypt_rest offset checksum buf =
      let offset' = s2 offset in
      let len = length buf in
      let pad = aes_encrypt (bit_xor (len * 8) offset') in
      let plain = from_be_bytes (buf ++ drop len (to_be_bytes 16 pad)) in
      let encrypted = bit_xor pad plain in
      let checksum' = bit_xor checksum plain in
      let tag = aes_encrypt (bit_xor (bit_xor offset' (s2 offset')) checksum') in
      if ltb 16 len then none else some (tag, take len (to_be_bytes 16 encrypted))

  -- The loop, with as many rounds as there may be. Out of rounds, the assertion fails.
  unfoldable pub encrypt_loop : ℕ → ℕ → ℕ → Bytes → Option (ℕ × Bytes)
  encrypt_loop zero offset checksum buf = encrypt_rest offset checksum buf
  encrypt_loop (suc rounds) offset checksum buf =
      let offset' = s2 offset in
      let plain = from_be_bytes (take 16 buf) in
      let encrypted = bit_xor (aes_encrypt (bit_xor offset' plain)) offset' in
      let next = encrypt_loop rounds offset' (bit_xor checksum plain) (drop 16 buf) in
      let written = (do (tag, out) ← next; some (tag, to_be_bytes 16 encrypted ++ out)) in
      if ltb 16 (length buf) then written else encrypt_rest offset checksum buf

  -- On the nonce and the buffer. Each round takes 16 bytes.
  unfoldable pub ocb_encrypt : ℕ → Bytes → Option (ℕ × Bytes)
  ocb_encrypt nonce buf = encrypt_loop (length buf) (aes_encrypt (to_be nonce)) 0 buf

  unfoldable pub decrypt_rest : ℕ → ℕ → Bytes → Option (ℕ × Bytes)
  decrypt_rest offset checksum buf =
      let offset' = s2 offset in
      let len = length buf in
      let pad = aes_encrypt (bit_xor (len * 8) offset') in
      let plain = bit_xor (from_be_bytes (buf ++ drop len (replicate 16 0))) pad in
      let checksum' = bit_xor checksum plain in
      let tag = aes_encrypt (bit_xor (bit_xor offset' (s2 offset')) checksum') in
      if ltb 16 len then none else some (tag, take len (to_be_bytes 16 plain))

  unfoldable pub decrypt_loop : ℕ → ℕ → ℕ → Bytes → Option (ℕ × Bytes)
  decrypt_loop zero offset checksum buf = decrypt_rest offset checksum buf
  decrypt_loop (suc rounds) offset checksum buf =
      let offset' = s2 offset in
      let encrypted = from_be_bytes (take 16 buf) in
      let plain = bit_xor (aes_decrypt (bit_xor offset' encrypted)) offset' in
      let next = decrypt_loop rounds offset' (bit_xor checksum plain) (drop 16 buf) in
      let written = (do (tag, out) ← next; some (tag, to_be_bytes 16 plain ++ out)) in
      if ltb 16 (length buf) then written else decrypt_rest offset checksum buf

  unfoldable pub ocb_decrypt : ℕ → Bytes → Option (ℕ × Bytes)
  ocb_decrypt nonce buf = decrypt_loop (length buf) (aes_encrypt (to_be nonce)) 0 buf
