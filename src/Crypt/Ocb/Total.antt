-- ===== src/Crypt/Ocb/Total.antt =====
-- src/crypt.rs: the assertion of `ocb_decrypt` never fails.
use rust_mumble_protocol.Base.{
  ℕ, zero, suc, ◌+◌, ◌≤◌, ◌≡◌, ap, ◌∙◌, arith, ◌++◌, Bytes, IsBytes, IsBytes-append, IsBytes-take,
  Option, some,
}
use rust_mumble_protocol.Base.{
  lt→ltb, le→ltb, length, length-append, take, drop, length-take, length-drop, to_be_bytes,
  length-to_be_bytes, to_be_bytes-IsBytes,
}
use rust_mumble_protocol.Crypt.Ocb.{
  Aes128, s2, to_be, aes_encrypt, decrypt_rest, decrypt_loop, ocb_decrypt, ◌>>=◌,
}
use native.Mathlib.Decide.{dec_lt}

-- A tag and as many bytes as went in.
pub data Opened (n : ℕ) : Option (ℕ × Bytes) → Type 0 where
  opened : (tag : ℕ) (out : Bytes) → length out ≡ n → IsBytes out → Opened n (some (tag, out))

front-Opened : (n i tag value : ℕ) → i ≤ n → Opened i (some (tag, take i (to_be_bytes n value)))
front-Opened n i tag value h =
    opened tag (take i (to_be_bytes n value))
      (omega (arith, length-take i (to_be_bytes n value), length-to_be_bytes n value))
      (IsBytes-take i (to_be_bytes n value) (to_be_bytes-IsBytes n value))

behind-Opened :
    {n m : ℕ} {r : Option (ℕ × Bytes)} (block : Bytes)
    → length block + m ≡ n
    → IsBytes block
    → Opened m r
    → Opened n (r >>= λ (tag, out). some (tag, block ++ out))
behind-Opened block e h (opened tag out size bytes) =
    opened tag (block ++ out) (length-append block out ∙ ap (λ (t : ℕ). length block + t) size ∙ e)
      (IsBytes-append block out h bytes)

module _ (aes : Aes128) (key : Bytes) where
  decrypt_rest-Opened :
      (offset checksum : ℕ) (buf : Bytes)
      → length buf ≤ 16
      → Opened (length buf) (decrypt_rest aes key offset checksum buf)
  unfolding decrypt_rest
  decrypt_rest-Opened offset checksum buf short =
      rw (le→ltb 16 (length buf) short) (front-Opened 16 (length buf) _ _ short)

  decrypt_loop-Opened :
      (rounds offset checksum : ℕ) (buf : Bytes)
      → length buf ≤ rounds + 16
      → Opened (length buf) (decrypt_loop aes key rounds offset checksum buf)
  unfolding decrypt_loop
  decrypt_loop-Opened zero offset checksum buf h = decrypt_rest-Opened offset checksum buf h
  decrypt_loop-Opened (suc rounds) offset checksum buf h = elim (dec_lt 16 (length buf)) [
    | no short ↦
        rw (le→ltb 16 (length buf) (omega arith))
          (decrypt_rest-Opened offset checksum buf (omega arith))
    | yes more ↦ rw (lt→ltb 16 (length buf) more) (
        behind-Opened (to_be_bytes 16 _) (omega (arith, length-drop 16 buf))
          (to_be_bytes-IsBytes 16 _)
          (decrypt_loop-Opened rounds (s2 offset) _ (drop 16 buf)
            (omega (arith, length-drop 16 buf))))
  ]

  -- Whatever AES does and whatever the nonce and the buffer, `ocb_decrypt` does not panic and does
  -- not run out of rounds: it computes a tag and writes as many bytes as there were.
  pub ocb_decrypt-Opened :
      (nonce : ℕ) (buf : Bytes) → Opened (length buf) (ocb_decrypt aes key nonce buf)
  unfolding ocb_decrypt
  ocb_decrypt-Opened nonce buf =
      decrypt_loop-Opened (length buf) (aes_encrypt aes key (to_be nonce)) 0 buf (omega arith)
