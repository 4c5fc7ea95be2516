-- ===== src/Crypt/Ocb/Examples.antt =====
-- A simple cipher in place of AES, and the theorems on the block cipher mode with it.
use rust_mumble_protocol.Base.{
  ℕ, suc, ◌-◌, ◌≡◌, refl, ap, ap₂, ◌∙◌, arith, [], ◌∷◌, Bytes, IsBytes, length, to_be_bytes, some,
}
use rust_mumble_protocol.Crypt.Ocb.{Aes128, ocb_encrypt, ocb_decrypt}
use rust_mumble_protocol.Crypt.Ocb.Cipher.{IsCipher}
use rust_mumble_protocol.Crypt.Ocb.RoundTrip.{ocb_decrypt-ocb_encrypt}
use rust_mumble_protocol.Crypt.Ocb.Total.{Opened, ocb_decrypt-Opened}
use rust_mumble_protocol.Crypt.Ocb.Aes.{aes_128}
use rust_mumble_protocol.Crypt.Ocb.Aes.Permutes.{aes_128-IsCipher}
use rust_mumble_protocol.Crypt.Ocb.Implements.{ocb-standard}
use rust_mumble_protocol.Crypt.Ocb.Standard.{
  full_blocks, l_of, sealed_tag, sealed_bytes, opened_tag, opened_bytes,
}

-- Each byte is flipped.
abbrev pub flipped : Bytes → Bytes
flipped [] = []
flipped (b ∷ bs) = (255 - b) ∷ flipped bs

length-flipped : (bs : Bytes) → length (flipped bs) ≡ length bs
length-flipped [] = refl
length-flipped (b ∷ bs) = ap suc (length-flipped bs)

flipped-IsBytes : (bs : Bytes) → IsBytes (flipped bs)
flipped-IsBytes [] = tt
flipped-IsBytes (b ∷ bs) = (omega arith, flipped-IsBytes bs)

flipped-flipped : (bs : Bytes) → IsBytes bs → flipped (flipped bs) ≡ bs
flipped-flipped [] h = refl
flipped-flipped (b ∷ bs) (hb, h) = ap₂ ◌∷◌ (omega arith) (flipped-flipped bs h)

abbrev pub flips : Aes128
flips = record {
  encrypt_block = λ key block. flipped block;
  decrypt_block = λ key block. flipped block;
}

pub flips-IsCipher : IsCipher flips
flips-IsCipher = record {
  block_size = λ key block size h. length-flipped block ∙ size;
  block_bytes = λ key block size h. flipped-IsBytes block;
  inverse = λ key block size h. flipped-flipped block h;
}

ocb_decrypt-ocb_encrypt_example :
    (tag : ℕ) × (out : Bytes) × (ocb_encrypt aes_128 [] 7 (1 ∷ 2 ∷ 3 ∷ []) ≡ some (tag, out))
    × (ocb_decrypt aes_128 [] 7 out ≡ some (tag, 1 ∷ 2 ∷ 3 ∷ []))
    × (length out ≡ 3)
    × IsBytes out
ocb_decrypt-ocb_encrypt_example =
    ocb_decrypt-ocb_encrypt aes_128 aes_128-IsCipher [] 7 (1 ∷ 2 ∷ 3 ∷ []) (omega arith)

ocb_decrypt-Opened_example : Opened 2 (ocb_decrypt flips [] 7 (1 ∷ 2 ∷ []))
ocb_decrypt-Opened_example = ocb_decrypt-Opened flips [] 7 (1 ∷ 2 ∷ [])

-- A key of 16 bytes for the published AES, and 17 bytes to encrypt: one full block and one more byte.
abbrev pub counted : Bytes
counted = to_be_bytes 16 0x000102030405060708090a0b0c0d0e0f

abbrev longer : Bytes
longer = 16 ∷ counted

abbrev l : ℕ
l = l_of aes_128 counted 7

ocb-standard_example :
    (ocb_encrypt aes_128 counted 7 longer
      ≡ some (
        sealed_tag aes_128 counted l (full_blocks longer) longer,
        sealed_bytes aes_128 counted l (full_blocks longer) longer,
      ))
    × (ocb_decrypt aes_128 counted 7 longer
        ≡ some (
          opened_tag aes_128 counted l (full_blocks longer) longer,
          opened_bytes aes_128 counted l (full_blocks longer) longer,
        ))
ocb-standard_example = ocb-standard aes_128 aes_128-IsCipher counted 7 longer (omega arith)
