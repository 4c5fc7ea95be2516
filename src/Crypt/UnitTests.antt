-- ===== src/Crypt/UnitTests.antt =====
-- src/crypt.rs, the test `encrypt_and_decrypt_are_inverse`: it passes for any block cipher.
use rust_mumble_protocol.Base.{
  ◌+◌, ◌≡◌, refl, ap, arith, true, none, [], ◌∷◌, Bytes, IsBytes, IsBytes-append, replicate, Result,
  ok, err, panic, IoError,
}
use rust_mumble_protocol.Varint.Write.{encoding, encoding-IsEncoding}
use rust_mumble_protocol.Voice.{VoicePacket, audio, opus, clientbound, kind_of}
use rust_mumble_protocol.Voice.Dst.{clientbound-IsLawful}
use rust_mumble_protocol.Voice.RoundTrip.{IsWellFormed, packet_bytes}
use rust_mumble_protocol.Crypt.{CryptState, DecryptError, new_from, encrypt, decrypt}
use rust_mumble_protocol.Crypt.Ocb.{Aes128}
use rust_mumble_protocol.Crypt.Ocb.Aes.{aes_128}
use rust_mumble_protocol.Crypt.Ocb.Aes.Permutes.{aes_128-IsCipher}
use rust_mumble_protocol.Crypt.Ocb.Cipher.{IsCipher}
use rust_mumble_protocol.Crypt.Delivery.{decrypt-encrypt}

-- Both states, from default arrays.
abbrev default_state : CryptState
default_state = new_from (replicate 16 0) (replicate 16 0) (replicate 16 0)

abbrev audio_packet : VoicePacket clientbound
audio_packet = audio 13 42 123567 (opus (116 ∷ 101 ∷ 115 ∷ 116 ∷ []) true) none

-- The two `expect` calls.
abbrev expect_both :
    Result (Result (VoicePacket clientbound) IoError) DecryptError
    → Result (VoicePacket clientbound) IoError
expect_both (ok (ok p)) = ok p
expect_both (ok (err e)) = panic
expect_both (ok panic) = panic
expect_both (err e) = panic
expect_both panic = panic

-- The `result` that is compared with `audio_packet`.
encrypt_and_decrypt_are_inverse : Aes128 → Result (VoicePacket clientbound) IoError
encrypt_and_decrypt_are_inverse aes = elim (encrypt aes clientbound default_state audio_packet []) [
  | ok (server_state, buf) ↦ expect_both (decrypt aes clientbound default_state buf).0
  | err e ↦ panic
  | panic ↦ panic
]

audio_packet-IsWellFormed : IsWellFormed clientbound clientbound-IsLawful audio_packet
audio_packet-IsWellFormed = (omega arith, omega arith, omega arith, (omega arith), tt)

audio_packet-IsBytes : IsBytes (packet_bytes clientbound clientbound-IsLawful audio_packet)
unfolding kind_of
audio_packet-IsBytes = (
  omega arith,
  IsBytes-append (encoding 42) _ (encoding-IsEncoding 42 (omega arith)).bytes (
      IsBytes-append (encoding 123567) _ (encoding-IsEncoding 123567 (omega arith)).bytes (
        IsBytes-append _ []
          (IsBytes-append (encoding (0x2000 + 4)) (116 ∷ 101 ∷ 115 ∷ 116 ∷ [])
            (encoding-IsEncoding (0x2000 + 4) (omega arith)).bytes (omega arith))
          tt)),
)

encrypt_and_decrypt_are_inverse_lem :
    (aes : Aes128) → IsCipher aes → encrypt_and_decrypt_are_inverse aes ≡ ok audio_packet
unfolding encrypt_and_decrypt_are_inverse
encrypt_and_decrypt_are_inverse_lem aes c =
    let (bytes, seals, opens) =
      decrypt-encrypt aes c clientbound clientbound-IsLawful default_state default_state 1
        audio_packet [] refl (omega arith) (omega arith) refl audio_packet-IsWellFormed
        audio_packet-IsBytes in
    rw (encrypt_and_decrypt_are_inverse, seals)
      (ap
        (λ (o : Result (Result (VoicePacket clientbound) IoError) DecryptError
            × CryptState
            × Bytes).
          expect_both o.0)
        opens)

-- So with the published AES.
encrypt_and_decrypt_are_inverse_passes : encrypt_and_decrypt_are_inverse aes_128 ≡ ok audio_packet
encrypt_and_decrypt_are_inverse_passes =
    encrypt_and_decrypt_are_inverse_lem aes_128 aes_128-IsCipher
