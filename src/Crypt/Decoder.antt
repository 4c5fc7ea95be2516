-- ===== src/Crypt/Decoder.antt =====
-- src/crypt.rs: `CryptState` as a decoder.
use rust_mumble_protocol.Base.{
  arith, ◌≡◌, refl, ◌⊎◌, inr, [], ◌∷◌, ◌<◌, Option, none, some, Bytes, Result, ok, err, IoError,
  unexpected_eof, invalid_data, length,
}
use rust_mumble_protocol.Voice.{VoicePacketDst, VoicePacket}
use rust_mumble_protocol.Voice.Dst.{IsLawful}
use rust_mumble_protocol.Voice.RoundTrip.{IsWellFormed}
use rust_mumble_protocol.Crypt.{CryptState, Decrypted, decrypt, decode, flatten_error}
use rust_mumble_protocol.Crypt.Ocb.{Aes128}
use rust_mumble_protocol.Crypt.Outcome.{
  Outcome, too_short, refused, forged, accepted, parsed, garbled, decrypt-Outcome,
}

module _ (aes : Aes128) (d : VoicePacketDst) (l : IsLawful d) where
  -- `Ok(None)` for an empty buffer only, else a well-formed packet or an error of two kinds.
  pub data DecoderResult : Bytes → Result (Option (VoicePacket d)) IoError → Type 0 where
    nothing : DecoderResult [] (ok none)
    item :
        {buf : Bytes} (p : VoicePacket d)
        → 0 < length buf
        → IsWellFormed d l p
        → DecoderResult buf (ok (some p))
    failed :
        {buf : Bytes} (e : IoError)
        → 0 < length buf
        → (e ≡ unexpected_eof) ⊎ (e ≡ invalid_data)
        → DecoderResult buf (err e)

  flatten_error-DecoderResult :
      (s : CryptState) (buf : Bytes) (o : Decrypted d)
      → 0 < length buf
      → Outcome aes d l s buf o
      → DecoderResult buf (flatten_error aes d o.0)
  flatten_error-DecoderResult s buf o some_byte (too_short short) = failed _ some_byte (inr refl)
  flatten_error-DecoderResult s buf o some_byte (refused e nonce long chosen) =
      failed _ some_byte (inr refl)
  flatten_error-DecoderResult s buf o some_byte
        (forged nonce late lost tag out long chosen opens other) =
      failed _ some_byte (inr refl)
  flatten_error-DecoderResult s buf o some_byte
        (accepted nonce late lost tag out r rest long chosen opens same (parsed p wf)) =
      item p some_byte wf
  flatten_error-DecoderResult s buf o some_byte
        (accepted nonce late lost tag out r rest long chosen opens same (garbled e h)) =
      failed e some_byte h

  -- As a decoder, a state never panics: on an empty buffer it returns `Ok(None)`, and on any other
  -- bytes a well-formed packet, an early end or invalid data, whatever AES does.
  pub decode-DecoderResult :
      (s : CryptState) (buf : Bytes) → DecoderResult buf (decode aes d s buf).0
  unfolding decode
  decode-DecoderResult s [] = nothing
  decode-DecoderResult s (b ∷ buf) =
      flatten_error-DecoderResult s (b ∷ buf) (decrypt aes d s (b ∷ buf)) (omega arith)
        (decrypt-Outcome aes d l s (b ∷ buf))
