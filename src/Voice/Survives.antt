-- ===== src/Voice/Survives.antt =====
-- Which packets come through the voice codec.
use rust_mumble_protocol.Base.{
  ◌≡◌, ap, ◌∙◌, subst, ◌↔◌, Option, some, [], Bytes, IsBytes, Result, ok, IoError,
}
use rust_mumble_protocol.Voice.{VoicePacketDst, VoicePacket, encode, decode}
use rust_mumble_protocol.Voice.Dst.{IsLawful}
use rust_mumble_protocol.Voice.RoundTrip.{
  IsWellFormed, packet_bytes, encode-packet_bytes, decode-packet_bytes,
}
use rust_mumble_protocol.Voice.Total.{Decoded, packet, failed, decode-Decoded}

module _ (d : VoicePacketDst) (l : IsLawful d) where
  Decoded-IsWellFormed :
      (o : Result (Option (VoicePacket d)) IoError × Bytes) (p : VoicePacket d) (rest : Bytes)
      → Decoded d l o
      → o ≡ (ok (some p), rest)
      → IsWellFormed d l p
  Decoded-IsWellFormed o p rest (packet q wf) e =
      let same : q ≡ p = cc e in subst (IsWellFormed d l) same wf
  Decoded-IsWellFormed o p rest (failed e h) same = absurd (cc same)

  -- Of the packets that `encode` makes bytes of, exactly the well-formed ones are what `decode`
  -- returns from these bytes: another packet is written without an error, and comes out as a
  -- different one or not at all.
  pub decode-encode_iff :
      (p : VoicePacket d) (bytes : Bytes)
      → encode d p [] ≡ ok bytes
      → IsBytes bytes
      → (decode d bytes ≡ (ok (some p), [])) ↔ IsWellFormed d l p
  decode-encode_iff p bytes e h =
      (λ back. Decoded-IsWellFormed (decode d bytes) p [] (decode-Decoded d l bytes h) back, there)
    where
      there : IsWellFormed d l p → decode d bytes ≡ (ok (some p), [])
      there wf =
          let same : bytes ≡ packet_bytes d l p = cc (e, encode-packet_bytes d l p [] wf) in
          ap (decode d) same ∙ decode-packet_bytes d l p wf
