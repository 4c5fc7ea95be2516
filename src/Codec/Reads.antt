-- ===== src/Codec/Reads.antt =====
-- What each decoder makes of any bytes.
use rust_mumble_protocol.Base.{
  ◌<◌, ◌≢◌, refl, ap, subst, arith, Option, none, some, Bytes, IsBytes, IsBytes-append_left,
  IsBytes-append_right, length, length-append, to_be_bytes, Result, ok, err, panic, IoError, [],
  ◌∷◌, ◌++◌,
}
use rust_mumble_protocol.Voice.{VoicePacketDst, VoicePacket}
use rust_mumble_protocol.Voice
use rust_mumble_protocol.Voice.Dst.{IsLawful}
use rust_mumble_protocol.Voice.Total.{Decoded, packet, failed, decode-Decoded}
use rust_mumble_protocol.Control.{RawControlPacket}
use rust_mumble_protocol.Control.Framing.{
  frame, Decodes, whole_frame, incomplete, too_long, decode-Decodes,
}
use rust_mumble_protocol.Control.Packets.{
  Protobuf, MessageName, ControlPacket, message, udp_tunnel, name_of, try_from,
  voice_try_from_bytes, map_ok, map_err, convert,
}
use rust_mumble_protocol.Control.Packets
use rust_mumble_protocol.Crypt.{CryptState, Decrypted, decrypt, flatten_error}
use rust_mumble_protocol.Crypt
use rust_mumble_protocol.Crypt.Ocb.{Aes128}
use rust_mumble_protocol.Crypt.Outcome.{
  Outcome, too_short, refused, forged, accepted, parsed, garbled, decrypt-Outcome,
}
use rust_mumble_protocol.Codec.{
  Decoder, without_state, CodecName, voice_codec, raw_control_codec, control_codec, crypt_state,
  decoder, voice_decoder, raw_control_decoder, control_decoder, crypt_decoder,
}

-- No panic: an item takes something from the buffer, a decoder that waits leaves everything as it is.
pub data Reads (c : Decoder) (s : c.State) (buf : Bytes)
    : Result (Option c.Item) IoError × c.State × Bytes → Type 0 where
  yields :
      (item : c.Item) (s' : c.State) (rest : Bytes)
      → length rest < length buf
      → IsBytes rest
      → Reads c s buf (ok (some item), s', rest)
  waits : Reads c s buf (ok none, s, buf)
  fails : (e : IoError) (s' : c.State) (rest : Bytes) → Reads c s buf (err e, s', rest)

module _ (m : Protobuf)
    (total : (n : MessageName) (bytes : Bytes) → m.parse_from_bytes n bytes ≢ panic) (aes : Aes128)
    (d : VoicePacketDst) (l : IsLawful d) where
  voice-Reads :
      (buf : Bytes) (o : Result (Option (VoicePacket d)) IoError × Bytes)
      → 0 < length buf
      → Decoded d l o
      → Reads (voice_decoder d) tt buf (without_state o)
  voice-Reads buf o h (packet p wf) = yields p tt [] h tt
  voice-Reads buf o h (failed e he) = fails e tt _

  raw-Reads :
      (buf : Bytes) (o : Result (Option RawControlPacket) IoError × Bytes)
      → IsBytes buf
      → Decodes buf o
      → Reads raw_control_decoder tt buf (without_state o)
  raw-Reads buf o h (whole_frame p rest hp e) =
      yields p tt rest (omega (arith, ap length e, length-append (frame p) rest))
        (IsBytes-append_right (frame p) rest (subst IsBytes e h))
  raw-Reads buf o h incomplete = waits
  raw-Reads buf o h (too_long h1 h2) = fails _ tt buf

  crypt-Reads :
      (s : CryptState) (buf : Bytes) (o : Decrypted d)
      → 0 < length buf
      → Outcome aes d l s buf o
      → Reads (crypt_decoder aes d) s buf (flatten_error aes d o.0, o.1, o.2)
  crypt-Reads s buf o h (too_short short) = fails _ _ _
  crypt-Reads s buf o h (refused e nonce long chosen) = fails _ _ _
  crypt-Reads s buf o h (forged nonce late lost tag out long chosen opens other) = fails _ _ _
  crypt-Reads s buf o h
        (accepted nonce late lost tag out r rest long chosen opens same (parsed p wf)) =
      yields p _ [] h tt
  crypt-Reads s buf o h
        (accepted nonce late lost tag out r rest long chosen opens same (garbled e he)) =
      fails _ _ _

  -- The conversion of a raw packet fails or succeeds.
  data Converted : Result (ControlPacket m d) m.Error → Type 0 where
    packet_of : (p : ControlPacket m d) → Converted (ok p)
    error_of : (e : m.Error) → Converted (err e)

  parsed-Converted :
      (n : MessageName) (r : Result (m.Message n) m.Error)
      → r ≢ panic
      → Converted (map_ok (Packets.parsed n) r)
  parsed-Converted n (ok msg) h = packet_of _
  parsed-Converted n (err e) h = error_of e
  parsed-Converted n panic h = absurd (h refl)

  voice-Converted :
      (o : Result (Option (VoicePacket d)) IoError × Bytes)
      → Decoded d l o
      → Converted (map_ok Packets.tunneled (map_err m.from_io (Packets.some_or_panic o.0)))
  voice-Converted o (packet p wf) = packet_of _
  voice-Converted o (failed e h) = error_of _

  try_from-Converted : (p : RawControlPacket) → IsBytes p.bytes → Converted (try_from m d p)
  unfolding try_from voice_try_from_bytes
  try_from-Converted p h =
      elim (name_of p.id)
        as (λ n. Converted (elim n [
          | some (message n) ↦ map_ok (Packets.parsed n) (m.parse_from_bytes n p.bytes)
          | some udp_tunnel ↦
              map_ok Packets.tunneled (map_err m.from_io (voice_try_from_bytes m d p.bytes))
          | none ↦ ok (Packets.unknown p)
        ])) [
          | some (message n) ↦ parsed-Converted n (m.parse_from_bytes n p.bytes) (total n p.bytes)
          | some udp_tunnel ↦
              voice-Converted (Voice.decode d p.bytes) (decode-Decoded d l p.bytes h)
          | none ↦ packet_of _
        ]

  converted-Reads :
      (buf rest : Bytes) (r : Result (ControlPacket m d) m.Error)
      → length rest < length buf
      → IsBytes rest
      → Converted r
      → Reads (control_decoder m d) tt buf (without_state (map_ok some (map_err m.to_io r), rest))
  converted-Reads buf rest r h hr (packet_of p) = yields p tt rest h hr
  converted-Reads buf rest r h hr (error_of e) = fails _ tt rest

  control-Reads :
      (buf : Bytes) (o : Result (Option RawControlPacket) IoError × Bytes)
      → IsBytes buf
      → Decodes buf o
      → Reads (control_decoder m d) tt buf (without_state (convert m d o))
  control-Reads buf o h (whole_frame p rest hp e) =
      converted-Reads buf rest (try_from m d p)
        (omega (arith, ap length e, length-append (frame p) rest))
        (IsBytes-append_right (frame p) rest (subst IsBytes e h))
        (try_from-Converted p (
          IsBytes-append_right (to_be_bytes 4 (length p.bytes)) p.bytes (
            IsBytes-append_right (to_be_bytes 2 p.id) (to_be_bytes 4 (length p.bytes) ++ p.bytes)
              (IsBytes-append_left (frame p) rest (subst IsBytes e h)))))
  control-Reads buf o h incomplete = waits
  control-Reads buf o h (too_long h1 h2) = fails _ tt buf

  -- If the message parser does not panic, then on any bytes no decoder panics: with an item, it takes
  -- a byte at least from the buffer and leaves bytes; and where it asks for more with `Ok(None)`, it
  -- leaves the buffer and its own state as they are.
  pub decoder-Reads :
      (k : CodecName) (s : (decoder m aes d k).State) (buf : Bytes)
      → IsBytes buf
      → Reads (decoder m aes d k) s buf ((decoder m aes d k).decode s buf)
  unfolding Packets.decode Crypt.decode Voice.decode
  decoder-Reads voice_codec s [] h = fails _ _ _
  decoder-Reads voice_codec s (b ∷ buf) h =
      voice-Reads (b ∷ buf) _ (omega arith) (decode-Decoded d l (b ∷ buf) h)
  decoder-Reads raw_control_codec s buf h = raw-Reads buf _ h (decode-Decodes buf h)
  decoder-Reads control_codec s buf h = control-Reads buf _ h (decode-Decodes buf h)
  decoder-Reads crypt_state s [] h = waits
  decoder-Reads crypt_state s (b ∷ buf) h =
      crypt-Reads s (b ∷ buf) _ (omega arith) (decrypt-Outcome aes d l s (b ∷ buf))
