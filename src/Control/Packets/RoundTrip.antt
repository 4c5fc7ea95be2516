-- ===== src/Control/Packets/RoundTrip.antt =====
-- src/control.rs: parsed packets through their raw form and through `ControlCodec`.
use rust_mumble_protocol.Base.{
  ◌≡◌, refl, sym, ap, ◌∙◌, none, some, [], ◌++◌, Bytes, Result, ok, err, panic,
}
use rust_mumble_protocol.Voice.{VoicePacketDst, VoicePacket}
use rust_mumble_protocol.Voice.Dst.{IsLawful}
use rust_mumble_protocol.Voice.RoundTrip.{
  IsWellFormed, packet_bytes, encode-packet_bytes, decode-packet_bytes,
}
use rust_mumble_protocol.Control.{RawControlPacket}
use rust_mumble_protocol.Control.Framing.{IsPacket, frame, decode-frame}
use rust_mumble_protocol.Control.RoundTrip.{decode-encode_raw}
use rust_mumble_protocol.Control.Packets.{
  MessageName, message, udp_tunnel, message_id, name_of, Protobuf, map_ok, unwrap, ControlPacket,
  parsed, tunneled, unknown, voice_try_from_bytes, raw_from_message, raw_from_voice, try_from,
  raw_from, decode, encode,
}
use rust_mumble_protocol.Control.Packets.Ids.{name_of_iff}

-- The protobuf library parses what it has written.
pub record IsProtobuf (m : Protobuf) : Type 0 where
  pub parse-write :
      (n : MessageName) (msg : m.Message n) (bytes : Bytes)
      → m.write_to_bytes n msg ≡ ok bytes
      → m.parse_from_bytes n bytes ≡ ok msg

module _ (m : Protobuf) (pb : IsProtobuf m) (d : VoicePacketDst) (l : IsLawful d) where
  -- A voice packet must fit its format, and a raw packet must not have the id of a known one.
  abbrev pub IsSendable : ControlPacket m d → Type 0
  IsSendable (parsed n msg) = Unit
  IsSendable (tunneled p) = IsWellFormed d l p
  IsSendable (unknown packet) = name_of packet.id ≡ none

  try_from_bytes :
      (n : MessageName) (msg : m.Message n) (bytes : Bytes)
      → m.parse_from_bytes n bytes ≡ ok msg
      → try_from m d (record { id = message_id n; bytes = bytes }) ≡ ok (parsed n msg)
  unfolding try_from
  try_from_bytes n msg bytes e =
      rw (try_from, (name_of_iff (message_id n) (message n)).1 refl) (rw e refl)

  raw_from_message-inverse :
      (n : MessageName) (msg : m.Message n) (raw : RawControlPacket) (r : Result Bytes m.Error)
      → m.write_to_bytes n msg ≡ r
      → map_ok {E = m.Error} (λ bytes. record { id = message_id n; bytes = bytes }) (unwrap r)
        ≡ ok raw
      → try_from m d raw ≡ ok (parsed n msg)
  raw_from_message-inverse n msg raw (ok bytes) e h =
      let same : record { id = message_id n; bytes = bytes } ≡ raw = cc in
      ap (try_from m d) (sym same) ∙ try_from_bytes n msg bytes (pb.parse-write n msg bytes e)
  raw_from_message-inverse n msg raw (err x) e h = cc
  raw_from_message-inverse n msg raw panic e h = cc

  voice_try_from_bytes-packet_bytes :
      (p : VoicePacket d)
      → IsWellFormed d l p
      → try_from m d (record { id = 1; bytes = packet_bytes d l p }) ≡ ok (tunneled p)
  unfolding try_from voice_try_from_bytes
  voice_try_from_bytes-packet_bytes p wf =
      rw (try_from, (name_of_iff 1 udp_tunnel).1 refl)
        (rw (voice_try_from_bytes, decode-packet_bytes d l p wf) refl)

  raw_from_voice-inverse :
      (p : VoicePacket d) (raw : RawControlPacket)
      → IsWellFormed d l p
      → raw_from_voice m d p ≡ ok raw
      → try_from m d raw ≡ ok (tunneled p)
  unfolding raw_from_voice
  raw_from_voice-inverse p raw wf h =
      let written : raw_from_voice m d p ≡ ok (record { id = 1; bytes = packet_bytes d l p }) =
        rw (raw_from_voice, encode-packet_bytes d l p [] wf) refl in
      let same : record { id = 1; bytes = packet_bytes d l p } ≡ raw = cc in
      ap (try_from m d) (sym same) ∙ voice_try_from_bytes-packet_bytes p wf

  -- If protobuf parses what it writes, a packet that is sendable and has a raw form is what that raw
  -- form is parsed as, whichever of the kinds it is.
  pub try_from-raw_from :
      (p : ControlPacket m d) (raw : RawControlPacket)
      → IsSendable p
      → raw_from m d p ≡ ok raw
      → try_from m d raw ≡ ok p
  unfolding raw_from raw_from_message try_from
  try_from-raw_from (parsed n msg) raw wf h =
      raw_from_message-inverse n msg raw (m.write_to_bytes n msg) refl h
  try_from-raw_from (tunneled p) raw wf h = raw_from_voice-inverse p raw wf h
  try_from-raw_from (unknown packet) raw wf h = ap (try_from m d) same ∙ unknown_kept
    where
      same : raw ≡ packet
      same = cc

      unknown_kept : try_from m d packet ≡ ok (unknown packet)
      unknown_kept = rw (try_from, wf) refl

  -- If protobuf parses what it writes, and a packet is sendable and has a raw form whose id has 16
  -- bits and whose length is at most 0x7fffff, then `ControlCodec::encode` appends bytes from
  -- which `decode` returns the packet, leaving whatever follows.
  pub decode-encode_packet :
      (p : ControlPacket m d) (raw : RawControlPacket) (dst rest : Bytes)
      → IsSendable p
      → raw_from m d p ≡ ok raw
      → IsPacket raw
      → (bs : Bytes) × (encode m d p dst ≡ ok (dst ++ bs))
        × (decode m d (bs ++ rest) ≡ (ok (some p), rest))
  unfolding encode decode
  decode-encode_packet p raw dst rest wf h fits =
      let (bs, e1, e2) = decode-encode_raw raw dst rest fits in
      (bs, rw (encode, h) e1, rw (decode, e2) (rw (try_from-raw_from p raw wf h) refl))

  -- A whole frame whose message does not parse makes `decode` return the parser's error, converted,
  -- with the frame gone and what follows it left.
  pub decode-parse_error :
      (raw : RawControlPacket) (rest : Bytes) (e : m.Error)
      → IsPacket raw
      → try_from m d raw ≡ err e
      → decode m d (frame raw ++ rest) ≡ (err (m.to_io e), rest)
  unfolding decode
  decode-parse_error raw rest e fits h = rw (decode, decode-frame raw rest fits) (rw h refl)
