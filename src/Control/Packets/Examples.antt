-- ===== src/Control/Packets/Examples.antt =====
-- Runs of the parsed control codec with a simple message format in place of protobuf.
use rust_mumble_protocol.Control.Packets.Plain.{plain, plain-IsProtobuf}
use rust_mumble_protocol.Base.{
  ◌≡◌, ◌↔◌, refl, arith, [], ◌∷◌, ◌++◌, some, Bytes, ok, err, unexpected_eof,
}
use rust_mumble_protocol.Voice
use rust_mumble_protocol.Voice.{serverbound}
use rust_mumble_protocol.Voice.Dst.{serverbound-IsLawful}
use rust_mumble_protocol.Control.{RawControlPacket}
use rust_mumble_protocol.Control.Packets.{
  ping, udp_tunnel, id_of, name_of, ControlPacket, parsed, voice_try_from_bytes, raw_from_message,
  try_from, raw_from, decode, encode,
}
use rust_mumble_protocol.Control.Packets.Each.{to_named, try_from-to_named}
use rust_mumble_protocol.Control.Packets.Ids.{name_of_iff}
use rust_mumble_protocol.Control.Packets.RoundTrip.{decode-encode_packet}

abbrev ping_packet : ControlPacket plain serverbound
ping_packet = parsed ping (8 ∷ 42 ∷ [])

abbrev ping_raw : RawControlPacket
ping_raw = record { id = 3; bytes = 8 ∷ 42 ∷ [] }

ping_written : raw_from plain serverbound ping_packet ≡ ok ping_raw
unfolding raw_from raw_from_message
ping_written = refl

name_of_iff_example : (name_of 1 ≡ some udp_tunnel) ↔ (1 ≡ id_of udp_tunnel)
name_of_iff_example = name_of_iff 1 udp_tunnel

decode-encode_packet_example :
    (bs : Bytes) × (encode plain serverbound ping_packet [] ≡ ok ([] ++ bs))
    × (decode plain serverbound (bs ++ (7 ∷ [])) ≡ (ok (some ping_packet), 7 ∷ []))
decode-encode_packet_example =
    decode-encode_packet plain plain-IsProtobuf serverbound serverbound-IsLawful ping_packet
      ping_raw [] (7 ∷ []) tt ping_written (omega arith, omega arith)

-- A tunneled voice packet without a byte.
abbrev empty_tunnel : RawControlPacket
empty_tunnel = record { id = 1; bytes = [] }

empty_tunnel_fails : try_from plain serverbound empty_tunnel ≡ err unexpected_eof
unfolding try_from name_of voice_try_from_bytes Voice.decode
empty_tunnel_fails = refl

try_from-to_named_example :
    try_from plain serverbound empty_tunnel ≡ to_named plain serverbound udp_tunnel empty_tunnel
try_from-to_named_example = try_from-to_named plain serverbound udp_tunnel empty_tunnel refl
