-- ===== src/Codec/Examples.antt =====
-- The codecs on concrete bytes, with a simple message format and a simple cipher.
use rust_mumble_protocol.Control.Packets.Plain.{plain, plain-IsProtobuf, plain-total}
use rust_mumble_protocol.Base.{arith, [], ◌∷◌, Bytes, ok}
use rust_mumble_protocol.Voice.{serverbound}
use rust_mumble_protocol.Voice.Dst.{serverbound-IsLawful}
use rust_mumble_protocol.Control.{RawControlPacket}
use rust_mumble_protocol.Control
use rust_mumble_protocol.Control.Stream.{concatenated}
use rust_mumble_protocol.Control.Packets
use rust_mumble_protocol.Control.Packets.{
  Protobuf, MessageName, ControlPacket, parsed, unknown, ping, name_of, raw_from, raw_from_message,
}
use rust_mumble_protocol.Crypt.Ocb.Examples.{flips}
use rust_mumble_protocol.Codec.{decoder, control_codec}
use rust_mumble_protocol.Codec.Stream.{write_all, receive-write_all, one_written, none_written}
use rust_mumble_protocol.Base.{List, ◌≡◌, none, refl}
use rust_mumble_protocol.Codec.{control_decoder, control_encoder}
use rust_mumble_protocol.Codec.Loop.{receive, waiting, Ends, read_all, decoders-Ends}

-- A ping, and a frame of which one byte is missing.
abbrev received : Bytes
received = 0 ∷ 3 ∷ 0 ∷ 0 ∷ 0 ∷ 2 ∷ 8 ∷ 42 ∷ 0 ∷ 4 ∷ 0 ∷ 0 ∷ 0 ∷ 1 ∷ []

decoders-Ends_example :
    Ends
      (decoder plain flips serverbound control_codec)
      received
      (read_all (decoder plain flips serverbound control_codec) 15 tt received)
decoders-Ends_example =
    decoders-Ends plain flips serverbound plain-total serverbound-IsLawful control_codec tt received
      (omega arith)

abbrev ping_packet : ControlPacket plain serverbound
ping_packet = parsed ping (8 ∷ 42 ∷ [])

abbrev unnamed : RawControlPacket
unnamed = record { id = 1000; bytes = 7 ∷ [] }

-- Cut within the first frame's length, before its last byte, and before the second frame's last one.
abbrev chunks : List Bytes
chunks =
    (0 ∷ 3 ∷ 0 ∷ []) ∷ (0 ∷ 0 ∷ 2 ∷ 8 ∷ []) ∷ (42 ∷ 3 ∷ 232 ∷ 0 ∷ 0 ∷ 0 ∷ 1 ∷ []) ∷ (7 ∷ []) ∷ []

written :
    write_all (control_encoder plain serverbound) tt (ping_packet ∷ unknown unnamed ∷ []) []
    ≡ ok (tt, concatenated chunks)
unfolding write_all Packets.encode raw_from raw_from_message Control.encode
written = refl

unnamed-unknown : name_of 1000 ≡ none
unfolding name_of
unnamed-unknown = refl

ping_written : raw_from plain serverbound ping_packet ≡ ok (record { id = 3; bytes = 8 ∷ 42 ∷ [] })
unfolding raw_from raw_from_message
ping_written = refl

unnamed_written : raw_from plain serverbound (unknown unnamed) ≡ ok unnamed
unfolding raw_from
unnamed_written = refl

receive-write_all_example :
    receive (control_decoder plain serverbound) tt [] chunks
    ≡ record { items = ping_packet ∷ unknown unnamed ∷ []; state = tt; left = []; ending = waiting }
receive-write_all_example =
    receive-write_all plain serverbound plain-IsProtobuf serverbound-IsLawful
      (ping_packet ∷ unknown unnamed ∷ []) (record { id = 3; bytes = 8 ∷ 42 ∷ [] } ∷ unnamed ∷ [])
      chunks
      (one_written ping_packet (record { id = 3; bytes = 8 ∷ 42 ∷ [] }) ping_written
        (omega arith, omega arith) (omega arith)
        (one_written (unknown unnamed) unnamed unnamed_written (omega arith, omega arith)
          (omega arith) none_written))
      (tt, (unnamed-unknown, tt)) written
