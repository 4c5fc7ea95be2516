-- ===== src/Voice/Examples.antt =====
-- Runs of the voice codec, and its theorems at concrete packets.
use rust_mumble_protocol.Base.{
  ◌≡◌, ◌↔◌, refl, arith, true, [], ◌∷◌, ◌++◌, Bytes, none, some, ok, err, unexpected_eof,
  invalid_data,
}
use rust_mumble_protocol.Varint.{
  read_varint, read_wide, write_varint, write_varint_calls, plain_bytes, put_varint,
}
use rust_mumble_protocol.Voice.{
  VoicePacket, audio, speex, opus, serverbound, clientbound, decode, encode, kind_of, put_payload,
  put_frames, put_position_info, read_payload, read_framed, read_frames, frames_payload,
  read_position_info,
}
use rust_mumble_protocol.Voice.Dst.{serverbound-IsLawful, clientbound-IsLawful}
use rust_mumble_protocol.Voice.RoundTrip.{IsWellFormed, decode-encode}
use rust_mumble_protocol.Voice.Survives.{decode-encode_iff}
use rust_mumble_protocol.Voice.Total.{Decoded, decode-Decoded}

-- The packet of the test in src/crypt.rs: "test" as Opus, from session 42.
abbrev test_packet : VoicePacket clientbound
test_packet = audio 13 42 123567 (opus (116 ∷ 101 ∷ 115 ∷ 116 ∷ []) true) none

encode_test :
    encode clientbound test_packet []
    ≡ ok (0x8d ∷ 42 ∷ 0xc1 ∷ 0xe2 ∷ 0xaf ∷ 0xa0 ∷ 4 ∷ 116 ∷ 101 ∷ 115 ∷ 116 ∷ [])
unfolding encode put_payload put_position_info kind_of put_varint write_varint write_varint_calls
    plain_bytes
encode_test = refl

abbrev two_frames : VoicePacket serverbound
two_frames = audio 1 tt 5 (speex ((7 ∷ 8 ∷ []) ∷ [] ∷ [])) (some (9 ∷ []))

encode-two_frames : encode serverbound two_frames [] ≡ ok (0x41 ∷ 5 ∷ 0x82 ∷ 7 ∷ 8 ∷ 0 ∷ 9 ∷ [])
unfolding encode put_payload put_frames put_position_info kind_of put_varint write_varint
    write_varint_calls plain_bytes
encode-two_frames = refl

decode-two_frames :
    decode serverbound (0x41 ∷ 5 ∷ 0x82 ∷ 7 ∷ 8 ∷ 0 ∷ 9 ∷ []) ≡ (ok (some two_frames), [])
unfolding decode read_payload read_framed read_frames frames_payload read_position_info read_varint
    read_wide
decode-two_frames = refl

-- A frame that is cut leaves the buffer behind the bytes that were looked at.
decode_cut : decode serverbound (0x41 ∷ 5 ∷ 0x82 ∷ 7 ∷ []) ≡ (err unexpected_eof, 7 ∷ [])
unfolding decode read_payload read_framed read_frames frames_payload read_position_info read_varint
    read_wide
decode_cut = refl

decode_unknown : decode serverbound (0xa0 ∷ 5 ∷ 1 ∷ []) ≡ (err invalid_data, 0xa0 ∷ 5 ∷ 1 ∷ [])
unfolding decode read_payload read_framed read_frames frames_payload read_position_info read_varint
    read_wide
decode_unknown = refl

decode-encode_example :
    (bs : Bytes) × (encode clientbound test_packet (1 ∷ []) ≡ ok ((1 ∷ []) ++ bs))
    × (decode clientbound bs ≡ (ok (some test_packet), []))
decode-encode_example =
    decode-encode clientbound clientbound-IsLawful test_packet (1 ∷ [])
      (omega arith, omega arith, omega arith, omega arith, tt)

decode-Decoded_example :
    Decoded serverbound serverbound-IsLawful (decode serverbound (0x41 ∷ 5 ∷ 0x82 ∷ 7 ∷ []))
decode-Decoded_example =
    decode-Decoded serverbound serverbound-IsLawful (0x41 ∷ 5 ∷ 0x82 ∷ 7 ∷ []) (omega arith)

-- The target does not fit its five bits, and is written as 1.
abbrev masked : VoicePacket serverbound
masked = audio 33 tt 5 (speex ((7 ∷ 8 ∷ []) ∷ [] ∷ [])) (some (9 ∷ []))

encode-masked : encode serverbound masked [] ≡ ok (0x41 ∷ 5 ∷ 0x82 ∷ 7 ∷ 8 ∷ 0 ∷ 9 ∷ [])
unfolding encode put_payload put_frames put_position_info kind_of put_varint write_varint
    write_varint_calls plain_bytes
encode-masked = refl

decode-encode_iff_example :
    (decode serverbound (0x41 ∷ 5 ∷ 0x82 ∷ 7 ∷ 8 ∷ 0 ∷ 9 ∷ []) ≡ (ok (some masked), []))
    ↔ IsWellFormed serverbound serverbound-IsLawful masked
decode-encode_iff_example =
    decode-encode_iff serverbound serverbound-IsLawful masked (0x41 ∷ 5 ∷ 0x82 ∷ 7 ∷ 8 ∷ 0 ∷ 9 ∷ [])
      encode-masked (omega arith)
