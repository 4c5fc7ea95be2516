-- ===== src/Control/Examples.antt =====
-- Runs of the raw control codec, and its theorems at concrete packets.
use rust_mumble_protocol.Base.{
  ℕ, ◌≡◌, ◌↔◌, refl, arith, [], ◌∷◌, ◌++◌, Bytes, length, length-replicate, replicate, none, some,
  ok, err, other,
}
use rust_mumble_protocol.Control.{RawControlPacket, decode, encode}
use rust_mumble_protocol.Control.Framing.{IsPacket, frame}
use rust_mumble_protocol.Control.RoundTrip.{decode_iff, encode_too_long}
use rust_mumble_protocol.Base.{List}
use rust_mumble_protocol.Control.Stream.{Receives, concatenated, encode_all}
use rust_mumble_protocol.Control.Stream.Chunks.{Receives-encode_all}

abbrev ping_packet : RawControlPacket
ping_packet = record { id = 3; bytes = 8 ∷ 42 ∷ [] }

encode_test : encode ping_packet (1 ∷ []) ≡ ok (1 ∷ 0 ∷ 3 ∷ 0 ∷ 0 ∷ 0 ∷ 2 ∷ 8 ∷ 42 ∷ [])
unfolding encode
encode_test = refl

decode_test : decode (0 ∷ 3 ∷ 0 ∷ 0 ∷ 0 ∷ 2 ∷ 8 ∷ 42 ∷ 0 ∷ []) ≡ (ok (some ping_packet), 0 ∷ [])
unfolding decode
decode_test = refl

decode_waits : decode (0 ∷ 3 ∷ 0 ∷ 0 ∷ 0 ∷ 2 ∷ 8 ∷ []) ≡ (ok none, 0 ∷ 3 ∷ 0 ∷ 0 ∷ 0 ∷ 2 ∷ 8 ∷ [])
unfolding decode
decode_waits = refl

decode_refuses : decode (0 ∷ 3 ∷ 0 ∷ 128 ∷ 0 ∷ 0 ∷ []) ≡ (err other, 0 ∷ 3 ∷ 0 ∷ 128 ∷ 0 ∷ 0 ∷ [])
unfolding decode
decode_refuses = refl

decode_iff_example :
    (decode (0 ∷ 3 ∷ 0 ∷ 0 ∷ 0 ∷ 0 ∷ 9 ∷ []) ≡ (ok (some (record { id = 3; bytes = [] })), 9 ∷ []))
    ↔ (IsPacket (record { id = 3; bytes = [] })
        × (0 ∷ 3 ∷ 0 ∷ 0 ∷ 0 ∷ 0 ∷ 9 ∷ [] ≡ frame (record { id = 3; bytes = [] }) ++ (9 ∷ [])))
decode_iff_example =
    decode_iff (0 ∷ 3 ∷ 0 ∷ 0 ∷ 0 ∷ 0 ∷ 9 ∷ []) (record { id = 3; bytes = [] }) (9 ∷ [])
      (omega arith)

-- A packet of 0x800000 bytes; its length stays a variable of the lemmas.
zeros : ℕ → Bytes
zeros n = replicate n 0

zeros-length : (n : ℕ) → length (zeros n) ≡ n
unfolding zeros
zeros-length n = length-replicate n 0

abbrev long_packet : RawControlPacket
long_packet = record { id = 9; bytes = zeros 0x80_0000 }

encode_too_long_example :
    (bs : Bytes) × (encode long_packet [] ≡ ok ([] ++ bs))
    × (decode (bs ++ []) ≡ (err other, bs ++ []))
encode_too_long_example =
    encode_too_long long_packet [] [] (omega (arith, zeros-length 0x80_0000))
      (omega (arith, zeros-length 0x80_0000))

-- One packet in two chunks.
abbrev two_chunks : List Bytes
two_chunks = (0 ∷ 3 ∷ 0 ∷ []) ∷ (0 ∷ 0 ∷ 2 ∷ 8 ∷ 42 ∷ []) ∷ []

two_chunks-encode_all : encode_all (ping_packet ∷ []) [] ≡ ok (concatenated two_chunks)
unfolding encode_all encode
two_chunks-encode_all = refl

Receives-encode_all_example :
    Receives [] two_chunks (ping_packet ∷ []) []
    × ((qs : List RawControlPacket) (left : Bytes)
        → Receives [] two_chunks qs left
        → (qs ≡ ping_packet ∷ []) × (left ≡ []))
Receives-encode_all_example =
    Receives-encode_all (ping_packet ∷ []) two_chunks
      (((omega arith, omega arith), omega arith), tt) two_chunks-encode_all
