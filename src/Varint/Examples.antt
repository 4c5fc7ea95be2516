-- ===== src/Varint/Examples.antt =====
-- Runs of the variable-length integers, and their theorems at concrete inputs.
use rust_mumble_protocol.Base.{
  ◌≡◌, refl, arith, ◌↔◌, [], ◌∷◌, ◌++◌, Bytes, length, replicate, suc, ok, panic, ◌>>=◌,
}
use rust_mumble_protocol.Varint.{
  read_varint, read_wide, be32, be64, write_varint, write_varint_calls, plain_bytes,
}
use rust_mumble_protocol.Varint.Format.{Encodes}
use rust_mumble_protocol.Varint.Sound.{read_varint_iff}
use rust_mumble_protocol.Varint.Write.{encoding}
use rust_mumble_protocol.Varint.RoundTrip.{read_varint-write_varint}
use rust_mumble_protocol.Varint.Depth.{read_varint_calls, complemented, read_varint_nested}

write_300 : write_varint [] 300 ≡ ok (0x81 ∷ 0x2c ∷ [])
unfolding write_varint write_varint_calls plain_bytes
write_300 = refl

-- -1 and -6 as u64.
write_minus_one : write_varint [] 0xffff_ffff_ffff_ffff ≡ ok (0xfc ∷ [])
unfolding write_varint write_varint_calls plain_bytes
write_minus_one = refl

write_minus_six : write_varint [] 0xffff_ffff_ffff_fffa ≡ ok (0xf8 ∷ 0x05 ∷ [])
unfolding write_varint write_varint_calls plain_bytes
write_minus_six = refl

abbrev two_bytes : Bytes
two_bytes = 0x81 ∷ 0x2c ∷ 7 ∷ []

read_300 : read_varint two_bytes ≡ ok (300, 7 ∷ [])
unfolding read_varint read_wide
read_300 = refl

read_32_bits : read_varint (0xf0 ∷ 0x12 ∷ 0x34 ∷ 0x56 ∷ 0x78 ∷ []) ≡ ok (0x1234_5678, [])
unfolding read_varint read_wide be32
read_32_bits = refl

-- 0xf4 has bit 2 set and leads eight bytes.
read_64_bits :
    read_varint (0xf4 ∷ 1 ∷ 0 ∷ 0 ∷ 0 ∷ 0 ∷ 0 ∷ 0 ∷ 2 ∷ []) ≡ ok (0x0100_0000_0000_0002, [])
unfolding read_varint read_wide be64
read_64_bits = refl

read_varint-write_varint_example :
    (write_varint [] 0xffff_ffff_ffff_fffa >>= λ bs. read_varint (bs ++ (9 ∷ [])))
    ≡ ok (0xffff_ffff_ffff_fffa, 9 ∷ [])
read_varint-write_varint_example =
    read_varint-write_varint 0xffff_ffff_ffff_fffa (9 ∷ []) (omega arith)

read_varint_iff_example :
    (read_varint two_bytes ≡ ok (300, 7 ∷ []))
    ↔ ((bs : Bytes) × (two_bytes ≡ bs ++ (7 ∷ [])) × Encodes bs 300)
read_varint_iff_example = read_varint_iff two_bytes 300 (7 ∷ []) (omega arith)

read_varint_nested_example :
    let src = replicate 5 0xf8 ++ (encoding 300 ++ (7 ∷ [])) in
    (read_varint src ≡ ok (complemented 5 300, 7 ∷ []))
    × (read_varint_calls 5 src ≡ panic)
    × (read_varint_calls (suc (length src)) src ≡ ok (complemented 5 300, 7 ∷ []))
read_varint_nested_example = read_varint_nested 5 300 (7 ∷ []) (omega arith)
