-- ===== src/Varint.antt =====
-- src/varint.rs: 64-bit integers in 1 to 10 bytes. A source of bytes (`io::Read`) is the list
-- of the bytes that it has left, and a writer (`io::Write`, `BufMut`) the list of those that it
-- holds. `u64` arithmetic is written out: `!v` is `not64 v`, and a shift to the left is cut at 64
-- bits.
pub mod Masks
pub mod Format
pub mod Read
pub mod Cases
pub mod Sound
pub mod Write
pub mod RoundTrip
pub mod Depth
pub mod Examples
use rust_mumble_protocol.Base.{ℕ, zero, suc, bit_and, bit_or, [], ◌∷◌, ◌++◌}
use rust_mumble_protocol.Base.{ltb, ◌==◌, if◌then◌else◌, Bytes, u8, not64, ◌>>>◌, ◌<<<◌}
use rust_mumble_protocol.Base.{Result, ok, err, panic, ◌>>=◌, IoError, unexpected_eof}

-- What a read returns: a value and the bytes that are left. A failed read leaves nothing to use.
abbrev pub Read : Type 0 → Type 0
Read A = Result (A × Bytes) IoError

-- `ReadBytesExt::read_u8`.
abbrev pub read_u8 : Bytes → Read ℕ
read_u8 [] = err unexpected_eof
read_u8 (b ∷ buf) = ok (b, buf)

-- `!self.read_varint()?`
abbrev pub negate : Read ℕ → Read ℕ
negate r = r >>= λ p. ok (not64 p.0, p.1)

-- `u64::from(b1) << 24 | u64::from(b2) << 16 | u64::from(b3) << 8 | u64::from(b4)`, and the same
-- for eight bytes.
unfoldable pub be32 : ℕ → ℕ → ℕ → ℕ → ℕ
be32 b1 b2 b3 b4 = bit_or (bit_or (bit_or (b1 <<< 24) (b2 <<< 16)) (b3 <<< 8)) b4

unfoldable pub be64 : ℕ → ℕ → ℕ → ℕ → ℕ → ℕ → ℕ → ℕ → ℕ
be64 b1 b2 b3 b4 b5 b6 b7 b8 =
    bit_or
      (bit_or
        (bit_or
          (bit_or (bit_or (bit_or (bit_or (b1 <<< 56) (b2 <<< 48)) (b3 <<< 40)) (b4 <<< 32))
            (b5 <<< 24))
          (b6 <<< 16))
        (b7 <<< 8))
      b8

-- The forms of more than one byte, behind their first byte `b0`.
unfoldable pub read_wide : ℕ → Bytes → Read ℕ
read_wide b0 buf = do
  (b1, buf) ← read_u8 buf
  if bit_and b0 0b0100_0000 == 0 then ok (bit_or (bit_and b0 0b0011_1111 <<< 8) b1, buf) else (do
    (b2, buf) ← read_u8 buf
    if bit_and b0 0b0010_0000 == 0
        then ok (bit_or (bit_or (bit_and b0 0b0001_1111 <<< 16) (b1 <<< 8)) b2, buf)
        else (do
          (b3, buf) ← read_u8 buf
          if bit_and b0 0b0001_0000 == 0 then ok (be32 (bit_and b0 0x0f) b1 b2 b3, buf) else (do
            (b4, buf) ← read_u8 buf
            if bit_and b0 0b0000_0100 == 0 then ok (be32 b1 b2 b3 b4, buf) else (do
              (b5, buf) ← read_u8 buf
              (b6, buf) ← read_u8 buf
              (b7, buf) ← read_u8 buf
              (b8, buf) ← read_u8 buf
              ok (be64 b1 b2 b3 b4 b5 b6 b7 b8, buf)))))

unfoldable pub read_varint : Bytes → Read ℕ
read_varint [] = err unexpected_eof
read_varint (b0 ∷ buf) =
    if bit_and b0 0b1111_1100 == 0b1111_1000
    then negate (read_varint buf)
    else if bit_and b0 0b1111_1100 == 0b1111_1100
    then ok (not64 (bit_and b0 0x03), buf)
    else if bit_and b0 0b1000_0000 == 0
    then ok (bit_and b0 0b0111_1111, buf)
    else read_wide b0 buf

-- The bytes that `write_varint` writes for a value whose top bit is clear.
unfoldable pub plain_bytes : ℕ → Bytes
plain_bytes value =
    if ltb 0xffff_ffff value
    then 0b1111_0100
      ∷ u8 (value >>> 56)
      ∷ u8 (value >>> 48)
      ∷ u8 (value >>> 40)
      ∷ u8 (value >>> 32)
      ∷ u8 (value >>> 24)
      ∷ u8 (value >>> 16)
      ∷ u8 (value >>> 8)
      ∷ u8 value
      ∷ []
    else if ltb 0x0fff_ffff value
    then 0b1111_0000 ∷ u8 (value >>> 24) ∷ u8 (value >>> 16) ∷ u8 (value >>> 8) ∷ u8 value ∷ []
    else if ltb 0x001f_ffff value
    then bit_or 0b1110_0000 (u8 (value >>> 24))
      ∷ u8 (value >>> 16)
      ∷ u8 (value >>> 8)
      ∷ u8 value
      ∷ []
    else if ltb 0x0000_3fff value
    then bit_or 0b1100_0000 (u8 (value >>> 16)) ∷ u8 (value >>> 8) ∷ u8 value ∷ []
    else if ltb 0x0000_007f value
    then bit_or 0b1000_0000 (u8 (value >>> 8)) ∷ u8 value ∷ []
    else u8 value ∷ []

-- `write_varint` with a bound on the calls that are open at one time. A value with its top bit
-- set makes one more call, on a value without it; past the bound the model panics.
unfoldable pub write_varint_calls : ℕ → Bytes → ℕ → Result Bytes IoError
write_varint_calls zero dst value = panic
write_varint_calls (suc calls) dst value =
    let negated = write_varint_calls calls (dst ++ (0b1111_1000 ∷ [])) (not64 value) in
    if bit_and value 0xffff_ffff_ffff_fffc == 0xffff_ffff_ffff_fffc
    then ok (dst ++ (bit_or 0b1111_1100 (u8 (not64 value)) ∷ []))
    else if bit_and value 0x8000_0000_0000_0000 == 0x8000_0000_0000_0000
    then negated
    else ok (dst ++ plain_bytes value)

-- Two calls are enough.
unfoldable pub write_varint : Bytes → ℕ → Result Bytes IoError
write_varint dst value = write_varint_calls 2 dst value

-- `expect` makes an error a panic.
unfoldable pub put_varint : Bytes → ℕ → Result Bytes IoError
put_varint dst value = elim (write_varint dst value) [
  | ok dst' ↦ ok dst'
  | err e ↦ panic
  | panic ↦ panic
]
