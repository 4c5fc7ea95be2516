-- ===== src/Control.antt =====
-- src/control.rs, the raw codec: framed packets of a 16-bit id, a 32-bit length and the bytes.
-- `usize` has 64 bits.
pub mod Framing
pub mod RoundTrip
pub mod Packets
pub mod Stream
mod Examples
use rust_mumble_protocol.Base.{
  ℕ, ◌+◌, ltb, leb, if◌then◌else◌, Option, none, some, ◌++◌, Bytes, u32, length, take, drop,
}
use rust_mumble_protocol.Base.{to_be_bytes, from_be_bytes, Result, ok, err, panic, IoError, other}
use rust_mumble_protocol.Buffer.{Step, ◌>>=◌, ◌>>◌, lift, pure, advance, split_to, contents, resume}

pub record RawControlPacket : Type 0 where
  pub id : ℕ
  pub bytes : Bytes

-- `Buf::get_u16` and `Buf::get_u32` on a cursor over the buffer, at the positions 0 and 2.
abbrev pub get_u16 : Bytes → ℕ
get_u16 buf = from_be_bytes (take 2 buf)

abbrev pub get_u32 : Bytes → ℕ
get_u32 buf = from_be_bytes (take 4 buf)

-- A step on a buffer that was split off, which is then frozen.
abbrev frozen_after : Step (Unit {0}) → Bytes → Result Bytes IoError
frozen_after m bytes = frozen (m bytes)
  where
    frozen : Result (Unit {0}) IoError × Bytes → Result Bytes IoError
    frozen (ok a, bytes') = ok bytes'
    frozen (err e, bytes') = err e
    frozen (panic, bytes') = panic

-- `RawControlCodec::decode`.
unfoldable pub decode : Step (Option RawControlPacket)
decode = do
  buf ← contents
  let buf_len = length buf
  if leb 6 buf_len
      then (do
        let id = get_u16 buf
        let len = get_u32 (drop 2 buf)
        if ltb 0x7f_ffff len
            then lift (err other)
            else (if leb (6 + len) buf_len
                then (do
                  bytes ← split_to (6 + len)
                  bytes ← lift (frozen_after (advance 6) bytes)
                  pure (some (record { id = id; bytes = bytes })))
                else pure none))
      else pure none

-- `RawControlCodec::encode`.
unfoldable pub encode : RawControlPacket → Bytes → Result Bytes IoError
encode item dst =
    let len = length item.bytes in
    ok (dst ++ (to_be_bytes 2 item.id ++ (to_be_bytes 4 (u32 len) ++ item.bytes)))
