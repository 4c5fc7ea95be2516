-- ===== src/Voice.antt =====
-- src/voice.rs: voice packets, their directions and their codec. `usize` has 64 bits.
pub mod Frames
pub mod Opus
pub mod Dst
pub mod Payload
pub mod RoundTrip
pub mod Total
pub mod Survives
pub mod Examples
use rust_mumble_protocol.Base.{
  ℕ, zero, suc, ◌*◌, ◌%◌, ◌^◌, bit_and, bit_or, Bool, true, false, not, ◌||◌,
}
use rust_mumble_protocol.Base.{List, [], ◌∷◌, ◌++◌, Option, none, some, ltb, ◌==◌, if◌then◌else◌}
use rust_mumble_protocol.Base.{Bytes, length, take, drop, u8, u32, not64, ◌>>>◌}
use rust_mumble_protocol.Base.{Result, ok, err, panic, IoError, unexpected_eof, invalid_data}
use rust_mumble_protocol.Base
use rust_mumble_protocol.Buffer.{
  Step, ◌>>=◌, ◌>>◌, lift, pure, is_empty, first_byte, advance, split_to, split, contents, position,
  resume,
}
use rust_mumble_protocol.Varint.{Read, read_u8, read_varint, put_varint}

-- The sealed trait of packet directions.
pub record VoicePacketDst : Type 1 where
  pub SessionId : Type 0
  pub read_session_id : Bytes → Read SessionId
  pub write_session_id : Bytes → SessionId → Result Bytes IoError

-- Packets to the server carry no session id.
abbrev pub serverbound : VoicePacketDst
serverbound = record {
  SessionId = Unit;
  read_session_id = λ buf. ok (tt, buf);
  write_session_id = λ buf _. ok buf;
}

unfoldable pub read_u32 : Bytes → Read ℕ
read_u32 buf = Base.◌>>=◌ (read_varint buf) (λ p. ok (u32 p.0, p.1))

abbrev pub clientbound : VoicePacketDst
clientbound = record { SessionId = ℕ; read_session_id = read_u32; write_session_id = put_varint }

pub data VoicePacketPayload : Type 0 where
  celt_alpha : List Bytes → VoicePacketPayload
  celt_beta : List Bytes → VoicePacketPayload
  speex : List Bytes → VoicePacketPayload
  opus : Bytes → Bool → VoicePacketPayload

pub data VoicePacket (d : VoicePacketDst) : Type 0 where
  ping : ℕ → VoicePacket d
  audio :
      (target : ℕ)
      → d.SessionId
      → (seq_num : ℕ) → VoicePacketPayload
      → (position_info : Option Bytes) → VoicePacket d

-- The loop over length-prefixed frames. Each round takes a byte at least, so as much fuel as there
-- are bytes is enough; with none left the model panics.
unfoldable pub read_frames : ℕ → List Bytes → Step (List Bytes)
read_frames zero frames src = (panic, src)
read_frames (suc fuel) frames src =
    let next = read_frames fuel in
    if is_empty src
    then (err unexpected_eof, src)
    else (do
      header ← first_byte
      advance 1
      let len = bit_and header 0b0111_1111
      src ← contents
      if ltb (length src) len then lift (err unexpected_eof) else (do
        frame ← split_to len
        if bit_and header 0x80 == 0x80
            then next (frames ++ (frame ∷ []))
            else pure (frames ++ (frame ∷ []))))
        src

-- The inner `match kind` of the frame kinds.
unfoldable pub frames_payload : ℕ → List Bytes → Step VoicePacketPayload
frames_payload kind frames =
    if kind == 0
    then pure (celt_alpha frames)
    else if kind == 2
    then pure (speex frames)
    else if kind == 3
    then pure (celt_beta frames)
    else lift panic

unfoldable pub read_framed : ℕ → Bytes → Bytes → Step VoicePacketPayload
read_framed kind start buf = do
  advance (position start buf)
  src ← contents
  frames ← read_frames (suc (length src)) []
  frames_payload kind frames

unfoldable pub read_opus : Bytes → Bytes → Step VoicePacketPayload
read_opus start buf = do
  (header, buf) ← lift (read_varint buf)
  advance (position start buf)
  let termination_bit = bit_and header 0x2000 == 0x2000
  let len = bit_and header (not64 0x2000)
  src ← contents
  if ltb (length src) len
      then lift (err unexpected_eof)
      else (do frame ← split_to len; pure (opus frame termination_bit))

-- `match kind` of `decode`, on the start of the buffer and what the cursor has left of it.
unfoldable pub read_payload : ℕ → Bytes → Bytes → Step VoicePacketPayload
read_payload kind start buf =
    if kind == 0 || (kind == 2 || kind == 3)
    then read_framed kind start buf
    else if kind == 4
    then read_opus start buf
    else lift (err invalid_data)

-- `if src.is_empty() { None } else { Some(src.split().freeze()) }`
unfoldable pub read_position_info : Step (Option Bytes)
read_position_info [] = (ok none, [])
read_position_info (b ∷ src) = (split >>= λ bytes. pure (some bytes)) (b ∷ src)

module _ (d : VoicePacketDst) where
  unfoldable pub decode : Step (Option (VoicePacket d))
  decode src0 =
      (do
        (header, buf) ← lift (read_u8 src0)
        let kind = header >>> 5
        let target = bit_and header 0b11111
        if kind == 1
            then (do
              (timestamp, buf) ← lift (read_varint buf)
              src ← contents
              advance (length src)
              pure (some (ping timestamp)))
            else (do
              (session_id, buf) ← lift (d.read_session_id buf)
              (seq_num, buf) ← lift (read_varint buf)
              payload ← read_payload kind src0 buf
              position_info ← read_position_info
              pure (some (audio target session_id seq_num payload position_info))))
        src0

-- The number of the payload's kind.
unfoldable pub kind_of : VoicePacketPayload → ℕ
kind_of (celt_alpha frames) = 0
kind_of (speex frames) = 2
kind_of (celt_beta frames) = 3
kind_of (opus frame termination_bit) = 4

-- The `peekable` loop: every frame but the last has the continuation bit.
unfoldable pub put_frames : List Bytes → Bytes → Bytes
put_frames [] dst = dst
put_frames (frame ∷ frames) dst =
    let continuation : ℕ = elim frames [ [] ↦ 0 | _ ↦ 0x80 ] in
    put_frames frames (dst ++ (bit_or continuation (u8 (length frame)) ∷ frame))

unfoldable pub put_payload : VoicePacketPayload → Bytes → Result Bytes IoError
put_payload (celt_alpha frames) dst = ok (put_frames frames dst)
put_payload (speex frames) dst = ok (put_frames frames dst)
put_payload (celt_beta frames) dst = ok (put_frames frames dst)
put_payload (opus frame termination_bit) dst =
    let term_bit : ℕ = if termination_bit then 0x2000 else 0 in
    Base.◌>>=◌ (put_varint dst (bit_or term_bit (length frame))) (λ dst. ok (dst ++ frame))

unfoldable pub put_position_info : Option Bytes → Bytes → Bytes
put_position_info none dst = dst
put_position_info (some bytes) dst = dst ++ bytes

module _ (d : VoicePacketDst) where
  -- `Ok(())` with the buffer that `dst` has become. `reserve` changes no byte.
  unfoldable pub encode : VoicePacket d → Bytes → Result Bytes IoError
  encode (ping timestamp) dst = put_varint (dst ++ (0x20 ∷ [])) timestamp
  encode (audio target session_id seq_num payload position_info) dst =
      let header = bit_or (u8 (kind_of payload * 2 ^ 5)) (bit_and target 0b11111) in
      let rest = λ (dst : Bytes). Base.◌>>=◌ (put_varint dst seq_num) (λ dst.
        Base.◌>>=◌ (put_payload payload dst) (λ dst. ok (put_position_info position_info dst))) in
      Base.◌>>=◌ (d.write_session_id (dst ++ (header ∷ [])) session_id) rest
