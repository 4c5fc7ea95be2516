-- ===== src/Voice/Payload.antt =====
-- The bytes of a payload and of the positional data, written and read back.
use rust_mumble_protocol.Base.{
  ℕ, zero, suc, ◌+◌, ◌-◌, ◌*◌, ◌^◌, ◌≤◌, ◌<◌, ◌≡◌, refl, sym, ap, ap₂, ◌∙◌, arith,
}
use rust_mumble_protocol.Base.{
  Bool, true, false, List, [], ◌∷◌, ◌++◌, append_assoc, append-nil, All, Bytes, Option, none, some,
}
use rust_mumble_protocol.Base.{
  length, length-append, take, drop, take-append_length, drop-append_length, ltb, if◌then◌else◌,
  le→ltb, bit_and, bit_or, not64, ◌==◌,
}
use rust_mumble_protocol.Base.{Result, ok, err, panic, IoError}
use rust_mumble_protocol.Base
use rust_mumble_protocol.Buffer.Laws.{advance-position, split_to-append}
use rust_mumble_protocol.Varint.{read_varint, put_varint}
use rust_mumble_protocol.Varint.Write.{encoding, put_varint-encoding}
use rust_mumble_protocol.Varint.RoundTrip.{read_varint-encoding}
use rust_mumble_protocol.Voice.{VoicePacketPayload, celt_alpha, celt_beta, speex, opus, kind_of}
use rust_mumble_protocol.Voice.{
  put_payload, put_position_info, read_payload, read_framed, read_opus, frames_payload,
  read_position_info,
}
use rust_mumble_protocol.Voice.Frames.{
  IsFrame, frames_bytes, put_frames-frames_bytes, read_frames-frames_bytes,
}
use rust_mumble_protocol.Voice.Opus.{
  IsOpusLength, opus_header, opus_header-lt, bit_or-term, header_fields,
}

-- At least one frame, each with a length of seven bits.
abbrev pub IsFrames : List Bytes → Type 0
IsFrames [] = ⊥
IsFrames (f ∷ fs) = All IsFrame (f ∷ fs)

abbrev pub IsPayload : VoicePacketPayload → Type 0
IsPayload (celt_alpha frames) = IsFrames frames
IsPayload (celt_beta frames) = IsFrames frames
IsPayload (speex frames) = IsFrames frames
IsPayload (opus frame termination_bit) = IsOpusLength (length frame)

abbrev pub payload_bytes : VoicePacketPayload → Bytes
payload_bytes (celt_alpha frames) = frames_bytes frames
payload_bytes (celt_beta frames) = frames_bytes frames
payload_bytes (speex frames) = frames_bytes frames
payload_bytes (opus frame termination_bit) =
    encoding (opus_header termination_bit (length frame)) ++ frame

IsFrames-All : (fs : List Bytes) → IsFrames fs → All IsFrame fs
IsFrames-All [] h = absurd h
IsFrames-All (f ∷ fs) h = h

pub put_payload-payload_bytes :
    (p : VoicePacketPayload) (dst : Bytes)
    → IsPayload p
    → put_payload p dst ≡ ok (dst ++ payload_bytes p)
unfolding put_payload
put_payload-payload_bytes (celt_alpha fs) dst h =
    ap ok (put_frames-frames_bytes fs dst (IsFrames-All fs h))
put_payload-payload_bytes (celt_beta fs) dst h =
    ap ok (put_frames-frames_bytes fs dst (IsFrames-All fs h))
put_payload-payload_bytes (speex fs) dst h =
    ap ok (put_frames-frames_bytes fs dst (IsFrames-All fs h))
put_payload-payload_bytes (opus f t) dst h =
    ap (λ n. Base.◌>>=◌ (put_varint dst n) (λ dst. ok (dst ++ f))) (bit_or-term t (length f) h)
    ∙ ap (λ r. Base.◌>>=◌ r (λ dst. ok (dst ++ f)))
        (put_varint-encoding dst (opus_header t (length f)) (opus_header-lt t (length f) h))
    ∙ ap ok (append_assoc dst (encoding (opus_header t (length f))) f)

frames_enough :
    (f : Bytes) (fs : List Bytes) (rest : Bytes)
    → length fs ≤ length (frames_bytes (f ∷ fs) ++ rest)
frames_enough f [] rest = omega arith
frames_enough f (g ∷ fs) rest = omega (
  arith,
  length-append f (frames_bytes (g ∷ fs)),
  length-append (f ++ frames_bytes (g ∷ fs)) rest,
  length-append (frames_bytes (g ∷ fs)) rest,
  frames_enough g fs rest,
)

read_framed-frames_bytes :
    (kind : ℕ) (taken : Bytes) (f : Bytes) (fs : List Bytes) (rest : Bytes)
    → All IsFrame (f ∷ fs)
    → let buf = frames_bytes (f ∷ fs) ++ rest in
      read_framed kind (taken ++ buf) buf (taken ++ buf) ≡ frames_payload kind (f ∷ fs) rest
unfolding read_framed
read_framed-frames_bytes kind taken f fs rest h =
    rw (advance-position taken (frames_bytes (f ∷ fs) ++ rest)) (
      rw
        (read_frames-frames_bytes f fs (suc (length (frames_bytes (f ∷ fs) ++ rest))) [] rest h
          (omega (arith, frames_enough f fs rest)))
        refl)

read_opus_step :
    (taken buf f rest : Bytes) (header : ℕ)
    → read_varint buf ≡ ok (header, f ++ rest)
    → bit_and header (not64 0x2000) ≡ length f
    → read_opus (taken ++ (f ++ rest)) buf (taken ++ (f ++ rest))
      ≡ (ok (opus f (bit_and header 0x2000 == 0x2000)), rest)
unfolding read_opus
read_opus_step taken buf f rest header e len =
    rw e (
      rw (advance-position taken (f ++ rest)) (rw len (rw fits (rw (split_to-append f rest) refl))))
  where
    fits : ltb (length (f ++ rest)) (length f) ≡ false
    fits = le→ltb _ _ (omega (arith, length-append f rest))

read_opus-bytes :
    (taken f rest : Bytes) (t : Bool)
    → IsOpusLength (length f)
    → let buf = (encoding (opus_header t (length f)) ++ f) ++ rest in
      read_opus (taken ++ buf) buf (taken ++ buf) ≡ (ok (opus f t), rest)
read_opus-bytes taken f rest t h =
    let header = opus_header t (length f) in
    let fields = header_fields t (length f) h in
    let step =
      read_opus_step (taken ++ encoding header) (encoding header ++ (f ++ rest)) f rest header
        (read_varint-encoding header (f ++ rest) (opus_header-lt t (length f) h)) fields.1 in
    rw (append_assoc (encoding header) f rest) (
      rw (← append_assoc taken (encoding header) (f ++ rest))
        (step ∙ ap (λ b. (ok (opus f b), rest)) fields.0))

-- A payload behind what the cursor has taken is read back.
pub read_payload-payload_bytes :
    (p : VoicePacketPayload) (taken rest : Bytes)
    → IsPayload p
    → let buf = payload_bytes p ++ rest in
      read_payload (kind_of p) (taken ++ buf) buf (taken ++ buf) ≡ (ok p, rest)
unfolding read_payload kind_of
read_payload-payload_bytes (celt_alpha []) taken rest h = absurd h
read_payload-payload_bytes (celt_alpha (f ∷ fs)) taken rest h =
    read_framed-frames_bytes 0 taken f fs rest h ∙ unfold frames_payload in refl
read_payload-payload_bytes (celt_beta []) taken rest h = absurd h
read_payload-payload_bytes (celt_beta (f ∷ fs)) taken rest h =
    read_framed-frames_bytes 3 taken f fs rest h ∙ unfold frames_payload in refl
read_payload-payload_bytes (speex []) taken rest h = absurd h
read_payload-payload_bytes (speex (f ∷ fs)) taken rest h =
    read_framed-frames_bytes 2 taken f fs rest h ∙ unfold frames_payload in refl
read_payload-payload_bytes (opus f t) taken rest h = read_opus-bytes taken f rest t h

-- Positional data is not empty: an empty one cannot be told from none.
abbrev pub IsPosition : Option Bytes → Type 0
IsPosition none = Unit
IsPosition (some []) = ⊥
IsPosition (some (b ∷ bytes)) = Unit

abbrev pub position_bytes : Option Bytes → Bytes
position_bytes none = []
position_bytes (some bytes) = bytes

pub put_position_info-position_bytes :
    (o : Option Bytes) (dst : Bytes) → put_position_info o dst ≡ dst ++ position_bytes o
unfolding put_position_info
put_position_info-position_bytes none dst = sym (append-nil dst)
put_position_info-position_bytes (some bytes) dst = refl

pub read_position_info-position_bytes :
    (o : Option Bytes) → IsPosition o → read_position_info (position_bytes o) ≡ (ok o, [])
unfolding read_position_info
read_position_info-position_bytes none h = refl
read_position_info-position_bytes (some []) h = absurd h
read_position_info-position_bytes (some (b ∷ bytes)) h = refl
