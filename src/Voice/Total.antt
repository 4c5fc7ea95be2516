-- ===== src/Voice/Total.antt =====
-- `decode` on any bytes: it returns a packet or an error, and never panics.
use rust_mumble_protocol.Base.{ℕ, suc, ◌≤◌, ◌≡◌, refl, sym, ap, subst, ◌∙◌, arith, ◌⊎◌, inl, inr}
use rust_mumble_protocol.Base.{
  true, false, List, [], ◌∷◌, ◌++◌, append_assoc, Bytes, IsBytes, IsU64, Option, none, some,
  bit_and, not64, bit_and-low,
}
use rust_mumble_protocol.Base.{
  length, take, length-take, ◌==◌, ==_iff, ◌>>>◌, Bool-cases, lt→ltb, le→ltb, ◌||◌,
}
use rust_mumble_protocol.Base.{Result, ok, err, IoError, unexpected_eof, invalid_data}
use rust_mumble_protocol.Buffer.{resume}
use rust_mumble_protocol.Buffer.Laws.{advance-position, split_to_le}
use rust_mumble_protocol.Varint.{read_varint}
use rust_mumble_protocol.Varint.Sound.{read_varint_cases}
use rust_mumble_protocol.Varint.RoundTrip.{read_varint_takes}
use rust_mumble_protocol.Voice.{
  VoicePacketDst, VoicePacket, ping, audio, VoicePacketPayload, decode,
}
use rust_mumble_protocol.Voice.{
  read_payload, read_framed, read_opus, frames_payload, read_position_info,
}
use rust_mumble_protocol.Voice.Dst.{IsLawful}
use rust_mumble_protocol.Voice.Frames.{Framed, complete, cut, read_frames-Framed}
use rust_mumble_protocol.Voice.Opus.{IsOpusLength, len-IsOpusLength}
use rust_mumble_protocol.Voice.Payload.{IsPayload, IsPosition}
use rust_mumble_protocol.Voice.RoundTrip.{IsWellFormed, decode_audio, decode_ping}
use native.Mathlib.Decide.{dec_lt}

-- A payload that is well formed, or an error.
data PayloadRead : Result VoicePacketPayload IoError × Bytes → Type 0 where
  payload_read : (p : VoicePacketPayload) {src : Bytes} → IsPayload p → PayloadRead (ok p, src)
  payload_failed :
      (e : IoError) {src : Bytes}
      → (e ≡ unexpected_eof) ⊎ (e ≡ invalid_data)
      → PayloadRead (err e, src)

-- The payload that `read_framed` makes of its frames.
Framed-PayloadRead :
    (kind : ℕ) (src : Bytes) (r : Result (List Bytes) IoError × Bytes)
    → (kind ≡ 0) ⊎ ((kind ≡ 2) ⊎ (kind ≡ 3))
    → Framed [] src r
    → PayloadRead (resume (frames_payload kind) r.0 r.1)
unfolding frames_payload
Framed-PayloadRead kind src r (inl k) (complete f fs h e) = rw k (payload_read _ h)
Framed-PayloadRead kind src r (inr (inl k)) (complete f fs h e) = rw k (payload_read _ h)
Framed-PayloadRead kind src r (inr (inr k)) (complete f fs h e) = rw k (payload_read _ h)
Framed-PayloadRead kind src r k cut = payload_failed _ (inl refl)

read_framed-PayloadRead :
    (kind : ℕ) (taken buf : Bytes)
    → (kind ≡ 0) ⊎ ((kind ≡ 2) ⊎ (kind ≡ 3))
    → IsBytes buf
    → PayloadRead (read_framed kind (taken ++ buf) buf (taken ++ buf))
unfolding read_framed
read_framed-PayloadRead kind taken buf k h =
    rw (advance-position taken buf) (
      Framed-PayloadRead kind buf _ k
        (read_frames-Framed (suc (length buf)) [] buf h (omega arith)))

taken_length : (buf : Bytes) (len : ℕ) → len ≤ length buf → len ≡ length (take len buf)
taken_length buf len h = omega (arith, length-take len buf)

-- The header was read, and `buf` is behind it.
read_opus_cases :
    (taken start buf : Bytes) (header : ℕ)
    → read_varint start ≡ ok (header, buf)
    → IsU64 header
    → PayloadRead (read_opus (taken ++ buf) start (taken ++ buf))
unfolding read_opus
read_opus_cases taken start buf header e small =
    let len = bit_and header (not64 0x2000) in
    rw e (
      rw (advance-position taken buf) (elim (dec_lt (length buf) len) [
        | yes short ↦ rw (lt→ltb (length buf) len short) (payload_failed _ (inl refl))
        | no whole ↦
            rw (le→ltb (length buf) len (omega arith), split_to_le len buf (omega arith))
              (payload_read _ (
                subst IsOpusLength (taken_length buf len (omega arith))
                  (len-IsOpusLength header small)))
      ]))

read_opus-PayloadRead :
    (taken buf : Bytes) → IsBytes buf → PayloadRead (read_opus (taken ++ buf) buf (taken ++ buf))
read_opus-PayloadRead taken buf h = elim (read_varint_cases buf h) [
  | inl r ↦
      let after = read_varint_takes buf r.value r.rest h r.reads in
      subst (λ s. PayloadRead (read_opus s buf s))
        (append_assoc taken r.taken r.rest ∙ ap (◌++◌ taken) (sym r.splits))
        (read_opus_cases (taken ++ r.taken) buf r.rest r.value r.reads after.0)
  | inr e ↦ unfold read_opus in rw e (payload_failed _ (inl refl))
]

frame_kind :
    (kind : ℕ)
    → (kind == 0 || (kind == 2 || kind == 3)) ≡ true
    → (kind ≡ 0) ⊎ ((kind ≡ 2) ⊎ (kind ≡ 3))
frame_kind kind e = ground arith

read_payload-PayloadRead :
    (kind : ℕ) (taken buf : Bytes)
    → IsBytes buf
    → PayloadRead (read_payload kind (taken ++ buf) buf (taken ++ buf))
unfolding read_payload
read_payload-PayloadRead kind taken buf h =
    elim (Bool-cases (kind == 0 || (kind == 2 || kind == 3))) [
      | inl e ↦ rw e (read_framed-PayloadRead kind taken buf (frame_kind kind e) h)
      | inr e ↦ elim (Bool-cases (kind == 4)) [
        | inl e4 ↦ rw (e, e4) (read_opus-PayloadRead taken buf h)
        | inr e4 ↦ rw (e, e4) (payload_failed _ (inr refl))
      ]
    ]

read_position_info_lem :
    (src : Bytes) → (o : Option Bytes) × IsPosition o × (read_position_info src ≡ (ok o, []))
unfolding read_position_info
read_position_info_lem [] = (none, tt, refl)
read_position_info_lem (b ∷ src) = (some (b ∷ src), tt, refl)

module _ (d : VoicePacketDst) (l : IsLawful d) where
  -- A well-formed packet with the buffer used up, or an error of the two kinds that `decode` makes.
  pub data Decoded : Result (Option (VoicePacket d)) IoError × Bytes → Type 0 where
    packet : (p : VoicePacket d) → IsWellFormed d l p → Decoded (ok (some p), [])
    failed :
        (e : IoError) {src : Bytes}
        → (e ≡ unexpected_eof) ⊎ (e ≡ invalid_data)
        → Decoded (err e, src)

  audio-Decoded :
      (header : ℕ) (b1 b2 b3 : Bytes) (id : d.SessionId) (seq : ℕ)
      (r : Result VoicePacketPayload IoError × Bytes)
      → (header >>> 5 == 1) ≡ false
      → d.read_session_id b1 ≡ ok (id, b2)
      → read_varint b2 ≡ ok (seq, b3)
      → read_payload (header >>> 5) (header ∷ b1) b3 (header ∷ b1) ≡ r
      → l.IsValid id
      → IsU64 seq
      → PayloadRead r
      → Decoded (decode d (header ∷ b1))
  audio-Decoded header b1 b2 b3 id seq r ne e1 e2 e3 hid hseq (payload_read p {src} hp) =
      let (o, ho, e4) = read_position_info_lem src in
      subst Decoded
        (sym (decode_audio d l header _ _ b1 b2 b3 src id seq p o refl refl ne e1 e2 e3 e4))
        (packet (audio (bit_and header 0b11111) id seq p o)
          (omega (arith, bit_and-low 5 header), hid, hseq, hp, ho))
  audio-Decoded header b1 b2 b3 id seq r ne e1 e2 e3 hid hseq (payload_failed e {src} he) =
      unfold decode in rw ne (rw e1 (rw e2 (rw e3 (failed e he))))

  -- On any bytes `decode` returns a packet that is well formed and leaves the buffer empty, or it
  -- fails with an early end or invalid data. It never panics and never returns `Ok(None)`.
  pub decode-Decoded : (src : Bytes) → IsBytes src → Decoded (decode d src)
  decode-Decoded [] h = unfold decode in failed _ (inl refl)
  decode-Decoded (header ∷ b1) (hb, h) = elim (Bool-cases (header >>> 5 == 1)) [
    | inl kind ↦ elim (read_varint_cases b1 h) [
      | inl r ↦
          subst Decoded
            (sym (decode_ping d l header b1 r.rest r.value ((==_iff _ 1).0 kind) r.reads))
            (packet (ping r.value) (read_varint_takes b1 r.value r.rest h r.reads).0)
      | inr e ↦ unfold decode in rw kind (rw e (failed _ (inl refl)))
    ]
    | inr kind ↦ elim (l.cases b1 h) [
      | inl (id, b2, taken, e1, hid, split, h2) ↦ elim (read_varint_cases b2 h2) [
        | inl r ↦
            let after = read_varint_takes b2 r.value r.rest h2 r.reads in
            let split_all : header ∷ b1 ≡ (header ∷ (taken ++ r.taken)) ++ r.rest =
              ap (◌∷◌ header)
                (split ∙ ap (◌++◌ taken) r.splits ∙ sym (append_assoc taken r.taken r.rest)) in
            audio-Decoded header b1 b2 r.rest id r.value _ kind e1 r.reads
              (ap (λ s. read_payload (header >>> 5) s r.rest s) split_all) hid after.0
              (read_payload-PayloadRead (header >>> 5) (header ∷ (taken ++ r.taken)) r.rest after.1)
        | inr e ↦ unfold decode in rw kind (rw e1 (rw e (failed _ (inl refl))))
      ]
      | inr e ↦ unfold decode in rw kind (rw e (failed _ (inl refl)))
    ]
  ]
