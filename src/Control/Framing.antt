-- ===== src/Control/Framing.antt =====
-- What the raw codec decodes, and that it decodes what it encodes.
use rust_mumble_protocol.Base.{
  ℕ, suc, ◌+◌, ◌^◌, ◌≤◌, ◌<◌, ◌≡◌, refl, sym, ap, ap₂, ◌∙◌, subst, arith,
}
use rust_mumble_protocol.Base.{
  ◌++◌, append_assoc, Bytes, IsBytes, IsBytes-append, Option, none, some,
}
use rust_mumble_protocol.Base.{
  length, length-append, take, drop, length-take, length-drop, take-append_le, drop-append_le,
  take-append_length, drop-append_length, slice, slice-append-drop, length-slice, drop-take,
  slice_number,
}
use rust_mumble_protocol.Base.{
  to_be_bytes, from_be_bytes, to_be_bytes-IsBytes, from_be_bytes-to_be_bytes, Result, ok, err,
  IoError, other,
}
use rust_mumble_protocol.Control.{RawControlPacket, get_u16, get_u32, decode}
use native.Mathlib.Decide.{dec_lt}

-- The longest packet that `decode` takes.
abbrev pub max_len : ℕ
max_len = 0x7f_ffff

-- A packet whose fields fit the frame.
abbrev pub IsPacket : RawControlPacket → Type 0
IsPacket p = (p.id < 2 ^ 16) × (length p.bytes ≤ max_len)

abbrev pub frame : RawControlPacket → Bytes
frame p = to_be_bytes 2 p.id ++ (to_be_bytes 4 (length p.bytes) ++ p.bytes)

abbrev pub len_of : Bytes → ℕ
len_of buf = get_u32 (drop 2 buf)

-- The four branches.
decode_short : (buf : Bytes) → length buf < 6 → decode buf ≡ (ok none, buf)
unfolding decode
decode_short buf h = ground arith

pub decode_too_long :
    (buf : Bytes) → 6 ≤ length buf → max_len < len_of buf → decode buf ≡ (err other, buf)
unfolding decode
decode_too_long buf h k = ground arith

decode_partial :
    (buf : Bytes)
    → 6 ≤ length buf
    → len_of buf ≤ max_len
    → length buf < 6 + len_of buf
    → decode buf ≡ (ok none, buf)
unfolding decode
decode_partial buf h k l = ground arith

abbrev packet_of : Bytes → RawControlPacket
packet_of buf = record { id = get_u16 buf; bytes = drop 6 (take (6 + len_of buf) buf) }

decode_whole :
    (buf : Bytes)
    → 6 ≤ length buf
    → len_of buf ≤ max_len
    → 6 + len_of buf ≤ length buf
    → decode buf ≡ (ok (some (packet_of buf)), drop (6 + len_of buf) buf)
unfolding decode
decode_whole buf h k l = ground (arith, length-take (6 + len_of buf) buf)

-- The packet at the front of a buffer that holds it whole.
module _ (buf : Bytes) (h : IsBytes buf) (small : len_of buf ≤ max_len)
    (whole : 6 + len_of buf ≤ length buf) where
  packet_of-bytes : (packet_of buf).bytes ≡ slice 6 (6 + len_of buf) buf
  packet_of-bytes = drop-take 6 (len_of buf) buf ∙ ap (λ t. take t (drop 6 buf)) (omega arith)

  packet_of-length : length (packet_of buf).bytes ≡ len_of buf
  packet_of-length =
      ap length packet_of-bytes
      ∙ length-slice 6 (6 + len_of buf) buf (omega arith) whole
      ∙ omega arith

  packet_of-IsPacket : IsPacket (packet_of buf)
  packet_of-IsPacket = (
    (slice_number 0 2 2 buf h (omega arith) (omega arith) refl).0,
    omega (arith, packet_of-length),
  )

  frame-packet_of : frame (packet_of buf) ++ drop (6 + len_of buf) buf ≡ buf
  frame-packet_of =
      ap (λ t. t ++ drop (6 + len_of buf) buf) fields
      ∙ append_assoc (slice 0 2 buf) (slice 2 6 buf ++ slice 6 (6 + len_of buf) buf) _
      ∙ ap (◌++◌ (slice 0 2 buf)) (
          append_assoc (slice 2 6 buf) (slice 6 (6 + len_of buf) buf) _
          ∙ ap (◌++◌ (slice 2 6 buf)) (slice-append-drop 6 (6 + len_of buf) buf (omega arith))
          ∙ slice-append-drop 2 6 buf (omega arith))
      ∙ slice-append-drop 0 2 buf (omega arith)
    where
      fields :
          frame (packet_of buf) ≡ slice 0 2 buf ++ (slice 2 6 buf ++ slice 6 (6 + len_of buf) buf)
      fields = ap₂ ◌++◌ (slice_number 0 2 2 buf h (omega arith) (omega arith) refl).1 (
          ap₂ ◌++◌
            (ap (to_be_bytes 4) packet_of-length
              ∙ (slice_number 2 6 4 buf h (omega arith) (omega arith) refl).1)
            packet_of-bytes)

-- A frame with anything behind it is decoded, and what is behind it stays.
pub decode-frame :
    (p : RawControlPacket) (rest : Bytes)
    → IsPacket p
    → decode (frame p ++ rest) ≡ (ok (some p), rest)
decode-frame p rest (hid, hlen) =
    decode_whole buf (omega arith) (omega arith) (omega (arith, length-append p.bytes rest))
    ∙ ap₂ (λ q t. (ok (some q), t)) (λ i. record { id = id i; bytes = bytes i }) behind
  where
    buf : Bytes
    buf = frame p ++ rest

    len : len_of buf ≡ length p.bytes
    len = from_be_bytes-to_be_bytes 4 (length p.bytes) (omega arith)

    six : 6 + len_of buf ≡ suc (suc (suc (suc (suc (suc (length p.bytes))))))
    six = omega (arith, len)

    id : get_u16 buf ≡ p.id
    id = from_be_bytes-to_be_bytes 2 p.id hid

    bytes : drop 6 (take (6 + len_of buf) buf) ≡ p.bytes
    bytes = ap (λ t. drop 6 (take t buf)) six ∙ take-append_length p.bytes rest

    behind : drop (6 + len_of buf) buf ≡ rest
    behind = ap (λ t. drop t buf) six ∙ drop-append_length p.bytes rest

-- What `decode` does with a buffer: it takes a whole frame from the front, or leaves all.
pub data Decodes (buf : Bytes) : Result (Option RawControlPacket) IoError × Bytes → Type 0 where
  whole_frame :
      (p : RawControlPacket) (rest : Bytes)
      → IsPacket p
      → buf ≡ frame p ++ rest
      → Decodes buf (ok (some p), rest)
  incomplete : Decodes buf (ok none, buf)
  too_long : 6 ≤ length buf → max_len < len_of buf → Decodes buf (err other, buf)

pub decode-Decodes : (buf : Bytes) → IsBytes buf → Decodes buf (decode buf)
decode-Decodes buf h = elim (dec_lt (length buf) 6) [
  | yes short ↦ subst (Decodes buf) (sym (decode_short buf short)) incomplete
  | no header ↦ elim (dec_lt max_len (len_of buf)) [
    | yes long ↦
        subst (Decodes buf) (sym (decode_too_long buf (omega arith) long))
          (too_long (omega arith) long)
    | no small ↦ elim (dec_lt (length buf) (6 + len_of buf)) [
      | yes part ↦
          subst (Decodes buf) (sym (decode_partial buf (omega arith) (omega arith) part)) incomplete
      | no all ↦
          subst (Decodes buf) (sym (decode_whole buf (omega arith) (omega arith) (omega arith))) (
            whole_frame (packet_of buf) _ (packet_of-IsPacket buf h (omega arith) (omega arith))
              (sym (frame-packet_of buf h (omega arith) (omega arith))))
    ]
  ]
]

-- The header of a buffer does not change when more arrives.
len_of-append : (buf more : Bytes) → 6 ≤ length buf → len_of (buf ++ more) ≡ len_of buf
len_of-append buf more h =
    ap get_u32 (drop-append_le 2 buf more (omega arith))
    ∙ ap from_be_bytes (take-append_le 4 (drop 2 buf) more (omega (arith, length-drop 2 buf)))

pub decode-append_too_long :
    (buf more : Bytes)
    → 6 ≤ length buf
    → max_len < len_of buf
    → decode (buf ++ more) ≡ (err other, buf ++ more)
decode-append_too_long buf more h k =
    decode_too_long (buf ++ more) (omega (arith, length-append buf more))
      (omega (arith, len_of-append buf more h))

pub frame-IsBytes : (p : RawControlPacket) → IsBytes p.bytes → IsBytes (frame p)
frame-IsBytes p h =
    IsBytes-append (to_be_bytes 2 p.id) (to_be_bytes 4 (length p.bytes) ++ p.bytes)
      (to_be_bytes-IsBytes 2 p.id)
      (IsBytes-append (to_be_bytes 4 (length p.bytes)) p.bytes
        (to_be_bytes-IsBytes 4 (length p.bytes)) h)
