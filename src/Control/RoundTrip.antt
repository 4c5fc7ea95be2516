-- ===== src/Control/RoundTrip.antt =====
-- The raw codec as a whole: exactly the frames are decoded, and no part of one.
use rust_mumble_protocol.Base.{ℕ, ◌^◌, ◌<◌, ◌≡◌, refl, sym, ap, ap₂, ◌∙◌, subst, arith, ◌↔◌}
use rust_mumble_protocol.Base.{
  [], ◌∷◌, ◌++◌, append_assoc, append-nil, Bytes, IsBytes, IsBytes-append_left, Option, none, some,
}
use rust_mumble_protocol.Base.{
  length, length-append, to_be_bytes, from_be_bytes-to_be_bytes, Result, ok, err, IoError, other,
}
use rust_mumble_protocol.Control.{RawControlPacket, decode, encode}
use rust_mumble_protocol.Control.Framing.{
  max_len, IsPacket, frame, frame-IsBytes, decode-frame, Decodes, whole_frame, incomplete, too_long,
  decode-Decodes, decode-append_too_long, decode_too_long,
}

-- On bytes, `decode` yields a packet and leaves `rest` exactly when the buffer is that packet's frame
-- followed by `rest`, the packet's id having 16 bits and its length being at most 0x7fffff.
pub decode_iff :
    (buf : Bytes) (p : RawControlPacket) (rest : Bytes)
    → IsBytes buf
    → (decode buf ≡ (ok (some p), rest)) ↔ (IsPacket p × (buf ≡ frame p ++ rest))
decode_iff buf p rest h = (there, λ e. ap decode e.1 ∙ decode-frame p rest e.0)
  where
    read :
        (r : Result (Option RawControlPacket) IoError × Bytes)
        → Decodes buf r
        → r ≡ (ok (some p), rest)
        → IsPacket p × (buf ≡ frame p ++ rest)
    read _ (whole_frame q left hq split) e =
        let same : q ≡ p = cc e in
        let same_rest : left ≡ rest = cc e in
        (subst IsPacket same hq, split ∙ ap₂ (λ q t. frame q ++ t) same same_rest)
    read _ incomplete e = absurd (cc e)
    read _ (too_long a b) e = absurd (cc e)

    there : decode buf ≡ (ok (some p), rest) → IsPacket p × (buf ≡ frame p ++ rest)
    there e = read (decode buf) (decode-Decodes buf h) e

-- `encode` appends the frame of a packet of at most 2^32 - 1 bytes.
pub encode-frame :
    (p : RawControlPacket) (dst : Bytes)
    → length p.bytes < 2 ^ 32
    → encode p dst ≡ ok (dst ++ frame p)
unfolding encode
encode-frame p dst h =
    ap (λ t. ok (dst ++ (to_be_bytes 2 p.id ++ (to_be_bytes 4 t ++ p.bytes)))) (omega arith)

-- `encode` appends bytes for a packet that fits its frame, and `decode` returns the packet from
-- them, with anything behind them left.
pub decode-encode_raw :
    (p : RawControlPacket) (dst rest : Bytes)
    → IsPacket p
    → (bs : Bytes) × (encode p dst ≡ ok (dst ++ bs)) × (decode (bs ++ rest) ≡ (ok (some p), rest))
decode-encode_raw p dst rest h = (frame p, encode-frame p dst (omega arith), decode-frame p rest h)

-- `encode` makes no objection to a packet longer than 0x7fffff and shorter than 2 ^ 32 bytes, but
-- `decode` fails on what it writes, whatever follows, and leaves it in the buffer.
pub encode_too_long :
    (p : RawControlPacket) (dst rest : Bytes)
    → max_len < length p.bytes
    → length p.bytes < 2 ^ 32
    → (bs : Bytes) × (encode p dst ≡ ok (dst ++ bs))
      × (decode (bs ++ rest) ≡ (err other, bs ++ rest))
encode_too_long p dst rest long fits = (
  frame p,
  encode-frame p dst fits,
  decode_too_long (frame p ++ rest) (omega arith)
      (omega (arith, from_be_bytes-to_be_bytes 4 (length p.bytes) fits)),
)

-- On a proper part of a frame, from its front, `decode` waits for more and leaves the buffer alone.
pub decode_prefix :
    (p : RawControlPacket) (front back : Bytes) (x : ℕ)
    → IsPacket p
    → IsBytes p.bytes
    → frame p ≡ front ++ (x ∷ back)
    → decode front ≡ (ok none, front)
decode_prefix p front back x hp hb e = read (decode front) (decode-Decodes front bytes) refl
  where
    whole : decode (front ++ (x ∷ back)) ≡ (ok (some p), [])
    whole = ap decode (sym e ∙ sym (append-nil (frame p))) ∙ decode-frame p [] hp

    bytes : IsBytes front
    bytes = IsBytes-append_left front (x ∷ back) (subst IsBytes e (frame-IsBytes p hb))

    longer :
        (q : RawControlPacket) (left : Bytes)
        → IsPacket q
        → front ≡ frame q ++ left
        → decode (front ++ (x ∷ back)) ≡ (ok (some q), left ++ (x ∷ back))
    longer q left hq split =
        ap decode (ap (λ t. t ++ (x ∷ back)) split ∙ append_assoc (frame q) left (x ∷ back))
        ∙ decode-frame q (left ++ (x ∷ back)) hq

    read :
        (r : Result (Option RawControlPacket) IoError × Bytes)
        → Decodes front r
        → decode front ≡ r
        → decode front ≡ (ok none, front)
    read _ (whole_frame q left hq split) d =
        let more : left ++ (x ∷ back) ≡ [] = cc (whole, longer q left hq split) in
        absurd (omega (arith, ap length more, length-append left (x ∷ back)))
    read _ incomplete d = d
    read _ (too_long a b) d = absurd (cc (whole, decode-append_too_long front (x ∷ back) a b))
