-- ===== src/Codec/Stream.antt =====
-- src/control.rs: `ControlCodec` on a connection that delivers bytes in chunks.
use rust_mumble_protocol.Base.{
  ℕ, zero, suc, ◌<◌, ◌≤◌, ◌≡◌, refl, sym, ap, ◌∙◌, subst, arith, none, some, List, [], ◌∷◌, ◌++◌,
  All, Bytes, IsBytes, IsBytes-append, IsBytes-append_left, IsBytes-append_right, length,
  length-append, Result, ok, err, panic, IoError, ◌>>=◌,
}
use rust_mumble_protocol.Voice.{VoicePacketDst}
use rust_mumble_protocol.Voice.Dst.{IsLawful}
use rust_mumble_protocol.Control.{RawControlPacket, decode}
use rust_mumble_protocol.Control.Framing.{IsPacket, frame}
use rust_mumble_protocol.Control.RoundTrip.{decode_iff, encode-frame}
use rust_mumble_protocol.Control.Stream.{
  concatenated, Drains, waits, yields, Receives, ends, arrives, encode_all, frames,
  encode_all-frames, Drains-IsBytes,
}
use rust_mumble_protocol.Control.Stream.Chunks.{frames-IsBytes, All-fst, Receives-encode_all}
use rust_mumble_protocol.Control.Packets.{Protobuf, ControlPacket, try_from, raw_from}
use rust_mumble_protocol.Control.Packets
use rust_mumble_protocol.Control.Packets.RoundTrip.{IsProtobuf, IsSendable, try_from-raw_from}
use rust_mumble_protocol.Codec.{Encoder, control_decoder, control_encoder, with_unit}
use rust_mumble_protocol.Codec.Loop.{
  Run, waiting, read_all, read_all-yields, read_all-waits, receive, receive-nil, receive-cons,
  item_first,
}

-- `encode` of items one after the other.
unfoldable pub write_all :
    (c : Encoder) → c.State → List c.Item → Bytes → Result (c.State × Bytes) IoError
write_all c s [] dst = ok (s, dst)
write_all c s (item ∷ items) dst = c.encode s item dst >>= λ r. write_all c r.0 items r.1

with_unit-ok :
    (r : Result Bytes IoError) (bytes : Bytes) → with_unit r ≡ ok (tt, bytes) → r ≡ ok bytes
with_unit-ok (ok dst) bytes e =
    let same : (tt {0}, dst) ≡ (tt, bytes) = cc e in ap (λ (p : Unit {0} × Bytes). ok p.1) same
with_unit-ok (err x) bytes e = cc
with_unit-ok panic bytes e = cc

-- A packet takes some of the buffer.
decode-less :
    (buf rest : Bytes) (p : RawControlPacket)
    → IsBytes buf
    → decode buf ≡ (ok (some p), rest)
    → (length rest < length buf) × IsBytes rest
decode-less buf rest p h e =
    let (fits, split) = (decode_iff buf p rest h).0 e in
    (
      omega (arith, ap length split, length-append (frame p) rest),
      IsBytes-append_right (frame p) rest (subst IsBytes split h),
    )

Drains-few :
    (buf left : Bytes) (raws : List RawControlPacket)
    → IsBytes buf
    → Drains buf raws left
    → length raws ≤ length buf
Drains-few buf left raws h (waits e) = omega arith
Drains-few buf left raws h (yields p {rest = rest} {ps = ps} e drains) =
    let (less, bytes) = decode-less buf rest p h e in
    omega (arith, Drains-few rest left ps bytes drains)

module _ (m : Protobuf) (d : VoicePacketDst) where
  -- Each packet is what its raw form is parsed as.
  pub data Parses : List RawControlPacket → List (ControlPacket m d) → Type 0 where
    none_left : Parses [] []
    one_more :
        (raw : RawControlPacket) (p : ControlPacket m d) {raws : List RawControlPacket}
        {ps : List (ControlPacket m d)}
        → try_from m d raw ≡ ok p
        → Parses raws ps
        → Parses (raw ∷ raws) (p ∷ ps)

  Parses-split :
      (raws raws' : List RawControlPacket) (ps : List (ControlPacket m d))
      → Parses (raws ++ raws') ps
      → (qs : List (ControlPacket m d)) × (qs' : List (ControlPacket m d)) × (ps ≡ qs ++ qs')
        × Parses raws qs
        × Parses raws' qs'
  Parses-split [] raws' ps h = ([], ps, refl, none_left, h)
  Parses-split (raw ∷ raws) raws' ps (one_more _ p {ps = ps1} e h) =
      let (qs, qs', split, h1, h2) = Parses-split raws raws' ps1 h in
      (p ∷ qs, qs', ap (λ t. p ∷ t) split, one_more raw p e h1, h2)

  abbrev waiting_with : List (ControlPacket m d) → Bytes → Run (control_decoder m d)
  waiting_with ps left = record { items = ps; state = tt; left = left; ending = waiting }

  decode_some :
      (buf rest : Bytes) (raw : RawControlPacket) (p : ControlPacket m d)
      → decode buf ≡ (ok (some raw), rest)
      → try_from m d raw ≡ ok p
      → (control_decoder m d).decode tt buf ≡ (ok (some p), tt, rest)
  unfolding Packets.decode
  decode_some buf rest raw p e e' = rw (Packets.decode, e) (rw e' refl)

  decode_none :
      (buf rest : Bytes)
      → decode buf ≡ (ok none, rest)
      → (control_decoder m d).decode tt buf ≡ (ok none, tt, rest)
  unfolding Packets.decode
  decode_none buf rest e = rw (Packets.decode, e) refl

  Drains-read_all :
      (buf left : Bytes) (raws : List RawControlPacket) (ps : List (ControlPacket m d)) (fuel : ℕ)
      → Drains buf raws left
      → Parses raws ps
      → length raws < fuel
      → read_all (control_decoder m d) fuel tt buf ≡ waiting_with ps left
  Drains-read_all buf left raws ps zero drains h enough = absurd (omega arith)
  Drains-read_all buf left raws ps (suc fuel) (waits e) none_left enough =
      read_all-waits (control_decoder m d) fuel tt tt buf left (decode_none buf left e)
  Drains-read_all buf left raws ps (suc fuel) (yields raw {rest = rest} {ps = raws1} e drains)
        (one_more _ p {ps = ps1} e' h) enough =
      read_all-yields (control_decoder m d) fuel tt tt buf rest p (decode_some buf rest raw p e e')
      ∙ ap (item_first (control_decoder m d) p)
          (Drains-read_all rest left raws1 ps1 fuel drains h (omega arith))

  Receives-receive :
      (buf left : Bytes) (chunks : List Bytes) (raws : List RawControlPacket)
      (ps : List (ControlPacket m d))
      → IsBytes buf
      → All IsBytes chunks
      → Receives buf chunks raws left
      → Parses raws ps
      → receive (control_decoder m d) tt buf chunks ≡ waiting_with ps left
  Receives-receive buf left [] raws ps hb hc ends none_left =
      receive-nil (control_decoder m d) tt buf
  Receives-receive buf left (c ∷ cs) raws ps hb (h, hc)
        (arrives _ {ps = raws1} {qs = raws2} {mid = mid} drains more) parses =
      let (qs, qs', split, h1, h2) = Parses-split raws1 raws2 ps parses in
      let bytes = IsBytes-append buf c hb h in
      let run =
        Drains-read_all (buf ++ c) mid raws1 qs (suc (length (buf ++ c))) drains h1
          (omega (arith, Drains-few (buf ++ c) mid raws1 bytes drains)) in
      receive-cons (control_decoder m d) tt buf c cs (waiting_with qs mid) run refl
      ∙ ap (λ (r : Run (control_decoder m d)). record r { items = qs ++ r.items })
          (Receives-receive mid left cs raws2 qs' (Drains-IsBytes (buf ++ c) mid raws1 bytes drains)
            hc more h2)
      ∙ ap (λ ps. waiting_with ps left) (sym split)

  -- Packets with their raw forms, which fit their frames.
  pub data RawForms : List (ControlPacket m d) → List RawControlPacket → Type 0 where
    none_written : RawForms [] []
    one_written :
        (p : ControlPacket m d) (raw : RawControlPacket) {ps : List (ControlPacket m d)}
        {raws : List RawControlPacket}
        → raw_from m d p ≡ ok raw
        → IsPacket raw
        → IsBytes raw.bytes
        → RawForms ps raws
        → RawForms (p ∷ ps) (raw ∷ raws)

  RawForms-IsPacket :
      (ps : List (ControlPacket m d)) (raws : List RawControlPacket)
      → RawForms ps raws
      → All (λ raw. IsPacket raw × IsBytes raw.bytes) raws
  RawForms-IsPacket ps raws none_written = tt
  RawForms-IsPacket ps raws (one_written p raw {ps = ps1} {raws = raws1} e fits bytes h) =
      ((fits, bytes), RawForms-IsPacket ps1 raws1 h)

  encode-raw_from :
      (p : ControlPacket m d) (raw : RawControlPacket) (dst : Bytes)
      → raw_from m d p ≡ ok raw
      → IsPacket raw
      → Packets.encode m d p dst ≡ ok (dst ++ frame raw)
  unfolding Packets.encode
  encode-raw_from p raw dst e fits = rw (Packets.encode, e) (encode-frame raw dst (omega arith))

  write_all-encode_all :
      (ps : List (ControlPacket m d)) (raws : List RawControlPacket) (dst : Bytes)
      → RawForms ps raws
      → write_all (control_encoder m d) tt ps dst ≡ with_unit (encode_all raws dst)
  unfolding write_all encode_all
  write_all-encode_all ps raws dst none_written = refl
  write_all-encode_all ps raws dst (one_written p raw {ps = ps1} {raws = raws1} e fits bytes h) =
      ap (λ r. with_unit r >>= λ r. write_all (control_encoder m d) r.0 ps1 r.1)
        (encode-raw_from p raw dst e fits)
      ∙ write_all-encode_all ps1 raws1 (dst ++ frame raw) h
      ∙ ap (λ r. with_unit (r >>= λ dst. encode_all raws1 dst))
          (sym (encode-frame raw dst (omega arith)))

  module _ (pb : IsProtobuf m) (l : IsLawful d) where
    RawForms-Parses :
        (ps : List (ControlPacket m d)) (raws : List RawControlPacket)
        → RawForms ps raws
        → All (IsSendable m pb d l) ps
        → Parses raws ps
    RawForms-Parses ps raws none_written sendable = none_left
    RawForms-Parses (p ∷ ps) raws (one_written _ raw {raws = raws1} e fits bytes h) (wf, sendable) =
        one_more raw p (try_from-raw_from m pb d l p raw wf e) (RawForms-Parses ps raws1 h sendable)

    chunks-IsBytes : (chunks : List Bytes) → IsBytes (concatenated chunks) → All IsBytes chunks
    chunks-IsBytes [] h = tt
    chunks-IsBytes (c ∷ cs) h = (
      IsBytes-append_left c (concatenated cs) h,
      chunks-IsBytes cs (IsBytes-append_right c (concatenated cs) h),
    )

    -- If protobuf parses what it writes, then sendable packets that fit their frames, written by
    -- `ControlCodec` one after the other, may be cut into chunks anywhere: its `decode`, called on
    -- what has come until it waits for more, yields exactly these packets in order, and leaves an
    -- empty buffer.
    pub receive-write_all :
        (ps : List (ControlPacket m d)) (raws : List RawControlPacket) (chunks : List Bytes)
        → RawForms ps raws
        → All (IsSendable m pb d l) ps
        → write_all (control_encoder m d) tt ps [] ≡ ok (tt, concatenated chunks)
        → receive (control_decoder m d) tt [] chunks
          ≡ record { items = ps; state = tt; left = []; ending = waiting }
    receive-write_all ps raws chunks forms sendable e =
        let fit = RawForms-IsPacket ps raws forms in
        let written =
          with_unit-ok (encode_all raws []) (concatenated chunks)
            (sym (write_all-encode_all ps raws [] forms) ∙ e) in
        let same : frames raws ≡ concatenated chunks =
          cc (written, encode_all-frames raws [] (All-fst raws fit)) in
        Receives-receive [] [] chunks raws ps tt
          (chunks-IsBytes chunks (subst IsBytes same (frames-IsBytes raws fit)))
          (Receives-encode_all raws chunks fit written).0 (RawForms-Parses ps raws forms sendable)
