-- ===== src/Control/Stream.antt =====
-- src/control.rs: the raw codec on a connection that delivers bytes in chunks. A reader puts each
-- chunk behind what is left and calls `RawControlCodec::decode` until it asks for more.
pub mod Chunks
use rust_mumble_protocol.Base.{
  ℕ, ◌+◌, ◌^◌, ◌≤◌, ◌<◌, ◌≡◌, refl, sym, ap, ap₂, ◌∙◌, subst, arith, Option, none, some, List, All,
  All-map, [], ◌∷◌, ◌++◌, append_assoc, append-nil, Bytes, IsBytes, IsBytes-append,
  IsBytes-append_left, IsBytes-append_right, Result, ok, err, panic, IoError, ◌>>=◌,
}
use rust_mumble_protocol.Control.{RawControlPacket, decode, encode}
use rust_mumble_protocol.Control.Framing.{
  IsPacket, frame, frame-IsBytes, decode-frame, Decodes, decode-Decodes,
}
use rust_mumble_protocol.Control.RoundTrip.{decode_iff, encode-frame}

abbrev pub concatenated : List Bytes → Bytes
concatenated [] = []
concatenated (c ∷ cs) = c ++ concatenated cs

-- Calls of `decode` on a buffer until it returns `Ok(None)`: the packets and what is left.
pub data Drains : Bytes → List RawControlPacket → Bytes → Type 0 where
  waits : {buf : Bytes} → decode buf ≡ (ok none, buf) → Drains buf [] buf
  yields :
      (p : RawControlPacket) {buf rest : Bytes} {ps : List RawControlPacket} {left : Bytes}
      → decode buf ≡ (ok (some p), rest)
      → Drains rest ps left
      → Drains buf (p ∷ ps) left

-- Chunks that arrive one after the other.
pub data Receives : Bytes → List Bytes → List RawControlPacket → Bytes → Type 0 where
  ends : {buf : Bytes} → Receives buf [] [] buf
  arrives :
      (c : Bytes) {buf : Bytes} {cs : List Bytes} {ps qs : List RawControlPacket} {mid left : Bytes}
      → Drains (buf ++ c) ps mid
      → Receives mid cs qs left
      → Receives buf (c ∷ cs) (ps ++ qs) left

-- `encode` of packets one after the other.
unfoldable pub encode_all : List RawControlPacket → Bytes → Result Bytes IoError
encode_all [] dst = ok dst
encode_all (p ∷ ps) dst = encode p dst >>= λ dst. encode_all ps dst

abbrev pub frames : List RawControlPacket → Bytes
frames [] = []
frames (p ∷ ps) = frame p ++ frames ps

pub encode_all-frames :
    (ps : List RawControlPacket) (dst : Bytes)
    → All IsPacket ps
    → encode_all ps dst ≡ ok (dst ++ frames ps)
unfolding encode_all
encode_all-frames [] dst h = ap ok (sym (append-nil dst))
encode_all-frames (p ∷ ps) dst ((hid, hlen), h) =
    ap (λ r. r >>= λ dst. encode_all ps dst) (encode-frame p dst (omega arith))
    ∙ encode_all-frames ps (dst ++ frame p) h
    ∙ ap ok (append_assoc dst (frame p) (frames ps))

pub nothing_yet : decode [] ≡ (ok none, [])
unfolding decode
nothing_yet = refl

pub frames-Drains : (ps : List RawControlPacket) → All IsPacket ps → Drains (frames ps) ps []
frames-Drains [] h = waits nothing_yet
frames-Drains (p ∷ ps) (hp, h) = yields p (decode-frame p (frames ps) hp) (frames-Drains ps h)

-- A read that succeeded is not changed by bytes that come behind.
pub decode-append :
    (buf more rest : Bytes) (p : RawControlPacket)
    → IsBytes buf
    → decode buf ≡ (ok (some p), rest)
    → (decode (buf ++ more) ≡ (ok (some p), rest ++ more)) × IsBytes rest
decode-append buf more rest p h e =
    let (fits, split) = (decode_iff buf p rest h).0 e in
    (
      ap (λ t. decode (t ++ more)) split
          ∙ ap decode (append_assoc (frame p) rest more)
          ∙ decode-frame p (rest ++ more) fits,
      IsBytes-append_right (frame p) rest (subst IsBytes split h),
    )

Drains-append :
    (buf more : Bytes) (ps qs : List RawControlPacket) (mid left : Bytes)
    → IsBytes buf
    → Drains buf ps mid
    → Drains (mid ++ more) qs left
    → Drains (buf ++ more) (ps ++ qs) left
Drains-append buf more ps qs mid left h (waits e) next = next
Drains-append buf more ps qs mid left h (yields p {rest = rest} {ps = ps1} e drains) next =
    let longer = decode-append buf more rest p h e in
    yields p longer.0 (Drains-append rest more ps1 qs mid left longer.1 drains next)

pub Drains-waits :
    (buf left : Bytes) (ps : List RawControlPacket)
    → Drains buf ps left
    → decode left ≡ (ok none, left)
Drains-waits buf left ps (waits e) = e
Drains-waits buf left ps (yields p {rest = rest} {ps = ps1} e drains) =
    Drains-waits rest left ps1 drains

pub Drains-IsBytes :
    (buf left : Bytes) (ps : List RawControlPacket)
    → IsBytes buf
    → Drains buf ps left
    → IsBytes left
Drains-IsBytes buf left ps h (waits e) = h
Drains-IsBytes buf left ps h (yields p {rest = rest} {ps = ps1} e drains) =
    Drains-IsBytes rest left ps1 (decode-append buf [] rest p h e).1 drains

pub Drains-unique :
    (buf l1 l2 : Bytes) (ps qs : List RawControlPacket)
    → Drains buf ps l1
    → Drains buf qs l2
    → (ps ≡ qs) × (l1 ≡ l2)
Drains-unique buf l1 l2 ps qs (waits e1) (waits e2) = (refl, refl)
Drains-unique buf l1 l2 ps qs (waits e1) (yields q e2 d2) = absurd (cc (e1, e2))
Drains-unique buf l1 l2 ps qs (yields p e1 d1) (waits e2) = absurd (cc (e1, e2))
Drains-unique buf l1 l2 ps qs (yields p {rest = r1} {ps = ps1} e1 d1)
      (yields q {rest = r2} {ps = qs1} e2 d2) =
    let same_rest : r2 ≡ r1 = cc (e1, e2) in
    let same_packet : p ≡ q = cc (e1, e2) in
    let tail = Drains-unique r1 l1 l2 ps1 qs1 d1 (subst (λ r. Drains r qs1 l2) same_rest d2) in
    (ap₂ ◌∷◌ same_packet tail.0, tail.1)

pub Receives-Drains :
    (buf left : Bytes) (cs : List Bytes) (qs : List RawControlPacket)
    → IsBytes (buf ++ concatenated cs)
    → decode buf ≡ (ok none, buf)
    → Receives buf cs qs left
    → Drains (buf ++ concatenated cs) qs left
Receives-Drains buf left cs qs h e ends =
    subst (λ b. Drains b [] buf) (sym (append-nil buf)) (waits e)
Receives-Drains buf left cs qs h e
      (arrives c {cs = cs1} {ps = ps} {qs = qs1} {mid = mid} drains rest) =
    let regrouped = append_assoc buf c (concatenated cs1) in
    let whole = subst IsBytes (sym regrouped) h in
    let front = IsBytes-append_left (buf ++ c) (concatenated cs1) whole in
    let joined =
      IsBytes-append mid (concatenated cs1) (Drains-IsBytes (buf ++ c) mid ps front drains)
        (IsBytes-append_right (buf ++ c) (concatenated cs1) whole) in
    subst (λ b. Drains b (ps ++ qs1) left) regrouped
      (Drains-append (buf ++ c) (concatenated cs1) ps qs1 mid left front drains
        (Receives-Drains mid left cs1 qs1 joined (Drains-waits (buf ++ c) mid ps drains) rest))
