-- ===== src/Control/Stream/Chunks.antt =====
-- src/control.rs: however the encoded packets are cut into chunks, a reader gets these packets.
use rust_mumble_protocol.Base.{
  ◌≡◌, refl, sym, ap, subst, Option, none, some, List, All, All-map, [], ◌∷◌, ◌++◌, append_assoc,
  append-nil, Bytes, IsBytes, IsBytes-append, IsBytes-append_left, IsBytes-append_right, Result, ok,
  IoError,
}
use rust_mumble_protocol.Control.{RawControlPacket, decode}
use rust_mumble_protocol.Control.Framing.{IsPacket, frame, frame-IsBytes, Decodes, decode-Decodes}
use rust_mumble_protocol.Control.Framing.{whole_frame, incomplete, too_long, decode-append_too_long}
use rust_mumble_protocol.Control.Stream.{
  Drains, waits, yields, Receives, ends, arrives, concatenated, encode_all, encode_all-frames,
  frames, frames-Drains, nothing_yet, decode-append, Drains-waits, Drains-IsBytes, Drains-unique,
  Receives-Drains,
}

-- The front of a buffer that drains: its packets and what it leaves, before the rest.
record Front (front more : Bytes) (qs : List RawControlPacket) (left : Bytes) : Type 0 where
  first : List RawControlPacket
  second : List RawControlPacket
  mid : Bytes
  drains : Drains front first mid
  goes_on : Drains (mid ++ more) second left
  splits : first ++ second ≡ qs

Front-yields :
    {front more rest left : Bytes} {qs : List RawControlPacket} (p : RawControlPacket)
    → decode front ≡ (ok (some p), rest)
    → Front rest more qs left
    → Front front more (p ∷ qs) left
Front-yields p e f = record {
  first = p ∷ f.first;
  second = f.second;
  mid = f.mid;
  drains = yields p e f.drains;
  goes_on = f.goes_on;
  splits = ap (◌∷◌ p) f.splits;
}

Front-waits :
    {whole front more left : Bytes} {qs : List RawControlPacket}
    → decode front ≡ (ok none, front)
    → whole ≡ front ++ more
    → Drains whole qs left
    → Front front more qs left
Front-waits {front = front} {left = left} {qs = qs} e split drains = record {
  first = [];
  second = qs;
  mid = front;
  drains = waits e;
  goes_on = subst (λ b. Drains b qs left) split drains;
  splits = refl;
}

-- The front of a buffer on which `decode` asks for more, and of one on which it yields a packet.
at_end :
    (whole front more : Bytes) (r : Result (Option RawControlPacket) IoError × Bytes)
    → IsBytes front
    → whole ≡ front ++ more
    → decode whole ≡ (ok none, whole)
    → Decodes front r
    → decode front ≡ r
    → Front front more [] whole
at_end whole front more _ h split e1 incomplete e = Front-waits e split (waits e1)
at_end whole front more _ h split e1 (too_long a b) e =
    absurd (cc (e1, split, decode-append_too_long front more a b))
at_end whole front more _ h split e1 (whole_frame p rest hp s) e =
    absurd (cc (e1, split, (decode-append front more rest p h e).0))

at_packet :
    (whole front more left r1 : Bytes) (q : RawControlPacket) (qs : List RawControlPacket)
    (r : Result (Option RawControlPacket) IoError × Bytes)
    → IsBytes front
    → whole ≡ front ++ more
    → decode whole ≡ (ok (some q), r1)
    → Drains r1 qs left
    → ((rest : Bytes) → r1 ≡ rest ++ more → IsBytes rest → Front rest more qs left)
    → Decodes front r
    → decode front ≡ r
    → Front front more (q ∷ qs) left
at_packet whole front more left r1 q qs _ h split e1 d next incomplete e =
    Front-waits e split (yields q e1 d)
at_packet whole front more left r1 q qs _ h split e1 d next (too_long a b) e =
    absurd (cc (e1, split, decode-append_too_long front more a b))
at_packet whole front more left r1 q qs _ h split e1 d next (whole_frame p rest hp s) e =
    let longer = decode-append front more rest p h e in
    let same : p ≡ q = cc (e1, split, longer.0) in
    let same_rest : r1 ≡ rest ++ more = cc (e1, split, longer.0) in
    subst (λ q. Front front more (q ∷ qs) left) same
      (Front-yields p e (next rest same_rest longer.1))

Drains-Front :
    (whole front more left : Bytes) (qs : List RawControlPacket)
    → Drains whole qs left
    → whole ≡ front ++ more
    → IsBytes front
    → Front front more qs left
Drains-Front whole front more left qs (waits e1) split h =
    at_end whole front more (decode front) h split e1 (decode-Decodes front h) refl
Drains-Front whole front more left qs (yields q {rest = r1} {ps = qs1} e1 d1) split h =
    at_packet whole front more left r1 q qs1 (decode front) h split e1 d1
      (λ rest. Drains-Front r1 rest more left qs1 d1) (decode-Decodes front h) refl

Drains-Receives :
    (buf left : Bytes) (cs : List Bytes) (qs : List RawControlPacket)
    → IsBytes (buf ++ concatenated cs)
    → decode buf ≡ (ok none, buf)
    → Drains (buf ++ concatenated cs) qs left
    → Receives buf cs qs left
Drains-Receives buf left [] qs h e drains =
    let same =
      Drains-unique buf left buf qs [] (subst (λ b. Drains b qs left) (append-nil buf) drains)
        (waits e) in
    subst (λ q. Receives buf [] q left) (sym same.0) (subst (Receives buf [] []) (sym same.1) ends)
Drains-Receives buf left (c ∷ cs) qs h e drains =
    let regrouped = append_assoc buf c (concatenated cs) in
    let whole = subst IsBytes (sym regrouped) h in
    let front = IsBytes-append_left (buf ++ c) (concatenated cs) whole in
    let f =
      Drains-Front (buf ++ concatenated (c ∷ cs)) (buf ++ c) (concatenated cs) left qs drains
        (sym regrouped) front in
    let joined =
      IsBytes-append f.mid (concatenated cs)
        (Drains-IsBytes (buf ++ c) f.mid f.first front f.drains)
        (IsBytes-append_right (buf ++ c) (concatenated cs) whole) in
    subst (λ q. Receives buf (c ∷ cs) q left) f.splits
      (arrives c f.drains (
        Drains-Receives f.mid left cs f.second joined
          (Drains-waits (buf ++ c) f.mid f.first f.drains) f.goes_on))

pub frames-IsBytes :
    (ps : List RawControlPacket) → All (λ p. IsPacket p × IsBytes p.bytes) ps → IsBytes (frames ps)
frames-IsBytes [] h = tt
frames-IsBytes (p ∷ ps) (hp, h) =
    IsBytes-append (frame p) (frames ps) (frame-IsBytes p hp.1) (frames-IsBytes ps h)

pub All-fst :
    (ps : List RawControlPacket) → All (λ p. IsPacket p × IsBytes p.bytes) ps → All IsPacket ps
All-fst ps h = All-map (λ p hp. hp.0) ps h

-- Packets that fit their frames, encoded one after the other, may be cut into chunks anywhere: a
-- reader that gets the chunks in order decodes exactly these packets in order and is left with an
-- empty buffer, and no other outcome is possible.
pub Receives-encode_all :
    (ps : List RawControlPacket) (chunks : List Bytes)
    → All (λ p. IsPacket p × IsBytes p.bytes) ps
    → encode_all ps [] ≡ ok (concatenated chunks)
    → Receives [] chunks ps []
      × ((qs : List RawControlPacket) (left : Bytes)
          → Receives [] chunks qs left
          → (qs ≡ ps) × (left ≡ []))
Receives-encode_all ps chunks h e = (
  Drains-Receives [] [] chunks ps bytes nothing_yet drains,
  λ qs left received.
      Drains-unique (concatenated chunks) left [] qs ps
        (Receives-Drains [] left chunks qs bytes nothing_yet received) drains,
)
  where
    written : encode_all ps [] ≡ ok (frames ps)
    written = encode_all-frames ps [] (All-fst ps h)

    same : frames ps ≡ concatenated chunks
    same = cc (e, written)

    bytes : IsBytes (concatenated chunks)
    bytes = subst IsBytes same (frames-IsBytes ps h)

    drains : Drains (concatenated chunks) ps []
    drains = subst (λ b. Drains b ps []) same (frames-Drains ps (All-fst ps h))
