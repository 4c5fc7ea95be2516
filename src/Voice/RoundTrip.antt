-- ===== src/Voice/RoundTrip.antt =====
-- `decode` after `encode`, in either direction.
use rust_mumble_protocol.Base.{ℕ, ◌+◌, ◌*◌, ◌%◌, ◌^◌, ◌<◌, ◌≡◌, refl, sym, ap, ap₂, ◌∙◌, arith}
use rust_mumble_protocol.Base.{
  false, [], ◌∷◌, ◌++◌, append_assoc, append-nil, Bytes, IsU64, Option, some, bit_or, bit_and,
  bit_or-shift, bit_and-low,
}
use rust_mumble_protocol.Base.{◌==◌, ◌>>>◌}
use rust_mumble_protocol.Base.{ok}
use rust_mumble_protocol.Buffer.Laws.{advance_all}
use rust_mumble_protocol.Varint.{read_varint}
use rust_mumble_protocol.Varint.Write.{encoding, put_varint-encoding}
use rust_mumble_protocol.Varint.RoundTrip.{read_varint-encoding}
use rust_mumble_protocol.Voice.{
  VoicePacketDst, VoicePacket, ping, audio, VoicePacketPayload, celt_alpha, celt_beta, speex, opus,
  kind_of, encode, decode,
}
use rust_mumble_protocol.Voice.{read_payload, read_position_info}
use rust_mumble_protocol.Voice.Dst.{IsLawful}
use rust_mumble_protocol.Voice.Payload.{
  IsPayload, payload_bytes, IsPosition, position_bytes, put_payload-payload_bytes,
  read_payload-payload_bytes, put_position_info-position_bytes, read_position_info-position_bytes,
}

kind-lt : (p : VoicePacketPayload) → kind_of p < 5
unfolding kind_of
kind-lt (celt_alpha fs) = omega arith
kind-lt (celt_beta fs) = omega arith
kind-lt (speex fs) = omega arith
kind-lt (opus f t) = omega arith

kind-ne-one : (p : VoicePacketPayload) → (kind_of p == 1) ≡ false
unfolding kind_of
kind-ne-one (celt_alpha fs) = refl
kind-ne-one (celt_beta fs) = refl
kind-ne-one (speex fs) = refl
kind-ne-one (opus f t) = refl

module _ (d : VoicePacketDst) (l : IsLawful d) where
  -- The packets that the format has room for.
  abbrev pub IsWellFormed : VoicePacket d → Type 0
  IsWellFormed (ping timestamp) = IsU64 timestamp
  IsWellFormed (audio target session_id seq_num payload position_info) =
      (target < 32)
      × l.IsValid session_id
      × IsU64 seq_num
      × IsPayload payload
      × IsPosition position_info

  abbrev pub packet_bytes : VoicePacket d → Bytes
  packet_bytes (ping timestamp) = 0x20 ∷ encoding timestamp
  packet_bytes (audio target session_id seq_num payload position_info) =
      (kind_of payload * 32 + target)
      ∷ (l.session_bytes session_id
          ++ (encoding seq_num ++ (payload_bytes payload ++ position_bytes position_info)))

  header-eq :
      (p : VoicePacketPayload) (target : ℕ)
      → target < 32
      → bit_or (kind_of p * 2 ^ 5 % 2 ^ 8) (bit_and target 0b11111) ≡ kind_of p * 32 + target
  header-eq p target h =
      ap₂ bit_or (omega (arith, kind-lt p)) (omega (arith, bit_and-low 5 target))
      ∙ bit_or-shift 5 (kind_of p) target h

  -- A well-formed packet is encoded without an error or a panic; its bytes go behind those in `dst`.
  pub encode-packet_bytes :
      (p : VoicePacket d) (dst : Bytes)
      → IsWellFormed p
      → encode d p dst ≡ ok (dst ++ packet_bytes p)
  unfolding encode
  encode-packet_bytes (ping t) dst h =
      put_varint-encoding (dst ++ (0x20 ∷ [])) t h
      ∙ ap ok (append_assoc dst (0x20 ∷ []) (encoding t))
  encode-packet_bytes (audio target id seq p o) dst (ht, hid, hseq, hp, ho) =
      rw (header-eq p target ht) (
        rw (l.write (dst ++ (header ∷ [])) id hid) (
          rw (put_varint-encoding (dst1) seq hseq) (
            rw (put_payload-payload_bytes p dst2 hp)
              (ap ok (put_position_info-position_bytes o _ ∙ simp append_assoc)))))
    where
      header : ℕ
      header = kind_of p * 32 + target

      dst1 : Bytes
      dst1 = (dst ++ (header ∷ [])) ++ l.session_bytes id

      dst2 : Bytes
      dst2 = dst1 ++ encoding seq

  -- `decode` on an audio packet, from what its parts read.
  pub decode_audio :
      (header kind target : ℕ) (b1 b2 b3 src : Bytes) (id : d.SessionId) (seq : ℕ)
      (p : VoicePacketPayload) (o : Option Bytes)
      → header >>> 5 ≡ kind
      → bit_and header 0b11111 ≡ target
      → (kind == 1) ≡ false
      → d.read_session_id b1 ≡ ok (id, b2)
      → read_varint b2 ≡ ok (seq, b3)
      → read_payload kind (header ∷ b1) b3 (header ∷ b1) ≡ (ok p, src)
      → read_position_info src ≡ (ok o, [])
      → decode d (header ∷ b1) ≡ (ok (some (audio target id seq p o)), [])
  unfolding decode
  decode_audio header kind target b1 b2 b3 src id seq p o ek et ne e1 e2 e3 e4 =
      rw ek (rw et (rw ne (rw e1 (rw e2 (rw e3 (rw e4 refl))))))

  pub decode_ping :
      (header : ℕ) (b1 b2 : Bytes) (timestamp : ℕ)
      → header >>> 5 ≡ 1
      → read_varint b1 ≡ ok (timestamp, b2)
      → decode d (header ∷ b1) ≡ (ok (some (ping timestamp)), [])
  unfolding decode
  decode_ping header b1 b2 timestamp ek e = rw ek (rw e (rw (advance_all (header ∷ b1)) refl))

  pub decode-packet_bytes :
      (p : VoicePacket d) → IsWellFormed p → decode d (packet_bytes p) ≡ (ok (some p), [])
  decode-packet_bytes (ping t) h =
      decode_ping 0x20 (encoding t) [] t refl
        (ap read_varint (sym (append-nil (encoding t))) ∙ read_varint-encoding t [] h)
  decode-packet_bytes (audio target id seq p o) (ht, hid, hseq, hp, ho) =
      decode_audio header (kind_of p) target (session ++ (number ++ tail)) (number ++ tail) tail
        (position_bytes o) id seq p o (omega (arith, kind-lt p))
        (bit_and-low 5 header ∙ omega arith) (kind-ne-one p) (l.read id (number ++ tail) hid)
        (read_varint-encoding seq tail hseq)
        (rw (← regrouped)
          (read_payload-payload_bytes p (header ∷ (session ++ number)) (position_bytes o) hp))
        (read_position_info-position_bytes o ho)
    where
      header : ℕ
      header = kind_of p * 32 + target

      session : Bytes
      session = l.session_bytes id

      number : Bytes
      number = encoding seq

      tail : Bytes
      tail = payload_bytes p ++ position_bytes o

      regrouped : (header ∷ (session ++ number)) ++ tail ≡ header ∷ (session ++ (number ++ tail))
      regrouped = ap (◌∷◌ header) (append_assoc session number tail)

  -- A well-formed packet that `encode` appends to any buffer is what `decode` returns from the
  -- bytes appended, and it uses them up.
  pub decode-encode :
      (p : VoicePacket d) (dst : Bytes)
      → IsWellFormed p
      → (bs : Bytes) × (encode d p dst ≡ ok (dst ++ bs)) × (decode d bs ≡ (ok (some p), []))
  decode-encode p dst h = (packet_bytes p, encode-packet_bytes p dst h, decode-packet_bytes p h)
