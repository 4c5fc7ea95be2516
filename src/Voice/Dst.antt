-- ===== src/Voice/Dst.antt =====
-- What the codec needs of a packet direction, and that both directions have it.
use rust_mumble_protocol.Base.{ℕ, ◌≡◌, refl, sym, ap, ◌∙◌, arith, ◌⊎◌, inl, inr}
use rust_mumble_protocol.Base.{[], ◌++◌, append-nil, Bytes, IsBytes, IsU32, u32}
use rust_mumble_protocol.Base.{ok, err, unexpected_eof, ◌>>=◌}
use rust_mumble_protocol.Varint.Sound.{read_varint_cases}
use rust_mumble_protocol.Varint.Write.{encoding, put_varint-encoding}
use rust_mumble_protocol.Varint.RoundTrip.{read_varint-encoding, read_varint_takes}
use rust_mumble_protocol.Voice.{VoicePacketDst, serverbound, clientbound, read_u32}

-- Valid session ids are written as bytes that read back; a read takes bytes from the front and
-- gives a valid id, or finds the source too short.
pub record IsLawful (d : VoicePacketDst) : Type 1 where
  pub IsValid : d.SessionId → Type 0
  pub session_bytes : d.SessionId → Bytes
  pub write :
      (dst : Bytes) (id : d.SessionId)
      → IsValid id
      → d.write_session_id dst id ≡ ok (dst ++ session_bytes id)
  pub read :
      (id : d.SessionId) (rest : Bytes)
      → IsValid id
      → d.read_session_id (session_bytes id ++ rest) ≡ ok (id, rest)
  pub cases :
      (src : Bytes)
      → IsBytes src
      → ((id : d.SessionId) × (rest : Bytes) × (taken : Bytes) × (d.read_session_id src
            ≡ ok (id, rest))
          × IsValid id
          × (src ≡ taken ++ rest)
          × IsBytes rest)
        ⊎ (d.read_session_id src ≡ err unexpected_eof)

abbrev pub serverbound-IsLawful : IsLawful serverbound
serverbound-IsLawful = record {
  IsValid = λ _. Unit;
  session_bytes = λ _. [];
  write = λ dst _ _. ap ok (sym (append-nil dst));
  read = λ _ rest _. refl;
  cases = λ src h. inl (tt, src, [], refl, tt, refl, h);
}

pub read_u32-encoding :
    (id : ℕ) (rest : Bytes) → IsU32 id → read_u32 (encoding id ++ rest) ≡ ok (id, rest)
unfolding read_u32
read_u32-encoding id rest h =
    ap (λ r. r >>= λ p. ok (u32 p.0, p.1)) (read_varint-encoding id rest (omega arith))
    ∙ ap (λ t. ok (t, rest)) (omega arith)

pub read_u32_cases :
    (src : Bytes)
    → IsBytes src
    → ((id : ℕ) × (rest : Bytes) × (taken : Bytes) × (read_u32 src ≡ ok (id, rest))
        × IsU32 id
        × (src ≡ taken ++ rest)
        × IsBytes rest)
      ⊎ (read_u32 src ≡ err unexpected_eof)
unfolding read_u32
read_u32_cases src h = elim (read_varint_cases src h) [
  | inl r ↦ inl (
    u32 r.value,
    r.rest,
    r.taken,
    ap (λ r. r >>= λ p. ok (u32 p.0, p.1)) r.reads,
    omega arith,
    r.splits,
    (read_varint_takes src r.value r.rest h r.reads).1,
  )
  | inr e ↦ inr (ap (λ r. r >>= λ p. ok (u32 p.0, p.1)) e)
]

abbrev pub clientbound-IsLawful : IsLawful clientbound
clientbound-IsLawful = record {
  IsValid = IsU32;
  session_bytes = encoding;
  write = λ dst id h. put_varint-encoding dst id (omega arith);
  read = read_u32-encoding;
  cases = read_u32_cases;
}
