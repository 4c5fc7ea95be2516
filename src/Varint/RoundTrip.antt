-- ===== src/Varint/RoundTrip.antt =====
-- Reading back what was written, whole, cut short or with more behind it.
use rust_mumble_protocol.Base.{ℕ, ◌≤◌, ◌≡◌, sym, ap, ◌∙◌, arith, inl, inr}
use rust_mumble_protocol.Base.{
  [], ◌∷◌, ◌++◌, append-nil, append_assoc, Bytes, IsBytes, IsU64, length, length-append,
}
use rust_mumble_protocol.Base.{
  ok, err, unexpected_eof, ◌>>=◌, IsBytes-append_left, IsBytes-append_right,
}
use rust_mumble_protocol.Varint.{read_varint, write_varint, put_varint}
use rust_mumble_protocol.Varint.Format.{Encodes}
use rust_mumble_protocol.Varint.Sound.{
  read_varint_iff, Encodes_pos, read_varint_cases, read_varint-Encodes, Encodes-lt,
}
use rust_mumble_protocol.Varint.Write.{
  encoding, encoding-IsEncoding, write_varint-encoding, put_varint-encoding,
}
use mathlib.Core.Path.{subst}

pub read_varint-encoding :
    (v : ℕ) (rest : Bytes) → IsU64 v → read_varint (encoding v ++ rest) ≡ ok (v, rest)
read_varint-encoding v rest h =
    let e = encoding-IsEncoding v h in read_varint-Encodes e.encodes rest e.bytes

-- A u64 that `write_varint` writes is read back by `read_varint`, which leaves what follows.
pub read_varint-write_varint :
    (v : ℕ) (rest : Bytes)
    → IsU64 v
    → (write_varint [] v >>= λ bs. read_varint (bs ++ rest)) ≡ ok (v, rest)
read_varint-write_varint v rest h =
    ap (λ r. r >>= λ bs. read_varint (bs ++ rest)) (write_varint-encoding [] v h)
    ∙ read_varint-encoding v rest h

-- For a u64 `put_varint` does not panic; it keeps the buffer and appends 1 to 10 bytes that stand
-- for the value in the format.
pub put_varint_lem :
    (dst : Bytes) (v : ℕ)
    → IsU64 v
    → (bs : Bytes) × (put_varint dst v ≡ ok (dst ++ bs))
      × Encodes bs v
      × IsBytes bs
      × (1 ≤ length bs)
      × (length bs ≤ 10)
put_varint_lem dst v h =
    let e = encoding-IsEncoding v h in
    (encoding v, put_varint-encoding dst v h, e.encodes, e.bytes, e.some_byte, e.at_most)

-- What a read that succeeded took: the format's account of it.
module _ (src : Bytes) (v : ℕ) (rest : Bytes) (h : IsBytes src)
    (e : read_varint src ≡ ok (v, rest)) where
  took : (bs : Bytes) × (src ≡ bs ++ rest) × Encodes bs v
  took = (read_varint_iff src v rest h).0 e

  took-IsBytes : IsBytes (took.0 ++ rest)
  took-IsBytes = subst IsBytes (took.1) h

  -- A successful read takes at least one byte from the front and leaves bytes, and its value is a
  -- u64.
  pub read_varint_takes :
      IsU64 v × IsBytes rest × ((taken : Bytes) × (src ≡ taken ++ rest) × (1 ≤ length taken))
  read_varint_takes = (
    Encodes-lt (took.2) (IsBytes-append_left (took.0) rest took-IsBytes),
    IsBytes-append_right (took.0) rest took-IsBytes,
    (took.0, took.1, Encodes_pos (took.2)),
  )

  -- If a read of bytes succeeded, it also succeeds with more bytes behind the source, with the
  -- same value, and they join what is left.
  pub read_varint-append : (more : Bytes) → read_varint (src ++ more) ≡ ok (v, rest ++ more)
  read_varint-append more =
      ap (λ s. read_varint (s ++ more)) (took.1)
      ∙ ap read_varint (append_assoc (took.0) rest more)
      ∙ read_varint-Encodes (took.2) (rest ++ more) (IsBytes-append_left (took.0) rest took-IsBytes)

-- On a proper part of what `write_varint` wrote for a u64, from its front, the read fails with an
-- early end.
pub read_varint_truncated :
    (v x : ℕ) (front back : Bytes)
    → IsU64 v
    → write_varint [] v ≡ ok (front ++ (x ∷ back))
    → read_varint front ≡ err unexpected_eof
read_varint_truncated v x front back h e = elim (read_varint_cases front bytes) [
  | inl r ↦
      let more = read_varint-append front r.value r.rest bytes r.reads (x ∷ back) in
      let nothing_left : r.rest ++ (x ∷ back) ≡ [] = cc (more, whole) in
      absurd (omega (arith, ap length nothing_left, length-append r.rest (x ∷ back)))
  | inr f ↦ f
]
  where
    same : encoding v ≡ front ++ (x ∷ back)
    same = cc (e, write_varint-encoding [] v h)

    bytes : IsBytes front
    bytes =
        IsBytes-append_left front (x ∷ back) (subst IsBytes same (encoding-IsEncoding v h).bytes)

    whole : read_varint (front ++ (x ∷ back)) ≡ ok (v, [])
    whole =
        ap read_varint (sym same)
        ∙ ap read_varint (sym (append-nil (encoding v)))
        ∙ read_varint-encoding v [] h
