-- ===== src/Varint/Sound.antt =====
-- `read_varint` reads the format: it returns a number exactly when the source begins with bytes
-- that stand for it, and otherwise fails with an early end.
use rust_mumble_protocol.Base.{ℕ, ◌-◌, ◌≤◌, ◌≡◌, refl, ap, ◌∙◌, arith, ◌↔◌, inl, inr}
use rust_mumble_protocol.Base.{[], ◌∷◌, ◌++◌, Bytes, IsBytes, IsU64, not64, IsBytes-append_left}
use rust_mumble_protocol.Base.{length, ok}
use rust_mumble_protocol.Varint.{read_varint, negate}
use rust_mumble_protocol.Varint.Format.{Encodes, seven, fourteen, twenty_one, twenty_eight}
use rust_mumble_protocol.Varint.Format.{thirty_two, sixty_four, complement, complement_two}
use rust_mumble_protocol.Varint.Read.{
  read_varint-wide, read-seven, read-complement, read-complement_two,
}
use rust_mumble_protocol.Varint.Read.{read-fourteen}
use rust_mumble_protocol.Varint.Read.{read-twenty_one}
use rust_mumble_protocol.Varint.Read.{read-twenty_eight}
use rust_mumble_protocol.Varint.Read.{read-thirty_two}
use rust_mumble_protocol.Varint.Read.{read-sixty_four}
use mathlib.Core.Path.{subst}
use native.Mathlib.Decide.{dec_lt}
use rust_mumble_protocol.Varint.Cases.{Outcome, negate_cases, wide_cases}

pub read_varint_cases : (src : Bytes) → IsBytes src → Outcome src
read_varint_cases [] h = inr (unfold read_varint in refl)
read_varint_cases (b0 ∷ buf) (h0, h) =
    let deeper = read_varint_cases buf h in
    elim (dec_lt b0 128) [
      | yes p ↦ inl (record {
        value = b0;
        rest = buf;
        taken = b0 ∷ [];
        reads = read-seven b0 buf p;
        splits = refl;
        encodes = seven p;
      })
      | no p ↦ elim (dec_lt b0 248) [
        | yes q ↦ wide_cases b0 buf (omega arith) q h
        | no q ↦ elim (dec_lt b0 252) [
          | yes r ↦ negate_cases b0 buf (omega arith) r deeper
          | no r ↦ inl (record {
            value = not64 (b0 - 252);
            rest = buf;
            taken = b0 ∷ [];
            reads = read-complement_two b0 buf (omega arith) h0;
            splits = refl;
            encodes = complement_two (omega arith) h0;
          })
        ]
      ]
    ]

-- Whatever follows an encoding is left alone.
pub read_varint-Encodes :
    {bs : Bytes} {v : ℕ}
    → Encodes bs v
    → (rest : Bytes) → IsBytes bs
    → read_varint (bs ++ rest) ≡ ok (v, rest)
read_varint-Encodes (seven {b0} hi) rest h = read-seven b0 rest hi
read_varint-Encodes (complement_two {b0} lo hi) rest h = read-complement_two b0 rest lo hi
read_varint-Encodes (complement {b0} {bs} lo hi e) rest h =
    read-complement b0 (bs ++ rest) lo hi ∙ ap negate (read_varint-Encodes e rest h.1)
read_varint-Encodes (fourteen {b0} {b1} lo hi) rest h =
    read_varint-wide b0 _ (omega arith) (omega arith) ∙ read-fourteen b0 b1 rest lo hi h.1
read_varint-Encodes (twenty_one {b0} {b1} {b2} lo hi) rest h =
    read_varint-wide b0 _ (omega arith) (omega arith) ∙ read-twenty_one b0 b1 b2 rest lo hi h.1
read_varint-Encodes (twenty_eight {b0} {b1} {b2} {b3} lo hi) rest h =
    read_varint-wide b0 _ (omega arith) (omega arith) ∙ read-twenty_eight b0 b1 b2 b3 rest lo hi h.1
read_varint-Encodes (thirty_two {b0} {b1} {b2} {b3} {b4} lo hi) rest h =
    read_varint-wide b0 _ (omega arith) (omega arith)
    ∙ read-thirty_two b0 b1 b2 b3 b4 rest lo hi h.1
read_varint-Encodes (sixty_four {b0} {b1} {b2} {b3} {b4} {b5} {b6} {b7} {b8} lo hi) rest h =
    read_varint-wide b0 _ (omega arith) (omega arith)
    ∙ read-sixty_four b0 b1 b2 b3 b4 b5 b6 b7 b8 rest lo hi h.1

pub Encodes-lt : {bs : Bytes} {v : ℕ} → Encodes bs v → IsBytes bs → IsU64 v
Encodes-lt (seven hi) h = omega arith
Encodes-lt (complement_two lo hi) h = omega arith
Encodes-lt (complement lo hi e) h = omega arith
Encodes-lt (fourteen lo hi) h = omega arith
Encodes-lt (twenty_one lo hi) h = omega arith
Encodes-lt (twenty_eight lo hi) h = omega arith
Encodes-lt (thirty_two lo hi) h = omega arith
Encodes-lt (sixty_four lo hi) h = omega arith

pub Encodes_pos : {bs : Bytes} {v : ℕ} → Encodes bs v → 1 ≤ length bs
Encodes_pos (seven hi) = omega arith
Encodes_pos (complement_two lo hi) = omega arith
Encodes_pos (complement lo hi e) = omega arith
Encodes_pos (fourteen lo hi) = omega arith
Encodes_pos (twenty_one lo hi) = omega arith
Encodes_pos (twenty_eight lo hi) = omega arith
Encodes_pos (thirty_two lo hi) = omega arith
Encodes_pos (sixty_four lo hi) = omega arith

-- On any bytes, `read_varint` returns `v` and leaves `rest` exactly when the source is an encoding
-- of `v` in the variable-length format followed by `rest`.
pub read_varint_iff :
    (src : Bytes) (v : ℕ) (rest : Bytes)
    → IsBytes src
    → (read_varint src ≡ ok (v, rest)) ↔ ((bs : Bytes) × (src ≡ bs ++ rest) × Encodes bs v)
read_varint_iff src v rest h = (there, back)
  where
    there : read_varint src ≡ ok (v, rest) → (bs : Bytes) × (src ≡ bs ++ rest) × Encodes bs v
    there e = elim (read_varint_cases src h) [
      | inl r ↦
          let same_value : r.value ≡ v = cc (e, r.reads) in
          let same_rest : r.rest ≡ rest = cc (e, r.reads) in
          (
            r.taken,
            r.splits ∙ ap (◌++◌ r.taken) same_rest,
            subst (Encodes r.taken) same_value r.encodes,
          )
      | inr f ↦ absurd (cc (e, f))
    ]

    back : (bs : Bytes) × (src ≡ bs ++ rest) × Encodes bs v → read_varint src ≡ ok (v, rest)
    back (bs, splits, encodes) =
        ap read_varint splits
        ∙ read_varint-Encodes encodes rest (IsBytes-append_left bs rest (subst IsBytes splits h))
