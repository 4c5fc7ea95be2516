-- ===== src/Varint/Write.antt =====
-- `write_varint` and `put_varint` append an encoding of the value, in at most ten bytes.
use rust_mumble_protocol.Base.{
  ℕ, suc, ◌+◌, ◌-◌, ◌*◌, ◌/◌, ◌%◌, ◌^◌, ◌≤◌, ◌<◌, ◌≡◌, refl, ap, ◌∙◌, arith,
}
use rust_mumble_protocol.Base.{[], ◌∷◌, ◌++◌, append_assoc, Bytes, IsBytes, IsU64, not64, length}
use rust_mumble_protocol.Base.{ok, ltb, if◌then◌else◌, lt→ltb, le→ltb}
use rust_mumble_protocol.Varint.{plain_bytes, write_varint_calls, write_varint, put_varint}
use rust_mumble_protocol.Varint.Format.{Encodes, seven, fourteen, twenty_one, twenty_eight}
use rust_mumble_protocol.Varint.Format.{thirty_two, sixty_four, complement, complement_two}
use rust_mumble_protocol.Varint.Masks.{
  all_but_two, sign_bit, prefix_two, prefix_four, prefix_five, prefix_six,
}
use mathlib.Core.Path.{subst}
use native.Mathlib.Decide.{dec_lt}

-- Bytes of a bounded number that stand for `v`.
pub record IsEncoding (most : ℕ) (v : ℕ) (bs : Bytes) : Type 0 where
  pub encodes : Encodes bs v
  pub bytes : IsBytes bs
  pub some_byte : 1 ≤ length bs
  pub at_most : length bs ≤ most

-- The bytes of `plain_bytes` between each two of its limits.
module _ (v : ℕ) where
  bytes-seven : v < 2 ^ 7 → plain_bytes v ≡ v ∷ []
  unfolding plain_bytes
  bytes-seven h = ground arith

  bytes-fourteen : 2 ^ 7 ≤ v → v < 2 ^ 14 → plain_bytes v ≡ (128 + v / 2 ^ 8) ∷ v % 256 ∷ []
  unfolding plain_bytes
  bytes-fourteen l h = ground (arith, prefix_six (v / 2 ^ 8))

  bytes-twenty_one :
      2 ^ 14 ≤ v → v < 2 ^ 21 → plain_bytes v ≡ (192 + v / 2 ^ 16) ∷ v / 2 ^ 8 % 256 ∷ v % 256 ∷ []
  unfolding plain_bytes
  bytes-twenty_one l h = ground (arith, prefix_five (v / 2 ^ 16))

  bytes-twenty_eight :
      2 ^ 21 ≤ v
      → v < 2 ^ 28
      → plain_bytes v ≡ (224 + v / 2 ^ 24) ∷ v / 2 ^ 16 % 256 ∷ v / 2 ^ 8 % 256 ∷ v % 256 ∷ []
  unfolding plain_bytes
  bytes-twenty_eight l h = ground (arith, prefix_four (v / 2 ^ 24))

  bytes-thirty_two :
      2 ^ 28 ≤ v
      → v < 2 ^ 32
      → plain_bytes v ≡ 240 ∷ v / 2 ^ 24 % 256 ∷ v / 2 ^ 16 % 256 ∷ v / 2 ^ 8 % 256 ∷ v % 256 ∷ []
  unfolding plain_bytes
  bytes-thirty_two l h = ground arith

  bytes-sixty_four :
      2 ^ 32 ≤ v
      → plain_bytes v
        ≡ 244
          ∷ v / 2 ^ 56 % 256
          ∷ v / 2 ^ 48 % 256
          ∷ v / 2 ^ 40 % 256
          ∷ v / 2 ^ 32 % 256
          ∷ v / 2 ^ 24 % 256
          ∷ v / 2 ^ 16 % 256
          ∷ v / 2 ^ 8 % 256
          ∷ v % 256
          ∷ []
  unfolding plain_bytes
  bytes-sixty_four l = ground arith

-- A form that stands for a number equal to `v`.
form :
    {most v v' : ℕ} {bs bs' : Bytes}
    → bs' ≡ bs
    → Encodes bs v'
    → v' ≡ v
    → IsBytes bs × (1 ≤ length bs) × (length bs ≤ most)
    → IsEncoding most v bs'
form {bs} e encodes same (bytes, some_byte, at_most) = rw e (record {
  encodes = subst (Encodes bs) same encodes;
  bytes = bytes;
  some_byte = some_byte;
  at_most = at_most;
})

eight :
    (v : ℕ)
    → v < 2 ^ 64
    → (((((((v / 2 ^ 56 % 256) * 256 + v / 2 ^ 48 % 256) * 256 + v / 2 ^ 40 % 256) * 256
                        + v / 2 ^ 32 % 256)
                      * 256
                    + v / 2 ^ 24 % 256)
                  * 256
                + v / 2 ^ 16 % 256)
              * 256
            + v / 2 ^ 8 % 256)
          * 256
        + v % 256
      ≡ v
eight v h = omega arith

plain_bytes-IsEncoding : (v : ℕ) → v < 2 ^ 64 → IsEncoding 9 v (plain_bytes v)
plain_bytes-IsEncoding v h = elim (dec_lt v (2 ^ 7)) [
  | yes p ↦ form (bytes-seven v p) (seven p) refl (omega arith)
  | no p ↦ elim (dec_lt v (2 ^ 14)) [
    | yes q ↦
        form (bytes-fourteen v (omega arith) q) (fourteen (omega arith) (omega arith)) (omega arith)
          (omega arith)
    | no q ↦ elim (dec_lt v (2 ^ 21)) [
      | yes r ↦
          form (bytes-twenty_one v (omega arith) r) (twenty_one (omega arith) (omega arith))
            (omega arith) (omega arith)
      | no r ↦ elim (dec_lt v (2 ^ 28)) [
        | yes s ↦
            form (bytes-twenty_eight v (omega arith) s) (twenty_eight (omega arith) (omega arith))
              (omega arith) (omega arith)
        | no s ↦ elim (dec_lt v (2 ^ 32)) [
          | yes t ↦
              form (bytes-thirty_two v (omega arith) t) (thirty_two (omega arith) (omega arith))
                (omega arith) (omega arith)
          | no t ↦
              form (bytes-sixty_four v (omega arith)) (sixty_four (omega arith) (omega arith))
                (eight v h) (omega arith)
        ]
      ]
    ]
  ]
]

-- The bytes of a number whose two's complement is small or whose top bit is set.
pub encoding : ℕ → Bytes
encoding v =
    if ltb v (2 ^ 63)
    then plain_bytes v
    else if ltb v (2 ^ 64 - 4)
    then 248 ∷ plain_bytes (not64 v)
    else (252 + not64 v) ∷ []

write_calls-plain :
    (calls : ℕ) (dst : Bytes) (v : ℕ)
    → v < 2 ^ 63
    → write_varint_calls (suc calls) dst v ≡ ok (dst ++ plain_bytes v)
unfolding write_varint_calls
write_calls-plain calls dst v h = ground (arith, all_but_two v, sign_bit v)

write_calls-negated :
    (calls : ℕ) (dst : Bytes) (v : ℕ)
    → 2 ^ 63 ≤ v
    → v < 2 ^ 64 - 4
    → write_varint_calls (suc calls) dst v ≡ write_varint_calls calls (dst ++ (248 ∷ [])) (not64 v)
unfolding write_varint_calls
write_calls-negated calls dst v l h = ground (arith, all_but_two v, sign_bit v)

write_calls-small :
    (calls : ℕ) (dst : Bytes) (v : ℕ)
    → 2 ^ 64 - 4 ≤ v
    → v < 2 ^ 64
    → write_varint_calls (suc calls) dst v ≡ ok (dst ++ ((252 + not64 v) ∷ []))
unfolding write_varint_calls
write_calls-small calls dst v l h = ground (arith, all_but_two v, prefix_two (not64 v))

-- Two calls are enough, and the buffer is kept in front.
pub write_varint-encoding :
    (dst : Bytes) (v : ℕ) → IsU64 v → write_varint dst v ≡ ok (dst ++ encoding v)
unfolding write_varint encoding
write_varint-encoding dst v h = elim (dec_lt v (2 ^ 63)) [
  | yes p ↦ rw (lt→ltb v _ p) (write_calls-plain 1 dst v p)
  | no p ↦ elim (dec_lt v (2 ^ 64 - 4)) [
    | yes q ↦
        rw (le→ltb v (2 ^ 63) (omega arith), lt→ltb v _ q)
          (write_calls-negated 1 dst v (omega arith) q
            ∙ write_calls-plain 0 (dst ++ (248 ∷ [])) (not64 v) (omega arith)
            ∙ ap ok (append_assoc dst (248 ∷ []) (plain_bytes (not64 v))))
    | no q ↦
        rw (le→ltb v (2 ^ 63) (omega arith), le→ltb v (2 ^ 64 - 4) (omega arith))
          (write_calls-small 1 dst v (omega arith) h)
  ]
]

pub put_varint-encoding :
    (dst : Bytes) (v : ℕ) → IsU64 v → put_varint dst v ≡ ok (dst ++ encoding v)
unfolding put_varint
put_varint-encoding dst v h = rw (write_varint-encoding dst v h, put_varint)

pub encoding-IsEncoding : (v : ℕ) → IsU64 v → IsEncoding 10 v (encoding v)
unfolding encoding
encoding-IsEncoding v h = elim (dec_lt v (2 ^ 63)) [
  | yes p ↦
      let e = plain_bytes-IsEncoding v h in
      rw (lt→ltb v _ p) (form refl e.encodes refl (e.bytes, e.some_byte, omega arith))
  | no p ↦ elim (dec_lt v (2 ^ 64 - 4)) [
    | yes q ↦
        let e = plain_bytes-IsEncoding (not64 v) (omega arith) in
        rw (le→ltb v (2 ^ 63) (omega arith), lt→ltb v _ q)
          (form refl (complement (omega arith) (omega arith) e.encodes) (omega arith)
            ((omega arith, e.bytes), omega arith, omega arith))
    | no q ↦
        rw (le→ltb v (2 ^ 63) (omega arith), le→ltb v (2 ^ 64 - 4) (omega arith))
          (form refl (complement_two (omega arith) (omega arith)) (omega arith) (omega arith))
  ]
]
