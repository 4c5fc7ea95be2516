-- ===== src/Varint/Depth.antt =====
-- How deep the calls of `read_varint` nest.
use rust_mumble_protocol.Base.{
  ℕ, zero, suc, ◌<◌, ◌≡◌, refl, ap, ◌∙◌, arith, bit_and, [], ◌∷◌, ◌++◌, ◌==◌, if◌then◌else◌, Bytes,
  IsU64, not64, length, replicate, ok, err, panic, unexpected_eof,
}
use rust_mumble_protocol.Varint.{Read, read_varint, read_wide, negate}
use rust_mumble_protocol.Varint.Read.{read-complement}
use rust_mumble_protocol.Varint.RoundTrip.{read_varint-encoding}
use rust_mumble_protocol.Varint.Write.{encoding}

-- `read_varint` with a bound on the calls that are open at one time; past the bound, which stands
-- for the end of the stack, it panics.
unfoldable pub read_varint_calls : ℕ → Bytes → Read ℕ
read_varint_calls zero buf = panic
read_varint_calls (suc calls) [] = err unexpected_eof
read_varint_calls (suc calls) (b0 ∷ buf) =
    let nested = read_varint_calls calls buf in
    if bit_and b0 0b1111_1100 == 0b1111_1000
    then negate nested
    else if bit_and b0 0b1111_1100 == 0b1111_1100
    then ok (not64 (bit_and b0 0x03), buf)
    else if bit_and b0 0b1000_0000 == 0
    then ok (bit_and b0 0b0111_1111, buf)
    else read_wide b0 buf

-- With a call more than there are bytes the bound is not met.
read_varint_calls-enough :
    (calls : ℕ) (buf : Bytes) → length buf < calls → read_varint_calls calls buf ≡ read_varint buf
unfolding read_varint_calls read_varint
read_varint_calls-enough zero buf h = absurd (omega arith)
read_varint_calls-enough (suc calls) [] h = refl
read_varint_calls-enough (suc calls) (b0 ∷ buf) h =
    rw (read_varint_calls-enough calls buf (omega arith)) refl

-- The value behind `n` first bytes of the complement form.
abbrev pub complemented : ℕ → ℕ → ℕ
complemented zero v = v
complemented (suc n) v = not64 (complemented n v)

-- A byte 0xf8 opens a call.
read_varint_calls-complement :
    (calls : ℕ) (buf : Bytes)
    → read_varint_calls (suc calls) (0xf8 ∷ buf) ≡ negate (read_varint_calls calls buf)
unfolding read_varint_calls
read_varint_calls-complement calls buf = refl

runs_out : (n : ℕ) (buf : Bytes) → read_varint_calls n (replicate n 0xf8 ++ buf) ≡ panic
unfolding read_varint_calls
runs_out zero buf = refl
runs_out (suc n) buf =
    read_varint_calls-complement n (replicate n 0xf8 ++ buf) ∙ ap negate (runs_out n buf)

nested :
    (n v : ℕ) (rest : Bytes)
    → IsU64 v
    → read_varint (replicate n 0xf8 ++ (encoding v ++ rest)) ≡ ok (complemented n v, rest)
nested zero v rest h = read_varint-encoding v rest h
nested (suc n) v rest h =
    read-complement 0xf8 _ (omega arith) (omega arith) ∙ ap negate (nested n v rest h)

-- Before the bytes of any u64 there may stand `n` bytes 0xf8, for any `n`: `read_varint` takes them
-- as one number, the value complemented `n` times. `n` nested calls are not enough for that: bounded
-- by them it ends in a panic, while bounded by one more than the source has bytes it reads the
-- number.
pub read_varint_nested :
    (n v : ℕ) (rest : Bytes)
    → IsU64 v
    → let src = replicate n 0xf8 ++ (encoding v ++ rest) in
      (read_varint src ≡ ok (complemented n v, rest))
      × (read_varint_calls n src ≡ panic)
      × (read_varint_calls (suc (length src)) src ≡ ok (complemented n v, rest))
read_varint_nested n v rest h =
    let src = replicate n 0xf8 ++ (encoding v ++ rest) in
    (
      nested n v rest h,
      runs_out n (encoding v ++ rest),
      read_varint_calls-enough (suc (length src)) src (omega arith) ∙ nested n v rest h,
    )
