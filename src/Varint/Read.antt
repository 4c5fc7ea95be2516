-- ===== src/Varint/Read.antt =====
-- `read_varint` on each form of the format.
use rust_mumble_protocol.Base.{ℕ, ◌+◌, ◌-◌, ◌*◌, ◌≤◌, ◌<◌, ◌≡◌, refl, arith}
use rust_mumble_protocol.Base.{[], ◌∷◌, Bytes, IsBytes, not64}
use rust_mumble_protocol.Base.{length, ok, err, unexpected_eof}
use rust_mumble_protocol.Varint.{read_varint, read_wide, negate}
use rust_mumble_protocol.Varint.Masks.{kind_bits, top_bits, second_bits, third_bits, fourth_bits}
use rust_mumble_protocol.Varint.Masks.{long_bits, low_seven, low_six, low_five, low_four, low_two}
use rust_mumble_protocol.Varint.Masks.{pair-eq, triple-eq, be32-eq, be64-eq}

-- Behind a first byte below 248 with its top bit set the wide forms follow.
pub read_varint-wide :
    (b0 : ℕ) (buf : Bytes) → 128 ≤ b0 → b0 < 248 → read_varint (b0 ∷ buf) ≡ read_wide b0 buf
unfolding read_varint
read_varint-wide b0 buf lo hi = ground (arith, kind_bits b0, top_bits b0)

pub read-fourteen :
    (b0 b1 : ℕ) (rest : Bytes)
    → 128 ≤ b0
    → b0 < 192
    → IsBytes (b1 ∷ [])
    → read_wide b0 (b1 ∷ rest) ≡ ok ((b0 - 128) * 256 + b1, rest)
unfolding read_wide
read-fourteen b0 b1 rest lo hi h = ground (arith, second_bits b0, low_six b0, pair-eq (b0 - 128) b1)

pub fourteen_cut :
    (b0 : ℕ) (buf : Bytes)
    → 128 ≤ b0
    → b0 < 192
    → length buf < 1
    → read_wide b0 buf ≡ err unexpected_eof
unfolding read_wide
fourteen_cut b0 [] lo hi h = refl
fourteen_cut b0 (b1 ∷ buf) lo hi h = absurd (omega arith)

pub read-twenty_one :
    (b0 b1 b2 : ℕ) (rest : Bytes)
    → 192 ≤ b0
    → b0 < 224
    → IsBytes (b1 ∷ b2 ∷ [])
    → read_wide b0 (b1 ∷ b2 ∷ rest) ≡ ok (((b0 - 192) * 256 + b1) * 256 + b2, rest)
unfolding read_wide
read-twenty_one b0 b1 b2 rest lo hi h =
    ground (arith, second_bits b0, third_bits b0, low_five b0, triple-eq (b0 - 192) b1 b2)

pub twenty_one_cut :
    (b0 : ℕ) (buf : Bytes)
    → 192 ≤ b0
    → b0 < 224
    → length buf < 2
    → read_wide b0 buf ≡ err unexpected_eof
unfolding read_wide
twenty_one_cut b0 [] lo hi h = refl
twenty_one_cut b0 (b1 ∷ []) lo hi h = ground (arith, second_bits b0)
twenty_one_cut b0 (b1 ∷ b2 ∷ buf) lo hi h = absurd (omega arith)

pub read-twenty_eight :
    (b0 b1 b2 b3 : ℕ) (rest : Bytes)
    → 224 ≤ b0
    → b0 < 240
    → IsBytes (b1 ∷ b2 ∷ b3 ∷ [])
    → read_wide b0 (b1 ∷ b2 ∷ b3 ∷ rest)
      ≡ ok ((((b0 - 224) * 256 + b1) * 256 + b2) * 256 + b3, rest)
unfolding read_wide
read-twenty_eight b0 b1 b2 b3 rest lo hi h =
    ground (
      arith,
      second_bits b0,
      third_bits b0,
      fourth_bits b0,
      low_four b0,
      be32-eq (b0 - 224) b1 b2 b3,
    )

pub twenty_eight_cut :
    (b0 : ℕ) (buf : Bytes)
    → 224 ≤ b0
    → b0 < 240
    → length buf < 3
    → read_wide b0 buf ≡ err unexpected_eof
unfolding read_wide
twenty_eight_cut b0 [] lo hi h = refl
twenty_eight_cut b0 (b1 ∷ []) lo hi h = ground (arith, second_bits b0)
twenty_eight_cut b0 (b1 ∷ b2 ∷ []) lo hi h = ground (arith, second_bits b0, third_bits b0)
twenty_eight_cut b0 (b1 ∷ b2 ∷ b3 ∷ buf) lo hi h = absurd (omega arith)

pub read-thirty_two :
    (b0 b1 b2 b3 b4 : ℕ) (rest : Bytes)
    → 240 ≤ b0
    → b0 < 244
    → IsBytes (b1 ∷ b2 ∷ b3 ∷ b4 ∷ [])
    → read_wide b0 (b1 ∷ b2 ∷ b3 ∷ b4 ∷ rest) ≡ ok (((b1 * 256 + b2) * 256 + b3) * 256 + b4, rest)
unfolding read_wide
read-thirty_two b0 b1 b2 b3 b4 rest lo hi h =
    ground (arith, second_bits b0, third_bits b0, fourth_bits b0, long_bits b0, be32-eq b1 b2 b3 b4)

pub thirty_two_cut :
    (b0 : ℕ) (buf : Bytes)
    → 240 ≤ b0
    → b0 < 244
    → length buf < 4
    → read_wide b0 buf ≡ err unexpected_eof
unfolding read_wide
thirty_two_cut b0 [] lo hi h = refl
thirty_two_cut b0 (b1 ∷ []) lo hi h = ground (arith, second_bits b0)
thirty_two_cut b0 (b1 ∷ b2 ∷ []) lo hi h = ground (arith, second_bits b0, third_bits b0)
thirty_two_cut b0 (b1 ∷ b2 ∷ b3 ∷ []) lo hi h =
    ground (arith, second_bits b0, third_bits b0, fourth_bits b0)
thirty_two_cut b0 (b1 ∷ b2 ∷ b3 ∷ b4 ∷ buf) lo hi h = absurd (omega arith)

pub read-sixty_four :
    (b0 b1 b2 b3 b4 b5 b6 b7 b8 : ℕ) (rest : Bytes)
    → 244 ≤ b0
    → b0 < 248
    → IsBytes (b1 ∷ b2 ∷ b3 ∷ b4 ∷ b5 ∷ b6 ∷ b7 ∷ b8 ∷ [])
    → read_wide b0 (b1 ∷ b2 ∷ b3 ∷ b4 ∷ b5 ∷ b6 ∷ b7 ∷ b8 ∷ rest)
      ≡ ok (
        ((((((b1 * 256 + b2) * 256 + b3) * 256 + b4) * 256 + b5) * 256 + b6) * 256 + b7) * 256 + b8,
        rest,
      )
unfolding read_wide
read-sixty_four b0 b1 b2 b3 b4 b5 b6 b7 b8 rest lo hi h = ground (
  arith,
  second_bits b0,
  third_bits b0,
  fourth_bits b0,
  long_bits b0,
  be64-eq b1 b2 b3 b4 b5 b6 b7 b8,
)

pub sixty_four_cut :
    (b0 : ℕ) (buf : Bytes)
    → 244 ≤ b0
    → b0 < 248
    → length buf < 8
    → read_wide b0 buf ≡ err unexpected_eof
unfolding read_wide
sixty_four_cut b0 [] lo hi h = refl
sixty_four_cut b0 (b1 ∷ []) lo hi h = ground (arith, second_bits b0)
sixty_four_cut b0 (b1 ∷ b2 ∷ []) lo hi h = ground (arith, second_bits b0, third_bits b0)
sixty_four_cut b0 (b1 ∷ b2 ∷ b3 ∷ []) lo hi h =
    ground (arith, second_bits b0, third_bits b0, fourth_bits b0)
sixty_four_cut b0 (b1 ∷ b2 ∷ b3 ∷ b4 ∷ []) lo hi h =
    ground (arith, second_bits b0, third_bits b0, fourth_bits b0, long_bits b0)
sixty_four_cut b0 (b1 ∷ b2 ∷ b3 ∷ b4 ∷ b5 ∷ []) lo hi h =
    ground (arith, second_bits b0, third_bits b0, fourth_bits b0, long_bits b0)
sixty_four_cut b0 (b1 ∷ b2 ∷ b3 ∷ b4 ∷ b5 ∷ b6 ∷ []) lo hi h =
    ground (arith, second_bits b0, third_bits b0, fourth_bits b0, long_bits b0)
sixty_four_cut b0 (b1 ∷ b2 ∷ b3 ∷ b4 ∷ b5 ∷ b6 ∷ b7 ∷ []) lo hi h =
    ground (arith, second_bits b0, third_bits b0, fourth_bits b0, long_bits b0)
sixty_four_cut b0 (b1 ∷ b2 ∷ b3 ∷ b4 ∷ b5 ∷ b6 ∷ b7 ∷ b8 ∷ buf) lo hi h = absurd (omega arith)

-- The forms of one byte, and the complement of another form.
pub read-seven : (b0 : ℕ) (buf : Bytes) → b0 < 128 → read_varint (b0 ∷ buf) ≡ ok (b0, buf)
unfolding read_varint
read-seven b0 buf hi = ground (arith, kind_bits b0, top_bits b0, low_seven b0)

pub read-complement_two :
    (b0 : ℕ) (buf : Bytes)
    → 252 ≤ b0
    → b0 < 256
    → read_varint (b0 ∷ buf) ≡ ok (not64 (b0 - 252), buf)
unfolding read_varint
read-complement_two b0 buf lo hi = ground (arith, kind_bits b0, low_two b0)

pub read-complement :
    (b0 : ℕ) (buf : Bytes) → 248 ≤ b0 → b0 < 252 → read_varint (b0 ∷ buf) ≡ negate (read_varint buf)
unfolding read_varint
read-complement b0 buf lo hi = ground (arith, kind_bits b0)
