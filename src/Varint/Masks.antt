-- ===== src/Varint/Masks.antt =====
-- The masks and the byte arithmetic of src/varint.rs as arithmetic.
use rust_mumble_protocol.Base.{ℕ, ◌+◌, ◌-◌, ◌*◌, ◌/◌, ◌%◌, ◌^◌, ◌<◌, bit_and, bit_or, ◌≡◌, arith}
use rust_mumble_protocol.Base.{◌∙◌, ap, bit_and-shift, bit_and-low, bit_or-shift, ◌<<<◌}
use rust_mumble_protocol.Varint.{be32, be64}

-- A mask of `w` ones above `k` zeros.
mask : (k w a : ℕ) → bit_and a ((2 ^ w - 1) * 2 ^ k) ≡ a / 2 ^ k % 2 ^ w * 2 ^ k
mask k w a = bit_and-shift k a (2 ^ w - 1) ∙ ap (λ (t : ℕ). t * 2 ^ k) (bit_and-low w (a / 2 ^ k))

pub kind_bits : (b : ℕ) → bit_and b 0b1111_1100 ≡ b / 4 % 64 * 4
kind_bits = mask 2 6

pub top_bits : (b : ℕ) → bit_and b 0b1000_0000 ≡ b / 128 % 2 * 128
top_bits = mask 7 1

pub second_bits : (b : ℕ) → bit_and b 0b0100_0000 ≡ b / 64 % 2 * 64
second_bits = mask 6 1

pub third_bits : (b : ℕ) → bit_and b 0b0010_0000 ≡ b / 32 % 2 * 32
third_bits = mask 5 1

pub fourth_bits : (b : ℕ) → bit_and b 0b0001_0000 ≡ b / 16 % 2 * 16
fourth_bits = mask 4 1

pub long_bits : (b : ℕ) → bit_and b 0b0000_0100 ≡ b / 4 % 2 * 4
long_bits = mask 2 1

pub low_seven : (b : ℕ) → bit_and b 0x7f ≡ b % 128
low_seven = bit_and-low 7

pub low_six : (b : ℕ) → bit_and b 0x3f ≡ b % 64
low_six = bit_and-low 6

pub low_five : (b : ℕ) → bit_and b 0x1f ≡ b % 32
low_five = bit_and-low 5

pub low_four : (b : ℕ) → bit_and b 0xf ≡ b % 16
low_four = bit_and-low 4

pub low_two : (b : ℕ) → bit_and b 0x3 ≡ b % 4
low_two = bit_and-low 2

pub all_but_two : (v : ℕ) → bit_and v 0xffff_ffff_ffff_fffc ≡ v / 4 % 2 ^ 62 * 4
all_but_two = mask 2 62

pub sign_bit : (v : ℕ) → bit_and v 0x8000_0000_0000_0000 ≡ v / 2 ^ 63 % 2 * 2 ^ 63
sign_bit = mask 63 1

-- The prefix of a form and the bits behind it.
pub prefix_two : (r : ℕ) → r < 4 → bit_or 0b1111_1100 r ≡ 252 + r
prefix_two = bit_or-shift 2 63

pub prefix_four : (r : ℕ) → r < 16 → bit_or 0b1110_0000 r ≡ 224 + r
prefix_four r h = bit_or-shift 5 7 r (omega arith)

pub prefix_five : (r : ℕ) → r < 32 → bit_or 0b1100_0000 r ≡ 192 + r
prefix_five r h = bit_or-shift 6 3 r (omega arith)

pub prefix_six : (r : ℕ) → r < 64 → bit_or 0b1000_0000 r ≡ 128 + r
prefix_six r h = bit_or-shift 7 1 r (omega arith)

-- Bits that do not meet add up.
join : (k q x y z : ℕ) → x ≡ q * 2 ^ k → y < 2 ^ k → x + y ≡ z → bit_or x y ≡ z
join k q x y z e h sum = ap (λ t. bit_or t y) e ∙ bit_or-shift k q y h ∙ omega arith

pub pair-eq : (b1 b2 : ℕ) → b1 < 256 → b2 < 256 → bit_or (b1 <<< 8) b2 ≡ b1 * 256 + b2
pair-eq b1 b2 h1 h2 =
    join 8 b1 (b1 <<< 8) b2 ((b1 * 256 + b2)) (omega arith) (omega arith) (omega arith)

pub triple-eq :
    (b1 b2 b3 : ℕ)
    → b1 < 256
    → b2 < 256
    → b3 < 256
    → bit_or (bit_or (b1 <<< 16) (b2 <<< 8)) b3 ≡ (b1 * 256 + b2) * 256 + b3
triple-eq b1 b2 b3 h1 h2 h3 =
    let e2 : bit_or (b1 <<< 16) (b2 <<< 8) ≡ (b1 * 256 + b2) * 2 ^ 8 =
      join 16 b1 (b1 <<< 16) (b2 <<< 8) _ (omega arith) (omega arith) (omega arith) in
    join 8 (b1 * 256 + b2) (bit_or (b1 <<< 16) (b2 <<< 8)) b3 _ (omega arith) (omega arith)
      (omega arith)

pub be32-eq :
    (b1 b2 b3 b4 : ℕ)
    → b1 < 256
    → b2 < 256
    → b3 < 256
    → b4 < 256
    → be32 b1 b2 b3 b4 ≡ ((b1 * 256 + b2) * 256 + b3) * 256 + b4
unfolding be32
be32-eq b1 b2 b3 b4 h1 h2 h3 h4 =
    let e2 : bit_or (b1 <<< 24) (b2 <<< 16) ≡ (b1 * 256 + b2) * 2 ^ 16 =
      join 24 b1 (b1 <<< 24) (b2 <<< 16) ((b1 * 256 + b2) * 2 ^ 16) (omega arith) (omega arith)
        (omega arith) in
    let e3 : bit_or (bit_or (b1 <<< 24) (b2 <<< 16)) (b3 <<< 8)
        ≡ ((b1 * 256 + b2) * 256 + b3) * 2 ^ 8 =
      join 16 (b1 * 256 + b2) (bit_or (b1 <<< 24) (b2 <<< 16)) (b3 <<< 8)
        (((b1 * 256 + b2) * 256 + b3) * 2 ^ 8) (omega arith) (omega arith) (omega arith) in
    join 8 ((b1 * 256 + b2) * 256 + b3) (bit_or (bit_or (b1 <<< 24) (b2 <<< 16)) (b3 <<< 8)) b4
      ((((b1 * 256 + b2) * 256 + b3) * 256 + b4)) (omega arith) (omega arith) (omega arith)

pub be64-eq :
    (b1 b2 b3 b4 b5 b6 b7 b8 : ℕ)
    → b1 < 256
    → b2 < 256
    → b3 < 256
    → b4 < 256
    → b5 < 256
    → b6 < 256
    → b7 < 256
    → b8 < 256
    → be64 b1 b2 b3 b4 b5 b6 b7 b8
      ≡ ((((((b1 * 256 + b2) * 256 + b3) * 256 + b4) * 256 + b5) * 256 + b6) * 256 + b7) * 256 + b8
unfolding be64
be64-eq b1 b2 b3 b4 b5 b6 b7 b8 h1 h2 h3 h4 h5 h6 h7 h8 =
    let e2 : bit_or (b1 <<< 56) (b2 <<< 48) ≡ (b1 * 256 + b2) * 2 ^ 48 =
      join 56 b1 (b1 <<< 56) (b2 <<< 48) ((b1 * 256 + b2) * 2 ^ 48) (omega arith) (omega arith)
        (omega arith) in
    let e3 : bit_or (bit_or (b1 <<< 56) (b2 <<< 48)) (b3 <<< 40)
        ≡ ((b1 * 256 + b2) * 256 + b3) * 2 ^ 40 =
      join 48 (b1 * 256 + b2) (bit_or (b1 <<< 56) (b2 <<< 48)) (b3 <<< 40)
        (((b1 * 256 + b2) * 256 + b3) * 2 ^ 40) (omega arith) (omega arith) (omega arith) in
    let e4 : bit_or (bit_or (bit_or (b1 <<< 56) (b2 <<< 48)) (b3 <<< 40)) (b4 <<< 32)
        ≡ (((b1 * 256 + b2) * 256 + b3) * 256 + b4) * 2 ^ 32 =
      join 40 ((b1 * 256 + b2) * 256 + b3) (bit_or (bit_or (b1 <<< 56) (b2 <<< 48)) (b3 <<< 40))
        (b4 <<< 32) ((((b1 * 256 + b2) * 256 + b3) * 256 + b4) * 2 ^ 32) (omega arith) (omega arith)
        (omega arith) in
    let e5 : bit_or (bit_or (bit_or (bit_or (b1 <<< 56) (b2 <<< 48)) (b3 <<< 40)) (b4 <<< 32))
          (b5 <<< 24)
        ≡ ((((b1 * 256 + b2) * 256 + b3) * 256 + b4) * 256 + b5) * 2 ^ 24 =
      join 32 (((b1 * 256 + b2) * 256 + b3) * 256 + b4)
        (bit_or (bit_or (bit_or (b1 <<< 56) (b2 <<< 48)) (b3 <<< 40)) (b4 <<< 32)) (b5 <<< 24)
        (((((b1 * 256 + b2) * 256 + b3) * 256 + b4) * 256 + b5) * 2 ^ 24) (omega arith)
        (omega arith) (omega arith) in
    let e6 : bit_or
          (bit_or (bit_or (bit_or (bit_or (b1 <<< 56) (b2 <<< 48)) (b3 <<< 40)) (b4 <<< 32))
            (b5 <<< 24))
          (b6 <<< 16)
        ≡ (((((b1 * 256 + b2) * 256 + b3) * 256 + b4) * 256 + b5) * 256 + b6) * 2 ^ 16 =
      join 24 ((((b1 * 256 + b2) * 256 + b3) * 256 + b4) * 256 + b5)
        (bit_or (bit_or (bit_or (bit_or (b1 <<< 56) (b2 <<< 48)) (b3 <<< 40)) (b4 <<< 32))
          (b5 <<< 24))
        (b6 <<< 16) ((((((b1 * 256 + b2) * 256 + b3) * 256 + b4) * 256 + b5) * 256 + b6) * 2 ^ 16)
        (omega arith) (omega arith) (omega arith) in
    let e7 : bit_or
          (bit_or
            (bit_or (bit_or (bit_or (bit_or (b1 <<< 56) (b2 <<< 48)) (b3 <<< 40)) (b4 <<< 32))
              (b5 <<< 24))
            (b6 <<< 16))
          (b7 <<< 8)
        ≡ ((((((b1 * 256 + b2) * 256 + b3) * 256 + b4) * 256 + b5) * 256 + b6) * 256 + b7) * 2 ^ 8 =
      join 16 (((((b1 * 256 + b2) * 256 + b3) * 256 + b4) * 256 + b5) * 256 + b6)
        (bit_or
          (bit_or (bit_or (bit_or (bit_or (b1 <<< 56) (b2 <<< 48)) (b3 <<< 40)) (b4 <<< 32))
            (b5 <<< 24))
          (b6 <<< 16))
        (b7 <<< 8)
        (((((((b1 * 256 + b2) * 256 + b3) * 256 + b4) * 256 + b5) * 256 + b6) * 256 + b7) * 2 ^ 8)
        (omega arith) (omega arith) (omega arith) in
    join 8 ((((((b1 * 256 + b2) * 256 + b3) * 256 + b4) * 256 + b5) * 256 + b6) * 256 + b7)
      (bit_or
        (bit_or
          (bit_or (bit_or (bit_or (bit_or (b1 <<< 56) (b2 <<< 48)) (b3 <<< 40)) (b4 <<< 32))
            (b5 <<< 24))
          (b6 <<< 16))
        (b7 <<< 8))
      b8
      ((((((((b1 * 256 + b2) * 256 + b3) * 256 + b4) * 256 + b5) * 256 + b6) * 256 + b7) * 256
        + b8))
      (omega arith) (omega arith) (omega arith)
