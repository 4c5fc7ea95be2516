-- ===== src/Crypt/Ocb/Double.antt =====
-- src/crypt.rs, `s2`: doubling in the field of 2 ^ 128 elements.
use rust_mumble_protocol.Base.{
  ℕ, ◌+◌, ◌-◌, ◌*◌, ◌/◌, ◌%◌, ◌^◌, ◌<◌, bit_and, bit_and-low, bit_xor, xor_comm, xor_fields,
  zero-xor, ◌≡◌, sym, ap, ◌∙◌, arith, ltb, lt→ltb, le→ltb, if◌then◌else◌,
}
use rust_mumble_protocol.Crypt.Ocb.{s2}
use native.Mathlib.Decide.{dec_lt}

-- Multiplication by x modulo x ^ 128 + x ^ 7 + x ^ 2 + x + 1: a shift, less the modulus where the
-- product has a bit 128.
abbrev pub times_x : ℕ → ℕ
times_x b = if ltb (b * 2) (2 ^ 128) then b * 2 else bit_xor (b * 2) (2 ^ 128 + 0x87)

s2-rotated :
    (b rot bit : ℕ)
    → b * 2 % 2 ^ 128 + b / 2 ^ 127 ≡ rot
    → rot % 2 ≡ bit
    → s2 b ≡ bit_xor rot (bit * 0x86)
unfolding s2
s2-rotated b rot bit e odd =
    ap (λ t. bit_xor t (bit_and t 1 * 0x86)) e
    ∙ ap (λ (t : ℕ). bit_xor rot (t * 0x86)) (bit_and-low 1 rot ∙ odd)

-- The bit that comes around, with 0x86, is 0x87.
carried : (half : ℕ) → bit_xor (half * 2 + 1) 0x86 ≡ bit_xor (half * 2 + 0) 0x87
carried half =
    xor_fields 1 half 0x43 1 0 (omega arith) (omega arith)
    ∙ sym (xor_fields 1 half 0x43 0 1 (omega arith) (omega arith))

reduced : (c : ℕ) → c < 2 ^ 128 → bit_xor (1 * 2 ^ 128 + c) (1 * 2 ^ 128 + 0x87) ≡ bit_xor c 0x87
reduced c h = xor_fields 128 1 1 c 0x87 h (omega arith) ∙ omega arith

high_bit :
    (b half : ℕ)
    → b * 2 ≡ 2 ^ 128 + half * 2
    → half * 2 < 2 ^ 128
    → s2 b ≡ bit_xor (b * 2) (2 ^ 128 + 0x87)
high_bit b half e h =
    s2-rotated b (half * 2 + 1) 1 (omega arith) (omega arith)
    ∙ carried half
    ∙ sym (reduced (half * 2 + 0) (omega arith))
    ∙ ap (λ (t : ℕ). bit_xor t (2 ^ 128 + 0x87)) back
  where
    back : 1 * 2 ^ 128 + (half * 2 + 0) ≡ b * 2
    back = omega arith

-- `s2` of a word of 128 bits multiplies it by x in the field.
pub s2-times_x : (b : ℕ) → b < 2 ^ 128 → s2 b ≡ times_x b
unfolding s2
s2-times_x b h = elim (dec_lt (b * 2) (2 ^ 128)) [
  | yes low ↦
      rw (lt→ltb (b * 2) (2 ^ 128) low)
        (s2-rotated b (b * 2) 0 (omega arith) (omega arith) ∙ xor_comm (b * 2) 0 ∙ zero-xor (b * 2))
  | no high ↦
      rw (le→ltb (b * 2) (2 ^ 128) (omega arith))
        (high_bit b (b - 2 ^ 127) (omega arith) (omega arith))
]
