-- ===== src/Voice/Opus.antt =====
-- The header of an Opus frame: its length with the end-of-transmission bit 0x2000.
use rust_mumble_protocol.Base.{ℕ, ◌+◌, ◌-◌, ◌*◌, ◌/◌, ◌%◌, ◌^◌, ◌<◌, ◌≡◌, ap, ◌∙◌, arith}
use rust_mumble_protocol.Base.{
  bit_or, bit_and, bit_or-shift, bit_or_fields, zero-bit_or, bit_and-shift, bit_and-low,
  bit_and_fields, not64, IsU64,
}
use rust_mumble_protocol.Base.{Bool, true, false, if◌then◌else◌, ◌==◌}

-- The two masks that `decode` puts on the header.
pub term_bit-eq : (h : ℕ) → bit_and h 0x2000 ≡ h / 2 ^ 13 % 2 * 2 ^ 13
term_bit-eq h = bit_and-shift 13 h 1 ∙ ap (λ (t : ℕ). t * 2 ^ 13) (bit_and-low 1 (h / 2 ^ 13))

pub len-eq : (h : ℕ) → IsU64 h → bit_and h (not64 0x2000) ≡ h / 2 ^ 14 * 2 ^ 14 + h % 2 ^ 13
len-eq h small =
    ap (λ t. bit_and t (not64 0x2000)) split
    ∙ bit_and_fields 14 (h / 2 ^ 14) (2 ^ 50 - 1) (h % 2 ^ 14) (2 ^ 13 - 1) (omega arith)
        (omega arith)
    ∙ omega (arith, bit_and-low 50 (h / 2 ^ 14), bit_and-low 13 (h % 2 ^ 14))
  where
    split : h ≡ h / 2 ^ 14 * 2 ^ 14 + h % 2 ^ 14
    split = omega arith

-- A length that leaves bit 13 to the end-of-transmission bit.
abbrev pub IsOpusLength : ℕ → Type 0
IsOpusLength len = (len < 2 ^ 64) × (len / 2 ^ 13 % 2 ≡ 0)

abbrev pub opus_header : Bool → ℕ → ℕ
opus_header true len = 0x2000 + len
opus_header false len = len

pub opus_header-lt : (t : Bool) (len : ℕ) → IsOpusLength len → opus_header t len < 2 ^ 64
opus_header-lt true len h = omega arith
opus_header-lt false len h = omega arith

-- What `encode` makes of such a length.
pub bit_or-term :
    (t : Bool) (len : ℕ)
    → IsOpusLength len
    → bit_or (if t then 0x2000 else 0) len ≡ opus_header t len
bit_or-term true len h =
    ap (bit_or 0x2000) split
    ∙ bit_or_fields 14 0 (len / 2 ^ 14) 0x2000 (len % 2 ^ 13) (omega arith) (omega arith)
    ∙ omega (arith, zero-bit_or (len / 2 ^ 14), bit_or-shift 13 1 (len % 2 ^ 13) (omega arith))
  where
    split : len ≡ len / 2 ^ 14 * 2 ^ 14 + len % 2 ^ 13
    split = omega arith
bit_or-term false len h = zero-bit_or len

-- `decode` takes the header apart again.
pub header_fields :
    (t : Bool) (len : ℕ)
    → IsOpusLength len
    → ((bit_and (opus_header t len) 0x2000 == 0x2000) ≡ t)
      × (bit_and (opus_header t len) (not64 0x2000) ≡ len)
header_fields true len h =
    (ground (arith, term_bit-eq (0x2000 + len)), omega (arith, len-eq (0x2000 + len)))
header_fields false len h = (ground (arith, term_bit-eq len), omega (arith, len-eq len))

-- The length that `decode` finds has bit 13 clear.
pub len-IsOpusLength : (h : ℕ) → IsU64 h → IsOpusLength (bit_and h (not64 0x2000))
len-IsOpusLength h small = (omega (arith, len-eq h), omega (arith, len-eq h))
