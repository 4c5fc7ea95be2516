-- ===== src/Crypt/Ocb/Aes/Linear.antt =====
-- AES: products with a coefficient keep exclusive or.
use rust_mumble_protocol.Base.{
  ℕ, zero, suc, ◌+◌, ◌*◌, ◌/◌, ◌^◌, ◌<◌, bit_xor, ◌≡◌, refl, sym, ap, ap₂, ◌∙◌, arith, lt→ltb,
  le→ltb, xor_comm, xor_assoc, xor_fields, xor-lt, zero-xor,
}
use rust_mumble_protocol.Crypt.Ocb.Bytewise.{xor-div}
use rust_mumble_protocol.Crypt.Ocb.Aes.{
  xtime, times1, times3, times9, times11, times13, times14, quad,
}
use rust_mumble_protocol.Crypt.Ocb.Aes.Tables.{lt_table, agree}
use native.Mathlib.Decide.{dec_lt}

pub interchange : (a b c d : ℕ) → quad a b c d ≡ quad a c b d
interchange a b c d =
    xor_assoc a b (bit_xor c d)
    ∙ ap (bit_xor a)
        (sym (xor_assoc b c d) ∙ ap (λ t. bit_xor t d) (xor_comm b c) ∙ xor_assoc c b d)
    ∙ sym (xor_assoc a c (bit_xor b d))

-- A map of bytes that keeps exclusive or.
pub record IsLinear (f : ℕ → ℕ) : Type 0 where
  pub byte : (a : ℕ) → a < 256 → f a < 256
  pub adds : (a b : ℕ) → a < 256 → b < 256 → f (bit_xor a b) ≡ bit_xor (f a) (f b)

pub times1-IsLinear : IsLinear times1
times1-IsLinear = record { byte = λ a h. h; adds = λ a b ha hb. refl }

∘-IsLinear : (f g : ℕ → ℕ) → IsLinear f → IsLinear g → IsLinear (λ a. f (g a))
∘-IsLinear f g lf lg = record {
  byte = λ a h. lf.byte (g a) (lg.byte a h);
  adds = λ a b ha hb. ap f (lg.adds a b ha hb) ∙ lf.adds (g a) (g b) (lg.byte a ha) (lg.byte b hb);
}

plus-IsLinear : (f g : ℕ → ℕ) → IsLinear f → IsLinear g → IsLinear (λ a. bit_xor (f a) (g a))
plus-IsLinear f g lf lg = record {
  byte = λ a h. xor-lt 8 (f a) (g a) (lf.byte a h) (lg.byte a h);
  adds = λ a b ha hb.
      ap₂ bit_xor (lf.adds a b ha hb) (lg.adds a b ha hb) ∙ interchange (f a) (f b) (g a) (g b);
}

-- `xtime` as a sum: twice the byte, and the modulus if the byte has a top bit.
xtime_sum : (b : ℕ) → b < 256 → xtime b ≡ bit_xor (b * 2) (b / 128 * 0x11b)
unfolding xtime
xtime_sum b h = elim (dec_lt b 128) [
  | yes low ↦
      let top : b / 128 ≡ 0 = omega arith in
      rw (lt→ltb b 128 low, top) (sym (xor_comm (b * 2) 0 ∙ zero-xor (b * 2)))
  | no high ↦ let top : b / 128 ≡ 1 = omega arith in rw (le→ltb b 128 (omega arith), top) refl
]

top_bits : (x y : ℕ) → x < 2 → y < 2 → bit_xor x y * 0x11b ≡ bit_xor (x * 0x11b) (y * 0x11b)
top_bits zero zero hx hy = refl
top_bits zero (suc zero) hx hy = refl
top_bits (suc zero) zero hx hy = refl
top_bits (suc zero) (suc zero) hx hy = refl
top_bits zero (suc (suc y)) hx hy = absurd (omega arith)
top_bits (suc zero) (suc (suc y)) hx hy = absurd (omega arith)
top_bits (suc (suc x)) y hx hy = absurd (omega arith)

doubled : (a b : ℕ) → bit_xor a b * 2 ≡ bit_xor (a * 2) (b * 2)
doubled a b =
    even (bit_xor a b)
    ∙ sym (xor_fields 1 a b 0 0 (omega arith) (omega arith))
    ∙ sym (ap₂ bit_xor (even a) (even b))
  where
    even : (x : ℕ) → x * 2 ≡ x * 2 ^ 1 + 0
    even x = omega arith

xtime-lt : (b : ℕ) → b < 256 → xtime b < 256
unfolding xtime agree
xtime-lt = lt_table xtime refl

pub xtime-IsLinear : IsLinear xtime
xtime-IsLinear = record {
  byte = λ a h. xtime-lt a h;
  adds = λ a b ha hb.
      xtime_sum (bit_xor a b) (xor-lt 8 a b ha hb)
      ∙ ap₂ bit_xor (doubled a b) (
          ap (λ (t : ℕ). t * 0x11b) (xor-div 7 a b)
          ∙ top_bits (a / 2 ^ 7) (b / 2 ^ 7) (omega arith) (omega arith))
      ∙ interchange (a * 2) (b * 2) _ _
      ∙ sym (ap₂ bit_xor (xtime_sum a ha) (xtime_sum b hb));
}

pub times3-IsLinear : IsLinear times3
times3-IsLinear = plus-IsLinear xtime times1 xtime-IsLinear times1-IsLinear

twice-IsLinear : IsLinear (λ b. xtime (xtime b))
twice-IsLinear = ∘-IsLinear xtime xtime xtime-IsLinear xtime-IsLinear

pub times9-IsLinear : IsLinear times9
times9-IsLinear =
    plus-IsLinear (λ b. xtime (xtime (xtime b))) times1
      (∘-IsLinear xtime (λ b. xtime (xtime b)) xtime-IsLinear twice-IsLinear) times1-IsLinear

pub times11-IsLinear : IsLinear times11
times11-IsLinear =
    plus-IsLinear (λ b. xtime (bit_xor (xtime (xtime b)) b)) times1
      (∘-IsLinear xtime (λ b. bit_xor (xtime (xtime b)) b) xtime-IsLinear
        (plus-IsLinear (λ b. xtime (xtime b)) times1 twice-IsLinear times1-IsLinear))
      times1-IsLinear

pub times13-IsLinear : IsLinear times13
times13-IsLinear =
    plus-IsLinear (λ b. xtime (xtime (times3 b))) times1
      (∘-IsLinear (λ b. xtime (xtime b)) times3 twice-IsLinear times3-IsLinear) times1-IsLinear

pub times14-IsLinear : IsLinear times14
times14-IsLinear =
    ∘-IsLinear xtime (λ b. bit_xor (xtime (times3 b)) b) xtime-IsLinear
      (plus-IsLinear (λ b. xtime (times3 b)) times1
        (∘-IsLinear xtime times3 xtime-IsLinear times3-IsLinear) times1-IsLinear)
