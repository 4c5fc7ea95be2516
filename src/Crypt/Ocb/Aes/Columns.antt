-- ===== src/Crypt/Ocb/Aes/Columns.antt =====
-- AES: the inverse of mixing columns undoes it.
use rust_mumble_protocol.Base.{ℕ, bit_xor, ◌≡◌, refl, ap₂, ◌∙◌, true, xor_comm, zero-xor}
use rust_mumble_protocol.Crypt.Ocb.Aes.{
  xtime, times1, times2, times3, times9, times11, times13, times14, Column, column, mix_column,
  inverse_mix_column,
}
use rust_mumble_protocol.Crypt.Ocb.Aes.Tables.{by_table, agree}
use rust_mumble_protocol.Crypt.Ocb.Aes.Linear.{
  IsLinear, xtime-IsLinear, times1-IsLinear, times3-IsLinear, times9-IsLinear, times11-IsLinear,
  times13-IsLinear, times14-IsLinear,
}
use rust_mumble_protocol.Crypt.Ocb.Aes.Rows.{
  IsColumn, Row, IsLinearRow, of_row, row-lt, row_product, of_row-product,
}

-- The two matrices.
abbrev row_of : (ℕ → ℕ) → (ℕ → ℕ) → (ℕ → ℕ) → (ℕ → ℕ) → Row
row_of f g h k = record { at0 = f; at1 = g; at2 = h; at3 = k }

row_of-IsLinearRow :
    {f g h k : ℕ → ℕ}
    → IsLinear f
    → IsLinear g
    → IsLinear h
    → IsLinear k
    → IsLinearRow (row_of f g h k)
row_of-IsLinearRow lf lg lh lk = record { linear0 = lf; linear1 = lg; linear2 = lh; linear3 = lk }

abbrev product : Row → Row
product r =
    row_product r (row_of times2 times3 times1 times1) (row_of times1 times2 times3 times1)
      (row_of times1 times1 times2 times3) (row_of times3 times1 times1 times2)

mixed_row :
    (r : Row) (c : Column)
    → IsLinearRow r
    → IsColumn c
    → of_row r (mix_column c) ≡ of_row (product r) c
unfolding mix_column
mixed_row r c l h =
    of_row-product c h r _ _ _ _ l
      (row_of-IsLinearRow xtime-IsLinear times3-IsLinear times1-IsLinear times1-IsLinear)
      (row_of-IsLinearRow times1-IsLinear xtime-IsLinear times3-IsLinear times1-IsLinear)
      (row_of-IsLinearRow times1-IsLinear times1-IsLinear xtime-IsLinear times3-IsLinear)
      (row_of-IsLinearRow times3-IsLinear times1-IsLinear times1-IsLinear xtime-IsLinear)

pub mix_column-IsColumn : (c : Column) → IsColumn c → IsColumn (mix_column c)
unfolding mix_column
mix_column-IsColumn c h = (
  row-lt _ c (row_of-IsLinearRow xtime-IsLinear times3-IsLinear times1-IsLinear times1-IsLinear) h,
  row-lt _ c (row_of-IsLinearRow times1-IsLinear xtime-IsLinear times3-IsLinear times1-IsLinear) h,
  row-lt _ c (row_of-IsLinearRow times1-IsLinear times1-IsLinear xtime-IsLinear times3-IsLinear) h,
  row-lt _ c (row_of-IsLinearRow times3-IsLinear times1-IsLinear times1-IsLinear xtime-IsLinear) h,
)

-- The product has the identity's rows.
abbrev zero_of : ℕ → ℕ
zero_of v = 0

of_row-by_table :
    (m w : Row) (c : Column)
    → agree m.at0 w.at0 0 256 ≡ true
    → agree m.at1 w.at1 0 256 ≡ true
    → agree m.at2 w.at2 0 256 ≡ true
    → agree m.at3 w.at3 0 256 ≡ true
    → IsColumn c
    → of_row m c ≡ of_row w c
of_row-by_table m w c t0 t1 t2 t3 (h0, h1, h2, h3) =
    ap₂ bit_xor (ap₂ bit_xor (by_table m.at0 w.at0 t0 c.c0 h0) (by_table m.at1 w.at1 t1 c.c1 h1))
      (ap₂ bit_xor (by_table m.at2 w.at2 t2 c.c2 h2) (by_table m.at3 w.at3 t3 c.c3 h3))

product0 :
    (c : Column)
    → IsColumn c
    → of_row (product (row_of times14 times11 times13 times9)) c
      ≡ of_row (row_of times1 zero_of zero_of zero_of) c
unfolding xtime agree
product0 c h =
    of_row-by_table (product (row_of times14 times11 times13 times9))
      (row_of times1 zero_of zero_of zero_of) c refl refl refl refl h

product1 :
    (c : Column)
    → IsColumn c
    → of_row (product (row_of times9 times14 times11 times13)) c
      ≡ of_row (row_of zero_of times1 zero_of zero_of) c
unfolding xtime agree
product1 c h =
    of_row-by_table (product (row_of times9 times14 times11 times13))
      (row_of zero_of times1 zero_of zero_of) c refl refl refl refl h

product2 :
    (c : Column)
    → IsColumn c
    → of_row (product (row_of times13 times9 times14 times11)) c
      ≡ of_row (row_of zero_of zero_of times1 zero_of) c
unfolding xtime agree
product2 c h =
    of_row-by_table (product (row_of times13 times9 times14 times11))
      (row_of zero_of zero_of times1 zero_of) c refl refl refl refl h

product3 :
    (c : Column)
    → IsColumn c
    → of_row (product (row_of times11 times13 times9 times14)) c
      ≡ of_row (row_of zero_of zero_of zero_of times1) c
unfolding xtime agree
product3 c h =
    of_row-by_table (product (row_of times11 times13 times9 times14))
      (row_of zero_of zero_of zero_of times1) c refl refl refl refl h

xor-zero : (a : ℕ) → bit_xor a 0 ≡ a
xor-zero a = xor_comm a 0 ∙ zero-xor a

pub column-eq :
    {a b c d a' b' c' d' : ℕ}
    → a ≡ a'
    → b ≡ b'
    → c ≡ c'
    → d ≡ d'
    → column a b c d ≡ column a' b' c' d'
column-eq p q r s = cc

pub inverse_mix_column-mix_column :
    (c : Column) → IsColumn c → inverse_mix_column (mix_column c) ≡ c
unfolding inverse_mix_column
inverse_mix_column-mix_column c h =
    column-eq
      (mixed_row _ c
          (row_of-IsLinearRow times14-IsLinear times11-IsLinear times13-IsLinear times9-IsLinear) h
        ∙ product0 c h
        ∙ xor-zero (bit_xor c.c0 0)
        ∙ xor-zero c.c0)
      (mixed_row _ c
          (row_of-IsLinearRow times9-IsLinear times14-IsLinear times11-IsLinear times13-IsLinear) h
        ∙ product1 c h
        ∙ xor-zero (bit_xor 0 c.c1)
        ∙ zero-xor c.c1)
      (mixed_row _ c
          (row_of-IsLinearRow times13-IsLinear times9-IsLinear times14-IsLinear times11-IsLinear) h
        ∙ product2 c h
        ∙ zero-xor (bit_xor c.c2 0)
        ∙ xor-zero c.c2)
      (mixed_row _ c
          (row_of-IsLinearRow times11-IsLinear times13-IsLinear times9-IsLinear times14-IsLinear) h
        ∙ product3 c h
        ∙ zero-xor (bit_xor 0 c.c3)
        ∙ zero-xor c.c3)
