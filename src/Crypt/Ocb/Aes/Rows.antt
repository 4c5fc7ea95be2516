-- ===== src/Crypt/Ocb/Aes/Rows.antt =====
-- AES: rows of coefficients, and a row times four others.
use rust_mumble_protocol.Base.{ℕ, ◌<◌, bit_xor, ◌≡◌, ap₂, ◌∙◌, xor-lt}
use rust_mumble_protocol.Crypt.Ocb.Aes.{Column, column, quad, row}
use rust_mumble_protocol.Crypt.Ocb.Aes.Linear.{interchange, IsLinear}

-- Of two rows, the sums of what stands below one another.
two_rows :
    (a b c d e f g h : ℕ)
    → bit_xor (quad a b c d) (quad e f g h)
      ≡ quad (bit_xor a e) (bit_xor b f) (bit_xor c g) (bit_xor d h)
two_rows a b c d e f g h =
    interchange (bit_xor a b) (bit_xor c d) (bit_xor e f) (bit_xor g h)
    ∙ ap₂ bit_xor (interchange a b e f) (interchange c d g h)

abbrev pub IsColumn : Column → Type 0
IsColumn c = (c.c0 < 256) × (c.c1 < 256) × (c.c2 < 256) × (c.c3 < 256)

quad-linear :
    (f : ℕ → ℕ) (a b c d : ℕ)
    → IsLinear f
    → a < 256
    → b < 256
    → c < 256
    → d < 256
    → f (quad a b c d) ≡ quad (f a) (f b) (f c) (f d)
quad-linear f a b c d l ha hb hc hd =
    l.adds (bit_xor a b) (bit_xor c d) (xor-lt 8 a b ha hb) (xor-lt 8 c d hc hd)
    ∙ ap₂ bit_xor (l.adds a b ha hb) (l.adds c d hc hd)

-- A row of coefficients.
pub record Row : Type 0 where
  pub at0 : ℕ → ℕ
  pub at1 : ℕ → ℕ
  pub at2 : ℕ → ℕ
  pub at3 : ℕ → ℕ

pub record IsLinearRow (r : Row) : Type 0 where
  pub linear0 : IsLinear r.at0
  pub linear1 : IsLinear r.at1
  pub linear2 : IsLinear r.at2
  pub linear3 : IsLinear r.at3

abbrev pub of_row : Row → Column → ℕ
of_row r c = row r.at0 r.at1 r.at2 r.at3 c

pub row-lt : (r : Row) (c : Column) → IsLinearRow r → IsColumn c → of_row r c < 256
row-lt r c l (h0, h1, h2, h3) =
    xor-lt 8 _ _ (xor-lt 8 _ _ (l.linear0.byte c.c0 h0) (l.linear1.byte c.c1 h1))
      (xor-lt 8 _ _ (l.linear2.byte c.c2 h2) (l.linear3.byte c.c3 h3))

-- A row with four others.
abbrev pub row_product : Row → Row → Row → Row → Row → Row
row_product r p0 p1 p2 p3 = record {
  at0 = λ v. quad (r.at0 (p0.at0 v)) (r.at1 (p1.at0 v)) (r.at2 (p2.at0 v)) (r.at3 (p3.at0 v));
  at1 = λ v. quad (r.at0 (p0.at1 v)) (r.at1 (p1.at1 v)) (r.at2 (p2.at1 v)) (r.at3 (p3.at1 v));
  at2 = λ v. quad (r.at0 (p0.at2 v)) (r.at1 (p1.at2 v)) (r.at2 (p2.at2 v)) (r.at3 (p3.at2 v));
  at3 = λ v. quad (r.at0 (p0.at3 v)) (r.at1 (p1.at3 v)) (r.at2 (p2.at3 v)) (r.at3 (p3.at3 v));
}

module _ (c : Column) (h : IsColumn c) where
  linear_of_row :
      (f : ℕ → ℕ) (p : Row)
      → IsLinear f
      → IsLinearRow p
      → f (of_row p c) ≡ quad (f (p.at0 c.c0)) (f (p.at1 c.c1)) (f (p.at2 c.c2)) (f (p.at3 c.c3))
  linear_of_row f p l lp =
      quad-linear f _ _ _ _ l (lp.linear0.byte c.c0 h.0) (lp.linear1.byte c.c1 h.1)
        (lp.linear2.byte c.c2 h.2) (lp.linear3.byte c.c3 h.3)

  pub of_row-product :
      (r p0 p1 p2 p3 : Row)
      → IsLinearRow r
      → IsLinearRow p0
      → IsLinearRow p1
      → IsLinearRow p2
      → IsLinearRow p3
      → of_row r (column (of_row p0 c) (of_row p1 c) (of_row p2 c) (of_row p3 c))
        ≡ of_row (row_product r p0 p1 p2 p3) c
  of_row-product r p0 p1 p2 p3 l l0 l1 l2 l3 =
      ap₂ bit_xor
        (ap₂ bit_xor (linear_of_row r.at0 p0 l.linear0 l0) (linear_of_row r.at1 p1 l.linear1 l1)
          ∙ two_rows _ _ _ _ _ _ _ _)
        (ap₂ bit_xor (linear_of_row r.at2 p2 l.linear2 l2) (linear_of_row r.at3 p3 l.linear3 l3)
          ∙ two_rows _ _ _ _ _ _ _ _)
      ∙ two_rows _ _ _ _ _ _ _ _
