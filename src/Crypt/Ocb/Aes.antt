-- ===== src/Crypt/Ocb/Aes.antt =====
-- AES-128 as FIPS 197 publishes it, so that the source's test vectors can be run. A state is 16 bytes
-- in four columns.
pub mod Sbox
mod Tables
mod Linear
mod Rows
mod Columns
mod Steps
pub mod Permutes
use rust_mumble_protocol.Base.{
  ℕ, suc, ◌+◌, ◌*◌, ◌/◌, ◌%◌, bit_xor, List, [], ◌∷◌, ◌++◌, Bytes, ltb, if◌then◌else◌, u8, get_or,
}
use rust_mumble_protocol.Crypt.Ocb.{Aes128}
use rust_mumble_protocol.Crypt.Ocb.Aes.Sbox.{sub_byte, inverse_sub_byte}

-- Multiplication by x modulo x ^ 8 + x ^ 4 + x ^ 3 + x + 1.
unfoldable pub xtime : ℕ → ℕ
xtime b = if ltb b 128 then b * 2 else bit_xor (b * 2) 0x11b

-- Products with the coefficients of the matrices that mix columns.
abbrev pub times1 : ℕ → ℕ
times1 b = b

abbrev pub times2 : ℕ → ℕ
times2 b = xtime b

abbrev pub times3 : ℕ → ℕ
times3 b = bit_xor (xtime b) b

abbrev pub times9 : ℕ → ℕ
times9 b = bit_xor (xtime (xtime (xtime b))) b

abbrev pub times11 : ℕ → ℕ
times11 b = bit_xor (xtime (bit_xor (xtime (xtime b)) b)) b

abbrev pub times13 : ℕ → ℕ
times13 b = bit_xor (xtime (xtime (bit_xor (xtime b) b))) b

abbrev pub times14 : ℕ → ℕ
times14 b = xtime (bit_xor (xtime (bit_xor (xtime b) b)) b)

pub record Column : Type 0 where
  pub c0 : ℕ
  pub c1 : ℕ
  pub c2 : ℕ
  pub c3 : ℕ

pub record State : Type 0 where
  pub k0 : Column
  pub k1 : Column
  pub k2 : Column
  pub k3 : Column

abbrev pub map_column : (ℕ → ℕ) → Column → Column
map_column f c = record { c0 = f c.c0; c1 = f c.c1; c2 = f c.c2; c3 = f c.c3 }

abbrev pub xor_column : Column → Column → Column
xor_column c d = record {
  c0 = bit_xor c.c0 d.c0;
  c1 = bit_xor c.c1 d.c1;
  c2 = bit_xor c.c2 d.c2;
  c3 = bit_xor c.c3 d.c3;
}

abbrev pub each_column : (Column → Column) → State → State
each_column f s = record { k0 = f s.k0; k1 = f s.k1; k2 = f s.k2; k3 = f s.k3 }

unfoldable pub sub_bytes : State → State
sub_bytes s = each_column (map_column sub_byte) s

unfoldable pub inverse_sub_bytes : State → State
inverse_sub_bytes s = each_column (map_column inverse_sub_byte) s

abbrev pub column : ℕ → ℕ → ℕ → ℕ → Column
column a b c d = record { c0 = a; c1 = b; c2 = c; c3 = d }

-- Row `i` moves by `i` columns.
unfoldable pub shift_rows : State → State
shift_rows s = record {
  k0 = column s.k0.c0 s.k1.c1 s.k2.c2 s.k3.c3;
  k1 = column s.k1.c0 s.k2.c1 s.k3.c2 s.k0.c3;
  k2 = column s.k2.c0 s.k3.c1 s.k0.c2 s.k1.c3;
  k3 = column s.k3.c0 s.k0.c1 s.k1.c2 s.k2.c3;
}

unfoldable pub inverse_shift_rows : State → State
inverse_shift_rows s = record {
  k0 = column s.k0.c0 s.k3.c1 s.k2.c2 s.k1.c3;
  k1 = column s.k1.c0 s.k0.c1 s.k3.c2 s.k2.c3;
  k2 = column s.k2.c0 s.k1.c1 s.k0.c2 s.k3.c3;
  k3 = column s.k3.c0 s.k2.c1 s.k1.c2 s.k0.c3;
}

abbrev pub quad : ℕ → ℕ → ℕ → ℕ → ℕ
quad a b c d = bit_xor (bit_xor a b) (bit_xor c d)

-- A row of the matrix with a column.
abbrev pub row : (ℕ → ℕ) → (ℕ → ℕ) → (ℕ → ℕ) → (ℕ → ℕ) → Column → ℕ
row f g h k c = quad (f c.c0) (g c.c1) (h c.c2) (k c.c3)

unfoldable pub mix_column : Column → Column
mix_column c =
    column (row times2 times3 times1 times1 c) (row times1 times2 times3 times1 c)
      (row times1 times1 times2 times3 c) (row times3 times1 times1 times2 c)

unfoldable pub inverse_mix_column : Column → Column
inverse_mix_column c =
    column (row times14 times11 times13 times9 c) (row times9 times14 times11 times13 c)
      (row times13 times9 times14 times11 c) (row times11 times13 times9 times14 c)

unfoldable pub add_round_key : State → State → State
add_round_key s key = record {
  k0 = xor_column s.k0 key.k0;
  k1 = xor_column s.k1 key.k1;
  k2 = xor_column s.k2 key.k2;
  k3 = xor_column s.k3 key.k3;
}

-- The next round key.
unfoldable pub next_key : ℕ → State → State
next_key rcon key =
    let w3 = key.k3 in
    let t = map_column sub_byte (column w3.c1 w3.c2 w3.c3 w3.c0) in
    let k0 = xor_column (xor_column key.k0 t) (column rcon 0 0 0) in
    let k1 = xor_column key.k1 k0 in
    let k2 = xor_column key.k2 k1 in record { k0 = k0; k1 = k1; k2 = k2; k3 = xor_column w3 k2 }

abbrev pub round_constants : List ℕ
round_constants = 0x01 ∷ 0x02 ∷ 0x04 ∷ 0x08 ∷ 0x10 ∷ 0x20 ∷ 0x40 ∷ 0x80 ∷ 0x1b ∷ []

-- The rounds behind the first key; the last one does not mix columns.
unfoldable pub encrypt_rounds : List ℕ → State → State → State
encrypt_rounds [] key s = add_round_key (shift_rows (sub_bytes s)) (next_key 0x36 key)
encrypt_rounds (rcon ∷ rcons) key s =
    let key' = next_key rcon key in
    encrypt_rounds rcons key'
      (add_round_key (each_column mix_column (shift_rows (sub_bytes s))) key')

unfoldable pub decrypt_rounds : List ℕ → State → State → State
decrypt_rounds [] key s =
    inverse_sub_bytes (inverse_shift_rows (add_round_key s (next_key 0x36 key)))
decrypt_rounds (rcon ∷ rcons) key s =
    let key' = next_key rcon key in
    inverse_sub_bytes (
      inverse_shift_rows
        (each_column inverse_mix_column (add_round_key (decrypt_rounds rcons key' s) key')))

abbrev pub column_of : ℕ → ℕ → ℕ → ℕ → Column
column_of a b c d = column (u8 a) (u8 b) (u8 c) (u8 d)

-- Zeros, where there are not 16 bytes.
unfoldable pub from_bytes : Bytes → State
from_bytes
      (b0 ∷ b1 ∷ b2 ∷ b3 ∷ b4 ∷ b5 ∷ b6 ∷ b7 ∷ b8 ∷ b9 ∷ b10 ∷ b11 ∷ b12 ∷ b13 ∷ b14 ∷ b15 ∷ []) =
    record {
      k0 = column_of b0 b1 b2 b3;
      k1 = column_of b4 b5 b6 b7;
      k2 = column_of b8 b9 b10 b11;
      k3 = column_of b12 b13 b14 b15;
    }
from_bytes _ = record {
  k0 = column 0 0 0 0;
  k1 = column 0 0 0 0;
  k2 = column 0 0 0 0;
  k3 = column 0 0 0 0;
}

abbrev pub column_bytes : Column → Bytes
column_bytes c = c.c0 ∷ c.c1 ∷ c.c2 ∷ c.c3 ∷ []

unfoldable pub to_bytes : State → Bytes
to_bytes s = column_bytes s.k0 ++ (column_bytes s.k1 ++ (column_bytes s.k2 ++ column_bytes s.k3))

unfoldable pub encrypt_block : Bytes → Bytes → Bytes
encrypt_block key block = to_bytes (
    encrypt_rounds round_constants (from_bytes key)
      (add_round_key (from_bytes block) (from_bytes key)))

unfoldable pub decrypt_block : Bytes → Bytes → Bytes
decrypt_block key block = to_bytes (
    add_round_key (decrypt_rounds round_constants (from_bytes key) (from_bytes block))
      (from_bytes key))

abbrev pub aes_128 : Aes128
aes_128 = record { encrypt_block = encrypt_block; decrypt_block = decrypt_block }
