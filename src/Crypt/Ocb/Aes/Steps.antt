-- ===== src/Crypt/Ocb/Aes/Steps.antt =====
-- AES: the steps of a round keep states of bytes, and each has its inverse.
use rust_mumble_protocol.Base.{ℕ, ◌<◌, ◌≡◌, refl, arith, xor-lt, xor_cancel}
use rust_mumble_protocol.Crypt.Ocb.Aes.{
  times1, Column, State, xor_column, map_column, each_column, sub_bytes, inverse_sub_bytes,
  shift_rows, inverse_shift_rows, mix_column, inverse_mix_column, add_round_key, next_key,
}
use rust_mumble_protocol.Crypt.Ocb.Aes.Sbox.{sub_byte, inverse_sub_byte}
use rust_mumble_protocol.Crypt.Ocb.Aes.Tables.{by_table, lt_table, agree}
use rust_mumble_protocol.Crypt.Ocb.Aes.Columns.{
  column-eq, mix_column-IsColumn, inverse_mix_column-mix_column,
}
use rust_mumble_protocol.Crypt.Ocb.Aes.Rows.{IsColumn}

abbrev pub IsState : State → Type 0
IsState s = IsColumn s.k0 × IsColumn s.k1 × IsColumn s.k2 × IsColumn s.k3

pub state-eq : {s t : State} → s.k0 ≡ t.k0 → s.k1 ≡ t.k1 → s.k2 ≡ t.k2 → s.k3 ≡ t.k3 → s ≡ t
state-eq p q r u = λ i. record { k0 = p i; k1 = q i; k2 = r i; k3 = u i }

-- The S-box.
sub_byte-lt : (b : ℕ) → b < 256 → sub_byte b < 256
unfolding sub_byte agree
sub_byte-lt = lt_table sub_byte refl

inverse_sub_byte-sub_byte : (b : ℕ) → b < 256 → inverse_sub_byte (sub_byte b) ≡ b
unfolding sub_byte inverse_sub_byte agree
inverse_sub_byte-sub_byte = by_table (λ b. inverse_sub_byte (sub_byte b)) times1 refl

map_column-IsColumn :
    (f : ℕ → ℕ) (c : Column)
    → ((b : ℕ) → b < 256 → f b < 256)
    → IsColumn c
    → IsColumn (map_column f c)
map_column-IsColumn f c h (h0, h1, h2, h3) = (h c.c0 h0, h c.c1 h1, h c.c2 h2, h c.c3 h3)

pub sub_bytes-IsState : (s : State) → IsState s → IsState (sub_bytes s)
unfolding sub_bytes
sub_bytes-IsState s (h0, h1, h2, h3) = (
  map_column-IsColumn sub_byte s.k0 sub_byte-lt h0,
  map_column-IsColumn sub_byte s.k1 sub_byte-lt h1,
  map_column-IsColumn sub_byte s.k2 sub_byte-lt h2,
  map_column-IsColumn sub_byte s.k3 sub_byte-lt h3,
)

subbed_back : (c : Column) → IsColumn c → map_column inverse_sub_byte (map_column sub_byte c) ≡ c
subbed_back c (h0, h1, h2, h3) =
    column-eq (inverse_sub_byte-sub_byte c.c0 h0) (inverse_sub_byte-sub_byte c.c1 h1)
      (inverse_sub_byte-sub_byte c.c2 h2) (inverse_sub_byte-sub_byte c.c3 h3)

pub inverse_sub_bytes-sub_bytes : (s : State) → IsState s → inverse_sub_bytes (sub_bytes s) ≡ s
unfolding sub_bytes inverse_sub_bytes
inverse_sub_bytes-sub_bytes s (h0, h1, h2, h3) =
    state-eq (subbed_back s.k0 h0) (subbed_back s.k1 h1) (subbed_back s.k2 h2) (subbed_back s.k3 h3)

-- The rows.
pub shift_rows-IsState : (s : State) → IsState s → IsState (shift_rows s)
unfolding shift_rows
shift_rows-IsState s (h0, h1, h2, h3) = (
  (h0.0, h1.1, h2.2, h3.3),
  (h1.0, h2.1, h3.2, h0.3),
  (h2.0, h3.1, h0.2, h1.3),
  (h3.0, h0.1, h1.2, h2.3),
)

pub inverse_shift_rows-shift_rows : (s : State) → inverse_shift_rows (shift_rows s) ≡ s
unfolding shift_rows inverse_shift_rows
inverse_shift_rows-shift_rows s = refl

-- The columns.
pub mixed-IsState : (s : State) → IsState s → IsState (each_column mix_column s)
mixed-IsState s (h0, h1, h2, h3) = (
  mix_column-IsColumn s.k0 h0,
  mix_column-IsColumn s.k1 h1,
  mix_column-IsColumn s.k2 h2,
  mix_column-IsColumn s.k3 h3,
)

pub unmixed :
    (s : State) → IsState s → each_column inverse_mix_column (each_column mix_column s) ≡ s
unmixed s (h0, h1, h2, h3) =
    state-eq (inverse_mix_column-mix_column s.k0 h0) (inverse_mix_column-mix_column s.k1 h1)
      (inverse_mix_column-mix_column s.k2 h2) (inverse_mix_column-mix_column s.k3 h3)

-- The keys.
xor_column-IsColumn : (c d : Column) → IsColumn c → IsColumn d → IsColumn (xor_column c d)
xor_column-IsColumn c d (h0, h1, h2, h3) (k0, k1, k2, k3) = (
  xor-lt 8 c.c0 d.c0 h0 k0,
  xor-lt 8 c.c1 d.c1 h1 k1,
  xor-lt 8 c.c2 d.c2 h2 k2,
  xor-lt 8 c.c3 d.c3 h3 k3,
)

xor_column_twice : (c d : Column) → xor_column (xor_column c d) d ≡ c
xor_column_twice c d =
    column-eq (xor_cancel c.c0 d.c0) (xor_cancel c.c1 d.c1) (xor_cancel c.c2 d.c2)
      (xor_cancel c.c3 d.c3)

pub add_round_key-IsState :
    (s key : State) → IsState s → IsState key → IsState (add_round_key s key)
unfolding add_round_key
add_round_key-IsState s key (h0, h1, h2, h3) (k0, k1, k2, k3) = (
  xor_column-IsColumn s.k0 key.k0 h0 k0,
  xor_column-IsColumn s.k1 key.k1 h1 k1,
  xor_column-IsColumn s.k2 key.k2 h2 k2,
  xor_column-IsColumn s.k3 key.k3 h3 k3,
)

pub add_round_key_twice : (s key : State) → add_round_key (add_round_key s key) key ≡ s
unfolding add_round_key
add_round_key_twice s key =
    state-eq (xor_column_twice s.k0 key.k0) (xor_column_twice s.k1 key.k1)
      (xor_column_twice s.k2 key.k2) (xor_column_twice s.k3 key.k3)

pub next_key-IsState :
    (rcon : ℕ) (key : State) → rcon < 256 → IsState key → IsState (next_key rcon key)
unfolding next_key
next_key-IsState rcon key hr (h0, h1, h2, h3) = (k0, k1, k2, xor_column-IsColumn _ _ h3 k2)
  where
    k0 : IsColumn (next_key rcon key).k0
    k0 =
        xor_column-IsColumn _ _
          (xor_column-IsColumn _ _ h0
            (map_column-IsColumn sub_byte _ sub_byte-lt (h3.1, h3.2, h3.3, h3.0)))
          (hr, omega arith, omega arith, omega arith)

    k1 : IsColumn (next_key rcon key).k1
    k1 = xor_column-IsColumn _ _ h1 k0

    k2 : IsColumn (next_key rcon key).k2
    k2 = xor_column-IsColumn _ _ h2 k1
