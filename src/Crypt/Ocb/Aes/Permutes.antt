-- ===== src/Crypt/Ocb/Aes/Permutes.antt =====
-- AES permutes blocks: the published cipher has the law that `IsCipher` asks of openssl's.
use rust_mumble_protocol.Base.{
  ℕ, ◌<◌, ◌≡◌, refl, ap, ap₂, ◌∙◌, arith, List, [], ◌∷◌, ◌++◌, Bytes, IsBytes, IsBytes-append,
  length, All, u8,
}
use mathlib.Core.List.{map}
use rust_mumble_protocol.Crypt.Ocb.Cipher.{IsCipher}
use rust_mumble_protocol.Crypt.Ocb.Aes.{
  Column, column_bytes, State, sub_bytes, inverse_sub_bytes, shift_rows, inverse_shift_rows,
  each_column, mix_column, inverse_mix_column, add_round_key, next_key, round_constants,
  encrypt_rounds, decrypt_rounds, from_bytes, to_bytes, encrypt_block, decrypt_block, aes_128,
}
use rust_mumble_protocol.Crypt.Ocb.Aes.Columns.{column-eq}
use rust_mumble_protocol.Crypt.Ocb.Aes.Rows.{IsColumn}
use rust_mumble_protocol.Crypt.Ocb.Aes.Steps.{
  IsState, state-eq, sub_bytes-IsState, inverse_sub_bytes-sub_bytes, shift_rows-IsState,
  inverse_shift_rows-shift_rows, mixed-IsState, unmixed, add_round_key-IsState, add_round_key_twice,
  next_key-IsState,
}

shifted-IsState : (s : State) → IsState s → IsState (shift_rows (sub_bytes s))
shifted-IsState s h = shift_rows-IsState (sub_bytes s) (sub_bytes-IsState s h)

shifted_back :
    (s : State) → IsState s → inverse_sub_bytes (inverse_shift_rows (shift_rows (sub_bytes s))) ≡ s
shifted_back s h =
    ap inverse_sub_bytes (inverse_shift_rows-shift_rows (sub_bytes s))
    ∙ inverse_sub_bytes-sub_bytes s h

round-IsState :
    (s key : State)
    → IsState s
    → IsState key
    → IsState (add_round_key (each_column mix_column (shift_rows (sub_bytes s))) key)
round-IsState s key h hk =
    add_round_key-IsState _ key (mixed-IsState (shift_rows (sub_bytes s)) (shifted-IsState s h)) hk

-- The rounds.
encrypt_rounds-IsState :
    (rcons : List ℕ) (key s : State)
    → All (λ r. r < 256) rcons
    → IsState key
    → IsState s
    → IsState (encrypt_rounds rcons key s)
unfolding encrypt_rounds
encrypt_rounds-IsState [] key s hr hk h =
    add_round_key-IsState _ _ (shifted-IsState s h) (next_key-IsState 0x36 key (omega arith) hk)
encrypt_rounds-IsState (rcon ∷ rcons) key s (hr, hrs) hk h =
    let hk' = next_key-IsState rcon key hr hk in
    encrypt_rounds-IsState rcons (next_key rcon key) _ hrs hk'
      (round-IsState s (next_key rcon key) h hk')

decrypt_rounds-encrypt_rounds :
    (rcons : List ℕ) (key s : State)
    → All (λ r. r < 256) rcons
    → IsState key
    → IsState s
    → decrypt_rounds rcons key (encrypt_rounds rcons key s) ≡ s
unfolding encrypt_rounds decrypt_rounds
decrypt_rounds-encrypt_rounds [] key s hr hk h =
    ap (λ t. inverse_sub_bytes (inverse_shift_rows t))
      (add_round_key_twice (shift_rows (sub_bytes s)) (next_key 0x36 key))
    ∙ shifted_back s h
decrypt_rounds-encrypt_rounds (rcon ∷ rcons) key s (hr, hrs) hk h =
    let key' = next_key rcon key in
    let hk' = next_key-IsState rcon key hr hk in
    let mixed = each_column mix_column (shift_rows (sub_bytes s)) in
    ap
      (λ t.
        inverse_sub_bytes
          (inverse_shift_rows (each_column inverse_mix_column (add_round_key t key'))))
      (decrypt_rounds-encrypt_rounds rcons key' (add_round_key mixed key') hrs hk'
        (round-IsState s key' h hk'))
    ∙ ap (λ t. inverse_sub_bytes (inverse_shift_rows (each_column inverse_mix_column t)))
        (add_round_key_twice mixed key')
    ∙ ap (λ t. inverse_sub_bytes (inverse_shift_rows t))
        (unmixed (shift_rows (sub_bytes s)) (shifted-IsState s h))
    ∙ shifted_back s h

-- Blocks of bytes.
u8-lt : (b : ℕ) → u8 b < 256
u8-lt b = omega arith

from_bytes-IsState : (bs : Bytes) → IsState (from_bytes bs)
unfolding from_bytes
from_bytes-IsState
      (b0 ∷ b1 ∷ b2 ∷ b3 ∷ b4 ∷ b5 ∷ b6 ∷ b7 ∷ b8 ∷ b9 ∷ b10 ∷ b11 ∷ b12 ∷ b13 ∷ b14 ∷ b15 ∷ []) =
    (
      (u8-lt b0, u8-lt b1, u8-lt b2, u8-lt b3),
      (u8-lt b4, u8-lt b5, u8-lt b6, u8-lt b7),
      (u8-lt b8, u8-lt b9, u8-lt b10, u8-lt b11),
      (u8-lt b12, u8-lt b13, u8-lt b14, u8-lt b15),
    )
from_bytes-IsState _ = omega arith

map-u8 : (bs : Bytes) → IsBytes bs → map u8 bs ≡ bs
map-u8 [] h = refl
map-u8 (b ∷ bs) (hb, h) = ap₂ ◌∷◌ (omega arith) (map-u8 bs h)

to_bytes-from_bytes-map : (bs : Bytes) → length bs ≡ 16 → to_bytes (from_bytes bs) ≡ map u8 bs
unfolding from_bytes to_bytes
to_bytes-from_bytes-map
      (b0 ∷ b1 ∷ b2 ∷ b3 ∷ b4 ∷ b5 ∷ b6 ∷ b7 ∷ b8 ∷ b9 ∷ b10 ∷ b11 ∷ b12 ∷ b13 ∷ b14 ∷ b15 ∷ []) h =
    refl
to_bytes-from_bytes-map _ h = absurd (omega arith)

u8_same : (b : ℕ) → b < 256 → u8 b ≡ b
u8_same b h = omega arith

from_bytes-to_bytes : (s : State) → IsState s → from_bytes (to_bytes s) ≡ s
unfolding from_bytes to_bytes
from_bytes-to_bytes s (h0, h1, h2, h3) =
    state-eq (column-eq (u8_same _ h0.0) (u8_same _ h0.1) (u8_same _ h0.2) (u8_same _ h0.3))
      (column-eq (u8_same _ h1.0) (u8_same _ h1.1) (u8_same _ h1.2) (u8_same _ h1.3))
      (column-eq (u8_same _ h2.0) (u8_same _ h2.1) (u8_same _ h2.2) (u8_same _ h2.3))
      (column-eq (u8_same _ h3.0) (u8_same _ h3.1) (u8_same _ h3.2) (u8_same _ h3.3))

column_bytes-IsBytes : (c : Column) → IsColumn c → IsBytes (column_bytes c)
column_bytes-IsBytes c (h0, h1, h2, h3) = (h0, (h1, (h2, (h3, tt))))

to_bytes-IsBytes : (s : State) → IsState s → IsBytes (to_bytes s)
unfolding to_bytes
to_bytes-IsBytes s (h0, h1, h2, h3) =
    let two = column_bytes s.k2 ++ column_bytes s.k3 in
    IsBytes-append (column_bytes s.k0) (column_bytes s.k1 ++ two) (column_bytes-IsBytes s.k0 h0) (
      IsBytes-append (column_bytes s.k1) two (column_bytes-IsBytes s.k1 h1) (
        IsBytes-append (column_bytes s.k2) (column_bytes s.k3) (column_bytes-IsBytes s.k2 h2)
          (column_bytes-IsBytes s.k3 h3)))

length-to_bytes : (s : State) → length (to_bytes s) ≡ 16
unfolding to_bytes
length-to_bytes s = refl

constants : All (λ r. r < 256) round_constants
constants = omega arith

module _ (key block : Bytes) where
  start : State
  start = add_round_key (from_bytes block) (from_bytes key)

  start-IsState : IsState start
  unfolding start
  start-IsState =
      add_round_key-IsState (from_bytes block) (from_bytes key) (from_bytes-IsState block)
        (from_bytes-IsState key)

  rounds-IsState : IsState (encrypt_rounds round_constants (from_bytes key) start)
  rounds-IsState =
      encrypt_rounds-IsState round_constants (from_bytes key) start constants
        (from_bytes-IsState key) start-IsState

  encrypt_block-IsBytes : IsBytes (encrypt_block key block)
  unfolding encrypt_block start
  encrypt_block-IsBytes = to_bytes-IsBytes _ rounds-IsState

  length-encrypt_block : length (encrypt_block key block) ≡ 16
  unfolding encrypt_block
  length-encrypt_block = length-to_bytes _

  decrypt_block-encrypt_block :
      length block ≡ 16 → IsBytes block → decrypt_block key (encrypt_block key block) ≡ block
  unfolding encrypt_block decrypt_block start
  decrypt_block-encrypt_block size h =
      ap
        (λ t.
          to_bytes
            (add_round_key (decrypt_rounds round_constants (from_bytes key) t) (from_bytes key)))
        (from_bytes-to_bytes _ rounds-IsState)
      ∙ ap (λ t. to_bytes (add_round_key t (from_bytes key)))
          (decrypt_rounds-encrypt_rounds round_constants (from_bytes key) start constants
            (from_bytes-IsState key) start-IsState)
      ∙ ap to_bytes (add_round_key_twice (from_bytes block) (from_bytes key))
      ∙ to_bytes-from_bytes-map block size
      ∙ map-u8 block h

pub aes_128-IsCipher : IsCipher aes_128
aes_128-IsCipher = record {
  block_size = λ key block size h. length-encrypt_block key block;
  block_bytes = λ key block size h. encrypt_block-IsBytes key block;
  inverse = λ key block size h. decrypt_block-encrypt_block key block size h;
}
