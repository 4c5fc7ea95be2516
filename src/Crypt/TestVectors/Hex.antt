-- ===== src/Crypt/TestVectors/Hex.antt =====
-- src/crypt.rs, what the tests read hexadecimal digits with: `u128hex`, `hex_to_bytes` and
-- `bytes_from_hex`.
use rust_mumble_protocol.Base.{
  ℕ, ◌+◌, ◌-◌, ◌*◌, ◌^◌, ◌&&◌, ltb, leb, ◌==◌, if◌then◌else◌, List, [], ◌∷◌, Bytes, Option, none,
  some,
}
use rust_mumble_protocol.Crypt.Ocb.{◌>>=◌}
use Prim.Native.Char.{code}
use Prim.Native.String.{String}

-- The characters of a text; the tests have ASCII only.
abbrev pub codes : String → List ℕ
codes String.[] = []
codes (String.◌∷◌ c s) = code c ∷ codes s

-- `char::to_digit(16)`.
unfoldable pub to_digit : ℕ → Option ℕ
to_digit c =
    if leb b'0' c && leb c b'9'
    then some (c - b'0')
    else if leb b'A' c && leb c b'F'
    then some (c - b'A' + 10)
    else if leb b'a' c && leb c b'f'
    then some (c - b'a' + 10)
    else none

-- The digits behind `value`, unless the number reaches `limit`.
unfoldable pub read_digits : ℕ → ℕ → List ℕ → Option ℕ
read_digits limit value [] = some value
read_digits limit value (c ∷ cs) = do
  digit ← to_digit c
  let next = value * 16 + digit
  if ltb next limit then read_digits limit next cs else none

-- `from_str_radix(src, 16)` of an unsigned integer below `limit`: a sign may stand before the digits,
-- of which there must be one.
unfoldable pub from_str_radix : ℕ → List ℕ → Option ℕ
from_str_radix limit [] = none
from_str_radix limit (c ∷ []) = read_digits limit 0 (c ∷ [])
from_str_radix limit (c ∷ d ∷ cs) = read_digits limit 0 (if c == b'+' then d ∷ cs else c ∷ d ∷ cs)

-- `none` where `unwrap` panics.
unfoldable pub u128hex : String → Option ℕ
u128hex src = from_str_radix (2 ^ 128) (codes src)

-- Two characters at a time, where `[..2]` panics if only one is left.
unfoldable pub hex_pairs : List ℕ → Option Bytes
hex_pairs [] = some []
hex_pairs (c ∷ []) = none
hex_pairs (c ∷ d ∷ cs) = do
  byte ← from_str_radix (2 ^ 8) (c ∷ d ∷ [])
  bytes ← hex_pairs cs
  some (byte ∷ bytes)

-- What was in the buffer before is cleared.
unfoldable pub hex_to_bytes : String → Bytes → Option Bytes
hex_to_bytes src dst = hex_pairs (codes src)

unfoldable pub bytes_from_hex : String → Option Bytes
bytes_from_hex src = hex_to_bytes src []
