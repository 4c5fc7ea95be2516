-- ===== src/Crypt/TestVectors.antt =====
-- src/crypt.rs, the tests `aes_test_vectors` and `ocb_test_vectors`: they pass with AES as it is
-- published.
mod Hex
use rust_mumble_protocol.Base.{
  ℕ, ◌≡◌, refl, Bool, true, false, ◌==◌, bytes_eq, List, [], ◌∷◌, Bytes, Option, none, some,
  replicate, to_be_bytes,
}
use rust_mumble_protocol.Crypt.{new_from}
use rust_mumble_protocol.Crypt.Ocb.{
  Aes128, aes_encrypt, aes_decrypt, ocb_encrypt, ocb_decrypt, encrypt_loop, decrypt_loop,
  encrypt_rest, decrypt_rest, s2, ◌>>=◌,
}
use rust_mumble_protocol.Crypt.Ocb.Aes.{
  aes_128, encrypt_block, decrypt_block, encrypt_rounds, decrypt_rounds, from_bytes, to_bytes,
  add_round_key, next_key, shift_rows, inverse_shift_rows, sub_bytes, inverse_sub_bytes, mix_column,
  inverse_mix_column, xtime,
}
use rust_mumble_protocol.Crypt.Ocb.Aes.Sbox.{sub_byte, inverse_sub_byte}
use rust_mumble_protocol.Crypt.TestVectors.Hex.{
  u128hex, hex_to_bytes, bytes_from_hex, hex_pairs, from_str_radix, read_digits, to_digit,
}
use Prim.Native.String.{String}

infixl 5 ◌>>◌
abbrev ◌>>◌ : Option (Unit {0}) → Option (Unit {0}) → Option (Unit {0})
m >> k = m >>= λ _. k

-- `assert_eq!`, where `none` is a panic.
abbrev assert_eq : Bool → Option (Unit {0})
assert_eq true = some tt
assert_eq false = none

aes_test_vectors : Aes128 → Option (Unit {0})
unfolding u128hex
aes_test_vectors aes = do
  key ← u128hex "E8E9EAEBEDEEEFF0F2F3F4F5F7F8F9FA"
  let state = new_from (to_be_bytes 16 key) (replicate 16 0) (replicate 16 0)
  cipher ← u128hex "6743C3D1519AB4F2CD9A78AB09A511BD"
  plain ← u128hex "014BAF2278A69D331D5180103643E99A"
  assert_eq (cipher == aes_encrypt aes state.key plain)
  assert_eq (plain == aes_decrypt aes state.key cipher)

-- An entry of `test_cases!`.
record TestCase : Type 0 where
  name : String
  plain : String
  cipher : String
  tag : String

run_case : Aes128 → TestCase → Option (Unit {0})
unfolding u128hex hex_to_bytes bytes_from_hex
run_case aes t = do
  key ← u128hex "000102030405060708090a0b0c0d0e0f"
  nonce ← u128hex "000102030405060708090a0b0c0d0e0f"
  let state = new_from (to_be_bytes 16 key) (to_be_bytes 16 nonce) (to_be_bytes 16 nonce)
  plain ← hex_to_bytes t.plain []
  (tag, result) ← ocb_encrypt aes state.key state.encrypt_nonce plain
  cipher ← bytes_from_hex t.cipher
  assert_eq (bytes_eq cipher result)
  expected_tag ← u128hex t.tag
  assert_eq (expected_tag == tag)
  cipher' ← hex_to_bytes t.cipher result
  (tag', result') ← ocb_decrypt aes state.key state.decrypt_nonce cipher'
  plain' ← bytes_from_hex t.plain
  assert_eq (bytes_eq plain' result')
  assert_eq (expected_tag == tag')

abbrev test_cases : List TestCase
test_cases =
    record {
      name = "OCB-AES-128-0B";
      plain = "";
      cipher = "";
      tag = "BF3108130773AD5EC70EC69E7875A7B0";
    }
    ∷ record {
      name = "OCB-AES-128-8B";
      plain = "0001020304050607";
      cipher = "C636B3A868F429BB";
      tag = "A45F5FDEA5C088D1D7C8BE37CABC8C5C";
    }
    ∷ record {
      name = "OCB-AES-128-16B";
      plain = "000102030405060708090A0B0C0D0E0F";
      cipher = "52E48F5D19FE2D9869F0C4A4B3D2BE57";
      tag = "F7EE49AE7AA5B5E6645DB6B3966136F9";
    }
    ∷ record {
      name = "OCB-AES-128-24B";
      plain = "000102030405060708090A0B0C0D0E0F1011121314151617";
      cipher = "F75D6BC8B4DC8D66B836A2B08B32A636CC579E145D323BEB";
      tag = "A1A50F822819D6E0A216784AC24AC84C";
    }
    ∷ record {
      name = "OCB-AES-128-32B";
      plain = "000102030405060708090A0B0C0D0E0F101112131415161718191A1B1C1D1E1F";
      cipher = "F75D6BC8B4DC8D66B836A2B08B32A636CEC3C555037571709DA25E1BB0421A27";
      tag = "09CA6C73F0B5C6C5FD587122D75F2AA3";
    }
    ∷ record {
      name = "OCB-AES-128-40B";
      plain = "000102030405060708090A0B0C0D0E0F101112131415161718191A1B1C1D1E1F2021222324252627";
      cipher = "F75D6BC8B4DC8D66B836A2B08B32A6369F1CD3C5228D79FD6C267F5F6AA7B231C7DFB9D59951AE9C";
      tag = "9DB0CDF880F73E3E10D4EB3217766688";
    }
    ∷ []

run_cases : Aes128 → List TestCase → Option (Unit {0})
unfolding run_case
run_cases aes [] = some tt
run_cases aes (t ∷ ts) = run_case aes t >> run_cases aes ts

ocb_test_vectors : Aes128 → Option (Unit {0})
unfolding run_cases
ocb_test_vectors aes = run_cases aes test_cases

aes_test_vectors_lem : aes_test_vectors aes_128 ≡ some tt
unfolding aes_test_vectors aes_encrypt aes_decrypt encrypt_block decrypt_block encrypt_rounds
    decrypt_rounds from_bytes to_bytes add_round_key next_key shift_rows inverse_shift_rows
    sub_bytes inverse_sub_bytes sub_byte inverse_sub_byte mix_column inverse_mix_column xtime
    from_str_radix read_digits to_digit
aes_test_vectors_lem = refl

ocb_test_vectors_lem : ocb_test_vectors aes_128 ≡ some tt
unfolding ocb_test_vectors aes_encrypt aes_decrypt encrypt_block decrypt_block encrypt_rounds
    decrypt_rounds from_bytes to_bytes add_round_key next_key shift_rows inverse_shift_rows
    sub_bytes inverse_sub_bytes sub_byte inverse_sub_byte mix_column inverse_mix_column xtime
    from_str_radix read_digits to_digit ocb_encrypt ocb_decrypt encrypt_loop decrypt_loop
    encrypt_rest decrypt_rest s2 hex_pairs bytes_eq
ocb_test_vectors_lem = refl
