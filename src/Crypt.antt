-- ===== src/Crypt.antt =====
-- src/crypt.rs: OCB2-AES128 over voice packets, with its nonces, replay window and statistics.
-- The host is little-endian and `usize` has 64 bits. AES comes from the openssl library.
pub mod Ocb
mod Examples
pub mod NonceWindow
pub mod Choice
pub mod Outcome
pub mod Sealed
pub mod Decoder
pub mod State
pub mod Accepts
pub mod Memory
pub mod Statistics
mod TestVectors
mod UnitTests
pub mod Channel
pub mod Session
pub mod Replay
pub mod Delivery
pub mod Directions
pub mod Attacks
use rust_mumble_protocol.Base.{
  ℕ, ◌+◌, ◌-◌, ◌*◌, ◌/◌, ◌%◌, ◌^◌, Bool, true, false, not, [], ◌∷◌, ◌++◌, Option, none, some,
}
use rust_mumble_protocol.Base.{
  ◌==◌, ltb, if◌then◌else◌, List, Bytes, u8, bytes_eq, slice, length, take, drop, replicate, get_or,
  set,
}
use rust_mumble_protocol.Base.{
  to_be_bytes, to_le_bytes, from_le_bytes, Result, ok, err, panic, IoError, invalid_data,
}
use rust_mumble_protocol.Base.{ℤ, pos, negsuc, ltb_ℤ, as_i8, to_word, pos_part}
use rust_mumble_protocol.Buffer.{split_to}
use rust_mumble_protocol.Voice
use rust_mumble_protocol.Voice.{VoicePacketDst, VoicePacket}
use Ocb.{Aes128, ocb_encrypt, ocb_decrypt}

-- The voice codec of a state has no fields, so it is left out.
pub record CryptState : Type 0 where
  pub key : Bytes
  pub encrypt_nonce : ℕ
  pub decrypt_nonce : ℕ
  pub decrypt_history : List ℕ
  pub good : ℕ
  pub late : ℕ
  pub lost : ℕ

pub data DecryptError : Type 0 where
  eof repeat late_packet mac : DecryptError

-- The random key of `generate_new` is an argument.
abbrev pub generate_new : Bytes → CryptState
generate_new key = record {
  key = key;
  encrypt_nonce = 0;
  decrypt_nonce = 2 ^ 127;
  decrypt_history = replicate 0x100 0;
  good = 0;
  late = 0;
  lost = 0;
}

abbrev pub new_from : Bytes → Bytes → Bytes → CryptState
new_from key encrypt_nonce decrypt_nonce = record {
  key = key;
  encrypt_nonce = from_le_bytes encrypt_nonce;
  decrypt_nonce = from_le_bytes decrypt_nonce;
  decrypt_history = replicate 0x100 0;
  good = 0;
  late = 0;
  lost = 0;
}

abbrev pub get_good : CryptState → ℕ
get_good s = s.good

abbrev pub get_late : CryptState → ℕ
get_late s = s.late

abbrev pub get_lost : CryptState → ℕ
get_lost s = s.lost

abbrev pub get_key : CryptState → Bytes
get_key s = s.key

abbrev pub get_encrypt_nonce : CryptState → Bytes
get_encrypt_nonce s = to_le_bytes 16 s.encrypt_nonce

abbrev pub get_decrypt_nonce : CryptState → Bytes
get_decrypt_nonce s = to_le_bytes 16 s.decrypt_nonce

abbrev pub set_decrypt_nonce : Bytes → CryptState → CryptState
set_decrypt_nonce nonce s = record s { decrypt_nonce = from_le_bytes nonce }

-- `wrapping_add` on u128.
abbrev pub add128 : ℕ → ℕ → ℕ
add128 a b = (a + b) % 2 ^ 128

-- What `decrypt` makes of the nonce byte: the nonce to decrypt with, whether the packet is late and
-- how the count of lost packets changes; or an error and the nonce that is left in the state.
pub data Window : Type 0 where
  proceed : (nonce : ℕ) → (late : Bool) → (lost : ℤ) → Window
  reject : DecryptError → (nonce : ℕ) → Window

-- `nonce_0.wrapping_sub(self.decrypt_nonce as u8) as i8`
abbrev pub diff_of : ℕ → ℕ → ℤ
diff_of nonce_0 decrypt_nonce = as_i8 ((nonce_0 + 256 - u8 decrypt_nonce) % 256)

-- The minus one of `lost = i32::from(diff - 1)`, where `diff` is positive.
abbrev lost_before : ℤ → ℤ
lost_before diff = pos (pos_part diff - 1)

unfoldable pub check_nonce : CryptState → ℕ → Window
check_nonce s nonce_0 =
    let saved_nonce = s.decrypt_nonce in
    if u8 (add128 saved_nonce 1) == nonce_0
    then proceed (add128 saved_nonce 1) false (pos 0)
    else (let diff = diff_of nonce_0 saved_nonce in
        let nonce = add128 saved_nonce (to_word 128 diff) in
        if ltb_ℤ (pos 0) diff
        then proceed nonce false (lost_before diff)
        else if ltb_ℤ (negsuc 29) diff
        then (if get_or s.decrypt_history nonce_0 0 == u8 (nonce / 2 ^ 8)
            then reject repeat saved_nonce
            else proceed nonce true (negsuc 0))
        else reject late_packet nonce)

-- `BytesMut::resize` to four bytes.
abbrev pub resize_four : Bytes → Bytes
resize_four dst = take 4 dst ++ replicate (4 - length dst) 0

-- The four header bytes over those at the front of `dst`.
abbrev pub with_header : ℕ → ℕ → Bytes → Bytes
with_header nonce tag dst = u8 nonce ∷ (slice 0 3 (to_be_bytes 16 tag) ++ drop 4 dst)

module _ (aes : Aes128) (d : VoicePacketDst) where
  -- The state and the bytes that `encrypt` leaves.
  unfoldable pub encrypt : CryptState → VoicePacket d → Bytes → Result (CryptState × Bytes) IoError
  encrypt s packet dst =
      let s' = record s { encrypt_nonce = add128 s.encrypt_nonce 1 } in
      let head = take 4 (resize_four dst) in
      let inner = drop 4 (resize_four dst) in
      elim (Voice.encode d packet inner) [
        | ok inner' ↦ elim (ocb_encrypt aes s'.key s'.encrypt_nonce inner') [
          | some (tag, out) ↦ ok (s', with_header s'.encrypt_nonce tag (head ++ out))
          | none ↦ panic
        ]
        | err e ↦ panic
        | panic ↦ panic
      ]

-- What `decrypt` returns, with the state and the buffer that it leaves.
abbrev pub Decrypted : VoicePacketDst → Type 0
Decrypted d = Result (Result (VoicePacket d) IoError) DecryptError × CryptState × Bytes

-- `.map(|it| it.expect("VoiceCodec is stateless"))`
abbrev pub expect_some {ℓ} :
    {A : Type ℓ} {E : Type 0} → Result (Option A) E → Result (Result A E) DecryptError
expect_some (ok (some a)) = ok (ok a)
expect_some (ok none) = panic
expect_some (err e) = ok (err e)
expect_some panic = panic

-- The state after a packet whose tag matched.
unfoldable pub count_packet : CryptState → ℕ → ℕ → Bool → ℤ → CryptState
count_packet s nonce_0 nonce late lost = record s {
  decrypt_nonce = if late then s.decrypt_nonce else nonce;
  decrypt_history = set s.decrypt_history nonce_0 (u8 (nonce / 2 ^ 8));
  good = (s.good + 1) % 2 ^ 32;
  late = if late then (s.late + 1) % 2 ^ 32 else s.late;
  lost = (s.lost + to_word 32 lost) % 2 ^ 32;
}

module _ (aes : Aes128) (d : VoicePacketDst) where
  abbrev pub decoded : CryptState → Result (Option (VoicePacket d)) IoError × Bytes → Decrypted d
  decoded s (r, buf) = (expect_some r, s, buf)

  -- `decrypt` behind the choice of the nonce. A failed check of the tag restores the nonce that `s`
  -- had, which is still in `s` here.
  unfoldable pub open_packet : CryptState → Bytes → Bytes → Window → Decrypted d
  open_packet s header buf (reject e nonce) = (err e, record s { decrypt_nonce = nonce }, buf)
  open_packet s header buf (proceed nonce late lost) = elim (ocb_decrypt aes s.key nonce buf) [
    | none ↦ (panic, record s { decrypt_nonce = nonce }, buf)
    | some (tag, buf') ↦
        if not (bytes_eq (slice 0 3 (to_be_bytes 16 tag)) (slice 1 4 header))
        then (err mac, s, buf')
        else decoded (count_packet s (get_or header 0 0) nonce late lost) (Voice.decode d buf')
  ]

  -- Behind `buf.split_to(4)`; `header[0]` of no bytes is a panic too.
  abbrev pub open_split : CryptState → Result Bytes IoError × Bytes → Decrypted d
  open_split s (ok (nonce_0 ∷ header), buf) =
      open_packet s (nonce_0 ∷ header) buf (check_nonce s nonce_0)
  open_split s (ok [], buf) = (panic, s, buf)
  open_split s (err e, buf) = (panic, s, buf)
  open_split s (panic, buf) = (panic, s, buf)

  unfoldable pub decrypt : CryptState → Bytes → Decrypted d
  decrypt s buf = if ltb (length buf) 4 then (err eof, s, buf) else open_split s (split_to 4 buf)

  -- `unwrap_or_else(|_| Err(..)).map(Some)`
  abbrev pub flatten_error :
      Result (Result (VoicePacket d) IoError) DecryptError → Result (Option (VoicePacket d)) IoError
  flatten_error (ok (ok p)) = ok (some p)
  flatten_error (ok (err e)) = err e
  flatten_error (ok panic) = panic
  flatten_error (err e) = err invalid_data
  flatten_error panic = panic

  -- `CryptState::decode`.
  unfoldable pub decode :
      CryptState → Bytes → Result (Option (VoicePacket d)) IoError × CryptState × Bytes
  decode s [] = (ok none, s, [])
  decode s (b ∷ buf) = let (r, s', buf') = decrypt s (b ∷ buf) in (flatten_error r, s', buf')

  -- `CryptState::encode`: `Ok(())` with what `encrypt` leaves.
  abbrev pub encode : CryptState → VoicePacket d → Bytes → Result (CryptState × Bytes) IoError
  encode s item dst = encrypt aes d s item dst
