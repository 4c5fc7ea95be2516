-- ===== src/Crypt/Examples.antt =====
-- Runs of the packet encryption with a simple cipher in place of AES, and its theorems at concrete
-- states.
use rust_mumble_protocol.Base.{
  IoError, Result, panic, pos, bytes_eq, ◌≡◌, refl, sym, ap, ◌∙◌, subst, arith, false, [], ◌∷◌,
  Bytes, IsBytes, some, ok, err,
}
use rust_mumble_protocol.Varint.{
  read_varint, read_wide, write_varint, write_varint_calls, plain_bytes, put_varint,
}
use rust_mumble_protocol.Voice.{
  VoicePacket, audio, speex, serverbound, kind_of, put_payload, put_frames, put_position_info,
  read_payload, read_framed, read_frames, frames_payload, read_position_info,
}
use rust_mumble_protocol.Voice
use rust_mumble_protocol.Voice.Dst.{serverbound-IsLawful}
use rust_mumble_protocol.Crypt.{
  CryptState, generate_new, encrypt, decrypt, open_packet, check_nonce, count_packet, repeat, mac,
  eof, Decrypted, proceed,
}
use rust_mumble_protocol.Crypt.Ocb.{
  s2, aes_encrypt, aes_decrypt, encrypt_rest, encrypt_loop, ocb_encrypt, decrypt_rest, decrypt_loop,
  ocb_decrypt,
}
use rust_mumble_protocol.Crypt.Ocb.Aes.{aes_128}
use rust_mumble_protocol.Crypt.Ocb.Aes.Permutes.{aes_128-IsCipher}
use rust_mumble_protocol.Crypt.Ocb.Examples.{flips, flips-IsCipher, counted}
use rust_mumble_protocol.Voice.RoundTrip.{IsWellFormed, packet_bytes, encode-packet_bytes}
use rust_mumble_protocol.Crypt.Choice.{Choice, check_nonce-Choice}
use rust_mumble_protocol.Crypt.Outcome.{Outcome, decrypt-Outcome}
use rust_mumble_protocol.Crypt.State.{decrypt-same}
use rust_mumble_protocol.Crypt.Delivery.{
  received, received_late, decrypt-encrypt, decrypt-encrypt_late,
}
use rust_mumble_protocol.Crypt.Replay.{Run, start, failed, Run-Distinct}
use rust_mumble_protocol.Crypt.Memory.{Distinct}
use rust_mumble_protocol.Crypt.Replay

abbrev ok_bytes : Result Bytes IoError → Bytes
ok_bytes (ok bytes) = bytes
ok_bytes (err e) = []
ok_bytes panic = []

abbrev pub two_frames : VoicePacket serverbound
two_frames = audio 1 tt 5 (speex ((7 ∷ 8 ∷ []) ∷ [] ∷ [])) (some (9 ∷ []))

abbrev pub sender : CryptState
sender = generate_new []

abbrev pub receiver : CryptState
receiver = record (generate_new []) { decrypt_nonce = 0 }

abbrev pub wire : Bytes
wire = 1 ∷ 184 ∷ 250 ∷ 125 ∷ 67 ∷ 5 ∷ 130 ∷ 7 ∷ 8 ∷ 0 ∷ 9 ∷ []

pub encrypt_test :
    encrypt flips serverbound sender two_frames [] ≡ ok (record sender { encrypt_nonce = 1 }, wire)
unfolding encrypt Voice.encode put_payload put_frames put_position_info kind_of put_varint
    write_varint write_varint_calls plain_bytes ocb_encrypt encrypt_loop encrypt_rest aes_encrypt s2
encrypt_test = refl

abbrev received_one : CryptState
received_one = record receiver { decrypt_nonce = 1; decrypt_history = 0 ∷ 0 ∷ []; good = 1 }

abbrev small_receiver : CryptState
small_receiver = record receiver { decrypt_history = 0 ∷ 1 ∷ [] }

decrypt_test :
    decrypt flips serverbound small_receiver wire ≡ (ok (ok two_frames), received_one, [])
unfolding decrypt Voice.decode open_packet check_nonce count_packet read_payload read_framed
    read_frames frames_payload read_position_info read_varint read_wide ocb_decrypt decrypt_loop
    decrypt_rest aes_encrypt aes_decrypt s2 bytes_eq
decrypt_test = refl

-- Its second arrival is refused.
decrypt_twice :
    decrypt flips serverbound received_one wire
    ≡ (err repeat, received_one, 67 ∷ 5 ∷ 130 ∷ 7 ∷ 8 ∷ 0 ∷ 9 ∷ [])
unfolding decrypt Voice.decode open_packet check_nonce count_packet read_payload read_framed
    read_frames frames_payload read_position_info read_varint read_wide ocb_decrypt decrypt_loop
    decrypt_rest aes_encrypt aes_decrypt s2 bytes_eq
decrypt_twice = refl

-- A history of zeros says that it has packets that never came: nonce 2 is expected, and 0 comes late.
decrypt_never_seen :
    decrypt flips serverbound (record received_one { decrypt_nonce = 1 }) (0 ∷ 1 ∷ 2 ∷ 3 ∷ [])
    ≡ (err repeat, received_one, [])
unfolding decrypt Voice.decode open_packet check_nonce count_packet read_payload read_framed
    read_frames frames_payload read_position_info read_varint read_wide ocb_decrypt decrypt_loop
    decrypt_rest aes_encrypt aes_decrypt s2 bytes_eq
decrypt_never_seen = refl

-- A changed tag.
decrypt_forged : (decrypt flips serverbound receiver (1 ∷ 184 ∷ 250 ∷ 126 ∷ [])).0 ≡ err mac
unfolding decrypt Voice.decode open_packet check_nonce count_packet read_payload read_framed
    read_frames frames_payload read_position_info read_varint read_wide ocb_decrypt decrypt_loop
    decrypt_rest aes_encrypt aes_decrypt s2 bytes_eq
decrypt_forged = refl

decrypt-same_example : (decrypt flips serverbound receiver (1 ∷ 184 ∷ 250 ∷ 126 ∷ [])).1 ≡ receiver
decrypt-same_example =
    decrypt-same flips serverbound serverbound-IsLawful receiver (1 ∷ 184 ∷ 250 ∷ 126 ∷ []) mac
      (omega arith) decrypt_forged (λ e. cc)

check_nonce-Choice_example : Choice receiver 250 (check_nonce receiver 250)
check_nonce-Choice_example = check_nonce-Choice receiver 250 (omega arith)

decrypt-Outcome_example :
    Outcome flips serverbound serverbound-IsLawful receiver wire
      (decrypt flips serverbound receiver wire)
decrypt-Outcome_example = decrypt-Outcome flips serverbound serverbound-IsLawful receiver wire

pub two_frames-IsWellFormed : IsWellFormed serverbound serverbound-IsLawful two_frames
two_frames-IsWellFormed = (omega arith, tt, omega arith, (omega arith), tt)

two_frames-encoded :
    Voice.encode serverbound two_frames [] ≡ ok (0x41 ∷ 5 ∷ 0x82 ∷ 7 ∷ 8 ∷ 0 ∷ 9 ∷ [])
unfolding Voice.encode put_payload put_frames put_position_info kind_of put_varint write_varint
    write_varint_calls plain_bytes
two_frames-encoded = refl

pub two_frames-IsBytes : IsBytes (packet_bytes serverbound serverbound-IsLawful two_frames)
two_frames-IsBytes = subst IsBytes same (omega arith)
  where
    encoded :
        Voice.encode serverbound two_frames []
        ≡ ok (packet_bytes serverbound serverbound-IsLawful two_frames)
    encoded =
        encode-packet_bytes serverbound serverbound-IsLawful two_frames [] two_frames-IsWellFormed

    same :
        0x41 ∷ 5 ∷ 0x82 ∷ 7 ∷ 8 ∷ 0 ∷ 9 ∷ []
        ≡ packet_bytes serverbound serverbound-IsLawful two_frames
    same = ap ok_bytes (sym two_frames-encoded ∙ encoded)

-- With the published AES and a key of 16 bytes.
abbrev keyed_sender : CryptState
keyed_sender = record sender { key = counted }

abbrev keyed_receiver : CryptState
keyed_receiver = record receiver { key = counted }

decrypt-encrypt_example :
    (bytes : Bytes) × (encrypt aes_128 serverbound keyed_sender two_frames []
      ≡ ok (record keyed_sender { encrypt_nonce = 1 }, bytes))
    × (decrypt aes_128 serverbound keyed_receiver bytes
        ≡ (ok (ok two_frames), received keyed_receiver 1 0, []))
decrypt-encrypt_example =
    decrypt-encrypt aes_128 aes_128-IsCipher serverbound serverbound-IsLawful keyed_sender
      keyed_receiver 1 two_frames [] refl (omega arith) (omega arith) refl two_frames-IsWellFormed
      two_frames-IsBytes

-- The receiver is three packets ahead, and its history has no packet 1.
abbrev ahead_receiver : CryptState
ahead_receiver = record receiver { decrypt_nonce = 4; decrypt_history = 0 ∷ 9 ∷ [] }

decrypt-encrypt_late_example :
    (bytes : Bytes) × (encrypt flips serverbound sender two_frames []
      ≡ ok (record sender { encrypt_nonce = 1 }, bytes))
    × (decrypt flips serverbound ahead_receiver bytes
        ≡ (ok (ok two_frames), received_late ahead_receiver 1, []))
decrypt-encrypt_late_example =
    decrypt-encrypt_late flips flips-IsCipher serverbound serverbound-IsLawful sender ahead_receiver
      3 two_frames [] refl (omega arith) refl refl two_frames-IsWellFormed two_frames-IsBytes

-- One packet received, and then some bytes that are too short.
abbrev pub arrived : Decrypted serverbound
arrived = decrypt flips serverbound receiver wire

pub arrived_eq : arrived ≡ (ok (ok two_frames), received receiver 1 0, [])
unfolding decrypt Voice.decode open_packet check_nonce count_packet read_payload read_framed
    read_frames frames_payload read_position_info read_varint read_wide ocb_decrypt decrypt_loop
    decrypt_rest aes_encrypt aes_decrypt s2 bytes_eq
arrived_eq = refl

pub proceeds : check_nonce receiver 1 ≡ proceed 1 false (pos 0)
unfolding check_nonce
proceeds = refl

short_error : (decrypt flips serverbound arrived.1 (7 ∷ [])).0 ≡ err eof
unfolding decrypt
short_error = refl

Run-Distinct_example : Distinct (1 ∷ [])
Run-Distinct_example =
    Run-Distinct flips serverbound serverbound-IsLawful receiver
      (decrypt flips serverbound arrived.1 (7 ∷ [])).1 (1 ∷ []) (omega arith) refl
      (failed (7 ∷ []) eof
        (Replay.received wire 1 false (pos 0) (ok two_frames) start (omega arith)
          (ap (λ (o : Decrypted serverbound). o.0) arrived_eq) proceeds (omega arith))
        (omega arith) short_error (λ e. cc))
