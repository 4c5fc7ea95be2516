-- ===== src/Crypt/Session/Examples.antt =====
-- A session with one packet, whose datagram comes twice; and the counts of one received packet.
use rust_mumble_protocol.Base.{
  true, ℕ, ◌+◌, ◌<◌, false, List, [], ◌∷◌, ◌≡◌, refl, sym, ap, subst, arith, ◌-◌, ◌^◌, ok, err, pos,
}
use rust_mumble_protocol.Voice.{VoicePacket, serverbound}
use rust_mumble_protocol.Voice.Dst.{serverbound-IsLawful}
use rust_mumble_protocol.Crypt.{
  CryptState, eof, decrypt, Decrypted, get_encrypt_nonce, set_decrypt_nonce, get_good, get_lost,
  get_late,
}
use rust_mumble_protocol.Crypt.Ocb.Examples.{flips, flips-IsCipher}
use rust_mumble_protocol.Crypt.Channel.{Channel, sent_at}
use rust_mumble_protocol.Crypt.Session.{heard, Session, begins, sends, refuses, delivers}
use rust_mumble_protocol.Crypt.Session.Refines.{Session-Channel}
use rust_mumble_protocol.Crypt.Session.Lossy.{transmit, transmit-delivered, all_ok}
use rust_mumble_protocol.Crypt.Session.Resync.{resync-delivered}
use rust_mumble_protocol.Crypt.Session.Tally.{receiver_after, receiver_after-counts}
use rust_mumble_protocol.Crypt.Statistics.{Counts, Run-Counts}
use rust_mumble_protocol.Crypt.Replay.{start}
use rust_mumble_protocol.Crypt.Replay
use rust_mumble_protocol.Crypt.Examples.{
  two_frames, sender, receiver, wire, encrypt_test, two_frames-IsWellFormed, two_frames-IsBytes,
  arrived, arrived_eq, proceeds,
}

abbrev sent : CryptState
sent = record sender { encrypt_nonce = 1 }

abbrev again : Decrypted serverbound
again = decrypt flips serverbound arrived.1 wire

abbrev heard_twice : List (VoicePacket serverbound)
heard_twice =
    heard flips serverbound serverbound-IsLawful again.0
      (heard flips serverbound serverbound-IsLawful arrived.0 [])

-- One byte, which is refused.
abbrev noisy : Decrypted serverbound
noisy = decrypt flips serverbound again.1 (7 ∷ [])

noisy_error : noisy.0 ≡ err eof
unfolding decrypt
noisy_error = refl

twice :
    Session flips serverbound serverbound-IsLawful sender receiver sent noisy.1
      ((two_frames, wire) ∷ [])
      heard_twice
unfolding sent_at
twice =
    refuses (7 ∷ []) eof
      (delivers 0 two_frames wire
        (delivers 0 two_frames wire
          (sends two_frames wire begins two_frames-IsWellFormed two_frames-IsBytes (omega arith)
            encrypt_test)
          refl (omega arith) (omega arith))
        refl
        (subst (λ (o : Decrypted serverbound). 1 < o.1.decrypt_nonce + 128) (sym arrived_eq)
          (omega arith))
        (subst (λ (o : Decrypted serverbound). o.1.decrypt_nonce < 31) (sym arrived_eq)
          (omega arith)))
      (omega arith) noisy_error (λ e. cc)

Session-Channel_example : (is : List ℕ) × Channel (two_frames ∷ []) is heard_twice
Session-Channel_example =
    Session-Channel flips serverbound serverbound-IsLawful flips-IsCipher sender receiver sent
      noisy.1 ((two_frames, wire) ∷ []) heard_twice refl (omega arith) (omega arith) refl twice

Run-Counts_example : Counts receiver arrived.1 1
Run-Counts_example =
    Run-Counts flips serverbound serverbound-IsLawful receiver arrived.1 (1 ∷ []) (omega arith) refl
      (omega arith)
      (Replay.received wire 1 false (pos 0) (ok two_frames) start (omega arith)
        (ap (λ (o : Decrypted serverbound). o.0) arrived_eq) proceeds (omega arith))

-- The first of three packets is lost, and the nonces wrap around.
abbrev wrapping : CryptState
wrapping = record sender { encrypt_nonce = 2 ^ 128 - 2 }

transmit-delivered_example :
    transmit flips serverbound wrapping
      (record receiver { decrypt_nonce = 2 ^ 128 - 2 })
      ((two_frames, false) ∷ (two_frames, true) ∷ (two_frames, true) ∷ [])
    ≡ all_ok (two_frames ∷ two_frames ∷ [])
transmit-delivered_example =
    transmit-delivered flips flips-IsCipher serverbound serverbound-IsLawful wrapping
      (record receiver { decrypt_nonce = 2 ^ 128 - 2 }) 0
      ((two_frames, false) ∷ (two_frames, true) ∷ (two_frames, true) ∷ []) refl refl
      (omega arith, (omega arith, tt))
      (
        (two_frames-IsWellFormed, two_frames-IsBytes),
        (
          (two_frames-IsWellFormed, two_frames-IsBytes),
          ((two_frames-IsWellFormed, two_frames-IsBytes), tt),
        ),
      )

-- A receiver that is half of all nonces away.
resync-delivered_example :
    transmit flips serverbound wrapping
      (set_decrypt_nonce (get_encrypt_nonce wrapping) (record receiver { decrypt_nonce = 2 ^ 127 }))
      ((two_frames, true) ∷ (two_frames, false) ∷ (two_frames, true) ∷ [])
    ≡ all_ok (two_frames ∷ two_frames ∷ [])
resync-delivered_example =
    resync-delivered flips flips-IsCipher serverbound serverbound-IsLawful wrapping
      (record receiver { decrypt_nonce = 2 ^ 127 })
      ((two_frames, true) ∷ (two_frames, false) ∷ (two_frames, true) ∷ []) refl (omega arith)
      (omega arith, (omega arith, tt))
      (
        (two_frames-IsWellFormed, two_frames-IsBytes),
        (
          (two_frames-IsWellFormed, two_frames-IsBytes),
          ((two_frames-IsWellFormed, two_frames-IsBytes), tt),
        ),
      )

-- Two of three come.
abbrev counting : CryptState
counting =
    receiver_after flips serverbound wrapping (record receiver { decrypt_nonce = 2 ^ 128 - 2 })
      ((two_frames, false) ∷ (two_frames, true) ∷ (two_frames, true) ∷ [])

receiver_after-counts_example :
    (get_good counting ≡ 2) × (get_lost counting ≡ 1) × (get_late counting ≡ 0)
receiver_after-counts_example =
    receiver_after-counts flips flips-IsCipher serverbound serverbound-IsLawful wrapping
      (record receiver { decrypt_nonce = 2 ^ 128 - 2 }) 0
      ((two_frames, false) ∷ (two_frames, true) ∷ (two_frames, true) ∷ []) refl refl (omega arith)
      (omega arith) (omega arith, (omega arith, tt))
      (
        (two_frames-IsWellFormed, two_frames-IsBytes),
        (
          (two_frames-IsWellFormed, two_frames-IsBytes),
          ((two_frames-IsWellFormed, two_frames-IsBytes), tt),
        ),
      )
