-- ===== src/Crypt/Attacks/Examples.antt =====
-- The receiver's weak points at concrete states, with a simple cipher.
use rust_mumble_protocol.Crypt.Attacks.Forgery.{chosen, forge, decrypt-forge}
use rust_mumble_protocol.Base.{◌≢◌, replicate}
use rust_mumble_protocol.Base.{IoError, Result, ◌≡◌, refl, arith, [], ◌∷◌, Bytes, ok, err}
use rust_mumble_protocol.Voice.{VoicePacket, serverbound}
use rust_mumble_protocol.Voice.Dst.{serverbound-IsLawful}
use rust_mumble_protocol.Crypt.{
  add128, CryptState, generate_new, encrypt, decrypt, repeat, late_packet,
}
use rust_mumble_protocol.Crypt.Ocb.Examples.{flips, flips-IsCipher}
use rust_mumble_protocol.Crypt.NonceWindow.{sub128}
use rust_mumble_protocol.Crypt.Sealed.{Sealed, encrypt-Sealed}
use rust_mumble_protocol.Crypt.Delivery.{received}
use rust_mumble_protocol.Crypt.Attacks.LateMoves.{replay_after_late}
use rust_mumble_protocol.Crypt.Examples.{
  two_frames, sender, receiver, two_frames-IsWellFormed, two_frames-IsBytes,
}
use rust_mumble_protocol.Crypt.Attacks.NeverSeen.{never_seen}
use rust_mumble_protocol.Base.{ℕ, ◌+◌, ◌^◌}

-- What `encrypt` makes of the packet for the receiver's last nonce, 1.
abbrev sealed_one :
    (bytes : Bytes) × (encrypt flips serverbound sender two_frames []
      ≡ ok (record sender { encrypt_nonce = 1 }, bytes))
    × Sealed flips serverbound serverbound-IsLawful [] 1 two_frames bytes
sealed_one =
    encrypt-Sealed flips serverbound serverbound-IsLawful flips-IsCipher sender two_frames []
      two_frames-IsWellFormed two_frames-IsBytes

abbrev last_one : CryptState
last_one = record receiver { decrypt_nonce = 1 }

replay_after_late_example :
    (decrypt flips serverbound last_one (217 ∷ 0 ∷ 0 ∷ 0 ∷ [])
      ≡ (err late_packet, record last_one { decrypt_nonce = sub128 1 40 }, []))
    × (decrypt flips serverbound (record last_one { decrypt_nonce = sub128 1 40 }) sealed_one.0
        ≡ (ok (ok two_frames), received last_one 1 39, []))
replay_after_late_example =
    replay_after_late flips serverbound serverbound-IsLawful last_one 40 0 0 0 two_frames
      sealed_one.0 (omega arith) (omega arith) (omega arith) two_frames-IsWellFormed sealed_one.2

abbrev known : Bytes
known = replicate 16 9

decrypt-forge_example :
    (bytes : Bytes) × (encrypt flips serverbound sender (chosen known) []
      ≡ ok (record sender { encrypt_nonce = 1 }, bytes))
    × (forge known bytes ≢ bytes)
    × (r : Result (VoicePacket serverbound) IoError) × ((decrypt flips serverbound receiver
          (forge known bytes)).0
        ≡ ok r)
    × ((decrypt flips serverbound receiver (forge known bytes)).1 ≡ received receiver 1 0)
decrypt-forge_example =
    decrypt-forge flips flips-IsCipher sender receiver 1 known refl (omega arith) (omega arith) refl
      (omega arith) refl

-- The packet as it is sent under a nonce near 2 ^ 127.
abbrev sealed_at :
    (n : ℕ)
    → (bytes : Bytes) × (encrypt flips serverbound
          (record sender { encrypt_nonce = n })
          two_frames
          []
        ≡ ok (record sender { encrypt_nonce = add128 n 1 }, bytes))
      × Sealed flips serverbound serverbound-IsLawful [] (add128 n 1) two_frames bytes
sealed_at n =
    encrypt-Sealed flips serverbound serverbound-IsLawful flips-IsCipher
      (record sender { encrypt_nonce = n }) two_frames [] two_frames-IsWellFormed two_frames-IsBytes

abbrev ahead_one : CryptState
ahead_one = received (generate_new []) (2 ^ 127 + 2) 1

never_seen_example :
    (decrypt flips serverbound (generate_new []) (sealed_at (2 ^ 127 + 1)).0
      ≡ (ok (ok two_frames), ahead_one, []))
    × ((decrypt flips serverbound ahead_one (sealed_at (2 ^ 127)).0).0 ≡ err repeat)
    × ((decrypt flips serverbound ahead_one (sealed_at (2 ^ 127)).0).1 ≡ ahead_one)
never_seen_example =
    never_seen flips serverbound serverbound-IsLawful [] 2 1 two_frames two_frames
      (sealed_at (2 ^ 127 + 1)).0 (sealed_at (2 ^ 127)).0 (omega arith) (omega arith) (omega arith)
      (omega arith) two_frames-IsWellFormed (sealed_at (2 ^ 127 + 1)).2 (sealed_at (2 ^ 127)).2
