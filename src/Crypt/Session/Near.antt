-- ===== src/Crypt/Session/Near.antt =====
-- src/crypt.rs: what `decrypt` makes of a sealed packet whose nonce is near the receiver's last one.
use rust_mumble_protocol.Base.{
  ℕ, ◌+◌, ◌-◌, ◌^◌, ◌<◌, ◌≡◌, inl, inr, refl, sym, subst, arith, Bool-cases, true, false, [], Bytes,
  u8, ok, err, ℤ, Bool, pos, negsuc,
}
use rust_mumble_protocol.Voice.{VoicePacketDst, VoicePacket}
use rust_mumble_protocol.Voice.Dst.{IsLawful}
use rust_mumble_protocol.Voice.RoundTrip.{IsWellFormed}
use rust_mumble_protocol.Crypt.{
  CryptState, repeat, add128, proceed, reject, check_nonce, count_packet, decrypt,
}
use rust_mumble_protocol.Crypt.NonceWindow.{
  sub128, seen, check_nonce_ahead, check_nonce_behind, check_nonce_repeat,
}
use rust_mumble_protocol.Crypt.Ocb.{Aes128}
use rust_mumble_protocol.Crypt.Sealed.{Sealed, decrypt-Sealed, decrypt-Sealed_refused}
use rust_mumble_protocol.Crypt.Accepts.{Accepts, on_time, out_of_order}
use native.Mathlib.Decide.{dec_lt}

module _ (aes : Aes128) (d : VoicePacketDst) (l : IsLawful d) where
  -- The packet is opened once, and refused as a repeat from then on.
  pub data Arrival (b : CryptState) (nonce : ℕ) (p : VoicePacket d) (bytes : Bytes) : Type 0 where
    opened :
        (b' : CryptState)
        → decrypt aes d b bytes ≡ (ok (ok p), b', [])
        → Accepts b nonce b'
        → b'.key ≡ b.key
        → Arrival b nonce p bytes
    repeated :
        (out : Bytes) → decrypt aes d b bytes ≡ (err repeat, b, out) → Arrival b nonce p bytes

  opened_by :
      (b : CryptState) (nonce k : ℕ) (late : Bool) (lost : ℤ) (p : VoicePacket d) (bytes : Bytes)
      → IsWellFormed d l p
      → Sealed aes d l b.key nonce p bytes
      → check_nonce b (u8 nonce) ≡ proceed nonce late lost
      → Accepts b nonce (count_packet b (u8 nonce) nonce late lost)
      → Arrival b nonce p bytes
  unfolding count_packet
  opened_by b nonce k late lost p bytes wf sealed chosen accepts =
      opened (count_packet b (u8 nonce) nonce late lost)
        (decrypt-Sealed aes d l b nonce late lost p bytes wf sealed chosen) accepts refl

  Arrival-ahead :
      (b : CryptState) (nonce k : ℕ) (p : VoicePacket d) (bytes : Bytes)
      → IsWellFormed d l p
      → Sealed aes d l b.key nonce p bytes
      → 0 < k
      → k < 128
      → nonce ≡ add128 b.decrypt_nonce k
      → Arrival b nonce p bytes
  Arrival-ahead b nonce k p bytes wf sealed h1 h2 e =
      opened_by b nonce k false (pos (k - 1)) p bytes wf sealed
        (subst (λ (n : ℕ). check_nonce b (u8 n) ≡ proceed n false (pos (k - 1))) (sym e)
          (check_nonce_ahead b k h1 h2))
        (on_time k h1 h2 e refl)

  Arrival-behind :
      (b : CryptState) (nonce k : ℕ) (p : VoicePacket d) (bytes : Bytes)
      → IsWellFormed d l p
      → Sealed aes d l b.key nonce p bytes
      → k < 30
      → nonce ≡ sub128 b.decrypt_nonce k
      → Arrival b nonce p bytes
  Arrival-behind b nonce k p bytes wf sealed h e = elim (Bool-cases (seen b nonce)) [
    | inl old ↦ repeated sealed.out (
        decrypt-Sealed_refused aes d l b nonce b.decrypt_nonce repeat p bytes sealed (
          subst (λ (n : ℕ). seen b n ≡ true → check_nonce b (u8 n) ≡ reject repeat b.decrypt_nonce)
            (sym e) (check_nonce_repeat b k h) old))
    | inr new ↦
        opened_by b nonce k true (negsuc 0) p bytes wf sealed
          (subst (λ (n : ℕ). seen b n ≡ false → check_nonce b (u8 n) ≡ proceed n true (negsuc 0))
            (sym e) (check_nonce_behind b k h) new)
          (out_of_order k h e new refl)
  ]

  pub Arrival-near :
      (b : CryptState) (nonce : ℕ) (p : VoicePacket d) (bytes : Bytes)
      → IsWellFormed d l p
      → Sealed aes d l b.key nonce p bytes
      → b.decrypt_nonce + 128 < 2 ^ 128
      → nonce < b.decrypt_nonce + 128
      → b.decrypt_nonce < nonce + 30
      → Arrival b nonce p bytes
  Arrival-near b nonce p bytes wf sealed room above below = elim (dec_lt b.decrypt_nonce nonce) [
    | yes h ↦
        Arrival-ahead b nonce (nonce - b.decrypt_nonce) p bytes wf sealed (omega arith)
          (omega arith) (omega arith)
    | no h ↦
        Arrival-behind b nonce (b.decrypt_nonce - nonce) p bytes wf sealed (omega arith)
          (omega arith)
  ]
