-- ===== src/Crypt/Attacks/LateMoves.antt =====
-- src/crypt.rs, the branch of `decrypt` that returns `DecryptError::Late`: it keeps the nonce of a
-- header that nothing has authenticated.
use rust_mumble_protocol.Base.{
  ℕ, ◌-◌, ◌^◌, ◌≤◌, ◌<◌, ◌≡◌, ap, ◌∙◌, subst, arith, false, [], ◌∷◌, Bytes, u8, ok, err, pos,
}
use rust_mumble_protocol.Voice.{VoicePacketDst, VoicePacket}
use rust_mumble_protocol.Voice.Dst.{IsLawful}
use rust_mumble_protocol.Voice.RoundTrip.{IsWellFormed}
use rust_mumble_protocol.Crypt.{
  CryptState, late_packet, proceed, add128, check_nonce, decrypt, open_packet,
}
use rust_mumble_protocol.Crypt.NonceWindow.{sub128, check_nonce_ahead, check_nonce_late}
use rust_mumble_protocol.Crypt.Ocb.{Aes128}
use rust_mumble_protocol.Crypt.Sealed.{Sealed, decrypt_split, decrypt-Sealed}
use rust_mumble_protocol.Crypt.Delivery.{received, count_packet-received}

module _ (aes : Aes128) (d : VoicePacketDst) (l : IsLawful d) where
  -- Four bytes of which only the first matters make `decrypt` return `Late` and move a nonce of
  -- 128 bits back by `k`, for a `k` from 30 to 127. After that, a well-formed packet sealed under
  -- the nonce that was the last one, as the packet accepted last was, is received: nothing looks
  -- it up in the history.
  pub replay_after_late :
      (s : CryptState) (k x y z : ℕ) (p : VoicePacket d) (bytes : Bytes)
      → s.decrypt_nonce < 2 ^ 128
      → 30 ≤ k
      → k < 128
      → IsWellFormed d l p
      → Sealed aes d l s.key s.decrypt_nonce p bytes
      → (decrypt aes d s (u8 (sub128 s.decrypt_nonce k) ∷ x ∷ y ∷ z ∷ [])
          ≡ (err late_packet, record s { decrypt_nonce = sub128 s.decrypt_nonce k }, []))
        × (decrypt aes d (record s { decrypt_nonce = sub128 s.decrypt_nonce k }) bytes
            ≡ (ok (ok p), received s s.decrypt_nonce (k - 1), []))
  unfolding open_packet
  replay_after_late s k x y z p bytes hn h1 h2 wf sealed = (
    decrypt_split aes d l s (u8 (sub128 s.decrypt_nonce k)) x y z []
        ∙ ap (open_packet aes d s (u8 (sub128 s.decrypt_nonce k) ∷ x ∷ y ∷ z ∷ []) [])
            (check_nonce_late s k h1 (omega arith)),
    decrypt-Sealed aes d l s' s.decrypt_nonce false (pos (k - 1)) p bytes wf sealed chosen
        ∙ ap (λ t. (ok (ok p), t, []))
            (count_packet-received s' s.decrypt_nonce (k - 1) (omega arith)),
  )
    where
      s' : CryptState
      s' = record s { decrypt_nonce = sub128 s.decrypt_nonce k }

      back : add128 (sub128 s.decrypt_nonce k) k ≡ s.decrypt_nonce
      back = omega arith

      chosen : check_nonce s' (u8 s.decrypt_nonce) ≡ proceed s.decrypt_nonce false (pos (k - 1))
      chosen =
          subst (λ (n : ℕ). check_nonce s' (u8 n) ≡ proceed n false (pos (k - 1))) back
            (check_nonce_ahead s' k (omega arith) h2)
