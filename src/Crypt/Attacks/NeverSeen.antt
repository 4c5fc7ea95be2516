-- ===== src/Crypt/Attacks/NeverSeen.antt =====
-- src/crypt.rs: the history of a new state says that it has packets that never came.
use rust_mumble_protocol.Base.{
  ℕ, zero, suc, ◌+◌, ◌-◌, ◌/◌, ◌^◌, ◌<◌, ◌≡◌, refl, sym, ap, ◌∙◌, subst, arith, false, true, List,
  [], ◌∷◌, Bytes, u8, Result, IoError, ok, err, pos, get_or, set, replicate, ==_iff,
}
use rust_mumble_protocol.Voice.{VoicePacketDst, VoicePacket}
use rust_mumble_protocol.Voice.Dst.{IsLawful}
use rust_mumble_protocol.Voice.RoundTrip.{IsWellFormed}
use rust_mumble_protocol.Crypt.{
  CryptState, DecryptError, generate_new, repeat, proceed, reject, add128, check_nonce, decrypt,
}
use rust_mumble_protocol.Crypt.NonceWindow.{sub128, seen, check_nonce_ahead, check_nonce_repeat}
use rust_mumble_protocol.Crypt.Ocb.{Aes128}
use rust_mumble_protocol.Crypt.Sealed.{Sealed, decrypt-Sealed, decrypt-Sealed_refused}
use rust_mumble_protocol.Crypt.Delivery.{received, count_packet-received}

get_or-zeros : (n i : ℕ) → ◌≡◌ {A = ℕ} (get_or (replicate n 0) i 0) 0
get_or-zeros zero i = refl
get_or-zeros (suc n) zero = refl
get_or-zeros (suc n) (suc i) = get_or-zeros n i

get_or-set_zero :
    (xs : List ℕ) (i j : ℕ) → ((j : ℕ) → get_or xs j 0 ≡ 0) → get_or (set xs i 0) j 0 ≡ 0
get_or-set_zero [] i j h = refl
get_or-set_zero (x ∷ xs) zero zero h = refl
get_or-set_zero (x ∷ xs) zero (suc j) h = h (suc j)
get_or-set_zero (x ∷ xs) (suc i) zero h = h 0
get_or-set_zero (x ∷ xs) (suc i) (suc j) h = get_or-set_zero xs i j (λ j. h (suc j))

-- The nonces near 2 ^ 127, and their second byte.
second_byte : (n : ℕ) → n < 128 → u8 ((2 ^ 127 + n) / 2 ^ 8) ≡ 0
second_byte n h = omega arith

nonce_ahead : (n : ℕ) → n < 128 → add128 (2 ^ 127) n ≡ 2 ^ 127 + n
nonce_ahead n h = omega arith

nonce_behind : (n j : ℕ) → j < n → n < 128 → sub128 (2 ^ 127 + n) (n - j) ≡ 2 ^ 127 + j
nonce_behind n j h1 h2 = omega arith

-- Where the whole history is zero, a packet whose nonce has a zero there is refused.
zeros_refuse :
    (s : CryptState) (n j : ℕ)
    → ((i : ℕ) → get_or s.decrypt_history i 0 ≡ 0)
    → s.decrypt_nonce ≡ 2 ^ 127 + n
    → j < n
    → n < j + 30
    → n < 128
    → check_nonce s (u8 (2 ^ 127 + j)) ≡ reject repeat s.decrypt_nonce
zeros_refuse s n j zeros e h1 h2 h3 =
    subst (λ (t : ℕ). seen s t ≡ true → check_nonce s (u8 t) ≡ reject repeat s.decrypt_nonce)
      (ap (λ (m : ℕ). sub128 m (n - j)) e ∙ nonce_behind n j h1 h3)
      (check_nonce_repeat s (n - j) (omega arith))
      ((==_iff (get_or s.decrypt_history (u8 (2 ^ 127 + j)) 0) (u8 ((2 ^ 127 + j) / 2 ^ 8))).1
        (zeros (u8 (2 ^ 127 + j)) ∙ sym (second_byte j (omega arith))))

module _ (aes : Aes128) (d : VoicePacketDst) (l : IsLawful d) where
  -- In a state that `generate_new` makes, the first packet that comes may be the one with the nonce
  -- 2 ^ 127 + n, for an n from 2 to 127. It is received; but then a packet with a smaller nonce
  -- above 2 ^ 127, less than 30 behind, which never came, is refused as a repeated one.
  pub never_seen :
      (key : Bytes) (n j : ℕ) (p q : VoicePacket d) (first late : Bytes)
      → 0 < j
      → j < n
      → n < j + 30
      → n < 128
      → IsWellFormed d l p
      → Sealed aes d l key (2 ^ 127 + n) p first
      → Sealed aes d l key (2 ^ 127 + j) q late
      → let s = received (generate_new key) (2 ^ 127 + n) (n - 1) in
        (decrypt aes d (generate_new key) first ≡ (ok (ok p), s, []))
        × ((decrypt aes d s late).0 ≡ err repeat)
        × ((decrypt aes d s late).1 ≡ s)
  never_seen key n j p q first late h1 h2 h3 h4 wf sealed1 sealed2 = (
    decrypt-Sealed aes d l (generate_new key) (2 ^ 127 + n) false (pos (n - 1)) p first wf sealed1
          proceeds
        ∙ ap (λ t. (ok (ok p), t, []))
            (count_packet-received (generate_new key) (2 ^ 127 + n) (n - 1) (omega arith)),
    ap (λ (o : Result (Result (VoicePacket d) IoError) DecryptError × CryptState × Bytes). o.0)
        refused_late,
    ap (λ (o : Result (Result (VoicePacket d) IoError) DecryptError × CryptState × Bytes). o.1)
        refused_late,
  )
    where
      s : CryptState
      s = received (generate_new key) (2 ^ 127 + n) (n - 1)

      proceeds :
          check_nonce (generate_new key) (u8 (2 ^ 127 + n))
          ≡ proceed (2 ^ 127 + n) false (pos (n - 1))
      proceeds =
          subst (λ (t : ℕ). check_nonce (generate_new key) (u8 t) ≡ proceed t false (pos (n - 1)))
            (nonce_ahead n h4) (check_nonce_ahead (generate_new key) n (omega arith) h4)

      history_zero : (i : ℕ) → get_or s.decrypt_history i 0 ≡ 0
      history_zero i =
          ap (λ (v : ℕ). get_or (set (replicate 256 0) (u8 (2 ^ 127 + n)) v) i 0) (second_byte n h4)
          ∙ get_or-set_zero (replicate 256 0) (u8 (2 ^ 127 + n)) i (get_or-zeros 256)

      refused_late : decrypt aes d s late ≡ (err repeat, s, sealed2.out)
      refused_late =
          decrypt-Sealed_refused aes d l s (2 ^ 127 + j) s.decrypt_nonce repeat q late sealed2
            (zeros_refuse s n j history_zero refl h2 h3 h4)
