-- ===== src/Crypt/Accepts.antt =====
-- src/crypt.rs: what a `decrypt` that accepts a packet does to the state.
use rust_mumble_protocol.Base.{
  ℕ, ◌-◌, ◌<◌, ◌≡◌, refl, ap, subst, Bool, true, false, Bytes, IsBytes, get_or-IsBytes, Result, ok,
  IoError, ℤ, pos, negsuc, u8, get_or,
}
use rust_mumble_protocol.Voice.{VoicePacketDst, VoicePacket}
use rust_mumble_protocol.Voice.Dst.{IsLawful}
use rust_mumble_protocol.Crypt.{
  CryptState, Window, proceed, reject, add128, check_nonce, count_packet, Decrypted, decrypt,
}
use rust_mumble_protocol.Crypt.NonceWindow.{sub128, seen}
use rust_mumble_protocol.Crypt.Choice.{
  Choice, ahead, delayed, repeated, too_late, check_nonce-Choice,
}
use rust_mumble_protocol.Crypt.Ocb.{Aes128}
use rust_mumble_protocol.Crypt.Outcome.{
  Outcome, too_short, refused, forged, accepted, decrypt-Outcome,
}

-- A packet `k` ahead of the last nonce, or one up to 29 behind that the history does not have.
pub data Accepts (s : CryptState) (nonce : ℕ) (s' : CryptState) : Type 0 where
  on_time :
      (k : ℕ)
      → 0 < k
      → k < 128
      → nonce ≡ add128 s.decrypt_nonce k
      → s' ≡ count_packet s (u8 nonce) nonce false (pos (k - 1))
      → Accepts s nonce s'
  out_of_order :
      (k : ℕ)
      → k < 30
      → nonce ≡ sub128 s.decrypt_nonce k
      → seen s nonce ≡ false
      → s' ≡ count_packet s (u8 nonce) nonce true (negsuc 0)
      → Accepts s nonce s'

abbrev window_nonce : Window → ℕ
window_nonce (proceed nonce late lost) = nonce
window_nonce (reject e nonce) = nonce

abbrev counted : CryptState → ℕ → Window → CryptState
counted s nonce_0 (proceed nonce late lost) = count_packet s nonce_0 nonce late lost
counted s nonce_0 (reject e nonce) = s

Choice-Accepts :
    (s : CryptState) (nonce_0 nonce : ℕ) (was_late : Bool) (lost : ℤ) (w : Window)
    → Choice s nonce_0 w
    → w ≡ proceed nonce was_late lost
    → Accepts s (window_nonce w) (counted s nonce_0 w)
Choice-Accepts s nonce_0 nonce was_late lost w (ahead k h1 h2 e) eq =
    on_time k h1 h2 refl
      (ap (λ b. count_packet s b (add128 s.decrypt_nonce k) false (pos (k - 1))) e)
Choice-Accepts s nonce_0 nonce was_late lost w (delayed k h e new) eq =
    out_of_order k h refl new
      (ap (λ b. count_packet s b (sub128 s.decrypt_nonce k) true (negsuc 0)) e)
Choice-Accepts s nonce_0 nonce was_late lost w (repeated k h e old) eq = cc
Choice-Accepts s nonce_0 nonce was_late lost w (too_late k h1 h2 e) eq = cc

module _ (aes : Aes128) (d : VoicePacketDst) (l : IsLawful d) where
  Outcome-counted :
      (s : CryptState) (buf : Bytes) (o : Decrypted d) (r : Result (VoicePacket d) IoError)
      → Outcome aes d l s buf o
      → o.0 ≡ ok r
      → counted s (get_or buf 0 0) (check_nonce s (get_or buf 0 0)) ≡ o.1
  Outcome-counted s buf o r (too_short short) e = cc
  Outcome-counted s buf o r (refused error nonce long chosen) e = cc
  Outcome-counted s buf o r (forged nonce late lost tag out long chosen opens other) e = cc
  Outcome-counted s buf o r (accepted nonce late lost tag out r' rest long chosen opens same parses)
        e =
      ap (counted s (get_or buf 0 0)) chosen

  pub decrypt-Accepts :
      (s : CryptState) (buf : Bytes) (nonce : ℕ) (was_late : Bool) (lost : ℤ)
      (r : Result (VoicePacket d) IoError)
      → IsBytes buf
      → (decrypt aes d s buf).0 ≡ ok r
      → check_nonce s (get_or buf 0 0) ≡ proceed nonce was_late lost
      → Accepts s nonce (decrypt aes d s buf).1
  decrypt-Accepts s buf nonce was_late lost r hb eq chosen =
      let w = check_nonce s (get_or buf 0 0) in
      subst (λ n. Accepts s n (decrypt aes d s buf).1) (ap window_nonce chosen)
        (subst (Accepts s (window_nonce w))
          (Outcome-counted s buf (decrypt aes d s buf) r (decrypt-Outcome aes d l s buf) eq)
          (Choice-Accepts s (get_or buf 0 0) nonce was_late lost w
            (check_nonce-Choice s (get_or buf 0 0) (get_or-IsBytes buf 0 hb)) chosen))
