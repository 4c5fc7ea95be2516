-- ===== src/Crypt/State.antt =====
-- src/crypt.rs: errors of `decrypt` change nothing in the state but where a packet is too late.
use rust_mumble_protocol.Base.{ℕ, ◌≡◌, ◌≢◌, refl, ap, Bytes, IsBytes, get_or-IsBytes, err, get_or}
use rust_mumble_protocol.Voice.{VoicePacketDst}
use rust_mumble_protocol.Voice.Dst.{IsLawful}
use rust_mumble_protocol.Crypt.{
  CryptState, DecryptError, late_packet, Window, reject, check_nonce, Decrypted, decrypt,
}
use rust_mumble_protocol.Crypt.Choice.{
  Choice, ahead, delayed, repeated, too_late, check_nonce-Choice,
}
use rust_mumble_protocol.Crypt.Ocb.{Aes128}
use rust_mumble_protocol.Crypt.Outcome.{
  Outcome, too_short, refused, forged, accepted, decrypt-Outcome,
}

module _ (aes : Aes128) (d : VoicePacketDst) (l : IsLawful d) where
  refused_same :
      (s : CryptState) (w : Window) (nonce_0 nonce : ℕ) (e : DecryptError)
      → Choice s nonce_0 w
      → w ≡ reject e nonce
      → e ≢ late_packet
      → nonce ≡ s.decrypt_nonce
  refused_same s w nonce_0 nonce e (ahead k h1 h2 eq) h ne = cc
  refused_same s w nonce_0 nonce e (delayed k h1 eq new) h ne = cc
  refused_same s w nonce_0 nonce e (repeated k h1 eq old) h ne = cc
  refused_same s w nonce_0 nonce e (too_late k h1 h2 eq) h ne = absurd (ne cc)

  Outcome-same :
      (s : CryptState) (buf : Bytes) (o : Decrypted d) (e : DecryptError)
      → IsBytes buf
      → Outcome aes d l s buf o
      → o.0 ≡ err e
      → e ≢ late_packet
      → o.1 ≡ s
  Outcome-same s buf o e hb (too_short short) eq ne = refl
  Outcome-same s buf o e hb (refused e' nonce long chosen) eq ne =
      ap (λ (n : ℕ). record s { decrypt_nonce = n })
        (refused_same s (check_nonce s (get_or buf 0 0)) (get_or buf 0 0) nonce e'
          (check_nonce-Choice s (get_or buf 0 0) (get_or-IsBytes buf 0 hb)) chosen
          (λ e'-late. ne cc))
  Outcome-same s buf o e hb (forged nonce late lost tag out long chosen opens other) eq ne = refl
  Outcome-same s buf o e hb (accepted nonce late lost tag out r rest long chosen opens same parses)
        eq ne =
      cc

  -- A `decrypt` of bytes that returns an error other than `Late` leaves the whole state as it was: the
  -- nonce is back where it was, and neither the history nor a count has changed.
  pub decrypt-same :
      (s : CryptState) (buf : Bytes) (e : DecryptError)
      → IsBytes buf
      → (decrypt aes d s buf).0 ≡ err e
      → e ≢ late_packet
      → (decrypt aes d s buf).1 ≡ s
  decrypt-same s buf e hb eq ne =
      Outcome-same s buf (decrypt aes d s buf) e hb (decrypt-Outcome aes d l s buf) eq ne
