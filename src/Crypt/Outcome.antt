-- ===== src/Crypt/Outcome.antt =====
-- src/crypt.rs: everything that `decrypt` may return, with the state that it leaves.
use rust_mumble_protocol.Base.{
  ℕ, ◌≤◌, ◌<◌, ◌≡◌, ◌≢◌, ◌⊎◌, inl, inr, refl, sym, ◌∙◌, arith, Bool, true, false, Bool-cases,
  le→ltb, [], ◌∷◌, Bytes, Option, some,
}
use rust_mumble_protocol.Base.{
  ℤ, length, drop, get_or, to_be_bytes, slice, bytes_eq, bytes_eq_iff, Result, ok, err, IoError,
  unexpected_eof, invalid_data,
}
use rust_mumble_protocol.Voice
use rust_mumble_protocol.Voice.{VoicePacketDst, VoicePacket}
use rust_mumble_protocol.Voice.Dst.{IsLawful}
use rust_mumble_protocol.Voice.RoundTrip.{IsWellFormed}
use rust_mumble_protocol.Voice.Total.{Decoded, packet, failed, decode-Decoded}
use rust_mumble_protocol.Crypt.{
  CryptState, DecryptError, eof, mac, Window, proceed, reject, check_nonce, count_packet, Decrypted,
  decoded, decrypt, open_packet,
}
use rust_mumble_protocol.Crypt.Ocb.{Aes128, ocb_decrypt}
use rust_mumble_protocol.Crypt.Ocb.Total.{Opened, opened, ocb_decrypt-Opened}

true-ne-false : true ≡ false → ⊥
true-ne-false e = cc

module _ (aes : Aes128) (d : VoicePacketDst) (l : IsLawful d) where
  -- The decrypted bytes hold a well-formed packet and are used up, or they do not parse.
  pub data Parsed : Result (VoicePacket d) IoError → Bytes → Type 0 where
    parsed : (p : VoicePacket d) → IsWellFormed d l p → Parsed (ok p) []
    garbled :
        (e : IoError) {rest : Bytes}
        → (e ≡ unexpected_eof) ⊎ (e ≡ invalid_data)
        → Parsed (err e) rest

  pub data Outcome (s : CryptState) (buf : Bytes) : Decrypted d → Type 0 where
    too_short : length buf < 4 → Outcome s buf (err eof, s, buf)
    refused :
        (e : DecryptError) (nonce : ℕ)
        → 4 ≤ length buf
        → check_nonce s (get_or buf 0 0) ≡ reject e nonce
        → Outcome s buf (err e, record s { decrypt_nonce = nonce }, drop 4 buf)
    forged :
        (nonce : ℕ) (late : Bool) (lost : ℤ) (tag : ℕ) (out : Bytes)
        → 4 ≤ length buf
        → check_nonce s (get_or buf 0 0) ≡ proceed nonce late lost
        → ocb_decrypt aes s.key nonce (drop 4 buf) ≡ some (tag, out)
        → slice 0 3 (to_be_bytes 16 tag) ≢ slice 1 4 buf
        → Outcome s buf (err mac, s, out)
    accepted :
        (nonce : ℕ) (late : Bool) (lost : ℤ) (tag : ℕ) (out : Bytes)
        (r : Result (VoicePacket d) IoError) (rest : Bytes)
        → 4 ≤ length buf
        → check_nonce s (get_or buf 0 0) ≡ proceed nonce late lost
        → ocb_decrypt aes s.key nonce (drop 4 buf) ≡ some (tag, out)
        → slice 0 3 (to_be_bytes 16 tag) ≡ slice 1 4 buf
        → Parsed r rest
        → Outcome s buf (ok r, count_packet s (get_or buf 0 0) nonce late lost, rest)

  decoded-Outcome :
      {s : CryptState} {buf : Bytes} (nonce : ℕ) (late : Bool) (lost : ℤ) (tag : ℕ) (out : Bytes)
      → 4 ≤ length buf
      → check_nonce s (get_or buf 0 0) ≡ proceed nonce late lost
      → ocb_decrypt aes s.key nonce (drop 4 buf) ≡ some (tag, out)
      → slice 0 3 (to_be_bytes 16 tag) ≡ slice 1 4 buf
      → (r : Result (Option (VoicePacket d)) IoError × Bytes) → Decoded d l r
      → Outcome s buf (decoded aes d (count_packet s (get_or buf 0 0) nonce late lost) r)
  decoded-Outcome nonce late lost tag out long e1 e2 e3 r (packet p wf) =
      accepted nonce late lost tag out (ok p) [] long e1 e2 e3 (parsed p wf)
  decoded-Outcome nonce late lost tag out long e1 e2 e3 r (failed e {src} h) =
      accepted nonce late lost tag out (err e) src long e1 e2 e3 (garbled e h)

  open_packet-Outcome :
      (s : CryptState) (a b c e : ℕ) (buf : Bytes) (w : Window)
      → check_nonce s a ≡ w
      → Outcome s (a ∷ b ∷ c ∷ e ∷ buf) (open_packet aes d s (a ∷ b ∷ c ∷ e ∷ []) buf w)
  unfolding open_packet
  open_packet-Outcome s a b c e buf (reject error nonce) h = refused error nonce (omega arith) h
  open_packet-Outcome s a b c e buf (proceed nonce late lost) h =
      opened_to _ refl (ocb_decrypt-Opened aes s.key nonce buf)
    where
      opened_to :
          (r : Option (ℕ × Bytes))
          → ocb_decrypt aes s.key nonce buf ≡ r
          → Opened (length buf) r
          → Outcome s
              (a ∷ b ∷ c ∷ e ∷ buf)
              (open_packet aes d s (a ∷ b ∷ c ∷ e ∷ []) buf (proceed nonce late lost))
      opened_to r opens (opened tag out size bytes) =
          elim (Bool-cases (bytes_eq (slice 0 3 (to_be_bytes 16 tag)) (b ∷ c ∷ e ∷ []))) [
            | inl same ↦
                rw (open_packet, opens)
                  (rw same (
                    decoded-Outcome nonce late lost tag out (omega arith) h opens
                      ((bytes_eq_iff (slice 0 3 (to_be_bytes 16 tag)) (b ∷ c ∷ e ∷ [])).0 same)
                      (Voice.decode d out) (decode-Decoded d l out bytes)))
            | inr other ↦
                rw (open_packet, opens)
                  (rw other (
                    forged nonce late lost tag out (omega arith) h opens (λ same. absurd (
                      true-ne-false (
                        sym
                          ((bytes_eq_iff (slice 0 3 (to_be_bytes 16 tag)) (b ∷ c ∷ e ∷ [])).1 same)
                        ∙ other)))))
          ]

  -- On any state and bytes, and whatever AES does, `decrypt` returns, and not by a panic. On fewer than
  -- four bytes it answers Eof and changes nothing. On four bytes or more, the byte of the nonce is
  -- refused, with the nonce that `check_nonce` says left in the state; or the tag is not the header's,
  -- with the state as it was; or the tag is, and the packet is counted, whether its bytes parse as a
  -- well-formed packet or not.
  pub decrypt-Outcome : (s : CryptState) (buf : Bytes) → Outcome s buf (decrypt aes d s buf)
  unfolding decrypt
  decrypt-Outcome s [] = too_short (omega arith)
  decrypt-Outcome s (a ∷ []) = too_short (omega arith)
  decrypt-Outcome s (a ∷ b ∷ []) = too_short (omega arith)
  decrypt-Outcome s (a ∷ b ∷ c ∷ []) = too_short (omega arith)
  decrypt-Outcome s (a ∷ b ∷ c ∷ e ∷ buf) =
      rw (le→ltb (length (a ∷ b ∷ c ∷ e ∷ buf)) 4 (omega arith))
        (open_packet-Outcome s a b c e buf (check_nonce s a) refl)
