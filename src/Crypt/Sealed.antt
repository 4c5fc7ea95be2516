-- ===== src/Crypt/Sealed.antt =====
-- src/crypt.rs: a packet that `encrypt` seals under a nonce, and how `decrypt` opens it.
use rust_mumble_protocol.Base.{
  ℕ, ◌-◌, ◌≡◌, refl, ap, ◌∙◌, arith, Bool, [], ◌∷◌, ◌++◌, Bytes, IsBytes, some,
}
use rust_mumble_protocol.Base.{
  ℤ, u8, length, take, replicate, to_be_bytes, slice, get_or, bytes_eq_iff, le→ltb, ok,
}
use rust_mumble_protocol.Voice.{VoicePacketDst, VoicePacket}
use rust_mumble_protocol.Voice
use rust_mumble_protocol.Voice.Dst.{IsLawful}
use rust_mumble_protocol.Voice.RoundTrip.{
  IsWellFormed, packet_bytes, encode-packet_bytes, decode-packet_bytes,
}
use rust_mumble_protocol.Crypt.{
  CryptState, proceed, add128, check_nonce, count_packet, with_header, encrypt, decrypt,
  open_packet, decoded, resize_four,
}
use rust_mumble_protocol.Crypt.{DecryptError, reject}
use rust_mumble_protocol.Base.{err}
use rust_mumble_protocol.Crypt.Ocb.{Aes128, ocb_encrypt, ocb_decrypt}
use rust_mumble_protocol.Crypt.Ocb.Cipher.{IsCipher}
use rust_mumble_protocol.Crypt.Ocb.RoundTrip.{ocb_decrypt-ocb_encrypt}

resized :
    (dst : Bytes) → (a : ℕ) × (b : ℕ) × (c : ℕ) × (e : ℕ) × (resize_four dst ≡ a ∷ b ∷ c ∷ e ∷ [])
resized [] = (0, 0, 0, 0, refl)
resized (a ∷ []) = (a, 0, 0, 0, refl)
resized (a ∷ b ∷ []) = (a, b, 0, 0, refl)
resized (a ∷ b ∷ c ∷ []) = (a, b, c, 0, refl)
resized (a ∷ b ∷ c ∷ e ∷ dst) = (a, b, c, e, ap (λ n. a ∷ b ∷ c ∷ e ∷ replicate n 0) none_missing)
  where
    none_missing : 4 - length (a ∷ b ∷ c ∷ e ∷ dst) ≡ 0
    none_missing = omega arith

module _ (aes : Aes128) (d : VoicePacketDst) (l : IsLawful d) where
  -- The bytes are the packet under the key and the nonce, with the header that says so.
  pub record Sealed (key : Bytes) (nonce : ℕ) (p : VoicePacket d) (bytes : Bytes) : Type 0 where
    pub tag : ℕ
    pub out : Bytes
    pub header : bytes ≡ u8 nonce ∷ (slice 0 3 (to_be_bytes 16 tag) ++ out)
    pub opens : ocb_decrypt aes key nonce out ≡ some (tag, packet_bytes d l p)

  -- What the tag fits is decoded and counted.
  pub open_packet-tagged :
      (s : CryptState) (nonce tag : ℕ) (late : Bool) (lost : ℤ) (header out plain : Bytes)
      → slice 0 3 (to_be_bytes 16 tag) ≡ slice 1 4 header
      → ocb_decrypt aes s.key nonce out ≡ some (tag, plain)
      → open_packet aes d s header out (proceed nonce late lost)
        ≡ decoded aes d (count_packet s (get_or header 0 0) nonce late lost) (Voice.decode d plain)
  unfolding open_packet
  open_packet-tagged s nonce tag late lost header out plain e opens =
      rw (open_packet, opens)
        (rw ((bytes_eq_iff (slice 0 3 (to_be_bytes 16 tag)) (slice 1 4 header)).1 e) refl)

  open_packet-proceed :
      (s : CryptState) (nonce tag : ℕ) (late : Bool) (lost : ℤ) (p : VoicePacket d)
      (header out : Bytes)
      → IsWellFormed d l p
      → slice 0 3 (to_be_bytes 16 tag) ≡ slice 1 4 header
      → ocb_decrypt aes s.key nonce out ≡ some (tag, packet_bytes d l p)
      → open_packet aes d s header out (proceed nonce late lost)
        ≡ (ok (ok p), count_packet s (get_or header 0 0) nonce late lost, [])
  open_packet-proceed s nonce tag late lost p header out wf e opens =
      open_packet-tagged s nonce tag late lost header out (packet_bytes d l p) e opens
      ∙ ap (decoded aes d (count_packet s (get_or header 0 0) nonce late lost))
          (decode-packet_bytes d l p wf)

  pub decrypt_split :
      (s : CryptState) (a b c e : ℕ) (out : Bytes)
      → decrypt aes d s (a ∷ b ∷ c ∷ e ∷ out)
        ≡ open_packet aes d s (a ∷ b ∷ c ∷ e ∷ []) out (check_nonce s a)
  unfolding decrypt
  decrypt_split s a b c e out = rw (le→ltb (length (a ∷ b ∷ c ∷ e ∷ out)) 4 (omega arith)) refl

  -- A sealed packet whose nonce is the one chosen is opened.
  pub decrypt-Sealed :
      (s : CryptState) (nonce : ℕ) (late : Bool) (lost : ℤ) (p : VoicePacket d) (bytes : Bytes)
      → IsWellFormed d l p
      → Sealed s.key nonce p bytes
      → check_nonce s (u8 nonce) ≡ proceed nonce late lost
      → decrypt aes d s bytes ≡ (ok (ok p), count_packet s (u8 nonce) nonce late lost, [])
  decrypt-Sealed s nonce late lost p bytes wf sealed e =
      ap (decrypt aes d s) sealed.header
      ∙ decrypt_split s (u8 nonce) _ _ _ sealed.out
      ∙ ap (open_packet aes d s _ sealed.out) e
      ∙ open_packet-proceed s nonce sealed.tag late lost p
          (u8 nonce ∷ slice 0 3 (to_be_bytes 16 sealed.tag)) sealed.out wf refl sealed.opens

  -- One whose nonce is refused is not opened.
  pub decrypt-Sealed_refused :
      (s : CryptState) (nonce left : ℕ) (e : DecryptError) (p : VoicePacket d) (bytes : Bytes)
      → (sealed : Sealed s.key nonce p bytes) → check_nonce s (u8 nonce) ≡ reject e left
      → decrypt aes d s bytes ≡ (err e, record s { decrypt_nonce = left }, sealed.out)
  unfolding open_packet
  decrypt-Sealed_refused s nonce left e p bytes sealed h =
      ap (decrypt aes d s) sealed.header
      ∙ decrypt_split s (u8 nonce) _ _ _ sealed.out
      ∙ ap (open_packet aes d s (u8 nonce ∷ slice 0 3 (to_be_bytes 16 sealed.tag)) sealed.out) h

  pub encrypt-with_header :
      (s : CryptState) (p : VoicePacket d) (dst inner out : Bytes) (tag : ℕ)
      → Voice.encode d p [] ≡ ok inner
      → ocb_encrypt aes s.key (add128 s.encrypt_nonce 1) inner ≡ some (tag, out)
      → encrypt aes d s p dst
        ≡ ok (
          record s { encrypt_nonce = add128 s.encrypt_nonce 1 },
          u8 (add128 s.encrypt_nonce 1) ∷ (slice 0 3 (to_be_bytes 16 tag) ++ out),
        )
  unfolding encrypt
  encrypt-with_header s p dst inner out tag e1 e2 =
      let (a, b, c, e, r) = resized dst in
      rw (encrypt, r)
        (rw e1 (
          rw e2 (
            ap
              (λ t. ok (
                record s { encrypt_nonce = add128 s.encrypt_nonce 1 },
                with_header (add128 s.encrypt_nonce 1) tag (take 4 t ++ out),
              ))
              r)))

  module _ (c : IsCipher aes) where
    -- The state after `encrypt`, and the packet that it makes.
    pub encrypt-Sealed :
        (s : CryptState) (p : VoicePacket d) (dst : Bytes)
        → IsWellFormed d l p
        → IsBytes (packet_bytes d l p)
        → (bytes : Bytes) × (encrypt aes d s p dst
            ≡ ok (record s { encrypt_nonce = add128 s.encrypt_nonce 1 }, bytes))
          × Sealed s.key (add128 s.encrypt_nonce 1) p bytes
    encrypt-Sealed s p dst wf hb =
        let nonce = add128 s.encrypt_nonce 1 in
        let (tag, out, seals, opens, size, bytes) =
          ocb_decrypt-ocb_encrypt aes c s.key nonce (packet_bytes d l p) hb in
        (
          u8 nonce ∷ (slice 0 3 (to_be_bytes 16 tag) ++ out),
          encrypt-with_header s p dst (packet_bytes d l p) out tag (encode-packet_bytes d l p [] wf)
              seals,
          record { tag = tag; out = out; header = refl; opens = opens },
        )
