-- ===== src/Crypt/Directions.antt =====
-- src/crypt.rs: one state serves both directions. `encrypt` uses the key and its own nonce, and
-- `decrypt` everything else, so neither meets what the other leaves.
use rust_mumble_protocol.Base.{
  ℕ, ◌≡◌, refl, sym, ap, ap₂, ◌∙◌, Bool, true, false, [], ◌∷◌, ◌++◌, Bytes, Option, none, some,
  Result, ok, err, panic, IoError, ltb, Bool-cases, inl, inr, length, take, drop, slice, bytes_eq,
  to_be_bytes,
}
use rust_mumble_protocol.Voice.{VoicePacketDst, VoicePacket}
use rust_mumble_protocol.Voice
use rust_mumble_protocol.Crypt.{
  CryptState, add128, resize_four, with_header, encrypt, Decrypted, Window, proceed, reject,
  check_nonce, count_packet, open_packet, decrypt,
}
use rust_mumble_protocol.Crypt.Ocb.{Aes128, ocb_encrypt, ocb_decrypt}

abbrev pub with_encrypt_nonce : ℕ → CryptState → CryptState
with_encrypt_nonce n s = record s { encrypt_nonce = n }

module _ (aes : Aes128) (d : VoicePacketDst) (n : ℕ) where
  -- The same, with another nonce for encryption in the state.
  abbrev pub beside : Decrypted d → Decrypted d
  beside o = (o.0, with_encrypt_nonce n o.1, o.2)

  open_packet-beside :
      (s : CryptState) (header buf : Bytes) (w : Window)
      → open_packet aes d (with_encrypt_nonce n s) header buf w
        ≡ beside (open_packet aes d s header buf w)
  unfolding open_packet
  open_packet-beside s header buf (reject e nonce) = refl
  open_packet-beside s header buf (proceed nonce late lost) =
      opened (ocb_decrypt aes s.key nonce buf) refl
    where
      tested :
          (tag : ℕ) (buf' : Bytes) (t : Bool)
          → ocb_decrypt aes s.key nonce buf ≡ some (tag, buf')
          → bytes_eq (slice 0 3 (to_be_bytes 16 tag)) (slice 1 4 header) ≡ t
          → open_packet aes d (with_encrypt_nonce n s) header buf (proceed nonce late lost)
            ≡ beside (open_packet aes d s header buf (proceed nonce late lost))
      tested tag buf' true e h = rw (open_packet, e) (rw h (unfold count_packet in refl))
      tested tag buf' false e h = rw (open_packet, e) (rw h refl)

      opened :
          (r : Option (ℕ × Bytes))
          → ocb_decrypt aes s.key nonce buf ≡ r
          → open_packet aes d (with_encrypt_nonce n s) header buf (proceed nonce late lost)
            ≡ beside (open_packet aes d s header buf (proceed nonce late lost))
      opened none e = rw (open_packet, e) refl
      opened (some (tag, buf')) e = tested tag buf' _ e refl

  pub decrypt-beside :
      (s : CryptState) (buf : Bytes)
      → decrypt aes d (with_encrypt_nonce n s) buf ≡ beside (decrypt aes d s buf)
  unfolding decrypt check_nonce
  decrypt-beside s [] = refl
  decrypt-beside s (b ∷ buf) = elim (Bool-cases (ltb (length (b ∷ buf)) 4)) [
    | inl e ↦ rw e refl
    | inr e ↦ rw e (open_packet-beside s (b ∷ take 3 buf) (drop 3 buf) (check_nonce s b))
  ]

module _ (aes : Aes128) (d : VoicePacketDst) where
  open_packet-key :
      (s : CryptState) (header buf : Bytes) (w : Window)
      → (open_packet aes d s header buf w).1.key ≡ s.key
  unfolding open_packet
  open_packet-key s header buf (reject e nonce) = refl
  open_packet-key s header buf (proceed nonce late lost) =
      opened (ocb_decrypt aes s.key nonce buf) refl
    where
      tested :
          (tag : ℕ) (buf' : Bytes) (t : Bool)
          → ocb_decrypt aes s.key nonce buf ≡ some (tag, buf')
          → bytes_eq (slice 0 3 (to_be_bytes 16 tag)) (slice 1 4 header) ≡ t
          → (open_packet aes d s header buf (proceed nonce late lost)).1.key ≡ s.key
      tested tag buf' true e h = rw (open_packet, e) (rw h (unfold count_packet in refl))
      tested tag buf' false e h = rw (open_packet, e) (rw h refl)

      opened :
          (r : Option (ℕ × Bytes))
          → ocb_decrypt aes s.key nonce buf ≡ r
          → (open_packet aes d s header buf (proceed nonce late lost)).1.key ≡ s.key
      opened none e = rw (open_packet, e) refl
      opened (some (tag, buf')) e = tested tag buf' _ e refl

  pub decrypt-key : (s : CryptState) (buf : Bytes) → (decrypt aes d s buf).1.key ≡ s.key
  unfolding decrypt
  decrypt-key s [] = refl
  decrypt-key s (b ∷ buf) = elim (Bool-cases (ltb (length (b ∷ buf)) 4)) [
    | inl e ↦ rw e refl
    | inr e ↦ rw e (open_packet-key s (b ∷ take 3 buf) (drop 3 buf) (check_nonce s b))
  ]

  pub decrypt-encrypt_nonce :
      (s : CryptState) (buf : Bytes) → (decrypt aes d s buf).1.encrypt_nonce ≡ s.encrypt_nonce
  decrypt-encrypt_nonce s buf =
      ap (λ (o : Decrypted d). o.1.encrypt_nonce) (decrypt-beside aes d s.encrypt_nonce s buf)

  -- The result of `encrypt`, as `t` would have it.
  abbrev pub moved :
      CryptState → Result (CryptState × Bytes) IoError → Result (CryptState × Bytes) IoError
  moved t (ok (s', out)) = ok (with_encrypt_nonce s'.encrypt_nonce t, out)
  moved t (err e) = err e
  moved t panic = panic

  -- Two states with the same key and the same nonce for encryption.
  pub encrypt-moved :
      (s t : CryptState) (p : VoicePacket d) (dst : Bytes)
      → s.key ≡ t.key
      → s.encrypt_nonce ≡ t.encrypt_nonce
      → encrypt aes d t p dst ≡ moved t (encrypt aes d s p dst)
  unfolding encrypt
  encrypt-moved s t p dst keys nonces = encoded (Voice.encode d p (drop 4 (resize_four dst))) refl
    where
      sealed :
          (inner : Bytes) (r : Option (ℕ × Bytes))
          → Voice.encode d p (drop 4 (resize_four dst)) ≡ ok inner
          → ocb_encrypt aes s.key (add128 s.encrypt_nonce 1) inner ≡ r
          → ocb_encrypt aes t.key (add128 t.encrypt_nonce 1) inner ≡ r
          → encrypt aes d t p dst ≡ moved t (encrypt aes d s p dst)
      sealed inner none e1 e2 e3 = rw (encrypt, e1) (rw (e2, e3) refl)
      sealed inner (some (tag, out)) e1 e2 e3 =
          rw (encrypt, e1)
            (rw (e2, e3)
              (ap
                (λ (n : ℕ).
                  ok (with_encrypt_nonce n t, with_header n tag (take 4 (resize_four dst) ++ out)))
                (ap (λ (n : ℕ). add128 n 1) (sym nonces))))

      encoded :
          (r : Result Bytes IoError)
          → Voice.encode d p (drop 4 (resize_four dst)) ≡ r
          → encrypt aes d t p dst ≡ moved t (encrypt aes d s p dst)
      encoded (ok inner) e1 =
          sealed inner (ocb_encrypt aes s.key (add128 s.encrypt_nonce 1) inner) e1 refl
            (ap₂ (λ key (n : ℕ). ocb_encrypt aes key (add128 n 1) inner) (sym keys) (sym nonces))
      encoded (err e) e1 = rw (encrypt, e1) refl
      encoded panic e1 = rw (encrypt, e1) refl

  -- It has advanced its nonce and left the rest alone.
  pub encrypt-same :
      (s s' : CryptState) (p : VoicePacket d) (dst out : Bytes)
      → encrypt aes d s p dst ≡ ok (s', out)
      → with_encrypt_nonce s'.encrypt_nonce s ≡ s'
  encrypt-same s s' p dst out e = first (sym (encrypt-moved s s p dst refl refl) ∙ e)
    where
      first :
          moved s (encrypt aes d s p dst) ≡ ok (s', out)
          → with_encrypt_nonce s'.encrypt_nonce s ≡ s'
      first h = cc (ap (moved s) e, h)
