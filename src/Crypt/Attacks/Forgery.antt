-- ===== src/Crypt/Attacks/Forgery.antt =====
-- src/crypt.rs: a datagram that was never sent and that `decrypt` accepts.
use rust_mumble_protocol.Base.{
  ℕ, ◌-◌, ◌<◌, ◌≡◌, ◌≢◌, refl, sym, ap, ◌∙◌, subst, arith, false, [], ◌∷◌, ◌++◌, some, Option,
  Bytes, IsBytes, u8, length, length-append, take, take_all, replicate, slice, take-append_exact,
  drop-append_exact, to_be_bytes, Result, ok, err, IoError, pos,
}
use rust_mumble_protocol.Base.{ap₂}
use rust_mumble_protocol.Varint.{write_varint, write_varint_calls, plain_bytes, put_varint}
use rust_mumble_protocol.Voice.{
  VoicePacket, audio, celt_alpha, serverbound, put_payload, put_frames, put_position_info, kind_of,
}
use rust_mumble_protocol.Voice
use rust_mumble_protocol.Voice.Dst.{serverbound-IsLawful}
use rust_mumble_protocol.Voice.Total.{Decoded, packet, failed, decode-Decoded}
use rust_mumble_protocol.Crypt.{
  CryptState, proceed, add128, check_nonce, encrypt, decrypt, open_packet, decoded, Decrypted,
}
use rust_mumble_protocol.Crypt.NonceWindow.{check_nonce_ahead}
use rust_mumble_protocol.Crypt.Ocb.{Aes128, ocb_decrypt}
use rust_mumble_protocol.Crypt.Ocb.Cipher.{IsCipher}
use rust_mumble_protocol.Crypt.Ocb.Forgery.{
  length_block, forged_block, forged_tag, ocb_decrypt-forged,
}
use rust_mumble_protocol.Crypt.Sealed.{open_packet-tagged, decrypt_split, encrypt-with_header}
use rust_mumble_protocol.Crypt.Delivery.{received, count_packet-received}

-- A packet with one empty frame, whose bytes start with the length of a block.
abbrev pub chosen : Bytes → VoicePacket serverbound
chosen second = audio 0 tt 0 (celt_alpha ([] ∷ [])) (some (replicate 12 0 ++ (128 ∷ second)))

-- What an attacker makes of that packet's datagram.
abbrev pub forge : (second bytes : Bytes) → Bytes
forge second bytes =
    take 1 bytes
    ++ (slice 0 3 (to_be_bytes 16 (forged_tag second (slice 20 36 bytes)))
        ++ forged_block (slice 4 20 bytes))

chosen-bytes :
    (second : Bytes) → Voice.encode serverbound (chosen second) [] ≡ ok (length_block ++ second)
unfolding Voice.encode put_payload put_frames put_position_info kind_of put_varint write_varint
    write_varint_calls plain_bytes
chosen-bytes second = refl

-- The forged datagram, from the parts of the one that was sent.
forge-parts :
    (second : Bytes) (n tag : ℕ) (c1 c2 : Bytes)
    → length c1 ≡ 16
    → length c2 ≡ 16
    → forge second (u8 n ∷ (slice 0 3 (to_be_bytes 16 tag) ++ (c1 ++ c2)))
      ≡ u8 n ∷ (slice 0 3 (to_be_bytes 16 (forged_tag second c2)) ++ forged_block c1)
forge-parts second n tag c1 c2 e1 e2 =
    ap₂ (λ t u. u8 n ∷ (slice 0 3 (to_be_bytes 16 (forged_tag second t)) ++ forged_block u))
      (ap (take 16) (drop-append_exact 16 c1 c2 e1) ∙ take_all 16 c2 (omega arith))
      (take-append_exact 16 c1 c2 e1)

-- It is shorter.
forge-ne :
    (second : Bytes) (n tag : ℕ) (c1 c2 : Bytes)
    → length c1 ≡ 16
    → length c2 ≡ 16
    → forge second (u8 n ∷ (slice 0 3 (to_be_bytes 16 tag) ++ (c1 ++ c2)))
      ≢ u8 n ∷ (slice 0 3 (to_be_bytes 16 tag) ++ (c1 ++ c2))
forge-ne second n tag c1 c2 e1 e2 =
    λ same. shorter (sym (forge-parts second n tag c1 c2 e1 e2) ∙ same)
  where
    shorter :
        u8 n ∷ (slice 0 3 (to_be_bytes 16 (forged_tag second c2)) ++ forged_block c1)
          ≡ u8 n ∷ (slice 0 3 (to_be_bytes 16 tag) ++ (c1 ++ c2))
        → ⊥
    shorter same = absurd (omega (arith, ap length same, length-append c1 c2))

module _ (aes : Aes128) where
  -- What the receiver has made of a datagram: something was accepted, and the state is `s`.
  abbrev Accepted : CryptState → Decrypted serverbound → Type 0
  Accepted s o = (r : Result (VoicePacket serverbound) IoError) × (o.0 ≡ ok r) × (o.1 ≡ s)

  decoded-Accepted :
      (s : CryptState) (o : Result (Option (VoicePacket serverbound)) IoError × Bytes)
      → Decoded serverbound serverbound-IsLawful o
      → Accepted s (decoded aes serverbound s o)
  decoded-Accepted s o (packet p wf) = (ok p, refl, refl)
  decoded-Accepted s o (failed e h) = (err e, refl, refl)

  tagged-Accepted :
      (b : CryptState) (nonce tag k : ℕ) (out plain : Bytes)
      → k < 128
      → check_nonce b (u8 nonce) ≡ proceed nonce false (pos k)
      → ocb_decrypt aes b.key nonce out ≡ some (tag, plain)
      → IsBytes plain
      → Accepted
          (received b nonce k)
          (decrypt aes serverbound b (u8 nonce ∷ (slice 0 3 (to_be_bytes 16 tag) ++ out)))
  tagged-Accepted b nonce tag k out plain small proceeds opens bytes =
      subst (Accepted (received b nonce k)) (sym opened) (
        decoded-Accepted (received b nonce k) (Voice.decode serverbound plain)
          (decode-Decoded serverbound serverbound-IsLawful plain bytes))
    where
      opened :
          decrypt aes serverbound b (u8 nonce ∷ (slice 0 3 (to_be_bytes 16 tag) ++ out))
          ≡ decoded aes serverbound (received b nonce k) (Voice.decode serverbound plain)
      opened =
          decrypt_split aes serverbound serverbound-IsLawful b (u8 nonce) _ _ _ out
          ∙ ap (open_packet aes serverbound b _ out) proceeds
          ∙ open_packet-tagged aes serverbound serverbound-IsLawful b nonce tag false (pos k)
              (u8 nonce ∷ slice 0 3 (to_be_bytes 16 tag)) out plain refl opens
          ∙ ap (λ s. decoded aes serverbound s (Voice.decode serverbound plain))
              (count_packet-received b nonce k small)

  module _ (c : IsCipher aes) where
    -- If AES permutes blocks, the states share the key, and the sender's next nonce is `k` ahead of
    -- the receiver's last one for a `k` from 1 to 127, then of the datagram that `encrypt` makes of
    -- a chosen packet, `forge` makes another one without the key, and `decrypt` accepts it: its tag
    -- passes, and the receiver takes the nonce, notes it, and counts a good packet.
    pub decrypt-forge :
        (a b : CryptState) (k : ℕ) (second : Bytes)
        → a.key ≡ b.key
        → 0 < k
        → k < 128
        → add128 a.encrypt_nonce 1 ≡ add128 b.decrypt_nonce k
        → IsBytes second
        → length second ≡ 16
        → (bytes : Bytes) × (encrypt aes serverbound a (chosen second) []
            ≡ ok (record a { encrypt_nonce = add128 a.encrypt_nonce 1 }, bytes))
          × (forge second bytes ≢ bytes)
          × (r : Result (VoicePacket serverbound) IoError) × ((decrypt aes serverbound b
                (forge second bytes)).0
              ≡ ok r)
          × ((decrypt aes serverbound b (forge second bytes)).1
              ≡ received b (add128 a.encrypt_nonce 1) (k - 1))
    decrypt-forge a b k second same h1 h2 e h size =
        let n = add128 a.encrypt_nonce 1 in
        let (tag, c1, c2, plain, seals, e1, e2, opens, bytes) =
          ocb_decrypt-forged aes c a.key n second h size in
        let proceeds : check_nonce b (u8 n) ≡ proceed n false (pos (k - 1)) =
          subst (λ (n : ℕ). check_nonce b (u8 n) ≡ proceed n false (pos (k - 1))) (sym e)
            (check_nonce_ahead b k h1 h2) in
        let parts = forge-parts second n tag c1 c2 e1 e2 in
        let (r, result, state) =
          tagged-Accepted b n (forged_tag second c2) (k - 1) (forged_block c1) plain (omega arith)
            proceeds
            (subst
              (λ key. ocb_decrypt aes key n (forged_block c1) ≡ some (forged_tag second c2, plain))
              same opens)
            bytes in
        (
          u8 n ∷ (slice 0 3 (to_be_bytes 16 tag) ++ (c1 ++ c2)),
          encrypt-with_header aes serverbound serverbound-IsLawful a (chosen second) []
              (length_block ++ second) (c1 ++ c2) tag (chosen-bytes second) seals,
          forge-ne second n tag c1 c2 e1 e2,
          r,
          ap (λ t. (decrypt aes serverbound b t).0) parts ∙ result,
          ap (λ t. (decrypt aes serverbound b t).1) parts ∙ state,
        )
