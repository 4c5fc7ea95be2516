-- ===== src/Crypt/Delivery.antt =====
-- src/crypt.rs: what `encrypt` sends, `decrypt` on the other side receives, in order, after losses and
-- late.
use rust_mumble_protocol.Base.{
  ℕ, ◌+◌, ◌-◌, ◌/◌, ◌%◌, ◌^◌, ◌<◌, ◌≡◌, refl, sym, ap, ◌∙◌, subst, arith, true, false, [], Bytes,
  IsBytes, u8, ok, pos, negsuc, set,
}
use rust_mumble_protocol.Voice.{VoicePacketDst, VoicePacket}
use rust_mumble_protocol.Voice.Dst.{IsLawful}
use rust_mumble_protocol.Voice.RoundTrip.{IsWellFormed, packet_bytes}
use rust_mumble_protocol.Crypt.{
  CryptState, proceed, add128, check_nonce, count_packet, encrypt, decrypt,
}
use rust_mumble_protocol.Crypt.NonceWindow.{sub128, seen, check_nonce_ahead, check_nonce_behind}
use rust_mumble_protocol.Crypt.Ocb.{Aes128}
use rust_mumble_protocol.Crypt.Ocb.Cipher.{IsCipher}
use rust_mumble_protocol.Crypt.Sealed.{Sealed, decrypt-Sealed, encrypt-Sealed}

-- The receiver behind a packet that came in order or after `lost` others that did not come.
abbrev pub received : CryptState → (nonce lost : ℕ) → CryptState
received s nonce lost = record s {
  decrypt_nonce = nonce;
  decrypt_history = set s.decrypt_history (u8 nonce) (u8 (nonce / 2 ^ 8));
  good = (s.good + 1) % 2 ^ 32;
  lost = (s.lost + lost) % 2 ^ 32;
}

-- The receiver behind a late packet, which was counted as lost before.
abbrev pub received_late : CryptState → (nonce : ℕ) → CryptState
received_late s nonce = record s {
  decrypt_history = set s.decrypt_history (u8 nonce) (u8 (nonce / 2 ^ 8));
  good = (s.good + 1) % 2 ^ 32;
  late = (s.late + 1) % 2 ^ 32;
  lost = (s.lost + (2 ^ 32 - 1)) % 2 ^ 32;
}

pub count_packet-received :
    (s : CryptState) (nonce k : ℕ)
    → k < 128
    → count_packet s (u8 nonce) nonce false (pos k) ≡ received s nonce k
unfolding count_packet
count_packet-received s nonce k h =
    ap (λ (t : ℕ). record (received s nonce k) { lost = (s.lost + t) % 2 ^ 32 }) small
  where
    small : k % 2 ^ 32 ≡ k
    small = omega arith

count_packet-received_late :
    (s : CryptState) (nonce : ℕ)
    → count_packet s (u8 nonce) nonce true (negsuc 0) ≡ received_late s nonce
unfolding count_packet
count_packet-received_late s nonce = refl

module _ (aes : Aes128) (c : IsCipher aes) (d : VoicePacketDst) (l : IsLawful d) where
  -- If AES permutes blocks, the states share the key, and the sender's next nonce is `k` ahead of
  -- the receiver's last one for a `k` from 1 to 127, then `encrypt` makes of a well-formed packet,
  -- encoded as bytes, a datagram that `decrypt` makes that packet of, whatever was in the buffer
  -- before. The sender has advanced its nonce and changed nothing else; the receiver has taken
  -- that nonce, noted it in its history, and counted one good packet and `k - 1` lost ones.
  pub decrypt-encrypt :
      (a b : CryptState) (k : ℕ) (p : VoicePacket d) (dst : Bytes)
      → a.key ≡ b.key
      → 0 < k
      → k < 128
      → add128 a.encrypt_nonce 1 ≡ add128 b.decrypt_nonce k
      → IsWellFormed d l p
      → IsBytes (packet_bytes d l p)
      → (bytes : Bytes) × (encrypt aes d a p dst
          ≡ ok (record a { encrypt_nonce = add128 a.encrypt_nonce 1 }, bytes))
        × (decrypt aes d b bytes ≡ (ok (ok p), received b (add128 a.encrypt_nonce 1) (k - 1), []))
  decrypt-encrypt a b k p dst same h1 h2 e wf hb =
      let n = add128 a.encrypt_nonce 1 in
      let (bytes, seals, sealed) = encrypt-Sealed aes d l c a p dst wf hb in
      let chosen : check_nonce b (u8 n) ≡ proceed n false (pos (k - 1)) =
        subst (λ (n : ℕ). check_nonce b (u8 n) ≡ proceed n false (pos (k - 1))) (sym e)
          (check_nonce_ahead b k h1 h2) in
      (
        bytes,
        seals,
        decrypt-Sealed aes d l b n false (pos (k - 1)) p bytes wf
              (subst (λ key. Sealed aes d l key n p bytes) same sealed) chosen
            ∙ ap (λ s. (ok (ok p), s, [])) (count_packet-received b n (k - 1) (omega arith)),
      )

  -- If AES permutes blocks, the states share the key, and the sender's next nonce is up to 29
  -- behind the receiver's last one and not in the receiver's history, then `encrypt` makes of a
  -- well-formed packet, encoded as bytes, a datagram that `decrypt` makes that packet of. The
  -- receiver keeps its last nonce, notes the packet's in its history, and counts the packet as
  -- good, as late, and as one less lost, modulo 2 ^ 32.
  pub decrypt-encrypt_late :
      (a b : CryptState) (k : ℕ) (p : VoicePacket d) (dst : Bytes)
      → a.key ≡ b.key
      → k < 30
      → add128 a.encrypt_nonce 1 ≡ sub128 b.decrypt_nonce k
      → seen b (add128 a.encrypt_nonce 1) ≡ false
      → IsWellFormed d l p
      → IsBytes (packet_bytes d l p)
      → (bytes : Bytes) × (encrypt aes d a p dst
          ≡ ok (record a { encrypt_nonce = add128 a.encrypt_nonce 1 }, bytes))
        × (decrypt aes d b bytes ≡ (ok (ok p), received_late b (add128 a.encrypt_nonce 1), []))
  decrypt-encrypt_late a b k p dst same h e new wf hb =
      let n = add128 a.encrypt_nonce 1 in
      let (bytes, seals, sealed) = encrypt-Sealed aes d l c a p dst wf hb in
      let chosen : check_nonce b (u8 n) ≡ proceed n true (negsuc 0) =
        subst (λ (n : ℕ). seen b n ≡ false → check_nonce b (u8 n) ≡ proceed n true (negsuc 0))
          (sym e) (check_nonce_behind b k h) new in
      (
        bytes,
        seals,
        decrypt-Sealed aes d l b n true (negsuc 0) p bytes wf
              (subst (λ key. Sealed aes d l key n p bytes) same sealed) chosen
            ∙ ap (λ s. (ok (ok p), s, [])) (count_packet-received_late b n),
      )
