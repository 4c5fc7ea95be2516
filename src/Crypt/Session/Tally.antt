-- ===== src/Crypt/Session/Tally.antt =====
-- src/crypt.rs: what the statistics of a receiver say after a stream of packets, of which the network
-- drops some.
use rust_mumble_protocol.Base.{
  ℕ, ◌+◌, ◌-◌, ◌%◌, ◌^◌, ◌<◌, ◌≡◌, refl, arith, true, false, [], ◌∷◌, ok, err, panic, length,
}
use rust_mumble_protocol.Voice.{VoicePacketDst}
use rust_mumble_protocol.Voice.Dst.{IsLawful}
use rust_mumble_protocol.Crypt.{CryptState, add128, encrypt, decrypt, get_good, get_late, get_lost}
use rust_mumble_protocol.Crypt.Ocb.{Aes128}
use rust_mumble_protocol.Crypt.Ocb.Cipher.{IsCipher}
use rust_mumble_protocol.Crypt.Sealed.{encrypt-Sealed}
use rust_mumble_protocol.Crypt.Delivery.{received, decrypt-encrypt}
use rust_mumble_protocol.Crypt.Session.Lossy.{Schedule, delivered, FewLost, AreSendable}

-- The datagrams that were dropped before the last one that came, with `k` dropped already.
abbrev pub missed : {d : VoicePacketDst} → ℕ → Schedule d → ℕ
missed k [] = 0
missed k ((p, true) ∷ ps) = k + missed 0 ps
missed k ((p, false) ∷ ps) = missed (k + 1) ps

module _ (aes : Aes128) (d : VoicePacketDst) where
  -- The receiver's state when all is sent. It ends where `encrypt` fails.
  pub receiver_after : CryptState → CryptState → Schedule d → CryptState
  receiver_after a b [] = b
  receiver_after a b ((p, true) ∷ ps) = elim (encrypt aes d a p []) [
    | ok (a', bytes) ↦ receiver_after a' (decrypt aes d b bytes).1 ps
    | err e ↦ b
    | panic ↦ b
  ]
  receiver_after a b ((p, false) ∷ ps) = elim (encrypt aes d a p []) [
    | ok (a', bytes) ↦ receiver_after a' b ps
    | err e ↦ b
    | panic ↦ b
  ]

module _ (aes : Aes128) (c : IsCipher aes) (d : VoicePacketDst) (l : IsLawful d) where
  -- If AES permutes blocks, the states share the key, the receiver misses the sender's last `k`
  -- datagrams, its counts have 32 bits, and the network drops at most 126 datagrams in a row, these
  -- `k` included, then after any number of well-formed packets, encoded as bytes, the count of good
  -- packets has grown by those that were delivered, that of lost packets by the datagrams dropped
  -- before the last one that came, both modulo 2 ^ 32, and that of late packets not at all.
  pub receiver_after-counts :
      (a b : CryptState) (k : ℕ) (ps : Schedule d)
      → a.key ≡ b.key
      → a.encrypt_nonce ≡ add128 b.decrypt_nonce k
      → get_good b < 2 ^ 32
      → get_lost b < 2 ^ 32
      → FewLost k ps
      → AreSendable aes c d l ps
      → (get_good (receiver_after aes d a b ps) ≡ (get_good b + length (delivered ps)) % 2 ^ 32)
        × (get_lost (receiver_after aes d a b ps) ≡ (get_lost b + missed k ps) % 2 ^ 32)
        × (get_late (receiver_after aes d a b ps) ≡ get_late b)
  unfolding receiver_after
  receiver_after-counts a b k [] same e g0 l0 few sendable = (omega arith, omega arith, refl)
  receiver_after-counts a b k ((p, true) ∷ ps) same e g0 l0 (near, few) ((wf, hb), sendable) =
      let (bytes, seals, opens) =
        decrypt-encrypt aes c d l a b (k + 1) p [] same (omega arith) (omega arith) (omega arith) wf
          hb in
      let next = received b (add128 a.encrypt_nonce 1) (k + 1 - 1) in
      let (good, lost, late) =
        receiver_after-counts (record a { encrypt_nonce = add128 a.encrypt_nonce 1 }) next 0 ps same
          (omega arith) (omega arith) (omega arith) few sendable in
      rw (receiver_after, seals, opens) (omega (arith, good), omega (arith, lost), late)
  receiver_after-counts a b k ((p, false) ∷ ps) same e g0 l0 few ((wf, hb), sendable) =
      let (bytes, seals, sealed) = encrypt-Sealed aes d l c a p [] wf hb in
      rw (receiver_after, seals)
        (receiver_after-counts (record a { encrypt_nonce = add128 a.encrypt_nonce 1 }) b (k + 1) ps
          same (omega arith) g0 l0 few sendable)
