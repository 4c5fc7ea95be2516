-- ===== src/Crypt/Session/Lossy.antt =====
-- src/crypt.rs: a stream of packets over a network that keeps their order and drops some of them.
use rust_mumble_protocol.Base.{
  ℕ, ◌+◌, ◌-◌, ◌<◌, ◌≡◌, refl, ap, arith, Bool, true, false, List, [], ◌∷◌, IsBytes, Result, ok,
  err, panic, IoError,
}
use rust_mumble_protocol.Voice.{VoicePacketDst, VoicePacket}
use rust_mumble_protocol.Voice.Dst.{IsLawful}
use rust_mumble_protocol.Voice.RoundTrip.{IsWellFormed, packet_bytes}
use rust_mumble_protocol.Crypt.{CryptState, DecryptError, add128, encrypt, decrypt}
use rust_mumble_protocol.Crypt.Ocb.{Aes128}
use rust_mumble_protocol.Crypt.Ocb.Cipher.{IsCipher}
use rust_mumble_protocol.Crypt.Sealed.{encrypt-Sealed}
use rust_mumble_protocol.Crypt.Delivery.{received, decrypt-encrypt}

-- Each packet with whether the network delivers its datagram.
abbrev pub Schedule : VoicePacketDst → Type 0
Schedule d = List (VoicePacket d × Bool)

abbrev pub delivered : {d : VoicePacketDst} → Schedule d → List (VoicePacket d)
delivered [] = []
delivered ((p, true) ∷ ps) = p ∷ delivered ps
delivered ((p, false) ∷ ps) = delivered ps

-- At most 126 datagrams are lost between two that come, and `k` are lost already.
abbrev pub FewLost : {d : VoicePacketDst} → ℕ → Schedule d → Type 0
FewLost k [] = Unit
FewLost k ((p, true) ∷ ps) = (k < 127) × FewLost 0 ps
FewLost k ((p, false) ∷ ps) = FewLost (k + 1) ps

module _ (aes : Aes128) (d : VoicePacketDst) where
  -- What the receiver's calls of `decrypt` return. It ends where `encrypt` fails.
  pub transmit :
      CryptState
      → CryptState
      → Schedule d
      → List (Result (Result (VoicePacket d) IoError) DecryptError)
  transmit a b [] = []
  transmit a b ((p, true) ∷ ps) = elim (encrypt aes d a p []) [
    | ok (a', bytes) ↦ (decrypt aes d b bytes).0 ∷ transmit a' (decrypt aes d b bytes).1 ps
    | err e ↦ []
    | panic ↦ []
  ]
  transmit a b ((p, false) ∷ ps) = elim (encrypt aes d a p []) [
    | ok (a', bytes) ↦ transmit a' b ps
    | err e ↦ []
    | panic ↦ []
  ]

abbrev pub all_ok :
    {d : VoicePacketDst}
    → List (VoicePacket d)
    → List (Result (Result (VoicePacket d) IoError) DecryptError)
all_ok [] = []
all_ok (p ∷ ps) = ok (ok p) ∷ all_ok ps

module _ (aes : Aes128) (c : IsCipher aes) (d : VoicePacketDst) (l : IsLawful d) where
  abbrev pub AreSendable : Schedule d → Type 0
  AreSendable [] = Unit
  AreSendable ((p, b) ∷ ps) = (IsWellFormed d l p × IsBytes (packet_bytes d l p)) × AreSendable ps

  -- If AES permutes blocks, the states share the key, the receiver misses the sender's last `k`
  -- datagrams, and the network drops at most 126 datagrams in a row, these `k` included, then of
  -- any number of well-formed packets, encoded as bytes, the receiver gets each whose datagram the
  -- network delivers, in order, also where the nonces wrap around at 2 ^ 128.
  pub transmit-delivered :
      (a b : CryptState) (k : ℕ) (ps : Schedule d)
      → a.key ≡ b.key
      → a.encrypt_nonce ≡ add128 b.decrypt_nonce k
      → FewLost k ps
      → AreSendable ps
      → transmit aes d a b ps ≡ all_ok (delivered ps)
  unfolding transmit
  transmit-delivered a b k [] same e few sendable = refl
  transmit-delivered a b k ((p, true) ∷ ps) same e (near, few) ((wf, hb), sendable) =
      let (bytes, seals, opens) =
        decrypt-encrypt aes c d l a b (k + 1) p [] same (omega arith) (omega arith) (omega arith) wf
          hb in
      rw (transmit, seals, opens)
        (ap (λ rs. ok (ok p) ∷ rs)
          (transmit-delivered (record a { encrypt_nonce = add128 a.encrypt_nonce 1 })
            (received b (add128 a.encrypt_nonce 1) (k + 1 - 1)) 0 ps same (omega arith) few
            sendable))
  transmit-delivered a b k ((p, false) ∷ ps) same e few ((wf, hb), sendable) =
      let (bytes, seals, sealed) = encrypt-Sealed aes d l c a p [] wf hb in
      rw (transmit, seals)
        (transmit-delivered (record a { encrypt_nonce = add128 a.encrypt_nonce 1 }) b (k + 1) ps
          same (omega arith) few sendable)
