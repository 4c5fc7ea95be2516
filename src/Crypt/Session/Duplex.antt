-- ===== src/Crypt/Session/Duplex.antt =====
-- src/crypt.rs: two sides that send and receive at once, each with one state for both directions.
mod Sides
mod Examples
use rust_mumble_protocol.Base.{
  ℕ, ◌+◌, ◌^◌, ◌<◌, ◌≡◌, ◌≢◌, refl, sym, List, [], ◌∷◌, some, Bytes, IsBytes, length, ok, err,
}
use mathlib.Core.List.{Subperm, map}
use rust_mumble_protocol.Voice.{VoicePacketDst, VoicePacket}
use rust_mumble_protocol.Voice.Dst.{IsLawful}
use rust_mumble_protocol.Voice.RoundTrip.{IsWellFormed, packet_bytes}
use rust_mumble_protocol.Crypt.{CryptState, DecryptError, late_packet, encrypt, decrypt}
use rust_mumble_protocol.Crypt.Ocb.{Aes128}
use rust_mumble_protocol.Crypt.Ocb.Cipher.{IsCipher}
use rust_mumble_protocol.Crypt.Channel.{sent_at}
use rust_mumble_protocol.Crypt.Channel.Unordered.{Channel-subperm}
use rust_mumble_protocol.Crypt.Session
use rust_mumble_protocol.Crypt.Session.{heard}
use rust_mumble_protocol.Crypt.Session.Refines.{Session-Channel}
use rust_mumble_protocol.Crypt.Session.Duplex.Sides.{
  OneWay, OneWay-sends, OneWay-refuses, OneWay-delivers, OneWay-hears, OneWay-answers,
}

module _ (aes : Aes128) (d e : VoicePacketDst) (l : IsLawful d) (m : IsLawful e)
    (a0 b0 : CryptState) where
  -- Packets of `d` go from `a` to `b`, and those of `e` back. Of each direction: the datagrams sent,
  -- each with its packet, and the packets received, the last ones first. A datagram may come any
  -- number of times, or never, as long as its nonce is less than 128 ahead of the receiver's last one
  -- or less than 30 behind it. Other bytes that are refused may come in between, but not those that
  -- are refused with `Late`. Nonces stay 128 below 2 ^ 128.
  pub data Duplex
      : CryptState
        → CryptState
        → List (VoicePacket d × Bytes)
        → List (VoicePacket d)
        → List (VoicePacket e × Bytes)
        → List (VoicePacket e)
        → Type 0 where
    begins : Duplex a0 b0 [] [] [] []
    a_sends :
        {a b a' : CryptState} {there : List (VoicePacket d × Bytes)}
        {heard_there : List (VoicePacket d)} {back : List (VoicePacket e × Bytes)}
        {heard_back : List (VoicePacket e)} (p : VoicePacket d) (bytes : Bytes)
        → Duplex a b there heard_there back heard_back
        → IsWellFormed d l p
        → IsBytes (packet_bytes d l p)
        → a.encrypt_nonce + 129 < 2 ^ 128
        → encrypt aes d a p [] ≡ ok (a', bytes)
        → Duplex a' b ((p, bytes) ∷ there) heard_there back heard_back
    b_sends :
        {a b b' : CryptState} {there : List (VoicePacket d × Bytes)}
        {heard_there : List (VoicePacket d)} {back : List (VoicePacket e × Bytes)}
        {heard_back : List (VoicePacket e)} (p : VoicePacket e) (bytes : Bytes)
        → Duplex a b there heard_there back heard_back
        → IsWellFormed e m p
        → IsBytes (packet_bytes e m p)
        → b.encrypt_nonce + 129 < 2 ^ 128
        → encrypt aes e b p [] ≡ ok (b', bytes)
        → Duplex a b' there heard_there ((p, bytes) ∷ back) heard_back
    b_hears :
        {a b : CryptState} {there : List (VoicePacket d × Bytes)}
        {heard_there : List (VoicePacket d)} {back : List (VoicePacket e × Bytes)}
        {heard_back : List (VoicePacket e)} (i : ℕ) (p : VoicePacket d) (bytes : Bytes)
        → Duplex a b there heard_there back heard_back
        → sent_at there i ≡ some (p, bytes)
        → a0.encrypt_nonce + 1 + i < b.decrypt_nonce + 128
        → b.decrypt_nonce < a0.encrypt_nonce + 1 + i + 30
        → Duplex a
            (decrypt aes d b bytes).1
            there
            (heard aes d l (decrypt aes d b bytes).0 heard_there)
            back
            heard_back
    a_hears :
        {a b : CryptState} {there : List (VoicePacket d × Bytes)}
        {heard_there : List (VoicePacket d)} {back : List (VoicePacket e × Bytes)}
        {heard_back : List (VoicePacket e)} (i : ℕ) (p : VoicePacket e) (bytes : Bytes)
        → Duplex a b there heard_there back heard_back
        → sent_at back i ≡ some (p, bytes)
        → b0.encrypt_nonce + 1 + i < a.decrypt_nonce + 128
        → a.decrypt_nonce < b0.encrypt_nonce + 1 + i + 30
        → Duplex
            (decrypt aes e a bytes).1
            b
            there
            heard_there
            back
            (heard aes e m (decrypt aes e a bytes).0 heard_back)
    b_refuses :
        {a b : CryptState} {there : List (VoicePacket d × Bytes)}
        {heard_there : List (VoicePacket d)} {back : List (VoicePacket e × Bytes)}
        {heard_back : List (VoicePacket e)} (bytes : Bytes) (x : DecryptError)
        → Duplex a b there heard_there back heard_back
        → IsBytes bytes
        → (decrypt aes d b bytes).0 ≡ err x
        → x ≢ late_packet
        → Duplex a (decrypt aes d b bytes).1 there heard_there back heard_back
    a_refuses :
        {a b : CryptState} {there : List (VoicePacket d × Bytes)}
        {heard_there : List (VoicePacket d)} {back : List (VoicePacket e × Bytes)}
        {heard_back : List (VoicePacket e)} (bytes : Bytes) (x : DecryptError)
        → Duplex a b there heard_there back heard_back
        → IsBytes bytes
        → (decrypt aes e a bytes).0 ≡ err x
        → x ≢ late_packet
        → Duplex (decrypt aes e a bytes).1 b there heard_there back heard_back

  -- Both directions at once.
  Directions :
      CryptState
      → CryptState
      → List (VoicePacket d × Bytes)
      → List (VoicePacket d)
      → List (VoicePacket e × Bytes)
      → List (VoicePacket e)
      → Type 0
  Directions a b there heard_there back heard_back =
      OneWay aes d l a0 b0 a b there heard_there × OneWay aes e m b0 a0 b a back heard_back

  Duplex-Directions :
      {a b : CryptState} {there : List (VoicePacket d × Bytes)} {heard_there : List (VoicePacket d)}
      {back : List (VoicePacket e × Bytes)} {heard_back : List (VoicePacket e)}
      → Duplex a b there heard_there back heard_back
      → Directions a b there heard_there back heard_back
  unfolding Directions
  Duplex-Directions begins = (
    record {
      sender = a0;
      receiver = b0;
      session = Session.begins;
      keys = refl;
      nonces = refl;
      receives = refl;
    },
    record {
      sender = b0;
      receiver = a0;
      session = Session.begins;
      keys = refl;
      nonces = refl;
      receives = refl;
    },
  )
  Duplex-Directions (a_sends p bytes s wf hb room sent) =
      let (there, back) = Duplex-Directions s in
      (
        OneWay-sends aes d l a0 b0 there p bytes wf hb room sent,
        OneWay-answers aes e m b0 a0 back d p bytes sent,
      )
  Duplex-Directions (b_sends p bytes s wf hb room sent) =
      let (there, back) = Duplex-Directions s in
      (
        OneWay-answers aes d l a0 b0 there e p bytes sent,
        OneWay-sends aes e m b0 a0 back p bytes wf hb room sent,
      )
  Duplex-Directions (b_hears i p bytes s at h1 h2) =
      let (there, back) = Duplex-Directions s in
      (
        OneWay-delivers aes d l a0 b0 there i p bytes at h1 h2,
        OneWay-hears aes e m b0 a0 back d bytes,
      )
  Duplex-Directions (a_hears i p bytes s at h1 h2) =
      let (there, back) = Duplex-Directions s in
      (
        OneWay-hears aes d l a0 b0 there e bytes,
        OneWay-delivers aes e m b0 a0 back i p bytes at h1 h2,
      )
  Duplex-Directions (b_refuses bytes x s hb refused early) =
      let (there, back) = Duplex-Directions s in
      (
        OneWay-refuses aes d l a0 b0 there bytes x hb refused early,
        OneWay-hears aes e m b0 a0 back d bytes,
      )
  Duplex-Directions (a_refuses bytes x s hb refused early) =
      let (there, back) = Duplex-Directions s in
      (
        OneWay-hears aes d l a0 b0 there e bytes,
        OneWay-refuses aes e m b0 a0 back bytes x hb refused early,
      )

module _ (aes : Aes128) (d e : VoicePacketDst) (l : IsLawful d) (m : IsLawful e)
    (cipher : IsCipher aes) where
  -- If AES permutes blocks, the two states share the key, all their nonces have 128 to go to 2 ^ 128
  -- and their histories have 256 bytes, then of any traffic in both directions, with the datagrams
  -- dropped, delayed, reordered and repeated within the window, and other bytes refused in between
  -- but not with `Late`: what each side has received is, up to the order, a part of what the other
  -- has sent, so no packet comes more often than it was sent.
  pub Duplex-subperm :
      (a0 b0 a b : CryptState) (there : List (VoicePacket d × Bytes))
      (heard_there : List (VoicePacket d)) (back : List (VoicePacket e × Bytes))
      (heard_back : List (VoicePacket e))
      → a0.key ≡ b0.key
      → a0.encrypt_nonce + 128 < 2 ^ 128
      → b0.decrypt_nonce + 128 < 2 ^ 128
      → b0.encrypt_nonce + 128 < 2 ^ 128
      → a0.decrypt_nonce + 128 < 2 ^ 128
      → length a0.decrypt_history ≡ 256
      → length b0.decrypt_history ≡ 256
      → Duplex aes d e l m a0 b0 a b there heard_there back heard_back
      → Subperm heard_there (map (λ (x : VoicePacket d × Bytes). x.0) there)
        × Subperm heard_back (map (λ (x : VoicePacket e × Bytes). x.0) back)
  unfolding Directions
  Duplex-subperm a0 b0 a b there heard_there back heard_back same r1 r2 r3 r4 size_a size_b s =
      let (one, other) = Duplex-Directions aes d e l m a0 b0 s in
      (
        Channel-subperm
            (Session-Channel aes d l cipher a0 b0 one.sender one.receiver there heard_there same r1
              r2 size_b one.session).1,
        Channel-subperm
            (Session-Channel aes e m cipher b0 a0 other.sender other.receiver back heard_back
              (sym same) r3 r4 size_a other.session).1,
      )
