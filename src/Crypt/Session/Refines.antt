-- ===== src/Crypt/Session/Refines.antt =====
-- src/crypt.rs: a connection over `encrypt` and `decrypt` keeps the promises of a channel.
use rust_mumble_protocol.Base.{
  ℕ, ◌+◌, ◌^◌, ◌<◌, ◌≡◌, ◌≢◌, sym, ap, ◌∙◌, subst, arith, inl, inr, List, [], ◌∷◌, some, All, Bytes,
  IsBytes, length, ok,
}
use rust_mumble_protocol.Voice.{VoicePacketDst, VoicePacket}
use rust_mumble_protocol.Voice.Dst.{IsLawful}
use rust_mumble_protocol.Voice.RoundTrip.{IsWellFormed, packet_bytes}
use rust_mumble_protocol.Crypt.{CryptState, add128, encrypt, decrypt, Decrypted}
use rust_mumble_protocol.Crypt.State.{decrypt-same}
use rust_mumble_protocol.Crypt.Ocb.{Aes128}
use rust_mumble_protocol.Crypt.Ocb.Cipher.{IsCipher}
use rust_mumble_protocol.Crypt.Sealed.{Sealed, encrypt-Sealed}
use rust_mumble_protocol.Crypt.Memory.{Knows, Knows-Accepts}
use rust_mumble_protocol.Crypt.Channel.{sent_at-cons, sent_at-map, sent_at, Channel}
use rust_mumble_protocol.Crypt.Session.{heard, Session, begins, sends, refuses, delivers}
use rust_mumble_protocol.Crypt.Session.Near.{Arrival, opened, repeated, Arrival-near}
use mathlib.Core.List.{map}

All-unmap {ℓ} :
    {A : Type ℓ} (f : A → ℕ) (a : A) (xs : List A)
    → All (λ n. n ≢ f a) (map f xs)
    → All (λ x. x ≢ a) xs
All-unmap f a [] h = tt
All-unmap f a (x ∷ xs) (ne, nes) = (λ e. ne (ap f e), All-unmap f a xs nes)

module _ (aes : Aes128) (d : VoicePacketDst) (l : IsLawful d) (c : IsCipher aes) where
  -- The nonce of the datagram with index `i`.
  abbrev nonce_at : CryptState → ℕ → ℕ
  nonce_at a0 i = a0.encrypt_nonce + 1 + i

  record IsSealedAt (a0 a : CryptState) (wire : List (VoicePacket d × Bytes)) (i : ℕ)
      (p : VoicePacket d) (bytes : Bytes) : Type 0 where
    index : i < length wire
    sealed : Sealed aes d l a.key (nonce_at a0 i) p bytes
    formed : IsWellFormed d l p

  record Link (a0 a b : CryptState) (wire : List (VoicePacket d × Bytes))
      (got : List (VoicePacket d)) : Type 0 where
    keys : a.key ≡ b.key
    last : a.encrypt_nonce ≡ a0.encrypt_nonce + length wire
    below : a.encrypt_nonce + 128 < 2 ^ 128
    all_sealed :
        (i : ℕ) (p : VoicePacket d) (bytes : Bytes)
        → sent_at wire i ≡ some (p, bytes)
        → IsSealedAt a0 a wire i p bytes
    indices : List ℕ
    known : Knows b (map (nonce_at a0) indices)
    kept : Channel (map (λ (x : VoicePacket d × Bytes). x.0) wire) indices got

  -- `encrypt` is a function, so the datagram is the sealed one.
  encrypt-next :
      (a a' : CryptState) (p : VoicePacket d) (bytes : Bytes)
      → IsWellFormed d l p
      → IsBytes (packet_bytes d l p)
      → encrypt aes d a p [] ≡ ok (a', bytes)
      → (a' ≡ record a { encrypt_nonce = add128 a.encrypt_nonce 1 })
        × Sealed aes d l a.key (add128 a.encrypt_nonce 1) p bytes
  encrypt-next a a' p bytes wf hb e =
      let (bytes', seals, sealed) = encrypt-Sealed aes d l c a p [] wf hb in
      let same : (a', bytes) ≡ (record a { encrypt_nonce = add128 a.encrypt_nonce 1 }, bytes') =
        cc in
      (
        ap (λ (x : CryptState × Bytes). x.0) same,
        subst (Sealed aes d l a.key (add128 a.encrypt_nonce 1) p)
            (sym (ap (λ (x : CryptState × Bytes). x.1) same)) sealed,
      )

  Link-sends_sealed :
      (a0 a : CryptState) (wire : List (VoicePacket d × Bytes)) (p : VoicePacket d) (bytes : Bytes)
      → a.encrypt_nonce ≡ a0.encrypt_nonce + length wire
      → ((i : ℕ) (p : VoicePacket d) (bytes : Bytes)
          → sent_at wire i ≡ some (p, bytes)
          → IsSealedAt a0 a wire i p bytes)
      → IsWellFormed d l p
      → a.encrypt_nonce + 129 < 2 ^ 128
      → Sealed aes d l a.key (add128 a.encrypt_nonce 1) p bytes
      → (i : ℕ) (q : VoicePacket d) (bs : Bytes) → sent_at ((p, bytes) ∷ wire) i ≡ some (q, bs)
      → IsSealedAt a0
          (record a { encrypt_nonce = add128 a.encrypt_nonce 1 })
          ((p, bytes) ∷ wire)
          i
          q
          bs
  Link-sends_sealed a0 a wire p bytes last all wf room sealed i q bs at =
      elim (sent_at-cons (p, bytes) wire i (q, bs) at) [
        | inl (here, same) ↦
            subst
              (λ (x : VoicePacket d × Bytes).
                IsSealedAt a0 (record a { encrypt_nonce = add128 a.encrypt_nonce 1 })
                  ((p, bytes) ∷ wire) i x.0 x.1)
              same
              (record {
                index = omega arith;
                sealed = subst (λ n. Sealed aes d l a.key n p bytes) (number here) sealed;
                formed = wf;
              })
        | inr (gone, old) ↦
            let it = all i q bs old in
            let h = it.index in
            record { index = omega arith; sealed = it.sealed; formed = it.formed }
      ]
    where
      number : i ≡ length wire → add128 a.encrypt_nonce 1 ≡ nonce_at a0 i
      number h = omega arith

  Link-sends :
      (a0 a b : CryptState) (wire : List (VoicePacket d × Bytes)) (got : List (VoicePacket d))
      (p : VoicePacket d) (bytes : Bytes)
      → Link a0 a b wire got
      → IsWellFormed d l p
      → a.encrypt_nonce + 129 < 2 ^ 128
      → Sealed aes d l a.key (add128 a.encrypt_nonce 1) p bytes
      → Link a0 (record a { encrypt_nonce = add128 a.encrypt_nonce 1 }) b ((p, bytes) ∷ wire) got
  Link-sends a0 a b wire got p bytes k wf room sealed =
      let e = k.last in
      record {
        keys = k.keys;
        last = omega arith;
        below = omega arith;
        all_sealed = λ i q bs at.
            Link-sends_sealed a0 a wire p bytes k.last k.all_sealed wf room sealed i q bs at;
        indices = k.indices;
        known = k.known;
        kept = Channel.sends p k.kept;
      }

  Link-delivers :
      (a0 a b : CryptState) (wire : List (VoicePacket d × Bytes)) (got : List (VoicePacket d))
      (i : ℕ) (p : VoicePacket d) (bytes : Bytes)
      → Link a0 a b wire got
      → sent_at wire i ≡ some (p, bytes)
      → Arrival aes d l b (nonce_at a0 i) p bytes
      → Link a0 a (decrypt aes d b bytes).1 wire (heard aes d l (decrypt aes d b bytes).0 got)
  Link-delivers a0 a b wire got i p bytes k at (repeated out e) =
      subst (λ (o : Decrypted d). Link a0 a o.1 wire (heard aes d l o.0 got)) (sym e) k
  Link-delivers a0 a b wire got i p bytes k at (opened b' e accepts same) =
      subst (λ (o : Decrypted d). Link a0 a o.1 wire (heard aes d l o.0 got)) (sym e)
        (record {
          keys = k.keys ∙ sym same;
          last = k.last;
          below = k.below;
          all_sealed = k.all_sealed;
          indices = i ∷ k.indices;
          known = known';
          kept =
              Channel.delivers i p
                (sent_at-map (λ (x : VoicePacket d × Bytes). x.0) wire i (p, bytes) at)
                (All-unmap (nonce_at a0) i k.indices known'.distinct.0) k.kept;
        })
    where
      known' : Knows b' (map (nonce_at a0) (i ∷ k.indices))
      known' =
          let h = (k.all_sealed i p bytes at).index in
          let e = k.last in
          let r = k.below in
          Knows-Accepts b b' (nonce_at a0 i) (map (nonce_at a0) k.indices) k.known accepts
            (omega arith)

  Session-Link :
      (a0 b0 a b : CryptState) (wire : List (VoicePacket d × Bytes)) (got : List (VoicePacket d))
      → a0.key ≡ b0.key
      → a0.encrypt_nonce + 128 < 2 ^ 128
      → b0.decrypt_nonce + 128 < 2 ^ 128
      → length b0.decrypt_history ≡ 256
      → Session aes d l a0 b0 a b wire got
      → Link a0 a b wire got
  unfolding sent_at
  Session-Link a0 b0 a b wire got same r1 r2 size begins = record {
    keys = same;
    last = omega arith;
    below = r1;
    all_sealed = λ i p bytes at. cc;
    indices = [];
    known = record { room = r2; history_length = size; remembered = tt; distinct = tt };
    kept = Channel.opened;
  }
  Session-Link a0 b0 a b wire got same r1 r2 size
        (sends {a = a1} {wire = wire1} p bytes s wf hb room e) =
      let (next, sealed) = encrypt-next a1 a p bytes wf hb e in
      subst (λ a. Link a0 a b wire got) (sym next)
        (Link-sends a0 a1 b wire1 got p bytes (Session-Link a0 b0 a1 b wire1 got same r1 r2 size s)
          wf room sealed)
  Session-Link a0 b0 a b wire got same r1 r2 size (refuses {b = b1} bytes e s hb eq ne) =
      subst (λ b. Link a0 a b wire got) (sym (decrypt-same aes d l b1 bytes e hb eq ne))
        (Session-Link a0 b0 a b1 wire got same r1 r2 size s)
  Session-Link a0 b0 a b wire got same r1 r2 size
        (delivers {b = b1} {got = got1} i p bytes s at h1 h2) =
      let k = Session-Link a0 b0 a b1 wire got1 same r1 r2 size s in
      let it = k.all_sealed i p bytes at in
      let here = k.known.room in
      Link-delivers a0 a b1 wire got1 i p bytes k at (
        Arrival-near aes d l b1 (nonce_at a0 i) p bytes it.formed
          (subst (λ key. Sealed aes d l key (nonce_at a0 i) p bytes) k.keys it.sealed) here h1 h2)

  -- If AES permutes blocks, the two states share the key, their nonces have 128 to go to 2 ^ 128 and
  -- the receiver's history has 256 bytes, then what any session has sent and received is what a
  -- channel may have: each packet received was sent, and no packet sent is received twice, however
  -- the datagrams were dropped, delayed, reordered and repeated within the window, and whatever else
  -- came in between and was refused, but not with `Late`.
  pub Session-Channel :
      (a0 b0 a b : CryptState) (wire : List (VoicePacket d × Bytes)) (got : List (VoicePacket d))
      → a0.key ≡ b0.key
      → a0.encrypt_nonce + 128 < 2 ^ 128
      → b0.decrypt_nonce + 128 < 2 ^ 128
      → length b0.decrypt_history ≡ 256
      → Session aes d l a0 b0 a b wire got
      → (is : List ℕ) × Channel (map (λ (x : VoicePacket d × Bytes). x.0) wire) is got
  Session-Channel a0 b0 a b wire got same r1 r2 size s =
      let k = Session-Link a0 b0 a b wire got same r1 r2 size s in (k.indices, k.kept)
