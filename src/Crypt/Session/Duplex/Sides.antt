-- ===== src/Crypt/Session/Duplex/Sides.antt =====
-- src/crypt.rs: one direction between two states that serve both, and what the other direction does to
-- it, which is nothing.
use rust_mumble_protocol.Base.{
  ℕ, ◌+◌, ◌^◌, ◌<◌, ◌≡◌, ◌≢◌, refl, sym, ap, ◌∙◌, subst, arith, List, [], ◌∷◌, some, Bytes, IsBytes,
  ok, err,
}
use rust_mumble_protocol.Voice.{VoicePacketDst, VoicePacket}
use rust_mumble_protocol.Voice.Dst.{IsLawful}
use rust_mumble_protocol.Voice.RoundTrip.{IsWellFormed, packet_bytes}
use rust_mumble_protocol.Crypt.{CryptState, DecryptError, late_packet, encrypt, decrypt, Decrypted}
use rust_mumble_protocol.Crypt.Ocb.{Aes128}
use rust_mumble_protocol.Crypt.Channel.{sent_at}
use rust_mumble_protocol.Crypt.Directions.{
  with_encrypt_nonce, beside, decrypt-beside, decrypt-key, decrypt-encrypt_nonce, moved,
  encrypt-moved, encrypt-same,
}
use rust_mumble_protocol.Crypt.Session.{heard, Session, sends, refuses, delivers}

module _ (aes : Aes128) (d : VoicePacketDst) (l : IsLawful d) (a0 b0 : CryptState) where
  -- One direction, from `a` to `b`, as a session between states that do nothing else.
  pub record OneWay (a b : CryptState) (wire : List (VoicePacket d × Bytes))
      (got : List (VoicePacket d)) : Type 0 where
    pub sender : CryptState
    pub receiver : CryptState
    pub session : Session aes d l a0 b0 sender receiver wire got
    pub keys : a.key ≡ sender.key
    pub nonces : a.encrypt_nonce ≡ sender.encrypt_nonce
    pub receives : with_encrypt_nonce b.encrypt_nonce receiver ≡ b

  module _ {a b : CryptState} {wire : List (VoicePacket d × Bytes)} {got : List (VoicePacket d)}
      (o : OneWay a b wire got) where
    -- What `decrypt` makes in the state that also sends.
    decrypts :
        (bytes : Bytes)
        → decrypt aes d b bytes ≡ beside aes d b.encrypt_nonce (decrypt aes d o.receiver bytes)
    decrypts bytes =
        ap (λ s. decrypt aes d s bytes) (sym o.receives)
        ∙ decrypt-beside aes d b.encrypt_nonce o.receiver bytes

    result : (bytes : Bytes) → (decrypt aes d b bytes).0 ≡ (decrypt aes d o.receiver bytes).0
    result bytes = ap (λ (t : Decrypted d). t.0) (decrypts bytes)

    received :
        (bytes : Bytes)
        → with_encrypt_nonce
            (decrypt aes d b bytes).1.encrypt_nonce
            (decrypt aes d o.receiver bytes).1
          ≡ (decrypt aes d b bytes).1
    received bytes =
        ap (λ (n : ℕ). with_encrypt_nonce n (decrypt aes d o.receiver bytes).1)
          (decrypt-encrypt_nonce aes d b bytes)
        ∙ sym (ap (λ (t : Decrypted d). t.1) (decrypts bytes))

    last_nonce : b.decrypt_nonce ≡ o.receiver.decrypt_nonce
    last_nonce = ap (λ (s : CryptState). s.decrypt_nonce) (sym o.receives)

    pub OneWay-sends :
        {a' : CryptState} (p : VoicePacket d) (bytes : Bytes)
        → IsWellFormed d l p
        → IsBytes (packet_bytes d l p)
        → a.encrypt_nonce + 129 < 2 ^ 128
        → encrypt aes d a p [] ≡ ok (a', bytes)
        → OneWay a' b ((p, bytes) ∷ wire) got
    OneWay-sends {a'} p bytes wf hb room e = record {
      sender = with_encrypt_nonce a'.encrypt_nonce o.sender;
      receiver = o.receiver;
      session =
          sends p bytes o.session wf hb (omega (arith, o.nonces))
            (encrypt-moved aes d a o.sender p [] o.keys o.nonces ∙ ap (moved aes d o.sender) e);
      keys = ap (λ (s : CryptState). s.key) (sym (encrypt-same aes d a a' p [] bytes e)) ∙ o.keys;
      nonces = refl;
      receives = o.receives;
    }

    pub OneWay-refuses :
        (bytes : Bytes) (e : DecryptError)
        → IsBytes bytes
        → (decrypt aes d b bytes).0 ≡ err e
        → e ≢ late_packet
        → OneWay a (decrypt aes d b bytes).1 wire got
    OneWay-refuses bytes e h refused early = record {
      sender = o.sender;
      receiver = (decrypt aes d o.receiver bytes).1;
      session = refuses bytes e o.session h (sym (result bytes) ∙ refused) early;
      keys = o.keys;
      nonces = o.nonces;
      receives = received bytes;
    }

    pub OneWay-delivers :
        (i : ℕ) (p : VoicePacket d) (bytes : Bytes)
        → sent_at wire i ≡ some (p, bytes)
        → a0.encrypt_nonce + 1 + i < b.decrypt_nonce + 128
        → b.decrypt_nonce < a0.encrypt_nonce + 1 + i + 30
        → OneWay a (decrypt aes d b bytes).1 wire (heard aes d l (decrypt aes d b bytes).0 got)
    OneWay-delivers i p bytes at h1 h2 = record {
      sender = o.sender;
      receiver = (decrypt aes d o.receiver bytes).1;
      session =
          subst
            (λ r.
              Session aes d l a0 b0 o.sender (decrypt aes d o.receiver bytes).1 wire
                (heard aes d l r got))
            (sym (result bytes))
            (delivers i p bytes o.session at (omega (arith, last_nonce))
              (omega (arith, last_nonce)));
      keys = o.keys;
      nonces = o.nonces;
      receives = received bytes;
    }

    -- The sender receives something, and the receiver sends something.
    pub OneWay-hears :
        (d' : VoicePacketDst) (bytes : Bytes) → OneWay (decrypt aes d' a bytes).1 b wire got
    OneWay-hears d' bytes = record {
      sender = o.sender;
      receiver = o.receiver;
      session = o.session;
      keys = decrypt-key aes d' a bytes ∙ o.keys;
      nonces = decrypt-encrypt_nonce aes d' a bytes ∙ o.nonces;
      receives = o.receives;
    }

    pub OneWay-answers :
        (d' : VoicePacketDst) {b' : CryptState} (p : VoicePacket d') (bytes : Bytes)
        → encrypt aes d' b p [] ≡ ok (b', bytes)
        → OneWay a b' wire got
    OneWay-answers d' {b'} p bytes e = record {
      sender = o.sender;
      receiver = o.receiver;
      session = o.session;
      keys = o.keys;
      nonces = o.nonces;
      receives =
          ap (with_encrypt_nonce b'.encrypt_nonce) o.receives
          ∙ encrypt-same aes d' b b' p [] bytes e;
    }
