-- ===== src/Crypt/Session.antt =====
-- src/crypt.rs: a sender and a receiver with the same key, over a network that drops, delays,
-- reorders and repeats datagrams.
pub mod Near
pub mod Refines
pub mod Lossy
pub mod Duplex
pub mod Resync
pub mod Fresh
pub mod Tally
mod Examples
use rust_mumble_protocol.Base.{
  ℕ, ◌+◌, ◌^◌, ◌<◌, ◌≡◌, ◌≢◌, List, [], ◌∷◌, some, Bytes, IsBytes, Result, ok, err, panic, IoError,
}
use rust_mumble_protocol.Voice.{VoicePacketDst, VoicePacket}
use rust_mumble_protocol.Voice.Dst.{IsLawful}
use rust_mumble_protocol.Voice.RoundTrip.{IsWellFormed, packet_bytes}
use rust_mumble_protocol.Crypt.{CryptState, DecryptError, late_packet, encrypt, decrypt}
use rust_mumble_protocol.Crypt.Ocb.{Aes128}
use rust_mumble_protocol.Crypt.Channel.{sent_at}

module _ (aes : Aes128) (d : VoicePacketDst) (l : IsLawful d) where
  -- What the receiver's application has when a `decrypt` has returned.
  abbrev pub heard :
      Result (Result (VoicePacket d) IoError) DecryptError
      → List (VoicePacket d)
      → List (VoicePacket d)
  heard (ok (ok p)) got = p ∷ got
  heard (ok (err e)) got = got
  heard (ok panic) got = got
  heard (err e) got = got
  heard panic got = got

  -- From the states `a0` and `b0`: the states, the datagrams sent, each with its packet, and the
  -- packets received, the last ones first. A datagram may be delivered any number of times, also
  -- never, as long as its nonce is less than 128 ahead of the receiver's last one or less than 30
  -- behind it. Any other bytes may come in between, as long as `decrypt` refuses them, and not with
  -- `Late`. Nonces stay 128 below 2 ^ 128.
  pub data Session (a0 b0 : CryptState)
      : CryptState → CryptState → List (VoicePacket d × Bytes) → List (VoicePacket d) → Type 0 where
    begins : Session a0 b0 a0 b0 [] []
    sends :
        {a b a' : CryptState} {wire : List (VoicePacket d × Bytes)} {got : List (VoicePacket d)}
        (p : VoicePacket d) (bytes : Bytes)
        → Session a0 b0 a b wire got
        → IsWellFormed d l p
        → IsBytes (packet_bytes d l p)
        → a.encrypt_nonce + 129 < 2 ^ 128
        → encrypt aes d a p [] ≡ ok (a', bytes)
        → Session a0 b0 a' b ((p, bytes) ∷ wire) got
    refuses :
        {a b : CryptState} {wire : List (VoicePacket d × Bytes)} {got : List (VoicePacket d)}
        (bytes : Bytes) (e : DecryptError)
        → Session a0 b0 a b wire got
        → IsBytes bytes
        → (decrypt aes d b bytes).0 ≡ err e
        → e ≢ late_packet
        → Session a0 b0 a (decrypt aes d b bytes).1 wire got
    delivers :
        {a b : CryptState} {wire : List (VoicePacket d × Bytes)} {got : List (VoicePacket d)}
        (i : ℕ) (p : VoicePacket d) (bytes : Bytes)
        → Session a0 b0 a b wire got
        → sent_at wire i ≡ some (p, bytes)
        → a0.encrypt_nonce + 1 + i < b.decrypt_nonce + 128
        → b.decrypt_nonce < a0.encrypt_nonce + 1 + i + 30
        → Session a0 b0 a (decrypt aes d b bytes).1 wire (heard (decrypt aes d b bytes).0 got)
