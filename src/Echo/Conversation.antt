-- ===== src/Echo/Conversation.antt =====
-- examples/echo_client.rs: the client between its two codecs, and a server that sends it packets.
pub mod Echoes
use rust_mumble_protocol.Base.{
  ℕ, suc, ◌+◌, ◌-◌, ◌*◌, ◌^◌, ◌<◌, ◌≡◌, refl, sym, ap, ◌∙◌, subst, arith, true, Option, none, some,
  List, [], ◌∷◌, ◌++◌, Bytes, IsBytes, IsBytes-append, IsBytes-append_right, IsBytes-replicate,
  length, replicate, from_le_bytes, from_le_bytes-lt, Result, ok, err, panic, IoError, All,
}
use rust_mumble_protocol.Voice.{
  VoicePacket, VoicePacketPayload, ping, audio, opus, serverbound, clientbound, kind_of,
}
use rust_mumble_protocol.Voice.Dst.{serverbound-IsLawful, clientbound-IsLawful}
use rust_mumble_protocol.Voice.RoundTrip.{IsWellFormed, packet_bytes}
use rust_mumble_protocol.Varint.Write.{encoding, encoding-IsEncoding}
use rust_mumble_protocol.Crypt.{
  CryptState, DecryptError, eof, add128, encrypt, decrypt, Decrypted, new_from,
}
use rust_mumble_protocol.Crypt
use rust_mumble_protocol.Crypt.Ocb.{Aes128}
use rust_mumble_protocol.Crypt.Ocb.Cipher.{IsCipher}
use rust_mumble_protocol.Crypt.Delivery.{received, decrypt-encrypt}
use rust_mumble_protocol.Crypt.Session.Lossy.{all_ok}
use rust_mumble_protocol.Echo.{handle_udp, UdpEvent, UdpRun, echo}

-- What `decrypt` returns on the server's side.
abbrev pub Heard : Type 0
Heard = Result (Result (VoicePacket serverbound) IoError) DecryptError

module _ (aes : Aes128) where
  -- The item that a datagram is for `source`, once `CryptState::decode` has read it.
  abbrev event_of : Result (Option (VoicePacket clientbound)) IoError → List (UdpEvent (Unit {0}))
  event_of (ok none) = []
  event_of (ok (some p)) = record { packet = ok (p, tt); answer = ok tt } ∷ []
  event_of (err e) = record { packet = err e; answer = ok tt } ∷ []
  event_of panic = record { packet = panic; answer = ok tt } ∷ []

  -- The packets that `sink` encodes, as datagrams; the second state is the one behind them.
  send_all :
      CryptState → List (VoicePacket serverbound × Unit {0}) → Option (List Bytes × CryptState)
  send_all c [] = some ([], c)
  send_all c ((p, addr) ∷ ps) = elim (Crypt.encode aes serverbound c p []) [
    | ok (c', bytes) ↦ elim (send_all c' ps) [
      | some (sent, c'') ↦ some (bytes ∷ sent, c'')
      | none ↦ none
    ]
    | err e ↦ none
    | panic ↦ none
  ]

  -- One datagram to the client, with all that the client sends back.
  pub client : CryptState → Bytes → Option (List Bytes × CryptState)
  client c bytes =
      let o = Crypt.decode aes clientbound c bytes in
      send_all o.1 (echo (Unit {0}) (event_of o.0)).0

  -- The server's `decrypt` on datagrams.
  pub server : CryptState → List Bytes → List Heard × CryptState
  server a [] = ([], a)
  server a (bytes ∷ ds) =
      let o = decrypt aes serverbound a bytes in let rest = server o.1 ds in (o.0 ∷ rest.0, rest.1)

  -- The server sends packets one after the other, and hears what the client makes of each.
  pub conversation : CryptState → CryptState → List (VoicePacket clientbound) → List Heard
  conversation a c [] = []
  conversation a c (p ∷ ps) = elim (encrypt aes clientbound a p []) [
    | ok (a', bytes) ↦ elim (client c bytes) [
      | some (ds, c') ↦ (server a' ds).0 ++ conversation (server a' ds).1 c' ps
      | none ↦ []
    ]
    | err e ↦ []
    | panic ↦ []
  ]

  -- From the start of `handle_udp` on, with what it sends before anything has come.
  pub call : CryptState → CryptState → List (VoicePacket clientbound) → List Heard
  call a c ps = elim (send_all c (handle_udp (Unit {0}) tt (some c) (ok tt) []).0) [
    | some (ds, c') ↦ (server a ds).0 ++ conversation (server a ds).1 c' ps
    | none ↦ []
  ]

-- The audio packets, as the client echoes them.
abbrev pub echoes : List (VoicePacket clientbound) → List (VoicePacket serverbound)
echoes [] = []
echoes (ping timestamp ∷ ps) = echoes ps
echoes (audio target session_id seq_num payload position_info ∷ ps) =
    audio 0 tt seq_num payload position_info ∷ echoes ps

abbrev pub AreSendable : List (VoicePacket clientbound) → Type 0
AreSendable ps =
    All
      (λ p.
        IsWellFormed clientbound clientbound-IsLawful p
        × IsBytes (packet_bytes clientbound clientbound-IsLawful p))
      ps

record InStep (a c : CryptState) : Type 0 where
  keys : a.key ≡ c.key
  down : a.encrypt_nonce ≡ add128 c.decrypt_nonce 0
  up : c.encrypt_nonce ≡ add128 a.decrypt_nonce 0
