-- ===== src/Echo.antt =====
-- examples/echo_client.rs: a client that answers text messages and echoes voice packets. The sockets,
-- TLS, the command line and what is printed are left out; the messages are the generated ones.
pub mod Handshake
pub mod Conversation
pub mod Client
pub mod Udp
pub mod CommandLine
pub mod Main
mod Examples
use rust_mumble_protocol.Base.{
  ℕ, ◌==◌, if◌then◌else◌, Bool, true, false, Option, none, some, List, [], ◌∷◌, ◌++◌, Bytes, length,
  replicate, Result, ok, err, panic, IoError, ◌>>=◌,
}
use rust_mumble_protocol.Voice.{
  VoicePacket, VoicePacketPayload, ping, audio, opus, serverbound, clientbound,
}
use rust_mumble_protocol.Control.Packets.{
  Protobuf, ControlPacket, parsed, from_message, tunneled, unknown, authenticate, text_message,
  crypt_setup, server_sync, reject, unwrap,
}
use rust_mumble_protocol.Crypt.{CryptState, new_from}

-- The accessors of the generated messages that the client uses. Texts are bytes.
pub record Accessors (m : Protobuf) : Type 0 where
  pub authenticate_new : m.Message authenticate
  pub set_username : Bytes → m.Message authenticate → m.Message authenticate
  pub set_password : Bytes → m.Message authenticate → m.Message authenticate
  pub set_opus : Bool → m.Message authenticate → m.Message authenticate
  pub text_message_new : m.Message text_message
  pub actor : m.Message text_message → ℕ
  pub take_message : m.Message text_message → Bytes
  pub push_session : ℕ → m.Message text_message → m.Message text_message
  pub set_message : Bytes → m.Message text_message → m.Message text_message
  pub key : m.Message crypt_setup → Bytes
  pub client_nonce : m.Message crypt_setup → Bytes
  pub server_nonce : m.Message crypt_setup → Bytes

-- The next item of `stream`, and what `sink` answers if a packet is sent while it is handled.
pub record Event (m : Protobuf) : Type 0 where
  pub packet : Result (ControlPacket m clientbound) IoError
  pub answer : Result (Unit {0}) IoError

-- The variables of `connect`: whether `crypt_state_sender` is still there, `crypt_state`, what was
-- sent through the sender, and what was sent to the server.
pub record Connection (m : Protobuf) : Type 0 where
  pub has_sender : Bool
  pub crypt_state : Option CryptState
  pub handed_over : Option CryptState
  pub sent : List (ControlPacket m serverbound)

-- `try_into().expect(..)` into an array of 16 bytes.
abbrev pub expect_16 : Bytes → Result Bytes IoError
expect_16 bytes = if length bytes == 16 then ok bytes else panic

module _ (m : Protobuf) (x : Accessors m) where
  abbrev pub authentication : Bytes → Option Bytes → m.Message authenticate
  authentication user_name password =
      let msg = x.set_username user_name x.authenticate_new in
      x.set_opus true (elim password [ none ↦ msg | some password ↦ x.set_password password msg ])

  abbrev pub response : m.Message text_message → m.Message text_message
  response msg =
      x.set_message (x.take_message msg) (x.push_session (x.actor msg) x.text_message_new)

  -- The `match` on a packet. A send through the sender of the state cannot fail the client.
  unfoldable pub handle_packet :
      Connection m
      → ControlPacket m clientbound
      → Result (Unit {0}) IoError
      → Result (Connection m) IoError
  handle_packet s (parsed text_message msg) answer = do
    _ ← unwrap answer
    ok (record s { sent = s.sent ++ (from_message m serverbound text_message (response msg) ∷ []) })
  handle_packet s (parsed crypt_setup msg) answer = do
    key ← expect_16 (x.key msg)
    client_nonce ← expect_16 (x.client_nonce msg)
    server_nonce ← expect_16 (x.server_nonce msg)
    ok (record s { crypt_state = some (new_from key client_nonce server_nonce) })
  handle_packet s (parsed server_sync msg) answer =
      if s.has_sender
      then elim s.crypt_state [
        | some c ↦ ok (record s { has_sender = false; crypt_state = none; handed_over = some c })
        | none ↦ panic
      ]
      else ok s
  handle_packet s packet answer = ok s

  -- `while let Some(packet) = stream.next().await`
  unfoldable pub handle_packets : Connection m → List (Event m) → Result (Connection m) IoError
  handle_packets s [] = ok s
  handle_packets s (e ∷ es) = do
    packet ← unwrap e.packet
    s ← handle_packet s packet e.answer
    handle_packets s es

  abbrev pub started : Bytes → Option Bytes → Connection m
  started user_name password = record {
    has_sender = true;
    crypt_state = none;
    handed_over = none;
    sent = from_message m serverbound authenticate (authentication user_name password) ∷ [];
  }

  -- `connect` on an open connection: the answer to the first send, and the events behind it.
  unfoldable pub connect :
      (user_name : Bytes) (password : Option Bytes)
      → Result (Unit {0}) IoError
      → List (Event m)
      → Result (Connection m) IoError
  connect user_name password answer es = do
    _ ← unwrap answer
    handle_packets (started user_name password) es

-- The voice packet by which the server accepts the client.
abbrev pub dummy : VoicePacket serverbound
dummy = audio 0 tt 0 (opus (replicate 128 0) true) none

-- What is sent for a packet.
abbrev pub reply_to : VoicePacket clientbound → Option (VoicePacket serverbound)
reply_to (ping timestamp) = none
reply_to (audio target session_id seq_num payload position_info) =
    some (audio 0 tt seq_num payload position_info)

module _ (Addr : Type 0) where
  -- An item of `source`, and what `sink` answers if a packet is sent while it is handled.
  pub record UdpEvent : Type 0 where
    pub packet : Result (VoicePacket clientbound × Addr) IoError
    pub answer : Result (Unit {0}) IoError

  -- A packet with the address that it is sent to.
  abbrev pub Sent : Type 0
  Sent = VoicePacket serverbound × Addr

  -- What was sent, and how the function ends.
  abbrev pub UdpRun : Type 0
  UdpRun = List Sent × Result (Unit {0}) IoError

  -- `sink.send(..).await.unwrap()`, and then the rest.
  abbrev pub send : Sent → Result (Unit {0}) IoError → UdpRun → UdpRun
  send item (ok a) rest = (item ∷ rest.0, rest.1)
  send item (err e) rest = ([], panic)
  send item panic rest = ([], panic)

  unfoldable pub echo : List UdpEvent → UdpRun
  echo [] = ([], ok tt)
  echo (e ∷ es) =
      let rest = echo es in
      elim e.packet [
        | ok (packet, src_addr) ↦ elim (reply_to packet) [
          | none ↦ rest
          | some reply ↦ send (reply, src_addr) e.answer rest
        ]
        | err error ↦ rest
        | panic ↦ ([], panic)
      ]

  -- `handle_udp` on a bound socket: `none` if the sender of the state was dropped.
  unfoldable pub handle_udp :
      (server_addr : Addr) → Option CryptState → Result (Unit {0}) IoError → List UdpEvent → UdpRun
  handle_udp server_addr none answer es = ([], ok tt)
  handle_udp server_addr (some crypt_state) answer es = send (dummy, server_addr) answer (echo es)

  -- How `join!` ends: a panic of `handle_udp` ends the program too, and what it had sent before is
  -- not kept here.
  abbrev pub finish :
      {m : Protobuf} → Connection m → UdpRun → Result (Connection m × List Sent) IoError
  finish s (sent, ok a) = ok (s, sent)
  finish s (sent, err e) = err e
  finish s (sent, panic) = panic

  -- `join!` in `main`, behind the command line: what `connect` has handed over when it returns is
  -- what `handle_udp` waits for. A panic of either ends the program.
  unfoldable pub join_both :
      (m : Protobuf) (x : Accessors m) (user_name : Bytes) (password : Option Bytes)
      → (server_addr : Addr) → (answer udp_answer : Result (Unit {0}) IoError) → List (Event m)
      → List UdpEvent
      → Result (Connection m × List Sent) IoError
  join_both m x user_name password server_addr answer udp_answer es udp_es = do
    s ← connect m x user_name password answer es
    finish s (handle_udp server_addr s.handed_over udp_answer udp_es)
