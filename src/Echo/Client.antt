-- ===== src/Echo/Client.antt =====
-- examples/echo_client.rs: both halves of the client, one after the other.
use rust_mumble_protocol.Base.{
  panic, ap, ◌≡◌, List, [], ◌∷◌, refl, ◌++◌, Option, some, All, Bytes, IsBytes, ok,
}
use rust_mumble_protocol.Voice.{VoicePacket, clientbound}
use rust_mumble_protocol.Control.Packets.{
  Protobuf, ControlPacket, parsed, authenticate, crypt_setup, server_sync,
}
use rust_mumble_protocol.Crypt.{CryptState, new_from}
use rust_mumble_protocol.Crypt.Ocb.{Aes128}
use rust_mumble_protocol.Crypt.Ocb.Cipher.{IsCipher}
use rust_mumble_protocol.Crypt.Session.Lossy.{all_ok}
use rust_mumble_protocol.Echo.{
  Accessors, Connection, connect, dummy, authentication, UdpEvent, UdpRun, handle_udp, finish,
  join_both,
}
use rust_mumble_protocol.Echo.Handshake.{
  IsSized, IsQuiet, IsEarly, IsLater, events, replies, state_of,
}
use rust_mumble_protocol.Echo.Udp.{Arrival, arrivals, answers, opening, handle_udp-answers}
use rust_mumble_protocol.Echo.Handshake.HandsOver.{connect-hands_over, connect-waits}
use rust_mumble_protocol.Echo.Conversation.{call, echoes, AreSendable}
use rust_mumble_protocol.Echo.Conversation.Echoes.{call-echoes}

module _ (m : Protobuf) (x : Accessors m) (aes : Aes128) (cipher : IsCipher aes) where
  -- If AES permutes blocks, the login is sent and every reply can be, and the server sends a
  -- CryptSetup and later its first ServerSync, with no other CryptSetup in between and the keys and
  -- nonces of all CryptSetups 16 bytes long, then `connect` hands over a state with which, over a
  -- network that loses nothing, a server that has the same key and nonces hears the dummy packet
  -- and then the echo of each audio packet that it sends, these being well formed and encoded as
  -- bytes: its sequence number, frames and position, to target 0.
  pub connect-echoes :
      (user_name : Bytes) (password : Option Bytes)
      (pre mid post : List (ControlPacket m clientbound)) (msg : m.Message crypt_setup)
      (sync : m.Message server_sync) (packets : List (VoicePacket clientbound))
      → All (IsEarly m x) pre
      → IsSized m x msg
      → IsBytes (x.client_nonce msg)
      → IsBytes (x.server_nonce msg)
      → All (IsQuiet m x) mid
      → All (IsLater m x) post
      → AreSendable packets
      → let ps = pre ++ (parsed crypt_setup msg ∷ (mid ++ (parsed server_sync sync ∷ post))) in
        (s : Connection m) × (c : CryptState) × (connect m x user_name password
            (ok tt)
            (events m x ps)
          ≡ ok s)
        × (s.handed_over ≡ some c)
        × (call aes (new_from (x.key msg) (x.server_nonce msg) (x.client_nonce msg)) c packets
            ≡ all_ok (dummy ∷ echoes packets))
  connect-echoes user_name password pre mid post msg sync packets h1 h2 b1 b2 h3 h4 sendable =
      let (s, runs, handed, sent) =
        connect-hands_over m x user_name password pre mid post msg sync h1 h2 h3 h4 in
      (
        s,
        state_of m x msg,
        runs,
        handed,
        call-echoes aes cipher (x.key msg) (x.client_nonce msg) (x.server_nonce msg) packets b1 b2
            h2.1 h2.2 sendable,
      )

module _ (m : Protobuf) (x : Accessors m) (Addr : Type 0) where
  -- When the login is sent and every reply can be, and the keys and nonces of all CryptSetups are 16
  -- bytes long: if the server sends no ServerSync, the client sends nothing by UDP; if a CryptSetup
  -- comes before the first ServerSync, it sends the opening packet to the server first, and then
  -- the answers to where the packets came from, and by TCP the login and the replies.
  pub join_both_cases :
      (user_name : Bytes) (password : Option Bytes)
      (pre mid post : List (ControlPacket m clientbound)) (msg : m.Message crypt_setup)
      (sync : m.Message server_sync) (server_addr : Addr) (arrived : List (Arrival Addr))
      → All (IsEarly m x) pre
      → IsSized m x msg
      → All (IsQuiet m x) mid
      → All (IsLater m x) post
      → let ps = pre ++ (parsed crypt_setup msg ∷ (mid ++ (parsed server_sync sync ∷ post))) in
        let join = join_both Addr m x user_name password server_addr (ok tt) (ok tt) in
        ((s : Connection m) × (join (events m x pre) (arrivals Addr arrived) ≡ ok (s, [])))
        × ((s : Connection m) × (join (events m x ps) (arrivals Addr arrived)
              ≡ ok (s, opening Addr server_addr ∷ answers Addr arrived))
            × (s.sent
                ≡ parsed authenticate (authentication m x user_name password) ∷ replies m x ps))
  unfolding join_both
  join_both_cases user_name password pre mid post msg sync server_addr arrived h1 h2 h3 h4 =
      let (s1, waits, none_handed) = connect-waits m x user_name password pre h1 in
      let (s2, runs, handed, sent) =
        connect-hands_over m x user_name password pre mid post msg sync h1 h2 h3 h4 in
      (
        (s1, rw (join_both, waits) (rw none_handed (unfold handle_udp in refl))),
        (
          s2,
          rw (join_both, runs)
              (rw handed (
                ap (finish Addr s2)
                  (handle_udp-answers Addr server_addr (state_of m x msg) arrived))),
          sent,
        ),
      )

  finish-panic : (s : Connection m) (run : UdpRun Addr) → run.1 ≡ panic → finish Addr s run ≡ panic
  finish-panic s (sent, r) h = ap (λ r. finish Addr s (sent, r)) h

  -- Where `connect` hands over a state and `handle_udp` panics with it, so does the program.
  pub join_both-panic :
      (user_name : Bytes) (password : Option Bytes)
      (pre mid post : List (ControlPacket m clientbound)) (msg : m.Message crypt_setup)
      (sync : m.Message server_sync) (server_addr : Addr) (udp_es : List (UdpEvent Addr))
      → All (IsEarly m x) pre
      → IsSized m x msg
      → All (IsQuiet m x) mid
      → All (IsLater m x) post
      → (handle_udp Addr server_addr (some (state_of m x msg)) (ok tt) udp_es).1 ≡ panic
      → join_both Addr m x user_name password server_addr
          (ok tt)
          (ok tt)
          (events m x (pre ++ (parsed crypt_setup msg ∷ (mid ++ (parsed server_sync sync ∷ post)))))
          udp_es
        ≡ panic
  unfolding join_both
  join_both-panic user_name password pre mid post msg sync server_addr udp_es h1 h2 h3 h4 panics =
      let (s, runs, handed, sent) =
        connect-hands_over m x user_name password pre mid post msg sync h1 h2 h3 h4 in
      rw (join_both, runs)
        (rw handed (
          finish-panic s (handle_udp Addr server_addr (some (state_of m x msg)) (ok tt) udp_es)
            panics))
