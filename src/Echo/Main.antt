-- ===== src/Echo/Main.antt =====
-- examples/echo_client.rs: `main`, and what `connect` and `handle_udp` do before their loops. The
-- command line parser, name resolution, sockets and TLS are what they answer.
use rust_mumble_protocol.Base.{
  ℕ, Bool, Option, none, some, List, [], ◌∷◌, ◌++◌, ◌≡◌, refl, ap, ◌∙◌, All, Bytes, Result, ok, err,
  panic, IoError, ◌>>=◌,
}
use rust_mumble_protocol.Voice.{VoicePacketPayload, clientbound}
use rust_mumble_protocol.Control.Packets.{
  Protobuf, ControlPacket, parsed, authenticate, crypt_setup, server_sync, unwrap,
}
use rust_mumble_protocol.Echo.{
  Accessors, Event, Connection, UdpEvent, Sent, authentication, join_both,
}
use rust_mumble_protocol.Echo.CommandLine.{
  Options, default_options, ArgumentParser, argument_parser, Assignment, assign_all,
}
use rust_mumble_protocol.Echo.Udp.{Arrival, arrivals, answers, opening, unsent, handle_udp-unsent}
use rust_mumble_protocol.Echo.Client.{join_both_cases, join_both-panic}
use rust_mumble_protocol.Echo.Handshake.{
  IsSized, IsQuiet, IsEarly, IsLater, events, replies, state_of,
}

module _ (m : Protobuf) (x : Accessors m) (Addr Stream Connector Tls : Type 0) where
  -- What the code outside answers. `parse_args_or_exit` may exit, which is `none`; else it has made
  -- the assignments.
  pub record World : Type 0 where
    pub parse_args_or_exit : ArgumentParser → Option (List Assignment)
    pub to_socket_addrs : Bytes → ℕ → Result (List Addr) IoError
    pub tcp_connect : Addr → Result Stream IoError
    pub build_connector : Bool → Result Connector IoError
    pub tls_connect : Connector → Bytes → Stream → Result Tls IoError
    pub login_answer : Tls → Result (Unit {0}) IoError
    pub items : Tls → List (Event m)
    pub bind : Result (Unit {0}) IoError
    pub udp_answer : Result (Unit {0}) IoError
    pub udp_items : List (UdpEvent Addr)

  -- `.next().expect(..)`
  abbrev pub first : List Addr → Result Addr IoError
  first [] = panic
  first (addr ∷ addrs) = ok addr

  module _ (w : World) where
    -- `connect` up to the handshake.
    unfoldable pub open_tls : Addr → Bytes → Bool → Result Tls IoError
    open_tls server_addr server_host accept_invalid_cert = do
      stream ← unwrap (w.tcp_connect server_addr)
      connector ← unwrap (w.build_connector accept_invalid_cert)
      unwrap (w.tls_connect connector server_host stream)

    -- Behind the command line. A panic of either half of `join!` ends the program.
    unfoldable pub run : Options → Result (Connection m × List (Sent Addr)) IoError
    unfolding open_tls
    run o = do
      server_addrs ← unwrap (w.to_socket_addrs o.server_host o.server_port)
      server_addr ← first server_addrs
      tls ← open_tls server_addr o.server_host o.accept_invalid_cert
      _ ← unwrap w.bind
      join_both Addr m x o.user_name o.password server_addr (w.login_answer tls) w.udp_answer
          (w.items tls) w.udp_items

    -- `none` if the command line was refused.
    unfoldable pub main : Option (Result (Connection m × List (Sent Addr)) IoError)
    unfolding run
    main = elim (w.parse_args_or_exit argument_parser) [
      | none ↦ none
      | some assignments ↦ some (run (assign_all assignments default_options))
    ]

  module _ (w : World) where
    -- The command line sets `o`, the host's first address is `addr`, and everything that is opened
    -- opens.
    pub record IsOpened (o : Options) (addr : Addr) (tls : Tls) : Type 0 where
      pub assignments : List Assignment
      pub others : List Addr
      pub stream : Stream
      pub connector : Connector
      pub command_line : w.parse_args_or_exit argument_parser ≡ some assignments
      pub sets : assign_all assignments default_options ≡ o
      pub resolves : w.to_socket_addrs o.server_host o.server_port ≡ ok (addr ∷ others)
      pub connects : w.tcp_connect addr ≡ ok stream
      pub builds : w.build_connector o.accept_invalid_cert ≡ ok connector
      pub secures : w.tls_connect connector o.server_host stream ≡ ok tls
      pub binds : w.bind ≡ ok tt

    main-join_both :
        (o : Options) (addr : Addr) (tls : Tls)
        → IsOpened o addr tls
        → main w
          ≡ some (
              join_both Addr m x o.user_name o.password addr
                (w.login_answer tls)
                w.udp_answer
                (w.items tls)
                w.udp_items)
    unfolding main
    main-join_both o addr tls opens =
        rw (main, opens.command_line, opens.sets)
          (rw (opens.resolves)
            (rw (opens.connects) (rw (opens.builds) (rw (opens.secures) (rw (opens.binds) refl)))))

    -- If the command line sets `o`, the host's first address is `addr`, everything that is opened
    -- opens, every read and send by TCP and every send by UDP succeeds, the keys and nonces of all
    -- CryptSetups are 16 bytes long, and a CryptSetup comes before the first ServerSync, then `main`
    -- does not panic, and it sends the login and the reply to each text message by TCP, and by UDP 128
    -- zeros as an Opus packet to `addr` and then each audio packet that arrives back to where it came
    -- from, to target 0 with its sequence number, frames and position; pings and datagrams that are not
    -- understood get no answer.
    pub main-sends :
        (o : Options) (addr : Addr) (tls : Tls) (pre mid post : List (ControlPacket m clientbound))
        (msg : m.Message crypt_setup) (sync : m.Message server_sync) (arrived : List (Arrival Addr))
        → IsOpened o addr tls
        → w.login_answer tls ≡ ok tt
        → w.items tls
          ≡ events m x (pre ++ (parsed crypt_setup msg ∷ (mid ++ (parsed server_sync sync ∷ post))))
        → w.udp_answer ≡ ok tt
        → w.udp_items ≡ arrivals Addr arrived
        → All (IsEarly m x) pre
        → IsSized m x msg
        → All (IsQuiet m x) mid
        → All (IsLater m x) post
        → let ps = pre ++ (parsed crypt_setup msg ∷ (mid ++ (parsed server_sync sync ∷ post))) in
          (s : Connection m) × (main w ≡ some (ok (s, opening Addr addr ∷ answers Addr arrived)))
          × (s.sent
              ≡ parsed authenticate (authentication m x o.user_name o.password) ∷ replies m x ps)
    main-sends o addr tls pre mid post msg sync arrived opens logged_in received sends heard h1 h2
          h3 h4 =
        let (s, joins, sent) =
          (join_both_cases m x Addr o.user_name o.password pre mid post msg sync addr arrived h1 h2
            h3 h4).1 in
        (
          s,
          main-join_both o addr tls opens
              ∙ rw (logged_in, received) (rw (sends, heard) (ap some joins)),
          sent,
        )

    -- If the command line sets `o`, the host's first address is `addr`, everything that is opened
    -- opens, every read and send by TCP and the first send by UDP succeed, the keys and nonces of all
    -- CryptSetups are 16 bytes long, and a CryptSetup comes before the first ServerSync, then one
    -- echo that cannot be sent makes `main` panic: packets and garbled datagrams may have come
    -- before, whose echoes were sent, and anything may come behind it.
    pub main-unsent :
        (o : Options) (addr : Addr) (tls : Tls) (pre mid post : List (ControlPacket m clientbound))
        (msg : m.Message crypt_setup) (sync : m.Message server_sync) (before : List (Arrival Addr))
        (target session_id seq_num : ℕ) (payload : VoicePacketPayload)
        (position_info : Option Bytes) (from : Addr) (e : IoError) (es : List (UdpEvent Addr))
        → IsOpened o addr tls
        → w.login_answer tls ≡ ok tt
        → w.items tls
          ≡ events m x (pre ++ (parsed crypt_setup msg ∷ (mid ++ (parsed server_sync sync ∷ post))))
        → w.udp_answer ≡ ok tt
        → w.udp_items
          ≡ arrivals Addr before
            ++ (unsent Addr target session_id seq_num payload position_info from e ∷ es)
        → All (IsEarly m x) pre
        → IsSized m x msg
        → All (IsQuiet m x) mid
        → All (IsLater m x) post
        → main w ≡ some panic
    main-unsent o addr tls pre mid post msg sync before target id seq payload pos from e es opens
          logged_in received sends items h1 h2 h3 h4 =
        main-join_both o addr tls opens
        ∙ rw (logged_in, received)
            (rw (sends, items)
              (ap some (
                join_both-panic m x Addr o.user_name o.password pre mid post msg sync addr _ h1 h2
                  h3 h4
                  (handle_udp-unsent Addr addr (state_of m x msg) before target id seq payload pos
                    from e es))))

    -- What may fail before the loops.
    pub data Fails (o : Options) : Type 0 where
      unresolved : (e : IoError) → w.to_socket_addrs o.server_host o.server_port ≡ err e → Fails o
      no_address : w.to_socket_addrs o.server_host o.server_port ≡ ok [] → Fails o
      unconnected :
          (addr : Addr) (others : List Addr) (e : IoError)
          → w.to_socket_addrs o.server_host o.server_port ≡ ok (addr ∷ others)
          → w.tcp_connect addr ≡ err e
          → Fails o
      unbuilt :
          (addr : Addr) (others : List Addr) (stream : Stream) (e : IoError)
          → w.to_socket_addrs o.server_host o.server_port ≡ ok (addr ∷ others)
          → w.tcp_connect addr ≡ ok stream
          → w.build_connector o.accept_invalid_cert ≡ err e
          → Fails o
      unbound :
          (addr : Addr) (tls : Tls) (e : IoError) (others : List Addr)
          → w.to_socket_addrs o.server_host o.server_port ≡ ok (addr ∷ others)
          → open_tls w addr o.server_host o.accept_invalid_cert ≡ ok tls
          → w.bind ≡ err e
          → Fails o
      unsecured :
          (addr : Addr) (others : List Addr) (stream : Stream) (connector : Connector) (e : IoError)
          → w.to_socket_addrs o.server_host o.server_port ≡ ok (addr ∷ others)
          → w.tcp_connect addr ≡ ok stream
          → w.build_connector o.accept_invalid_cert ≡ ok connector
          → w.tls_connect connector o.server_host stream ≡ err e
          → Fails o

    -- Then the program panics, and no other address is tried.
    main-Fails :
        (assignments : List Assignment)
        → w.parse_args_or_exit argument_parser ≡ some assignments
        → Fails (assign_all assignments default_options)
        → main w ≡ some panic
    unfolding main
    main-Fails o line (unresolved e h) = rw (main, line) (rw h refl)
    main-Fails o line (no_address h) = rw (main, line) (rw h refl)
    main-Fails o line (unconnected addr others e h h1) = rw (main, line) (rw h (rw h1 refl))
    main-Fails o line (unbuilt addr others stream e h h1 h2) =
        rw (main, line) (rw h (rw h1 (rw h2 refl)))
    main-Fails o line (unbound addr tls e others h h1 h2) =
        rw (main, line) (rw h (rw h1 (rw h2 refl)))
    main-Fails o line (unsecured addr others stream connector e h h1 h2 h3) =
        rw (main, line) (rw h (rw h1 (rw h2 (rw h3 refl))))
