-- ===== src/Echo/Examples.antt =====
-- Runs of the echo client with a simple message format and a simple cipher.
use rust_mumble_protocol.Control.Packets.Plain.{plain}
use rust_mumble_protocol.Base.{
  Bool, true, false, ℕ, ◌≡◌, refl, arith, none, some, [], ◌∷◌, ◌++◌, Bytes, IsBytes, IsBytes-append,
  replicate, ok, panic,
}
use rust_mumble_protocol.Voice.{VoicePacket, ping, audio, speex, clientbound, kind_of}
use rust_mumble_protocol.Voice.Dst.{clientbound-IsLawful}
use rust_mumble_protocol.Voice.RoundTrip.{packet_bytes}
use rust_mumble_protocol.Varint.Write.{encoding, encoding-IsEncoding}
use rust_mumble_protocol.Control.Packets.{
  ControlPacket, parsed, authenticate, text_message, crypt_setup, server_sync, version,
}
use rust_mumble_protocol.Crypt.{CryptState, new_from}
use rust_mumble_protocol.Crypt.Ocb.Examples.{flips, flips-IsCipher}
use rust_mumble_protocol.Crypt.Session.Lossy.{all_ok}
use rust_mumble_protocol.Echo.{Accessors, Connection, connect, dummy}
use rust_mumble_protocol.Echo.Handshake.{events}
use rust_mumble_protocol.Echo.Handshake.HandsOver.{connect-hands_over, connect-sync_early}
use rust_mumble_protocol.Echo.Conversation.{call}
use rust_mumble_protocol.Echo.CommandLine.{
  default_options, Assignment, assigned, server_host, user_name, assign_all,
}
use rust_mumble_protocol.Echo.Udp.{Arrival, heard, garbled, arrivals, unsent}
use rust_mumble_protocol.Echo.Main.{World, IsOpened, main, main-sends, main-unsent}
use rust_mumble_protocol.Echo.Client.{connect-echoes}
use rust_mumble_protocol.Base.{List, ℕ, invalid_data}

abbrev actor_of : Bytes → ℕ
actor_of [] = 0
actor_of (b ∷ bytes) = b

abbrev text_of : Bytes → Bytes
text_of [] = []
text_of (b ∷ bytes) = bytes

-- A text stands behind its actor, and a setup's three parts are the same.
abbrev accessors : Accessors plain
accessors = record {
  authenticate_new = [];
  set_username = λ name msg. name ++ msg;
  set_password = λ password msg. password ++ msg;
  set_opus = λ opus msg. msg;
  text_message_new = [];
  actor = actor_of;
  take_message = text_of;
  push_session = λ session msg. session ∷ msg;
  set_message = λ text msg. msg ++ text;
  key = λ msg. msg;
  client_nonce = λ msg. msg;
  server_nonce = λ msg. msg;
}

abbrev sixteen : Bytes
sixteen = replicate 16 7

abbrev hello : ControlPacket plain clientbound
hello = parsed text_message (5 ∷ 104 ∷ 105 ∷ [])

connect-hands_over_example :
    (s : Connection plain) × (connect plain accessors (109 ∷ []) none (ok tt) (
        events plain accessors (
          hello
          ∷ parsed crypt_setup sixteen
          ∷ parsed version []
          ∷ parsed server_sync []
          ∷ hello
          ∷ []))
      ≡ ok s)
    × (s.handed_over ≡ some (new_from sixteen sixteen sixteen))
    × (s.sent
        ≡ parsed authenticate (109 ∷ [])
          ∷ parsed text_message (5 ∷ 104 ∷ 105 ∷ [])
          ∷ parsed text_message (5 ∷ 104 ∷ 105 ∷ [])
          ∷ [])
connect-hands_over_example =
    connect-hands_over plain accessors (109 ∷ []) none (hello ∷ []) (parsed version [] ∷ [])
      (hello ∷ []) sixteen [] (tt, tt) (refl, refl, refl) (tt, tt) (tt, tt)

connect-sync_early_example :
    connect plain accessors (109 ∷ []) none (ok tt) (
      events plain accessors (hello ∷ [])
      ++ (record { packet = ok (parsed server_sync []); answer = ok tt } ∷ []))
    ≡ panic
connect-sync_early_example =
    connect-sync_early plain accessors (109 ∷ []) none (hello ∷ []) [] (ok tt) [] (tt, tt)

abbrev spoken : VoicePacket clientbound
spoken = audio 1 9 5 (speex ((7 ∷ 8 ∷ []) ∷ [])) none

spoken-IsBytes : IsBytes (packet_bytes clientbound clientbound-IsLawful spoken)
unfolding kind_of
spoken-IsBytes = (
  omega arith,
  IsBytes-append (encoding 9) _ (encoding-IsEncoding 9 (omega arith)).bytes
      (IsBytes-append (encoding 5) _ (encoding-IsEncoding 5 (omega arith)).bytes (omega arith)),
)

connect-echoes_example :
    (s : Connection plain) × (c : CryptState) × (connect plain accessors
        (109 ∷ [])
        none
        (ok tt)
        (events plain accessors (hello ∷ parsed crypt_setup sixteen ∷ parsed server_sync [] ∷ []))
      ≡ ok s)
    × (s.handed_over ≡ some c)
    × (call flips (new_from sixteen sixteen sixteen) c (spoken ∷ ping 3 ∷ [])
        ≡ all_ok (dummy ∷ audio 0 tt 5 (speex ((7 ∷ 8 ∷ []) ∷ [])) none ∷ []))
connect-echoes_example =
    connect-echoes plain accessors flips flips-IsCipher (109 ∷ []) none (hello ∷ []) [] [] sixteen
      [] (spoken ∷ ping 3 ∷ []) (tt, tt) (refl, refl, refl) (omega arith) (omega arith) tt tt
      (
        ((omega arith, omega arith, omega arith, (omega arith), tt), spoken-IsBytes),
        (((omega arith), (omega arith, (encoding-IsEncoding 3 (omega arith)).bytes)), tt),
      )

-- A ping, an error and an audio packet come, from the addresses 1 and 3.
abbrev arrived : List (Arrival ℕ)
arrived = heard (ping 3) 1 ∷ garbled invalid_data ∷ heard spoken 3 ∷ []

-- The command line names the host 5, which is at the addresses 1 and 2.
abbrev assignments : List Assignment
assignments = assigned server_host (5 ∷ []) ∷ assigned user_name (109 ∷ []) ∷ []

abbrev world : World plain accessors ℕ Bool Bool Bool
world = record {
  parse_args_or_exit = λ parser. some assignments;
  to_socket_addrs = λ host port. ok (1 ∷ 2 ∷ []);
  tcp_connect = λ addr. ok true;
  build_connector = λ accept. ok accept;
  tls_connect = λ connector host stream. ok true;
  login_answer = λ tls. ok tt;
  items = λ tls.
      events plain accessors (hello ∷ parsed crypt_setup sixteen ∷ parsed server_sync [] ∷ []);
  bind = ok tt;
  udp_answer = ok tt;
  udp_items = arrivals ℕ arrived;
}

world-IsOpened :
    IsOpened plain accessors ℕ Bool Bool Bool world (assign_all assignments default_options) 1 true
world-IsOpened = record {
  assignments = assignments;
  others = 2 ∷ [];
  stream = true;
  connector = false;
  command_line = refl;
  sets = refl;
  resolves = refl;
  connects = refl;
  builds = refl;
  secures = refl;
  binds = refl;
}

main-sends_example :
    (s : Connection plain) × (main plain accessors ℕ Bool Bool Bool world
      ≡ some (ok (s, (dummy, 1) ∷ (audio 0 tt 5 (speex ((7 ∷ 8 ∷ []) ∷ [])) none, 3) ∷ [])))
    × (s.sent ≡ parsed authenticate (109 ∷ []) ∷ parsed text_message (5 ∷ 104 ∷ 105 ∷ []) ∷ [])
main-sends_example =
    main-sends plain accessors ℕ Bool Bool Bool world (assign_all assignments default_options) 1
      true (hello ∷ []) [] [] sixteen [] arrived world-IsOpened refl refl refl refl (tt, tt)
      (refl, refl, refl) tt tt

-- The echo to the address 3 fails.
abbrev failing_world : World plain accessors ℕ Bool Bool Bool
failing_world = record world {
  udp_items =
      arrivals ℕ arrived
      ++ (unsent ℕ 1 9 6 (speex ([] ∷ [])) none 3 invalid_data ∷ arrivals ℕ arrived);
}

failing_world-IsOpened :
    IsOpened plain accessors ℕ Bool Bool Bool failing_world
      (assign_all assignments default_options)
      1
      true
failing_world-IsOpened = record {
  assignments = assignments;
  others = 2 ∷ [];
  stream = true;
  connector = false;
  command_line = refl;
  sets = refl;
  resolves = refl;
  connects = refl;
  builds = refl;
  secures = refl;
  binds = refl;
}

main-unsent_example : main plain accessors ℕ Bool Bool Bool failing_world ≡ some panic
main-unsent_example =
    main-unsent plain accessors ℕ Bool Bool Bool failing_world
      (assign_all assignments default_options) 1 true (hello ∷ []) [] [] sixteen [] arrived 1 9 6
      (speex ([] ∷ [])) none 3 invalid_data (arrivals ℕ arrived) failing_world-IsOpened refl refl
      refl refl (tt, tt) (refl, refl, refl) tt tt
