-- ===== src/Echo/Handshake/HandsOver.antt =====
-- examples/echo_client.rs: the state that `connect` hands over, and a sync that comes too early.
use rust_mumble_protocol.Base.{
  ◌≡◌, refl, sym, ap, ◌∙◌, false, Option, none, some, List, [], ◌∷◌, ◌++◌, append-nil, All, Bytes,
  Result, ok, panic, IoError, ◌>>=◌,
}
use rust_mumble_protocol.Voice.{clientbound}
use rust_mumble_protocol.Control.Packets.{
  Protobuf, ControlPacket, parsed, authenticate, crypt_setup, server_sync,
}
use rust_mumble_protocol.Echo.{
  Accessors, Event, Connection, authentication, handle_packets, connect, started,
}
use rust_mumble_protocol.Echo.Handshake.{
  IsSized, state_of, IsQuiet, IsEarly, IsLater, replies, events, Runs-append, Runs-one,
  handle_packets-Runs, IsOpen, IsWaiting, IsDone, Handles-early, Handles-quiet, Handles-later,
  handle_packet-setup, handle_packet-sync, handle_packet-sync_early,
}

module _ (m : Protobuf) (x : Accessors m) where
  -- When the login is sent and every reply can be, and the server sends packets without a
  -- ServerSync, then a CryptSetup, then packets with neither, then a ServerSync, and then any
  -- packets, the keys and nonces of all CryptSetups 16 bytes long, then `connect` does not panic; it
  -- hands over the state that the last CryptSetup before the first ServerSync makes, and no other;
  -- and it sends the login and an answer to each text message, in order.
  pub connect-hands_over :
      (user_name : Bytes) (password : Option Bytes)
      (pre mid post : List (ControlPacket m clientbound)) (msg : m.Message crypt_setup)
      (sync : m.Message server_sync)
      → All (IsEarly m x) pre
      → IsSized m x msg
      → All (IsQuiet m x) mid
      → All (IsLater m x) post
      → let ps = pre ++ (parsed crypt_setup msg ∷ (mid ++ (parsed server_sync sync ∷ post))) in
        (s : Connection m) × (connect m x user_name password (ok tt) (events m x ps) ≡ ok s)
        × (s.handed_over ≡ some (state_of m x msg))
        × (s.sent ≡ parsed authenticate (authentication m x user_name password) ∷ replies m x ps)
  unfolding connect handle_packets
  connect-hands_over user_name password pre mid post msg sync h1 h2 h3 h4 =
      let s0 = started m x user_name password in
      let (s1, r1, i1) =
        handle_packets-Runs m x (IsOpen m x) (IsEarly m x) (Handles-early m x) s0 pre (refl, refl)
          h1 in
      let s2 = record s1 { crypt_state = some (state_of m x msg) } in
      let (s3, r3, i3) =
        handle_packets-Runs m x (IsWaiting m x (some (state_of m x msg))) (IsQuiet m x)
          (Handles-quiet m x (some (state_of m x msg))) s2 mid (i1.0, i1.1, refl) h3 in
      let s4 = record s3 {
        has_sender = false;
        crypt_state = none;
        handed_over = some (state_of m x msg);
      } in
      let (s5, r5, i5) =
        handle_packets-Runs m x (IsDone m x (state_of m x msg)) (IsLater m x)
          (Handles-later m x (state_of m x msg)) s4 post (refl, refl) h4 in
      let r2 =
        Runs-one m x s1 s2 (parsed crypt_setup msg) (handle_packet-setup m x s1 msg (ok tt) h2)
          (sym (append-nil s1.sent)) in
      let r4 =
        Runs-one m x s3 s4 (parsed server_sync sync)
          (handle_packet-sync m x s3 (state_of m x msg) sync (ok tt) i3)
          (sym (append-nil s3.sent)) in
      let (runs, sent) = Runs-append m x s0 s1 s5 pre _ r1 (
        Runs-append m x s1 s2 s5 (parsed crypt_setup msg ∷ []) _ r2 (
          Runs-append m x s2 s3 s5 mid _ r3
            (Runs-append m x s3 s4 s5 (parsed server_sync sync ∷ []) post r4 r5))) in
      (s5, ap (handle_packets m x s0) (sym (append-nil _)) ∙ runs [], i5.1, sent)

  -- When the login is sent and every reply can be, a ServerSync before any CryptSetup makes
  -- `connect` panic, whatever comes behind it.
  pub connect-sync_early :
      (user_name : Bytes) (password : Option Bytes) (pre : List (ControlPacket m clientbound))
      (sync : m.Message server_sync) (answer : Result (Unit {0}) IoError) (es : List (Event m))
      → All (IsQuiet m x) pre
      → connect m x user_name password (ok tt) (
          events m x pre
          ++ (record { packet = ok (parsed server_sync sync); answer = answer } ∷ es))
        ≡ panic
  unfolding connect handle_packets
  connect-sync_early user_name password pre sync answer es h =
      let s0 = started m x user_name password in
      let (s1, r1, i1) =
        handle_packets-Runs m x (IsWaiting m x none) (IsQuiet m x) (Handles-quiet m x none) s0 pre
          (refl, refl, refl) h in
      r1.0 _
      ∙ ap (λ r. r >>= λ s. handle_packets m x s es)
          (handle_packet-sync_early m x s1 sync answer i1)

  -- Without a ServerSync, nothing is handed over.
  pub connect-waits :
      (user_name : Bytes) (password : Option Bytes) (ps : List (ControlPacket m clientbound))
      → All (IsEarly m x) ps
      → (s : Connection m) × (connect m x user_name password (ok tt) (events m x ps) ≡ ok s)
        × (s.handed_over ≡ none)
  unfolding connect handle_packets
  connect-waits user_name password ps h =
      let s0 = started m x user_name password in
      let (s, runs, i) =
        handle_packets-Runs m x (IsOpen m x) (IsEarly m x) (Handles-early m x) s0 ps (refl, refl)
          h in
      (s, ap (handle_packets m x s0) (sym (append-nil (events m x ps))) ∙ runs.0 [], i.1)
