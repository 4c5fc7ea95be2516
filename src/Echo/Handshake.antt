-- ===== src/Echo/Handshake.antt =====
-- examples/echo_client.rs: what each packet does to a connection, and what lists of them do.
pub mod HandsOver
use rust_mumble_protocol.Base.{
  ℕ, ◌==◌, ==_iff, if◌then◌else◌, ◌≡◌, refl, sym, ap, ◌∙◌, subst, Bool, true, false, Option, none,
  some, List, [], ◌∷◌, ◌++◌, append_assoc, append-nil, All, Bytes, length, Result, ok, err, panic,
  IoError, ◌>>=◌,
}
use rust_mumble_protocol.Voice.{clientbound, serverbound}
use rust_mumble_protocol.Control.Packets.{
  Protobuf, ControlPacket, parsed, tunneled, unknown, authenticate, text_message, crypt_setup,
  server_sync,
}
use rust_mumble_protocol.Crypt.{CryptState, new_from}
use rust_mumble_protocol.Echo.{
  Accessors, Event, Connection, expect_16, authentication, response, handle_packet, handle_packets,
  connect, started,
}

module _ (m : Protobuf) (x : Accessors m) where
  -- A key and nonces of 16 bytes.
  abbrev pub IsSized : m.Message crypt_setup → Type 0
  IsSized msg =
      (length (x.key msg) ≡ 16)
      × (length (x.client_nonce msg) ≡ 16)
      × (length (x.server_nonce msg) ≡ 16)

  abbrev pub state_of : m.Message crypt_setup → CryptState
  state_of msg = new_from (x.key msg) (x.client_nonce msg) (x.server_nonce msg)

  -- Neither a setup nor a sync.
  abbrev pub IsQuiet : ControlPacket m clientbound → Type 0
  IsQuiet (parsed crypt_setup msg) = ⊥
  IsQuiet (parsed server_sync msg) = ⊥
  IsQuiet p = Unit

  -- No sync, and setups are sized.
  abbrev pub IsEarly : ControlPacket m clientbound → Type 0
  IsEarly (parsed crypt_setup msg) = IsSized msg
  IsEarly (parsed server_sync msg) = ⊥
  IsEarly p = Unit

  -- Setups are sized.
  abbrev pub IsLater : ControlPacket m clientbound → Type 0
  IsLater (parsed crypt_setup msg) = IsSized msg
  IsLater p = Unit

  abbrev pub replies : List (ControlPacket m clientbound) → List (ControlPacket m serverbound)
  replies [] = []
  replies (parsed text_message msg ∷ ps) = parsed text_message (response m x msg) ∷ replies ps
  replies (p ∷ ps) = replies ps

  -- The packets come and every send succeeds.
  abbrev pub events : List (ControlPacket m clientbound) → List (Event m)
  events [] = []
  events (p ∷ ps) = record { packet = ok p; answer = ok tt } ∷ events ps

  expect_16-sized : (bytes : Bytes) → length bytes ≡ 16 → expect_16 bytes ≡ ok bytes
  expect_16-sized bytes h = ap (λ t. if t then ok bytes else panic) ((==_iff (length bytes) 16).1 h)

  handle_packet-setup :
      (s : Connection m) (msg : m.Message crypt_setup) (answer : Result (Unit {0}) IoError)
      → IsSized msg
      → handle_packet m x s (parsed crypt_setup msg) answer
        ≡ ok (record s { crypt_state = some (state_of msg) })
  unfolding handle_packet
  handle_packet-setup s msg answer (h1, h2, h3) = rw (expect_16-sized (x.key msg) h1) (
      rw (expect_16-sized (x.client_nonce msg) h2)
        (rw (expect_16-sized (x.server_nonce msg) h3) refl))

  abbrev Handles : (Connection m → Type 0) → Connection m → ControlPacket m clientbound → Type 0
  Handles I s p =
      (s' : Connection m) × (handle_packet m x s p (ok tt) ≡ ok s')
      × (s'.sent ≡ s.sent ++ replies (p ∷ []))
      × I s'

  replies-cons :
      (p : ControlPacket m clientbound) (ps : List (ControlPacket m clientbound))
      → replies (p ∷ ps) ≡ replies (p ∷ []) ++ replies ps
  replies-cons (parsed text_message msg) ps = refl
  replies-cons p ps = refl

  replies-append :
      (ps qs : List (ControlPacket m clientbound)) → replies (ps ++ qs) ≡ replies ps ++ replies qs
  replies-append [] qs = refl
  replies-append (p ∷ ps) qs =
      replies-cons p (ps ++ qs)
      ∙ ap (λ t. replies (p ∷ []) ++ t) (replies-append ps qs)
      ∙ sym (append_assoc (replies (p ∷ [])) (replies ps) (replies qs))
      ∙ ap (λ t. t ++ replies qs) (sym (replies-cons p ps))

  events-append :
      (ps qs : List (ControlPacket m clientbound)) → events (ps ++ qs) ≡ events ps ++ events qs
  events-append [] qs = refl
  events-append (p ∷ ps) qs =
      ap (λ t. record { packet = ok p; answer = ok tt } ∷ t) (events-append ps qs)

  -- The packets lead from one state to the other.
  abbrev Runs : Connection m → List (ControlPacket m clientbound) → Connection m → Type 0
  Runs s ps s' =
      ((es : List (Event m)) → handle_packets m x s (events ps ++ es) ≡ handle_packets m x s' es)
      × (s'.sent ≡ s.sent ++ replies ps)

  Runs-append :
      (s1 s2 s3 : Connection m) (ps qs : List (ControlPacket m clientbound))
      → Runs s1 ps s2
      → Runs s2 qs s3
      → Runs s1 (ps ++ qs) s3
  Runs-append s1 s2 s3 ps qs (e1, sent1) (e2, sent2) = (
    λ es.
        ap (handle_packets m x s1)
          (ap (λ t. t ++ es) (events-append ps qs) ∙ append_assoc (events ps) (events qs) es)
        ∙ e1 (events qs ++ es)
        ∙ e2 es,
    sent2
        ∙ ap (λ t. t ++ replies qs) sent1
        ∙ append_assoc s1.sent (replies ps) (replies qs)
        ∙ ap (λ t. s1.sent ++ t) (sym (replies-append ps qs)),
  )

  Runs-one :
      (s s' : Connection m) (p : ControlPacket m clientbound)
      → handle_packet m x s p (ok tt) ≡ ok s'
      → s'.sent ≡ s.sent ++ replies (p ∷ [])
      → Runs s (p ∷ []) s'
  unfolding handle_packets
  Runs-one s s' p e sent = (λ es. ap (λ r. r >>= λ s. handle_packets m x s es) e, sent)

  -- What each packet keeps, all of them keep.
  handle_packets-Runs :
      (I : Connection m → Type 0) (P : ControlPacket m clientbound → Type 0)
      → ((s : Connection m) (p : ControlPacket m clientbound) → I s → P p → Handles I s p)
      → (s : Connection m) (ps : List (ControlPacket m clientbound)) → I s
      → All P ps
      → (s' : Connection m) × Runs s ps s' × I s'
  handle_packets-Runs I P step s [] i all = (s, (λ es. refl, sym (append-nil s.sent)), i)
  handle_packets-Runs I P step s (p ∷ ps) i (one, all) =
      let (s1, e1, sent1, i1) = step s p i one in
      let (s2, runs, i2) = handle_packets-Runs I P step s1 ps i1 all in
      (s2, Runs-append s s1 s2 (p ∷ []) ps (Runs-one s s1 p e1 sent1) runs, i2)

  -- Nothing is handed over yet, and `crypt_state` has `c`.
  abbrev IsWaiting : Option CryptState → Connection m → Type 0
  IsWaiting c s = (s.has_sender ≡ true) × (s.handed_over ≡ none) × (s.crypt_state ≡ c)

  abbrev IsOpen : Connection m → Type 0
  IsOpen s = (s.has_sender ≡ true) × (s.handed_over ≡ none)

  abbrev IsDone : CryptState → Connection m → Type 0
  IsDone c s = (s.has_sender ≡ false) × (s.handed_over ≡ some c)

  Handles-quiet :
      (c : Option CryptState) (s : Connection m) (p : ControlPacket m clientbound)
      → IsWaiting c s
      → IsQuiet p
      → Handles (IsWaiting c) s p
  unfolding handle_packet
  Handles-quiet c s (parsed text_message msg) i h = (_, refl, refl, i)
  Handles-quiet c s (parsed crypt_setup msg) i h = absurd h
  Handles-quiet c s (parsed server_sync msg) i h = absurd h
  Handles-quiet c s p i h = (s, refl, sym (append-nil s.sent), i)

  Handles-early :
      (s : Connection m) (p : ControlPacket m clientbound)
      → IsOpen s
      → IsEarly p
      → Handles IsOpen s p
  unfolding handle_packet
  Handles-early s (parsed text_message msg) i h = (_, refl, refl, i)
  Handles-early s (parsed crypt_setup msg) i h =
      (_, handle_packet-setup s msg (ok tt) h, sym (append-nil s.sent), i)
  Handles-early s (parsed server_sync msg) i h = absurd h
  Handles-early s p i h = (s, refl, sym (append-nil s.sent), i)

  Handles-later :
      (c : CryptState) (s : Connection m) (p : ControlPacket m clientbound)
      → IsDone c s
      → IsLater p
      → Handles (IsDone c) s p
  unfolding handle_packet
  Handles-later c s (parsed text_message msg) i h = (_, refl, refl, i)
  Handles-later c s (parsed crypt_setup msg) i h =
      (_, handle_packet-setup s msg (ok tt) h, sym (append-nil s.sent), i)
  Handles-later c s (parsed server_sync msg) i h = (
    s,
    ap
        (λ b.
          if b
          then elim s.crypt_state [
            | some c ↦
                ok (record s { has_sender = false; crypt_state = none; handed_over = some c })
            | none ↦ panic
          ]
          else ok s)
        i.0,
    sym (append-nil s.sent),
    i,
  )
  Handles-later c s p i h = (s, refl, sym (append-nil s.sent), i)

  handle_packet-sync :
      (s : Connection m) (c : CryptState) (msg : m.Message server_sync)
      (answer : Result (Unit {0}) IoError)
      → IsWaiting (some c) s
      → handle_packet m x s (parsed server_sync msg) answer
        ≡ ok (record s { has_sender = false; crypt_state = none; handed_over = some c })
  unfolding handle_packet
  handle_packet-sync s c msg answer (h1, h2, h3) = rw h1 (rw h3 refl)

  handle_packet-sync_early :
      (s : Connection m) (msg : m.Message server_sync) (answer : Result (Unit {0}) IoError)
      → IsWaiting none s
      → handle_packet m x s (parsed server_sync msg) answer ≡ panic
  unfolding handle_packet
  handle_packet-sync_early s msg answer (h1, h2, h3) = rw h1 (rw h3 refl)
