-- ===== src/Echo/Udp.antt =====
-- examples/echo_client.rs: what `handle_udp` sends for what comes, and to where.
use rust_mumble_protocol.Base.{
  panic, ◌++◌, Bytes, Option, ◌≡◌, refl, ap, none, some, List, [], ◌∷◌, replicate, true, ℕ, ok, err,
  IoError,
}
use rust_mumble_protocol.Voice.{VoicePacket, VoicePacketPayload, ping, audio, opus, clientbound}
use rust_mumble_protocol.Crypt.{CryptState}
use rust_mumble_protocol.Echo.{UdpEvent, Sent, echo, handle_udp}

module _ (Addr : Type 0) where
  -- What comes by UDP: a packet with its sender's address, or a datagram that is not understood.
  pub data Arrival : Type 0 where
    heard : VoicePacket clientbound → Addr → Arrival
    garbled : IoError → Arrival

  -- These come, and every send succeeds.
  abbrev pub arrivals : List Arrival → List (UdpEvent Addr)
  arrivals [] = []
  arrivals (heard packet from ∷ arrived) =
      record { packet = ok (packet, from); answer = ok tt } ∷ arrivals arrived
  arrivals (garbled e ∷ arrived) = record { packet = err e; answer = ok tt } ∷ arrivals arrived

  -- The audio packets, each as it goes back to where it came from: its sequence number, frames and
  -- position, to target 0.
  abbrev pub answers : List Arrival → List (Sent Addr)
  answers [] = []
  answers (heard (ping timestamp) from ∷ arrived) = answers arrived
  answers (heard (audio target session_id seq_num payload position_info) from ∷ arrived) =
      (audio 0 tt seq_num payload position_info, from) ∷ answers arrived
  answers (garbled e ∷ arrived) = answers arrived

  -- The packet by which the server accepts the client: 128 zeros as Opus.
  abbrev pub opening : Addr → Sent Addr
  opening addr = (audio 0 tt 0 (opus (replicate 128 0) true) none, addr)

  echo-answers : (arrived : List Arrival) → echo Addr (arrivals arrived) ≡ (answers arrived, ok tt)
  unfolding echo
  echo-answers [] = refl
  echo-answers (heard (ping timestamp) from ∷ arrived) = echo-answers arrived
  echo-answers (heard (audio target session_id seq_num payload position_info) from ∷ arrived) =
      ap (λ r. ((audio 0 tt seq_num payload position_info, from) ∷ r.0, r.1)) (echo-answers arrived)
  echo-answers (garbled e ∷ arrived) = echo-answers arrived

  pub handle_udp-answers :
      (addr : Addr) (c : CryptState) (arrived : List Arrival)
      → handle_udp Addr addr (some c) (ok tt) (arrivals arrived)
        ≡ (opening addr ∷ answers arrived, ok tt)
  unfolding handle_udp
  handle_udp-answers addr c arrived = ap (λ r. (opening addr ∷ r.0, r.1)) (echo-answers arrived)

  -- An audio packet whose echo cannot be sent for `e`.
  abbrev pub unsent :
      (target session_id seq_num : ℕ)
      → VoicePacketPayload
      → Option Bytes
      → Addr
      → IoError
      → UdpEvent Addr
  unsent target session_id seq_num payload position_info from e = record {
    packet = ok (audio target session_id seq_num payload position_info, from);
    answer = err e;
  }

  -- Then the loop panics, whatever else comes.
  echo-unsent :
      (before : List Arrival) (target session_id seq_num : ℕ) (payload : VoicePacketPayload)
      (position_info : Option Bytes) (from : Addr) (e : IoError) (es : List (UdpEvent Addr))
      → (echo Addr (
          arrivals before
          ++ (unsent target session_id seq_num payload position_info from e ∷ es))).1
        ≡ panic
  unfolding echo
  echo-unsent [] target id seq payload pos from e es = refl
  echo-unsent (heard (ping timestamp) sender ∷ before) target id seq payload pos from e es =
      echo-unsent before target id seq payload pos from e es
  echo-unsent (heard (audio t i n q o) sender ∷ before) target id seq payload pos from e es =
      echo-unsent before target id seq payload pos from e es
  echo-unsent (garbled error ∷ before) target id seq payload pos from e es =
      echo-unsent before target id seq payload pos from e es

  pub handle_udp-unsent :
      (addr : Addr) (c : CryptState) (before : List Arrival) (target session_id seq_num : ℕ)
      (payload : VoicePacketPayload) (position_info : Option Bytes) (from : Addr) (e : IoError)
      (es : List (UdpEvent Addr))
      → (handle_udp Addr addr (some c) (ok tt) (
          arrivals before
          ++ (unsent target session_id seq_num payload position_info from e ∷ es))).1
        ≡ panic
  unfolding handle_udp
  handle_udp-unsent addr c before target id seq payload pos from e es =
      echo-unsent before target id seq payload pos from e es
