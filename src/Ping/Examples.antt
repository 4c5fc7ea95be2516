-- ===== src/Ping/Examples.antt =====
-- Runs of the ping packets, and their theorems at concrete inputs.
use rust_mumble_protocol.Base.{◌≡◌, ◌≢◌, refl, arith, ◌↔◌, [], ◌∷◌, Bytes, IsU64, length, ok, err}
use rust_mumble_protocol.Ping.{
  PingPacket, PongPacket, ParsePongError, ping_try_from, array_from_ping, pong_try_from,
  array_from_pong,
}
use rust_mumble_protocol.Ping.Laws.{IsPong, ping_try_from_iff, pong_try_from_iff}

abbrev twelve : Bytes
twelve = 0 ∷ 0 ∷ 0 ∷ 0 ∷ 1 ∷ 2 ∷ 3 ∷ 4 ∷ 5 ∷ 6 ∷ 7 ∷ 8 ∷ []

abbrev request : PingPacket
request = record { id = 0x0102_0304_0506_0708 }

array_from_ping_run : array_from_ping request ≡ twelve
unfolding array_from_ping
array_from_ping_run = refl

abbrev reply : PongPacket
reply = record {
  id = 0x0102_0304_0506_0708;
  version = 0x01_03_00;
  users = 3;
  max_users = 100;
  bandwidth = 72000;
}

abbrev twenty_four : Bytes
twenty_four =
    0 ∷ 1 ∷ 3 ∷ 0 ∷ 1 ∷ 2 ∷ 3 ∷ 4 ∷ 5 ∷ 6 ∷ 7 ∷ 8 ∷ 0 ∷ 0 ∷ 0 ∷ 3 ∷ 0 ∷ 0 ∷ 0 ∷ 100 ∷ 0 ∷ 1 ∷ 25
    ∷ 64 ∷ []

pong_run : pong_try_from twenty_four ≡ ok reply
unfolding pong_try_from
pong_run = refl

ping_try_from_iff_example :
    (ping_try_from twelve ≡ ok request)
    ↔ (IsU64 0x0102_0304_0506_0708 × (twelve ≡ array_from_ping request))
ping_try_from_iff_example = ping_try_from_iff twelve request (omega arith)

pong_try_from_iff_example :
    ((pong_try_from twenty_four ≡ ok reply)
      ↔ (IsPong reply × (twenty_four ≡ array_from_pong reply)))
    × ((pong_try_from twenty_four ≡ err ParsePongError.invalid_size) ↔ (length twenty_four ≢ 24))
pong_try_from_iff_example = pong_try_from_iff twenty_four reply (omega arith)
