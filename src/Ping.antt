-- ===== src/Ping.antt =====
-- src/ping.rs: UDP ping and pong packets, of 12 and 24 bytes.
pub mod Laws
pub mod Examples
use rust_mumble_protocol.Base.{
  ℕ, ◌≤◌, not, [], ◌∷◌, ◌++◌, ◌==◌, if◌then◌else◌, Bytes, bytes_eq, slice,
}
use rust_mumble_protocol.Base.{length, to_be_bytes, from_be_bytes, Result, ok, err}

pub record PingPacket : Type 0 where
  pub id : ℕ

pub record PongPacket : Type 0 where
  pub id : ℕ
  pub version : ℕ
  pub users : ℕ
  pub max_users : ℕ
  pub bandwidth : ℕ

pub data ParsePingError : Type 0 where
  invalid_size invalid_header : ParsePingError

pub data ParsePongError : Type 0 where
  invalid_size : ParsePongError

-- `TryFrom<&[u8]> for PingPacket`.
pub ping_try_from : Bytes → Result PingPacket ParsePingError
ping_try_from buf =
    if length buf == 12
    then (if not (bytes_eq (slice 0 4 buf) (0 ∷ 0 ∷ 0 ∷ 0 ∷ []))
        then err invalid_header
        else ok (record { id = from_be_bytes (slice 4 12 buf) }))
    else err ParsePingError.invalid_size

-- `From<PingPacket> for [u8; 12]`.
pub array_from_ping : PingPacket → Bytes
array_from_ping packet = 0 ∷ 0 ∷ 0 ∷ 0 ∷ to_be_bytes 8 packet.id

-- `TryFrom<&[u8]> for PongPacket`.
pub pong_try_from : Bytes → Result PongPacket ParsePongError
pong_try_from buf =
    if length buf == 24
    then ok (record {
      version = from_be_bytes (slice 0 4 buf);
      id = from_be_bytes (slice 4 12 buf);
      users = from_be_bytes (slice 12 16 buf);
      max_users = from_be_bytes (slice 16 20 buf);
      bandwidth = from_be_bytes (slice 20 24 buf);
    })
    else err ParsePongError.invalid_size

-- `From<PongPacket> for [u8; 24]`.
pub array_from_pong : PongPacket → Bytes
array_from_pong packet =
    to_be_bytes 4 packet.version
    ++ (to_be_bytes 8 packet.id
        ++ (to_be_bytes 4 packet.users
            ++ (to_be_bytes 4 packet.max_users ++ to_be_bytes 4 packet.bandwidth)))
