-- ===== src/Control/Packets.antt =====
-- src/control.rs: the parsed control packets, their conversions, and `ControlCodec`. The feature
-- webrtc-extensions is off.
pub mod Ids
pub mod Each
pub mod Names
pub mod RoundTrip
pub mod Plain
mod Examples
use rust_mumble_protocol.Base.{
  ℕ, suc, ◌+◌, ◌==◌, if◌then◌else◌, Option, none, some, List, [], ◌∷◌, Bytes, Result, ok, err,
  panic, IoError, other,
}
use rust_mumble_protocol.Control.{RawControlPacket}
use rust_mumble_protocol.Control
use rust_mumble_protocol.Voice
use rust_mumble_protocol.Voice.{VoicePacketDst, VoicePacket}

-- The packets with a protobuf message, and all of them, in the order of `define_packets!`.
pub data MessageName : Type 0 where
  version authenticate ping reject server_sync channel_remove channel_state user_remove user_state
        ban_list text_message permission_denied acl query_users crypt_setup context_action_modify
        context_action user_list voice_target permission_query codec_version user_stats request_blob
        server_config suggest_config :
      MessageName

pub data PacketName : Type 0 where
  message : MessageName → PacketName
  udp_tunnel : PacketName

abbrev pub packet_names : List PacketName
packet_names =
    message version
    ∷ udp_tunnel
    ∷ message authenticate
    ∷ message ping
    ∷ message reject
    ∷ message server_sync
    ∷ message channel_remove
    ∷ message channel_state
    ∷ message user_remove
    ∷ message user_state
    ∷ message ban_list
    ∷ message text_message
    ∷ message permission_denied
    ∷ message acl
    ∷ message query_users
    ∷ message crypt_setup
    ∷ message context_action_modify
    ∷ message context_action
    ∷ message user_list
    ∷ message voice_target
    ∷ message permission_query
    ∷ message codec_version
    ∷ message user_stats
    ∷ message request_blob
    ∷ message server_config
    ∷ message suggest_config
    ∷ []

-- The macro `define_packet_mappings!`: consecutive ids from `id` on.
abbrev pub define_packet_mappings : ℕ → List PacketName → List (ℕ × PacketName)
define_packet_mappings id [] = []
define_packet_mappings id (head ∷ tail) = (id, head) ∷ define_packet_mappings (id + 1) tail

-- The constants of `msgs::id`.
abbrev pub message_id : MessageName → ℕ
message_id version = 0
message_id authenticate = 2
message_id ping = 3
message_id reject = 4
message_id server_sync = 5
message_id channel_remove = 6
message_id channel_state = 7
message_id user_remove = 8
message_id user_state = 9
message_id ban_list = 10
message_id text_message = 11
message_id permission_denied = 12
message_id acl = 13
message_id query_users = 14
message_id crypt_setup = 15
message_id context_action_modify = 16
message_id context_action = 17
message_id user_list = 18
message_id voice_target = 19
message_id permission_query = 20
message_id codec_version = 21
message_id user_stats = 22
message_id request_blob = 23
message_id server_config = 24
message_id suggest_config = 25

abbrev pub id_of : PacketName → ℕ
id_of (message n) = message_id n
id_of udp_tunnel = 1

-- `match packet.id`: the first name with the id.
abbrev pub first_name : ℕ → List (ℕ × PacketName) → Option PacketName
first_name i [] = none
first_name i ((id, n) ∷ rest) = if i == id then some n else first_name i rest

unfoldable pub name_of : ℕ → Option PacketName
name_of i = first_name i (define_packet_mappings 0 packet_names)

-- The generated messages and the protobuf library: a type for each name, its parser and its
-- writer, and the error type with its conversions from and to `io::Error`.
pub record Protobuf : Type 1 where
  pub Message : MessageName → Type 0
  pub Error : Type 0
  pub parse_from_bytes : (n : MessageName) → Bytes → Result (Message n) Error
  pub write_to_bytes : (n : MessageName) → Message n → Result Bytes Error
  pub from_io : IoError → Error
  pub to_io : Error → IoError

-- `map_err` with a conversion, as `?` does it, and `unwrap`.
abbrev pub map_err {ℓ} : {A : Type ℓ} {E F : Type 0} → (E → F) → Result A E → Result A F
map_err f (ok a) = ok a
map_err f (err e) = err (f e)
map_err f panic = panic

abbrev pub map_ok {ℓ κ} : {A : Type ℓ} {B : Type κ} {E : Type 0} → (A → B) → Result A E → Result B E
map_ok f (ok a) = ok (f a)
map_ok f (err e) = err e
map_ok f panic = panic

abbrev pub unwrap {ℓ} : {A : Type ℓ} {E F : Type 0} → Result A E → Result A F
unwrap (ok a) = ok a
unwrap (err e) = panic
unwrap panic = panic

-- `it.expect("VoiceCodec is stateless")`
abbrev pub some_or_panic {ℓ} : {A : Type ℓ} {E : Type 0} → Result (Option A) E → Result A E
some_or_panic (ok (some a)) = ok a
some_or_panic (ok none) = panic
some_or_panic (err e) = err e
some_or_panic panic = panic

module _ (m : Protobuf) (d : VoicePacketDst) where
  pub data ControlPacket : Type 0 where
    parsed : (n : MessageName) → m.Message n → ControlPacket
    tunneled : VoicePacket d → ControlPacket
    unknown : RawControlPacket → ControlPacket

  -- `From<..> for ControlPacket`, for a message and for `VoicePacket`.
  abbrev pub from_message : (n : MessageName) → m.Message n → ControlPacket
  from_message n inner = parsed n inner

  abbrev pub from_voice : VoicePacket d → ControlPacket
  from_voice inner = tunneled inner

  -- `TryFrom<Bytes> for VoicePacket`.
  unfoldable pub voice_try_from_bytes : Bytes → Result (VoicePacket d) IoError
  voice_try_from_bytes bytes = some_or_panic (Voice.decode d bytes).0

  -- `TryFrom<RawControlPacket>` for a message and for `VoicePacket`.
  unfoldable pub message_try_from :
      (n : MessageName) → RawControlPacket → Result (m.Message n) m.Error
  message_try_from n packet =
      if packet.id == message_id n then m.parse_from_bytes n packet.bytes else err (m.from_io other)

  unfoldable pub voice_try_from : RawControlPacket → Result (VoicePacket d) IoError
  voice_try_from packet =
      if packet.id == id_of udp_tunnel then voice_try_from_bytes packet.bytes else err other

  -- `From<..> for RawControlPacket`, for a message and for `VoicePacket`.
  unfoldable pub raw_from_message :
      (n : MessageName) → m.Message n → Result RawControlPacket m.Error
  raw_from_message n msg =
      map_ok (λ bytes. record { id = message_id n; bytes = bytes })
        (unwrap (m.write_to_bytes n msg))

  unfoldable pub raw_from_voice : VoicePacket d → Result RawControlPacket m.Error
  raw_from_voice msg =
      map_ok (λ bytes. record { id = id_of udp_tunnel; bytes = bytes })
        (unwrap (Voice.encode d msg []))

  -- `TryFrom<RawControlPacket> for ControlPacket`.
  unfoldable pub try_from : RawControlPacket → Result ControlPacket m.Error
  try_from packet = elim (name_of packet.id) [
    | some (message n) ↦ map_ok (parsed n) (m.parse_from_bytes n packet.bytes)
    | some udp_tunnel ↦ map_ok tunneled (map_err m.from_io (voice_try_from_bytes packet.bytes))
    | none ↦ ok (unknown packet)
  ]

  -- `From<ControlPacket> for RawControlPacket`.
  unfoldable pub raw_from : ControlPacket → Result RawControlPacket m.Error
  raw_from (parsed n inner) = raw_from_message n inner
  raw_from (tunneled inner) = raw_from_voice inner
  raw_from (unknown inner) = ok inner

  -- `ControlCodec::decode` behind the raw codec.
  abbrev pub convert :
      Result (Option RawControlPacket) IoError × Bytes
      → Result (Option ControlPacket) IoError × Bytes
  convert (ok (some raw_packet), src) = (map_ok some (map_err m.to_io (try_from raw_packet)), src)
  convert (ok none, src) = (ok none, src)
  convert (err e, src) = (err e, src)
  convert (panic, src) = (panic, src)

  unfoldable pub decode : Bytes → Result (Option ControlPacket) IoError × Bytes
  decode src = convert (Control.decode src)

  -- `ControlCodec::encode`; the conversion has no error, only a panic.
  unfoldable pub encode : ControlPacket → Bytes → Result Bytes IoError
  encode item dst = elim (raw_from item) [
    | ok raw_packet ↦ Control.encode raw_packet dst
    | err e ↦ panic
    | panic ↦ panic
  ]
