-- ===== src/Control/Packets/Names.antt =====
-- src/control.rs: `ControlPacket::name`.
use rust_mumble_protocol.Base.{
  ◌≡◌, refl, sym, ap, ◌∙◌, Option, none, some, List, [], ◌∷◌, if◌then◌else◌,
}
use rust_mumble_protocol.Voice.{VoicePacketDst}
use rust_mumble_protocol.Control.Packets.{
  version, authenticate, ping, reject, server_sync, channel_remove, channel_state, user_remove,
  user_state, ban_list, text_message, permission_denied, acl, query_users, crypt_setup,
  context_action_modify, context_action, user_list, voice_target, permission_query, codec_version,
  user_stats, request_blob, server_config, suggest_config, PacketName, message, udp_tunnel,
  packet_names, Protobuf, ControlPacket, parsed, tunneled, unknown,
}
use Prim.Native.String.{String}
use text.Mathlib.Text.{◌==◌}

-- `stringify!($name)`
abbrev pub stringify : PacketName → String
stringify (message version) = "Version"
stringify udp_tunnel = "UDPTunnel"
stringify (message authenticate) = "Authenticate"
stringify (message ping) = "Ping"
stringify (message reject) = "Reject"
stringify (message server_sync) = "ServerSync"
stringify (message channel_remove) = "ChannelRemove"
stringify (message channel_state) = "ChannelState"
stringify (message user_remove) = "UserRemove"
stringify (message user_state) = "UserState"
stringify (message ban_list) = "BanList"
stringify (message text_message) = "TextMessage"
stringify (message permission_denied) = "PermissionDenied"
stringify (message acl) = "ACL"
stringify (message query_users) = "QueryUsers"
stringify (message crypt_setup) = "CryptSetup"
stringify (message context_action_modify) = "ContextActionModify"
stringify (message context_action) = "ContextAction"
stringify (message user_list) = "UserList"
stringify (message voice_target) = "VoiceTarget"
stringify (message permission_query) = "PermissionQuery"
stringify (message codec_version) = "CodecVersion"
stringify (message user_stats) = "UserStats"
stringify (message request_blob) = "RequestBlob"
stringify (message server_config) = "ServerConfig"
stringify (message suggest_config) = "SuggestConfig"

module _ (m : Protobuf) (d : VoicePacketDst) where
  unfoldable pub name : ControlPacket m d → String
  name (parsed n inner) = stringify (message n)
  name (tunneled inner) = stringify udp_tunnel
  name (unknown inner) = "unknown"

  -- The packet's variant, `none` for a packet of unknown type.
  abbrev pub variant : ControlPacket m d → Option PacketName
  variant (parsed n inner) = some (message n)
  variant (tunneled inner) = some udp_tunnel
  variant (unknown inner) = none

-- The first of the names that is written so.
named : String → List PacketName → Option PacketName
named s [] = none
named s (n ∷ ns) = if stringify n == s then some n else named s ns

named-stringify : (n : PacketName) → named (stringify n) packet_names ≡ some n
unfolding named
named-stringify udp_tunnel = refl
named-stringify (message version) = refl
named-stringify (message authenticate) = refl
named-stringify (message ping) = refl
named-stringify (message reject) = refl
named-stringify (message server_sync) = refl
named-stringify (message channel_remove) = refl
named-stringify (message channel_state) = refl
named-stringify (message user_remove) = refl
named-stringify (message user_state) = refl
named-stringify (message ban_list) = refl
named-stringify (message text_message) = refl
named-stringify (message permission_denied) = refl
named-stringify (message acl) = refl
named-stringify (message query_users) = refl
named-stringify (message crypt_setup) = refl
named-stringify (message context_action_modify) = refl
named-stringify (message context_action) = refl
named-stringify (message user_list) = refl
named-stringify (message voice_target) = refl
named-stringify (message permission_query) = refl
named-stringify (message codec_version) = refl
named-stringify (message user_stats) = refl
named-stringify (message request_blob) = refl
named-stringify (message server_config) = refl
named-stringify (message suggest_config) = refl

module _ (m : Protobuf) (d : VoicePacketDst) where
  variant-name : (p : ControlPacket m d) → named (name m d p) packet_names ≡ variant m d p
  unfolding name named
  variant-name (parsed n inner) = named-stringify (message n)
  variant-name (tunneled inner) = refl
  variant-name (unknown inner) = refl

  -- Packets with the same name are of the same variant, and none has the name that stands for an
  -- unknown type.
  pub name-injective :
      (p q : ControlPacket m d) → name m d p ≡ name m d q → variant m d p ≡ variant m d q
  name-injective p q e = sym (variant-name p) ∙ ap (λ s. named s packet_names) e ∙ variant-name q
