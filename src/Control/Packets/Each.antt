-- ===== src/Control/Packets/Each.antt =====
-- src/control.rs: the conversion to `ControlPacket` is the conversion to the type of the packet's id.
use rust_mumble_protocol.Base.{◌≡◌, refl, ==_iff, Result}
use rust_mumble_protocol.Voice.{VoicePacketDst}
use rust_mumble_protocol.Control.{RawControlPacket}
use rust_mumble_protocol.Control.Packets.{
  message, udp_tunnel, PacketName, message_id, id_of, Protobuf, map_ok, map_err, ControlPacket,
  parsed, tunneled, message_try_from, voice_try_from, try_from,
}
use rust_mumble_protocol.Control.Packets.Ids.{name_of_iff}

module _ (m : Protobuf) (d : VoicePacketDst) where
  -- The conversion to the one type that a name stands for.
  abbrev pub to_named : PacketName → RawControlPacket → Result (ControlPacket m d) m.Error
  to_named (message n) packet = map_ok (parsed n) (message_try_from m d n packet)
  to_named udp_tunnel packet = map_ok tunneled (map_err m.from_io (voice_try_from m d packet))

  -- For a raw packet with the id of a known name, the conversion to `ControlPacket` gives what the
  -- conversion to that name's own type gives, errors included, as the variant of the name.
  pub try_from-to_named :
      (n : PacketName) (packet : RawControlPacket)
      → packet.id ≡ id_of n
      → try_from m d packet ≡ to_named n packet
  unfolding try_from message_try_from voice_try_from
  try_from-to_named (message n) packet e =
      rw (try_from, (name_of_iff packet.id (message n)).1 e)
        (rw (message_try_from, (==_iff packet.id (message_id n)).1 e) refl)
  try_from-to_named udp_tunnel packet e =
      rw (try_from, (name_of_iff packet.id udp_tunnel).1 e)
        (rw (voice_try_from, (==_iff packet.id 1).1 e) refl)
