-- ===== src/Control/Packets/Plain.antt =====
-- A simple message format, which meets what is assumed of protobuf.
use rust_mumble_protocol.Base.{◌≢◌, Bytes, ok, panic, IoError}
use rust_mumble_protocol.Control.Packets.{Protobuf, MessageName}
use rust_mumble_protocol.Control.Packets.RoundTrip.{IsProtobuf}

-- Every message is its own bytes.
abbrev pub plain : Protobuf
plain = record {
  Message = λ n. Bytes;
  Error = IoError;
  parse_from_bytes = λ n bytes. ok bytes;
  write_to_bytes = λ n msg. ok msg;
  from_io = λ e. e;
  to_io = λ e. e;
}

pub plain-IsProtobuf : IsProtobuf plain
plain-IsProtobuf = record { parse-write = λ n msg bytes e. cc }

pub plain-total : (n : MessageName) (bytes : Bytes) → plain.parse_from_bytes n bytes ≢ panic
plain-total n bytes = λ e. cc
