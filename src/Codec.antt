-- ===== src/Codec.antt =====
-- src/voice.rs, src/control.rs and src/crypt.rs: the implementations of the `Decoder` and `Encoder`
-- traits of tokio_util and of asynchronous_codec, which are alike.
pub mod Reads
pub mod Loop
pub mod Stream
mod Examples
use rust_mumble_protocol.Base.{Option, Bytes, Result, IoError, ◌>>=◌, ok}
use rust_mumble_protocol.Voice.{VoicePacketDst, VoicePacket}
use rust_mumble_protocol.Voice
use rust_mumble_protocol.Control.{RawControlPacket}
use rust_mumble_protocol.Control
use rust_mumble_protocol.Control.Packets.{Protobuf, ControlPacket}
use rust_mumble_protocol.Control.Packets
use rust_mumble_protocol.Crypt.{CryptState}
use rust_mumble_protocol.Crypt
use rust_mumble_protocol.Crypt.Ocb.{Aes128}

-- `decode` returns its result, and the codec and the buffer that it leaves.
pub record Decoder : Type 1 where
  pub State : Type 0
  pub Item : Type 0
  pub decode : State → Bytes → Result (Option Item) IoError × State × Bytes

pub record Encoder : Type 1 where
  pub State : Type 0
  pub Item : Type 0
  pub encode : State → Item → Bytes → Result (State × Bytes) IoError

-- A codec without a field.
abbrev pub without_state {ℓ} : {A : Type ℓ} → A × Bytes → A × Unit {0} × Bytes
without_state (r, buf) = (r, tt, buf)

abbrev pub with_unit : Result Bytes IoError → Result (Unit {0} × Bytes) IoError
with_unit r = r >>= λ dst. ok (tt, dst)

abbrev pub voice_decoder : VoicePacketDst → Decoder
voice_decoder d = record {
  State = Unit;
  Item = VoicePacket d;
  decode = λ _ src. without_state (Voice.decode d src);
}

abbrev pub voice_encoder : VoicePacketDst → Encoder
voice_encoder d = record {
  State = Unit;
  Item = VoicePacket d;
  encode = λ _ item dst. with_unit (Voice.encode d item dst);
}

abbrev pub raw_control_decoder : Decoder
raw_control_decoder = record {
  State = Unit;
  Item = RawControlPacket;
  decode = λ _ src. without_state (Control.decode src);
}

abbrev pub raw_control_encoder : Encoder
raw_control_encoder = record {
  State = Unit;
  Item = RawControlPacket;
  encode = λ _ item dst. with_unit (Control.encode item dst);
}

abbrev pub control_decoder : Protobuf → VoicePacketDst → Decoder
control_decoder m d = record {
  State = Unit;
  Item = ControlPacket m d;
  decode = λ _ src. without_state (Packets.decode m d src);
}

abbrev pub control_encoder : Protobuf → VoicePacketDst → Encoder
control_encoder m d = record {
  State = Unit;
  Item = ControlPacket m d;
  encode = λ _ item dst. with_unit (Packets.encode m d item dst);
}

abbrev pub crypt_decoder : Aes128 → VoicePacketDst → Decoder
crypt_decoder aes d = record {
  State = CryptState;
  Item = VoicePacket d;
  decode = λ s src. Crypt.decode aes d s src;
}

abbrev pub crypt_encoder : Aes128 → VoicePacketDst → Encoder
crypt_encoder aes d = record {
  State = CryptState;
  Item = VoicePacket d;
  encode = λ s item dst. Crypt.encode aes d s item dst;
}

-- The codecs of the library.
pub data CodecName : Type 0 where
  voice_codec raw_control_codec control_codec crypt_state : CodecName

module _ (m : Protobuf) (aes : Aes128) (d : VoicePacketDst) where
  abbrev pub decoder : CodecName → Decoder
  decoder voice_codec = voice_decoder d
  decoder raw_control_codec = raw_control_decoder
  decoder control_codec = control_decoder m d
  decoder crypt_state = crypt_decoder aes d
