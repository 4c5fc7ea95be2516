-- ===== src/Lib.antt =====
-- A verification library for rust-mumble-protocol, an implementation of the Mumble voice chat
-- protocol.
--
-- The program and its model. Byte buffers (`bytes::Bytes`, `BytesMut`, slices) are lists of
-- numbers; `IsBytes` says that each is below 256. Machine integers are natural numbers with the
-- wrap-around written out, as in a release build, which does not check overflow; `usize` has 64
-- bits and the host is little-endian. A function that fails returns a `Result` with a third case,
-- `panic`. A decoder is a step on its buffer that returns what it leaves, after an error too.
--
--   Base      what all parts share: tests, lists, results, bytes and words, bit operations,
--             exclusive or, small signed integers.
--   Buffer    the operations of `BytesMut` that decoders use: `advance`, `split_to`, `split`, and the
--             first byte by index. Each panics where the buffer is too short, as in the library.
--   Varint    src/varint.rs: `read_varint`, `write_varint`, `put_varint`. Format is the
--             description of the format they are compared with; Read, Cases and Sound are about
--             reading, Write and RoundTrip about writing, Depth about the nesting of the calls of
--             `read_varint`, which it counts in `read_varint_calls`. The only recursion of
--             `write_varint` clears the top bit, so the two calls that the model has are enough;
--             past them it would panic.
--   Voice     src/voice.rs: `VoiceCodec::decode` and `encode`. The direction of packets, the
--             trait `VoicePacketDst`, is a record of operations; Voice.Dst has its laws and
--             proves them of `Serverbound` and `Clientbound`. The loop over frames has as much
--             fuel as there are bytes and one more round; each round takes a byte, so it never
--             runs out.
--   Ping      src/ping.rs: the conversions of `PingPacket` and `PongPacket`.
--   Control   src/control.rs: `RawControlPacket` and `RawControlCodec`. Control.Stream is the raw
--             codec on a connection that delivers bytes in chunks. Control.Packets is the enum
--             `ControlPacket`, its ids, names and conversions, and `ControlCodec`.
--   Crypt     src/crypt.rs: `CryptState` and its operations. `check_nonce` is the part of
--             `decrypt` that chooses a nonce, `open_split` what follows `split_to`, `open_packet`
--             what follows the choice, `count_packet` the statistics and the history. NonceWindow
--             and Choice are about the choice of the nonce, Outcome, State and Decoder about one
--             call, Statistics about any calls, Sealed and Delivery about a packet from one side to
--             the other, Memory and Replay about packets that come twice, Attacks about the branch
--             that returns `Late`, the zeros that a history starts with and a datagram made without
--             the key, Session about a sender and a receiver over a network, with Channel as what
--             they promise. Session.Duplex has two sides that both send and receive, each with one
--             state, by Directions, and Session.Fresh sets them up as server and client do;
--             Session.Resync is about `set_decrypt_nonce`, Session.Tally about the counts. UnitTests
--             and TestVectors have the source's own tests. Ocb has the block cipher mode:
--             `ocb_encrypt`, `ocb_decrypt`, `s2`. The loops have as many rounds as the buffer has
--             bytes, which is enough since each takes 16; out of rounds the model takes the
--             assertion behind the loop to fail. Ocb.Standard is the published description of the
--             mode, with which Ocb.Implements compares it, and Ocb.Aes the published AES.
--   Codec     the implementations of the codec traits in src/voice.rs, src/control.rs and
--             src/crypt.rs, as values of one interface. Reads is about one call of a decoder,
--             Loop about a reader that calls it until it stops; its fuel is one more than the
--             bytes. Stream is about `ControlCodec` on a connection that delivers chunks.
--   Echo      examples/echo_client.rs: `connect` on the items of the control connection, and
--             `handle_udp` on those of the voice connection. Handshake is about the first,
--             Conversation about the second between the codecs of both sides, Client about both,
--             Udp about what is sent to where, CommandLine has the options of `main`, and Main has
--             `main`, which opens the connections. A panic of either half of `join!` ends `main`.
--
-- How they interact: `encrypt` calls the voice encoder and then OCB, `decrypt` OCB and then the
-- voice decoder; a voice packet may also be tunneled in a control packet; the voice codec reads and
-- writes session ids, sequence numbers and Opus headers as variable-length integers. The echo
-- client puts the control codec on TCP and, with the state that the server's setup message makes,
-- the encryption on UDP.
--
-- Parameters. AES-128 on a block comes from openssl: `Aes128` in Crypt.Ocb has its two functions,
-- and `IsCipher` in Crypt.Ocb.Cipher the documented law that, under a key, they permute blocks of
-- 16 bytes and undo each other. Ocb.Aes shows that AES as FIPS 197 publishes it has this law, and
-- the tests run with it; no theorem about the code rests on it. The random key of `generate_new` is
-- an argument. The generated messages and the protobuf library are the record `Protobuf` in
-- Control.Packets; `IsProtobuf` is the law that the library parses what it has written. The
-- accessors of the messages that the echo client uses are the record `Accessors` in Echo. What a
-- stream yields and what a sink answers are arguments of the loops; what the library that reads the
-- command line assigns for the table of options, and what name resolution, sockets and TLS answer,
-- is the record `World` in Echo.Main.
--
-- Not modelled: the protobuf messages and the build script that generates them, the messages of the
-- feature webrtc-extensions, src/lib.rs, which has no code, and what examples/echo_client.rs prints.
pub mod Base
pub mod Buffer
pub mod Varint
pub mod Control
pub mod Crypt
pub mod Codec
pub mod Echo
pub mod Ping
pub mod Voice
