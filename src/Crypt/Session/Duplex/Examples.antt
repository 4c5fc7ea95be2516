-- ===== src/Crypt/Session/Duplex/Examples.antt =====
-- A packet to the server and a ping back, which both come.
use rust_mumble_protocol.Base.{◌≡◌, refl, arith, true, ◌+◌, ◌^◌, List, [], ◌∷◌, Bytes, ok, bytes_eq}
use mathlib.Core.List.{Subperm}
use rust_mumble_protocol.Varint.{
  read_varint, read_wide, write_varint, write_varint_calls, plain_bytes, put_varint,
}
use rust_mumble_protocol.Varint.Write.{encoding-IsEncoding}
use rust_mumble_protocol.Voice
use rust_mumble_protocol.Voice.{
  VoicePacket, ping, serverbound, clientbound, kind_of, put_payload, put_frames, put_position_info,
  read_payload, read_framed, read_frames, frames_payload, read_position_info,
}
use rust_mumble_protocol.Voice.Dst.{serverbound-IsLawful, clientbound-IsLawful}
use rust_mumble_protocol.Crypt.{
  CryptState, Decrypted, encrypt, decrypt, open_packet, check_nonce, count_packet,
}
use rust_mumble_protocol.Crypt.Channel.{sent_at}
use rust_mumble_protocol.Crypt.Examples.{
  two_frames, receiver, wire, two_frames-IsWellFormed, two_frames-IsBytes,
}
use rust_mumble_protocol.Crypt.Ocb.{
  s2, aes_encrypt, aes_decrypt, encrypt_rest, encrypt_loop, ocb_encrypt, decrypt_rest, decrypt_loop,
  ocb_decrypt,
}
use rust_mumble_protocol.Crypt.Ocb.Examples.{flips, flips-IsCipher, counted}
use rust_mumble_protocol.Crypt.Session.{heard}
use rust_mumble_protocol.Crypt.Session.Fresh.{server_state, client_state, fresh-delivered}
use rust_mumble_protocol.Crypt.Session.Lossy.{transmit, all_ok}
use rust_mumble_protocol.Crypt.Ocb.Aes.{
  aes_128, encrypt_block, encrypt_rounds, from_bytes, to_bytes, add_round_key, next_key, shift_rows,
  sub_bytes, mix_column, xtime,
}
use rust_mumble_protocol.Crypt.Ocb.Aes.Sbox.{sub_byte}
use rust_mumble_protocol.Crypt.Ocb.Aes.Permutes.{aes_128-IsCipher}
use rust_mumble_protocol.Crypt.Session.Duplex.{
  Duplex, begins, a_sends, b_sends, b_hears, a_hears, Duplex-subperm,
}

-- Both sides when they have sent something.
abbrev sent : CryptState
sent = record receiver { encrypt_nonce = 1 }

abbrev ping_wire : Bytes
ping_wire = 1 ∷ 217 ∷ 252 ∷ 255 ∷ 34 ∷ 3 ∷ []

ping_sent : encrypt flips clientbound receiver (ping 3) [] ≡ ok (sent, ping_wire)
unfolding encrypt Voice.encode put_payload put_frames put_position_info kind_of put_varint
    write_varint write_varint_calls plain_bytes ocb_encrypt encrypt_loop encrypt_rest aes_encrypt s2
ping_sent = refl

frames_sent : encrypt flips serverbound receiver two_frames [] ≡ ok (sent, wire)
unfolding encrypt Voice.encode put_payload put_frames put_position_info kind_of put_varint
    write_varint write_varint_calls plain_bytes ocb_encrypt encrypt_loop encrypt_rest aes_encrypt s2
frames_sent = refl

abbrev at_server : Decrypted serverbound
at_server = decrypt flips serverbound sent wire

abbrev at_client : Decrypted clientbound
at_client = decrypt flips clientbound sent ping_wire

abbrev server_heard : List (VoicePacket serverbound)
server_heard = heard flips serverbound serverbound-IsLawful at_server.0 []

abbrev client_heard : List (VoicePacket clientbound)
client_heard = heard flips clientbound clientbound-IsLawful at_client.0 []

traffic :
    Duplex flips serverbound clientbound serverbound-IsLawful clientbound-IsLawful receiver receiver
      at_client.1 at_server.1
      ((two_frames, wire) ∷ [])
      server_heard
      ((ping 3, ping_wire) ∷ [])
      client_heard
unfolding sent_at
traffic =
    a_hears 0 (ping 3) ping_wire
      (b_hears 0 two_frames wire
        (b_sends (ping 3) ping_wire
          (a_sends two_frames wire begins two_frames-IsWellFormed two_frames-IsBytes (omega arith)
            frames_sent)
          (omega arith) (omega arith, (encoding-IsEncoding 3 (omega arith)).bytes) (omega arith)
          ping_sent)
        refl (omega arith) (omega arith))
      refl (omega arith) (omega arith)

Duplex-subperm_example : Subperm server_heard (two_frames ∷ []) × Subperm client_heard (ping 3 ∷ [])
Duplex-subperm_example =
    Duplex-subperm flips serverbound clientbound serverbound-IsLawful clientbound-IsLawful
      flips-IsCipher receiver receiver at_client.1 at_server.1 ((two_frames, wire) ∷ [])
      server_heard ((ping 3, ping_wire) ∷ []) client_heard refl (omega arith) (omega arith)
      (omega arith) (omega arith) refl refl traffic

-- Both have come.
server_heard_it : server_heard ≡ two_frames ∷ []
unfolding decrypt Voice.decode open_packet check_nonce count_packet read_payload read_framed
    read_frames frames_payload read_position_info read_varint read_wide ocb_decrypt decrypt_loop
    decrypt_rest aes_encrypt aes_decrypt s2 bytes_eq
server_heard_it = refl

client_heard_it : client_heard ≡ ping 3 ∷ []
unfolding decrypt Voice.decode open_packet check_nonce count_packet read_payload read_framed
    read_frames frames_payload read_position_info read_varint read_wide ocb_decrypt decrypt_loop
    decrypt_rest aes_encrypt aes_decrypt s2 bytes_eq
client_heard_it = refl

-- A connection with the published AES, on which the client sends one packet.
abbrev client_sent : CryptState
client_sent = record (client_state counted) { encrypt_nonce = 2 ^ 127 + 1 }

abbrev sealed_wire : Bytes
sealed_wire = 1 ∷ 121 ∷ 212 ∷ 255 ∷ 225 ∷ 103 ∷ 111 ∷ 39 ∷ 231 ∷ 76 ∷ 233 ∷ []

client_sends :
    encrypt aes_128 serverbound (client_state counted) two_frames [] ≡ ok (client_sent, sealed_wire)
unfolding encrypt Voice.encode put_payload put_frames put_position_info kind_of put_varint
    write_varint write_varint_calls plain_bytes ocb_encrypt encrypt_loop encrypt_rest aes_encrypt s2
    encrypt_block encrypt_rounds from_bytes to_bytes add_round_key next_key shift_rows sub_bytes
    mix_column xtime sub_byte
client_sends = refl

abbrev arrived : Decrypted serverbound
arrived = decrypt aes_128 serverbound (server_state counted) sealed_wire

fresh_traffic :
    Duplex aes_128 serverbound clientbound serverbound-IsLawful clientbound-IsLawful
      (client_state counted)
      (server_state counted)
      client_sent
      arrived.1
      ((two_frames, sealed_wire) ∷ [])
      (heard aes_128 serverbound serverbound-IsLawful arrived.0 [])
      []
      []
unfolding sent_at
fresh_traffic =
    b_hears 0 two_frames sealed_wire
      (a_sends two_frames sealed_wire begins two_frames-IsWellFormed two_frames-IsBytes
        (omega arith) client_sends)
      refl (omega arith) (omega arith)

fresh-delivered_example :
    (transmit aes_128 serverbound
        (client_state counted)
        (server_state counted)
        ((two_frames, true) ∷ [])
      ≡ all_ok (two_frames ∷ []))
    × (transmit aes_128 clientbound
          (server_state counted)
          (client_state counted)
          ((ping 3, true) ∷ [])
        ≡ all_ok (ping 3 ∷ []))
    × Subperm (heard aes_128 serverbound serverbound-IsLawful arrived.0 []) (two_frames ∷ [])
    × Subperm {A = VoicePacket clientbound} [] []
fresh-delivered_example =
    fresh-delivered aes_128 aes_128-IsCipher counted ((two_frames, true) ∷ []) ((ping 3, true) ∷ [])
      client_sent arrived.1 ((two_frames, sealed_wire) ∷ [])
      (heard aes_128 serverbound serverbound-IsLawful arrived.0 []) [] [] (omega arith, tt)
      ((two_frames-IsWellFormed, two_frames-IsBytes), tt) (omega arith, tt)
      ((omega arith, (omega arith, (encoding-IsEncoding 3 (omega arith)).bytes)), tt) fresh_traffic
