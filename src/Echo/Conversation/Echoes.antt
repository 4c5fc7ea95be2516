-- ===== src/Echo/Conversation/Echoes.antt =====
-- examples/echo_client.rs: a server that calls the client hears its own audio packets.
use rust_mumble_protocol.Base.{
  ℕ, ◌+◌, ◌^◌, ◌<◌, ◌≡◌, refl, sym, ap, ◌∙◌, subst, arith, Option, some, List, [], ◌∷◌, ◌++◌, Bytes,
  IsBytes, IsBytes-append, IsBytes-append_right, IsBytes-replicate, length, replicate,
  from_le_bytes, from_le_bytes-lt, Result, ok, err, IoError,
}
use rust_mumble_protocol.Voice.{
  VoicePacket, VoicePacketPayload, ping, audio, serverbound, clientbound, kind_of,
}
use rust_mumble_protocol.Voice.Dst.{serverbound-IsLawful, clientbound-IsLawful}
use rust_mumble_protocol.Voice.RoundTrip.{IsWellFormed, packet_bytes}
use rust_mumble_protocol.Varint.Write.{encoding, encoding-IsEncoding}
use rust_mumble_protocol.Crypt.{
  CryptState, DecryptError, eof, add128, encrypt, decrypt, Decrypted, new_from,
}
use rust_mumble_protocol.Crypt
use rust_mumble_protocol.Crypt.Ocb.{Aes128}
use rust_mumble_protocol.Crypt.Ocb.Cipher.{IsCipher}
use rust_mumble_protocol.Crypt.Delivery.{received, decrypt-encrypt}
use rust_mumble_protocol.Crypt.Session.Lossy.{all_ok}
use rust_mumble_protocol.Echo.{handle_udp, dummy, echo}
use rust_mumble_protocol.Echo.Conversation.{
  Heard, event_of, send_all, client, server, conversation, call, echoes, AreSendable, InStep,
}

module _ (aes : Aes128) (cipher : IsCipher aes) where
  decode-decrypt :
      (c : CryptState) (p : VoicePacket clientbound) (c' : CryptState) (bytes : Bytes)
      → decrypt aes clientbound c bytes ≡ (ok (ok p), c', [])
      → Crypt.decode aes clientbound c bytes ≡ (ok (some p), c', [])
  unfolding Crypt.decode decrypt
  decode-decrypt c p c' [] e =
      let short : err eof ≡ ok (ok p) = ap (λ (o : Decrypted clientbound). o.0) e in cc
  decode-decrypt c p c' (b ∷ bytes) e =
      ap (λ (o : Decrypted clientbound). (Crypt.flatten_error aes clientbound o.0, o.1, o.2)) e

  reply-IsWellFormed :
      (target id seq : ℕ) (payload : VoicePacketPayload) (position : Option Bytes)
      → IsWellFormed clientbound clientbound-IsLawful (audio target id seq payload position)
      → IsWellFormed serverbound serverbound-IsLawful (audio 0 tt seq payload position)
  reply-IsWellFormed target id seq payload position (h1, h2, h3, h4, h5) =
      (omega arith, tt, h3, h4, h5)

  reply-IsBytes :
      (target id seq : ℕ) (payload : VoicePacketPayload) (position : Option Bytes)
      → IsBytes
          (packet_bytes clientbound clientbound-IsLawful (audio target id seq payload position))
      → IsBytes (packet_bytes serverbound serverbound-IsLawful (audio 0 tt seq payload position))
  reply-IsBytes target id seq payload position (h1, h2) =
      (omega arith, IsBytes-append_right (encoding id) _ h2)

  -- A reply arrives.
  server-send_all :
      (a c : CryptState) (p : VoicePacket serverbound)
      → a.key ≡ c.key
      → c.encrypt_nonce ≡ add128 a.decrypt_nonce 0
      → IsWellFormed serverbound serverbound-IsLawful p
      → IsBytes (packet_bytes serverbound serverbound-IsLawful p)
      → (bytes : Bytes) × (send_all aes c ((p, tt) ∷ [])
          ≡ some (bytes ∷ [], record c { encrypt_nonce = add128 c.encrypt_nonce 1 }))
        × (server aes a (bytes ∷ []) ≡ (ok (ok p) ∷ [], received a (add128 c.encrypt_nonce 1) 0))
  unfolding send_all server
  server-send_all a c p keys up wf hb =
      let (bytes, seals, opens) =
        decrypt-encrypt aes cipher serverbound serverbound-IsLawful c a 1 p [] (sym keys)
          (omega arith) (omega arith) (omega arith) wf hb in
      (bytes, rw (send_all, seals) refl, rw (server, opens) refl)

  client-ping :
      (c c' : CryptState) (bytes : Bytes) (timestamp : ℕ)
      → decrypt aes clientbound c bytes ≡ (ok (ok (ping timestamp)), c', [])
      → client aes c bytes ≡ some ([], c')
  unfolding client echo send_all
  client-ping c c' bytes timestamp e =
      ap
        (λ (o : Result (Option (VoicePacket clientbound)) IoError × CryptState × Bytes).
          send_all aes o.1 (echo (Unit {0}) (event_of aes o.0)).0)
        (decode-decrypt c (ping timestamp) c' bytes e)

  client-audio :
      (c c' : CryptState) (bytes : Bytes) (target id seq : ℕ) (payload : VoicePacketPayload)
      (position : Option Bytes)
      → decrypt aes clientbound c bytes ≡ (ok (ok (audio target id seq payload position)), c', [])
      → client aes c bytes ≡ send_all aes c' ((audio 0 tt seq payload position, tt) ∷ [])
  unfolding client echo
  client-audio c c' bytes target id seq payload position e =
      ap
        (λ (o : Result (Option (VoicePacket clientbound)) IoError × CryptState × Bytes).
          send_all aes o.1 (echo (Unit {0}) (event_of aes o.0)).0)
        (decode-decrypt c (audio target id seq payload position) c' bytes e)

  conversation-step :
      (a a' c c' : CryptState) (p : VoicePacket clientbound) (ps : List (VoicePacket clientbound))
      (bytes : Bytes) (ds : List Bytes)
      → encrypt aes clientbound a p [] ≡ ok (a', bytes)
      → client aes c bytes ≡ some (ds, c')
      → conversation aes a c (p ∷ ps)
        ≡ (server aes a' ds).0 ++ conversation aes (server aes a' ds).1 c' ps
  unfolding conversation
  conversation-step a a' c c' p ps bytes ds e1 e2 = rw (conversation, e1, e2) refl

  conversation-echoes :
      (a c : CryptState) (ps : List (VoicePacket clientbound))
      → InStep a c
      → AreSendable ps
      → conversation aes a c ps ≡ all_ok (echoes ps)
  unfolding conversation server
  conversation-echoes a c [] i h = refl
  conversation-echoes a c (ping t ∷ ps) i ((wf, hb), h) =
      let up = i.up in
      let down = i.down in
      let (bytes, seals, opens) =
        decrypt-encrypt aes cipher clientbound clientbound-IsLawful a c 1 (ping t) [] i.keys
          (omega arith) (omega arith) (omega arith) wf hb in
      let a' = record a { encrypt_nonce = add128 a.encrypt_nonce 1 } in
      let c' = received c (add128 a.encrypt_nonce 1) 0 in
      conversation-step a a' c c' (ping t) ps bytes [] seals (client-ping c c' bytes t opens)
      ∙ conversation-echoes a' c' ps (record { keys = i.keys; down = omega arith; up = i.up }) h
  conversation-echoes a c (audio target id seq payload position ∷ ps) i ((wf, hb), h) =
      let up = i.up in
      let down = i.down in
      let (bytes, seals, opens) =
        decrypt-encrypt aes cipher clientbound clientbound-IsLawful a c 1
          (audio target id seq payload position) [] i.keys (omega arith) (omega arith) (omega arith)
          wf hb in
      let a' = record a { encrypt_nonce = add128 a.encrypt_nonce 1 } in
      let c' = received c (add128 a.encrypt_nonce 1) 0 in
      let (out, sent, heard) =
        server-send_all a' c' (audio 0 tt seq payload position) i.keys i.up
          (reply-IsWellFormed target id seq payload position wf)
          (reply-IsBytes target id seq payload position hb) in
      let a'' = received a' (add128 c'.encrypt_nonce 1) 0 in
      let c'' = record c' { encrypt_nonce = add128 c'.encrypt_nonce 1 } in
      conversation-step a a' c c'' (audio target id seq payload position) ps bytes (out ∷ []) seals
        (client-audio c c' bytes target id seq payload position opens ∙ sent)
      ∙ ap (λ (r : List Heard × CryptState). r.0 ++ conversation aes r.1 c'' ps) heard
      ∙ ap (λ t. ok (ok (audio 0 tt seq payload position)) ∷ t)
          (conversation-echoes a'' c'' ps
            (record { keys = i.keys; down = omega arith; up = omega arith }) h)

  call-step :
      (a c c' : CryptState) (ps : List (VoicePacket clientbound)) (ds : List Bytes)
      → send_all aes c ((dummy, tt) ∷ []) ≡ some (ds, c')
      → call aes a c ps ≡ (server aes a ds).0 ++ conversation aes (server aes a ds).1 c' ps
  unfolding call handle_udp echo
  call-step a c c' ps ds e = rw (call, e) refl

  dummy-IsWellFormed : IsWellFormed serverbound serverbound-IsLawful dummy
  dummy-IsWellFormed = (omega arith, tt, omega arith, (omega arith), tt)

  dummy-IsBytes : IsBytes (packet_bytes serverbound serverbound-IsLawful dummy)
  unfolding kind_of
  dummy-IsBytes = (
    omega arith,
    IsBytes-append (encoding 0) _ (encoding-IsEncoding 0 (omega arith)).bytes (
        IsBytes-append _ []
          (IsBytes-append (encoding (0x2000 + 128)) (replicate 128 0)
            (encoding-IsEncoding (0x2000 + 128) (omega arith)).bytes
            (IsBytes-replicate 128 0 (omega arith)))
          tt),
  )

  from_le_bytes-u128 :
      (nonce : Bytes) → IsBytes nonce → length nonce ≡ 16 → from_le_bytes nonce < 2 ^ 128
  from_le_bytes-u128 nonce h size =
      omega
        (arith, subst (λ (n : ℕ). from_le_bytes nonce < 256 ^ n) size (from_le_bytes-lt nonce h))

  -- If AES permutes blocks, the server's state is made of the same key and of the same nonces, the
  -- other way round, and both nonces are 16 bytes, then of any well-formed packets that the server
  -- sends, encoded as bytes, on a network that loses none, it hears the dummy packet and then the
  -- echo of each audio packet: its sequence number, frames and position, to target 0. Pings get no
  -- answer, and nothing fails at either side.
  pub call-echoes :
      (key client_nonce server_nonce : Bytes) (ps : List (VoicePacket clientbound))
      → IsBytes client_nonce
      → IsBytes server_nonce
      → length client_nonce ≡ 16
      → length server_nonce ≡ 16
      → AreSendable ps
      → call aes
          (new_from key server_nonce client_nonce)
          (new_from key client_nonce server_nonce)
          ps
        ≡ all_ok (dummy ∷ echoes ps)
  call-echoes key client_nonce server_nonce ps h1 h2 e1 e2 h =
      let a = new_from key server_nonce client_nonce in
      let c = new_from key client_nonce server_nonce in
      let low1 = from_le_bytes-u128 client_nonce h1 e1 in
      let low2 = from_le_bytes-u128 server_nonce h2 e2 in
      let (out, sent, heard) =
        server-send_all a c dummy refl (omega arith) dummy-IsWellFormed dummy-IsBytes in
      let a' = received a (add128 c.encrypt_nonce 1) 0 in
      let c' = record c { encrypt_nonce = add128 c.encrypt_nonce 1 } in
      call-step a c c' ps (out ∷ []) sent
      ∙ ap (λ (r : List Heard × CryptState). r.0 ++ conversation aes r.1 c' ps) heard
      ∙ ap (λ t. ok (ok dummy) ∷ t)
          (conversation-echoes a' c' ps
            (record { keys = refl; down = omega arith; up = omega arith }) h)
