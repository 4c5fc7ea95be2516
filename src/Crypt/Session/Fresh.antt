-- ===== src/Crypt/Session/Fresh.antt =====
-- src/crypt.rs: a connection as it is set up. The server makes its state by `generate_new`, and the
-- client its own by `new_from`, from the key and the nonces that the server's getters return.
use rust_mumble_protocol.Base.{ℕ, ◌≡◌, refl, arith, List, Bytes, length-replicate}
use mathlib.Core.List.{Subperm, map}
use rust_mumble_protocol.Voice.{VoicePacket, serverbound, clientbound}
use rust_mumble_protocol.Voice.Dst.{serverbound-IsLawful, clientbound-IsLawful}
use rust_mumble_protocol.Crypt.{
  CryptState, generate_new, new_from, get_key, get_encrypt_nonce, get_decrypt_nonce,
}
use rust_mumble_protocol.Crypt.Ocb.{Aes128}
use rust_mumble_protocol.Crypt.Ocb.Cipher.{IsCipher}
use rust_mumble_protocol.Crypt.Session.Duplex.{Duplex, Duplex-subperm}
use rust_mumble_protocol.Crypt.Session.Lossy.{
  Schedule, delivered, FewLost, transmit, all_ok, AreSendable, transmit-delivered,
}

abbrev pub server_state : Bytes → CryptState
server_state key = generate_new key

-- What the server encrypts with, the client decrypts with.
abbrev pub client_state : Bytes → CryptState
client_state key =
    let s = server_state key in new_from (get_key s) (get_decrypt_nonce s) (get_encrypt_nonce s)

module _ (aes : Aes128) (c : IsCipher aes) where
  -- If AES permutes blocks, then of a connection that is set up so: packets of the client to the
  -- server, and of the server to the client, well formed and encoded as bytes, are received in order
  -- if their datagrams come in order, while at most 126 in a row are dropped; and of any traffic in
  -- both directions, with the datagrams dropped, delayed, reordered and repeated within the window,
  -- and other bytes refused in between but not with `Late`, what each side has received is, up to the
  -- order, a part of what the other has sent.
  pub fresh-delivered :
      (key : Bytes) (up : Schedule serverbound) (down : Schedule clientbound) (a b : CryptState)
      (there : List (VoicePacket serverbound × Bytes))
      (heard_there : List (VoicePacket serverbound)) (back : List (VoicePacket clientbound × Bytes))
      (heard_back : List (VoicePacket clientbound))
      → FewLost 0 up
      → AreSendable aes c serverbound serverbound-IsLawful up
      → FewLost 0 down
      → AreSendable aes c clientbound clientbound-IsLawful down
      → Duplex aes serverbound clientbound serverbound-IsLawful clientbound-IsLawful
          (client_state key)
          (server_state key)
          a
          b
          there
          heard_there
          back
          heard_back
      → (transmit aes serverbound (client_state key) (server_state key) up ≡ all_ok (delivered up))
        × (transmit aes clientbound (server_state key) (client_state key) down
            ≡ all_ok (delivered down))
        × Subperm heard_there (map (λ (x : VoicePacket serverbound × Bytes). x.0) there)
        × Subperm heard_back (map (λ (x : VoicePacket clientbound × Bytes). x.0) back)
  fresh-delivered key up down a b there heard_there back heard_back few1 ok1 few2 ok2 traffic =
      let safe =
        Duplex-subperm aes serverbound clientbound serverbound-IsLawful clientbound-IsLawful c
          (client_state key) (server_state key) a b there heard_there back heard_back refl
          (omega arith) (omega arith) (omega arith) (omega arith) (length-replicate {A = ℕ} 0x100 0)
          (length-replicate {A = ℕ} 0x100 0) traffic in
      (
        transmit-delivered aes c serverbound serverbound-IsLawful (client_state key)
            (server_state key) 0 up refl (omega arith) few1 ok1,
        transmit-delivered aes c clientbound clientbound-IsLawful (server_state key)
            (client_state key) 0 down refl (omega arith) few2 ok2,
        safe.0,
        safe.1,
      )
