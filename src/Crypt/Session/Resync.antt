-- ===== src/Crypt/Session/Resync.antt =====
-- src/crypt.rs: `set_decrypt_nonce` with what the sender's `get_encrypt_nonce` returns.
use rust_mumble_protocol.Base.{◌^◌, ◌<◌, ◌≡◌, arith, from_le_bytes-to_le_bytes}
use rust_mumble_protocol.Voice.{VoicePacketDst}
use rust_mumble_protocol.Voice.Dst.{IsLawful}
use rust_mumble_protocol.Crypt.{CryptState, get_encrypt_nonce, set_decrypt_nonce}
use rust_mumble_protocol.Crypt.Ocb.{Aes128}
use rust_mumble_protocol.Crypt.Ocb.Cipher.{IsCipher}
use rust_mumble_protocol.Crypt.Session.Lossy.{
  Schedule, delivered, FewLost, transmit, all_ok, AreSendable, transmit-delivered,
}

module _ (aes : Aes128) (c : IsCipher aes) (d : VoicePacketDst) (l : IsLawful d) where
  -- If AES permutes blocks and the states share the key, then whatever has become of the receiver's
  -- nonce and history, once the receiver has set its nonce to the one that the sender gives out, it
  -- gets of any number of well-formed packets, encoded as bytes, each whose datagram the network
  -- delivers, in order, while at most 126 datagrams in a row are dropped.
  pub resync-delivered :
      (a b : CryptState) (ps : Schedule d)
      → a.key ≡ b.key
      → a.encrypt_nonce < 2 ^ 128
      → FewLost 0 ps
      → AreSendable aes c d l ps
      → transmit aes d a (set_decrypt_nonce (get_encrypt_nonce a) b) ps ≡ all_ok (delivered ps)
  resync-delivered a b ps same range few sendable =
      transmit-delivered aes c d l a (set_decrypt_nonce (get_encrypt_nonce a) b) 0 ps same
        (omega (arith, from_le_bytes-to_le_bytes 16 a.encrypt_nonce range)) few sendable
