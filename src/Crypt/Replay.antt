-- ===== src/Crypt/Replay.antt =====
-- src/crypt.rs: `decrypt` accepts no packet twice, as long as no `Late` error moves its nonce back.
use rust_mumble_protocol.Base.{
  ℕ, ◌+◌, ◌^◌, ◌<◌, ◌≡◌, ◌≢◌, sym, subst, Bool, [], ◌∷◌, List, Bytes, IsBytes, Result, ok, err, ℤ,
  IoError,
}
use rust_mumble_protocol.Base.{get_or, length}
use rust_mumble_protocol.Voice.{VoicePacketDst, VoicePacket}
use rust_mumble_protocol.Voice.Dst.{IsLawful}
use rust_mumble_protocol.Crypt.{
  CryptState, DecryptError, late_packet, proceed, check_nonce, decrypt,
}
use rust_mumble_protocol.Crypt.Ocb.{Aes128}
use rust_mumble_protocol.Crypt.State.{decrypt-same}
use rust_mumble_protocol.Crypt.Memory.{Distinct, Knows, Knows-Accepts}
use rust_mumble_protocol.Crypt.Accepts.{decrypt-Accepts}

module _ (aes : Aes128) (d : VoicePacketDst) (l : IsLawful d) where
  -- Calls of `decrypt` one after the other from `s0` on, with the nonces of the packets that were
  -- accepted, the last one first. No call is too late, and the nonces do not come near 2 ^ 128.
  pub data Run (s0 : CryptState) : CryptState → List ℕ → Type 0 where
    start : Run s0 s0 []
    failed :
        {s : CryptState} {ns : List ℕ} (buf : Bytes) (e : DecryptError)
        → Run s0 s ns
        → IsBytes buf
        → (decrypt aes d s buf).0 ≡ err e
        → e ≢ late_packet
        → Run s0 (decrypt aes d s buf).1 ns
    received :
        {s : CryptState} {ns : List ℕ} (buf : Bytes) (nonce : ℕ) (late : Bool) (lost : ℤ)
        (r : Result (VoicePacket d) IoError)
        → Run s0 s ns
        → IsBytes buf
        → (decrypt aes d s buf).0 ≡ ok r
        → check_nonce s (get_or buf 0 0) ≡ proceed nonce late lost
        → nonce + 128 < 2 ^ 128
        → Run s0 (decrypt aes d s buf).1 (nonce ∷ ns)

  pub Run-Knows :
      (s0 s : CryptState) (ns : List ℕ)
      → s0.decrypt_nonce + 128 < 2 ^ 128
      → length s0.decrypt_history ≡ 256
      → Run s0 s ns
      → Knows s ns
  Run-Knows s0 s ns room size start = record {
    room = room;
    history_length = size;
    remembered = tt;
    distinct = tt;
  }
  Run-Knows s0 s ns room size (failed {s = s1} buf e run hb eq ne) =
      subst (λ s. Knows s ns) (sym (decrypt-same aes d l s1 buf e hb eq ne))
        (Run-Knows s0 s1 ns room size run)
  Run-Knows s0 s ns room size
        (received {s = s1} {ns = ns1} buf nonce late lost r run hb eq chosen far) =
      Knows-Accepts s1 s nonce ns1 (Run-Knows s0 s1 ns1 room size run)
        (decrypt-Accepts aes d l s1 buf nonce late lost r hb eq chosen) far

  -- From a state whose history has 256 bytes, over any calls of `decrypt` of which none returns `Late`,
  -- and while all nonces stay 128 below 2 ^ 128, no two accepted packets have the same nonce.
  pub Run-Distinct :
      (s0 s : CryptState) (ns : List ℕ)
      → s0.decrypt_nonce + 128 < 2 ^ 128
      → length s0.decrypt_history ≡ 256
      → Run s0 s ns
      → Distinct ns
  Run-Distinct s0 s ns room size run = (Run-Knows s0 s ns room size run).distinct
