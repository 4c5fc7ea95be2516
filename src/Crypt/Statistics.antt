-- ===== src/Crypt/Statistics.antt =====
-- src/crypt.rs: the counts of good and lost packets over calls of `decrypt`.
use rust_mumble_protocol.Base.{
  ℕ, suc, ◌+◌, ◌-◌, ◌%◌, ◌^◌, ◌≤◌, ◌<◌, ◌≡◌, sym, subst, arith, true, false, List, length, pos,
  negsuc, u8, IsU32,
}
use rust_mumble_protocol.Voice.{VoicePacketDst}
use rust_mumble_protocol.Voice.Dst.{IsLawful}
use rust_mumble_protocol.Crypt.{CryptState, add128, count_packet}
use rust_mumble_protocol.Crypt.Accepts.{Accepts, on_time, out_of_order, decrypt-Accepts}
use rust_mumble_protocol.Crypt.State.{decrypt-same}
use rust_mumble_protocol.Crypt.Ocb.{Aes128}
use rust_mumble_protocol.Crypt.Replay.{Run, start, failed, received, Run-Knows}

-- From `s0` to `s` with `n` packets accepted: the counts, and how far the last nonce has moved.
abbrev pub Counts : CryptState → CryptState → ℕ → Type 0
Counts s0 s n =
    (s.good ≡ (s0.good + n) % 2 ^ 32)
    × ((s.good + s.lost) % 2 ^ 32
        ≡ (s0.good + s0.lost + (s.decrypt_nonce - s0.decrypt_nonce)) % 2 ^ 32)
    × (s0.decrypt_nonce ≤ s.decrypt_nonce)

Counts-on_time :
    (s0 s : CryptState) (n k nonce : ℕ)
    → Counts s0 s n
    → s.decrypt_nonce + 128 < 2 ^ 128
    → 0 < k
    → k < 128
    → nonce ≡ add128 s.decrypt_nonce k
    → Counts s0 (count_packet s (u8 nonce) nonce false (pos (k - 1))) (suc n)
unfolding count_packet
Counts-on_time s0 s n k nonce (h1, h2, h3) room hk small e = (omega arith, omega arith, omega arith)

Counts-late :
    (s0 s : CryptState) (n nonce : ℕ)
    → Counts s0 s n
    → Counts s0 (count_packet s (u8 nonce) nonce true (negsuc 0)) (suc n)
unfolding count_packet
Counts-late s0 s n nonce (h1, h2, h3) = (omega arith, omega arith, omega arith)

Counts-Accepts :
    (s0 s s' : CryptState) (n nonce : ℕ)
    → Counts s0 s n
    → s.decrypt_nonce + 128 < 2 ^ 128
    → Accepts s nonce s'
    → Counts s0 s' (suc n)
Counts-Accepts s0 s s' n nonce h room (on_time k h1 h2 e1 e2) =
    subst (λ s. Counts s0 s (suc n)) (sym e2) (Counts-on_time s0 s n k nonce h room h1 h2 e1)
Counts-Accepts s0 s s' n nonce h room (out_of_order k h1 e1 new e2) =
    subst (λ s. Counts s0 s (suc n)) (sym e2) (Counts-late s0 s n nonce h)

module _ (aes : Aes128) (d : VoicePacketDst) (l : IsLawful d) where
  -- From a state whose history has 256 bytes and whose count of good packets has 32 bits, over any
  -- calls of `decrypt` of which none returns `Late`, and while all nonces stay 128 below 2 ^ 128:
  -- the count of good packets has grown by one for each packet accepted, and good and lost packets
  -- together by as much as the last nonce, both modulo 2 ^ 32; and the last nonce has not fallen.
  pub Run-Counts :
      (s0 s : CryptState) (ns : List ℕ)
      → s0.decrypt_nonce + 128 < 2 ^ 128
      → length s0.decrypt_history ≡ 256
      → IsU32 s0.good
      → Run aes d l s0 s ns
      → Counts s0 s (length ns)
  Run-Counts s0 s ns room size small start = (omega arith, omega arith, omega arith)
  Run-Counts s0 s ns room size small (failed {s = s1} buf e run hb eq ne) =
      subst (λ s. Counts s0 s (length ns)) (sym (decrypt-same aes d l s1 buf e hb eq ne))
        (Run-Counts s0 s1 ns room size small run)
  Run-Counts s0 s ns room size small
        (received {s = s1} {ns = ns1} buf nonce late lost r run hb eq chosen far) =
      Counts-Accepts s0 s1 s (length ns1) nonce (Run-Counts s0 s1 ns1 room size small run)
        (Run-Knows aes d l s0 s1 ns1 room size run).room
        (decrypt-Accepts aes d l s1 buf nonce late lost r hb eq chosen)
