-- ===== src/Crypt/Choice.antt =====
-- src/crypt.rs: all that the nonce byte of a packet may mean to `decrypt`.
use rust_mumble_protocol.Base.{
  ℕ, ◌+◌, ◌-◌, ◌%◌, ◌≤◌, ◌<◌, ◌≡◌, sym, ap, ◌∙◌, subst, arith, true, false, Bool-cases, inl, inr,
  IsU8,
}
use rust_mumble_protocol.Base.{pos, negsuc, u8}
use rust_mumble_protocol.Crypt.{
  CryptState, repeat, late_packet, Window, proceed, reject, add128, check_nonce,
}
use native.Mathlib.Decide.{dec_lt}
use rust_mumble_protocol.Crypt.NonceWindow.{
  sub128, seen, check_nonce_ahead, check_nonce_behind, check_nonce_repeat, check_nonce_late,
}

-- What `check_nonce` may say about a byte, by the distance to the last nonce.
pub data Choice (s : CryptState) (nonce_0 : ℕ) : Window → Type 0 where
  ahead :
      (k : ℕ)
      → 0 < k
      → k < 128
      → nonce_0 ≡ u8 (add128 s.decrypt_nonce k)
      → Choice s nonce_0 (proceed (add128 s.decrypt_nonce k) false (pos (k - 1)))
  delayed :
      (k : ℕ)
      → k < 30
      → nonce_0 ≡ u8 (sub128 s.decrypt_nonce k)
      → seen s (sub128 s.decrypt_nonce k) ≡ false
      → Choice s nonce_0 (proceed (sub128 s.decrypt_nonce k) true (negsuc 0))
  repeated :
      (k : ℕ)
      → k < 30
      → nonce_0 ≡ u8 (sub128 s.decrypt_nonce k)
      → seen s (sub128 s.decrypt_nonce k) ≡ true
      → Choice s nonce_0 (reject repeat s.decrypt_nonce)
  too_late :
      (k : ℕ)
      → 30 ≤ k
      → k ≤ 128
      → nonce_0 ≡ u8 (sub128 s.decrypt_nonce k)
      → Choice s nonce_0 (reject late_packet (sub128 s.decrypt_nonce k))

behind-Choice :
    (s : CryptState) (nonce_0 k : ℕ)
    → k ≤ 128
    → nonce_0 ≡ u8 (sub128 s.decrypt_nonce k)
    → Choice s nonce_0 (check_nonce s (u8 (sub128 s.decrypt_nonce k)))
behind-Choice s nonce_0 k h e = elim (dec_lt k 30) [
  | yes near ↦ elim (Bool-cases (seen s (sub128 s.decrypt_nonce k))) [
    | inl old ↦
        subst (Choice s nonce_0) (sym (check_nonce_repeat s k near old)) (repeated k near e old)
    | inr new ↦
        subst (Choice s nonce_0) (sym (check_nonce_behind s k near new)) (delayed k near e new)
  ]
  | no far ↦
      subst (Choice s nonce_0) (sym (check_nonce_late s k (omega arith) h))
        (too_late k (omega arith) h e)
]

-- A byte up to 127 ahead of the last nonce gives the nonce that is so far ahead, with one lost packet
-- for each that was passed over. One up to 29 behind gives a late packet with that nonce, or, where
-- the history has it, a repeated one. One from 30 to 128 behind is refused as too late, with the
-- nonce moved back to it. There is no other byte.
pub check_nonce-Choice :
    (s : CryptState) (nonce_0 : ℕ) → IsU8 nonce_0 → Choice s nonce_0 (check_nonce s nonce_0)
check_nonce-Choice s nonce_0 h =
    let k = (nonce_0 + 256 - u8 s.decrypt_nonce) % 256 in
    elim (dec_lt k 128) [
      | yes low ↦ elim (dec_lt 0 k) [
        | yes more ↦
            let e : nonce_0 ≡ u8 (add128 s.decrypt_nonce k) = omega arith in
            subst (Choice s nonce_0) (sym (ap (check_nonce s) e ∙ check_nonce_ahead s k more low))
              (ahead k more low e)
        | no same ↦
            let e : nonce_0 ≡ u8 (sub128 s.decrypt_nonce 0) = omega arith in
            subst (λ b. Choice s nonce_0 (check_nonce s b)) (sym e)
              (behind-Choice s nonce_0 0 (omega arith) e)
      ]
      | no high ↦
          let e : nonce_0 ≡ u8 (sub128 s.decrypt_nonce (256 - k)) = omega arith in
          subst (λ b. Choice s nonce_0 (check_nonce s b)) (sym e)
            (behind-Choice s nonce_0 (256 - k) (omega arith) e)
    ]
