-- ===== src/Crypt/NonceWindow.antt =====
-- src/crypt.rs: which nonce `decrypt` takes for the byte in a packet's header.
use rust_mumble_protocol.Base.{
  ℕ, zero, suc, ◌+◌, ◌-◌, ◌/◌, ◌%◌, ◌^◌, ◌≤◌, ◌<◌, ◌≡◌, refl, sym, ap, ap₂, ◌∙◌, arith, Bool, true,
  false, lt→ltb, le→ltb, ◌==◌, ==_iff, ==_ne, if◌then◌else◌,
}
use rust_mumble_protocol.Base.{ℤ, pos, negsuc, ltb_ℤ, as_i8, to_word, pos_part, u8, get_or}
use rust_mumble_protocol.Crypt.{
  CryptState, repeat, late_packet, Window, proceed, reject, add128, diff_of, check_nonce,
}
use native.Mathlib.Decide.{dec_lt}

-- `wrapping_sub` on u128.
abbrev pub sub128 : ℕ → ℕ → ℕ
sub128 a k = (a + (2 ^ 128 - k)) % 2 ^ 128

-- The choice, from its test and its difference.
abbrev chosen : CryptState → ℕ → Bool → ℤ → Window
chosen s nonce_0 in_order diff =
    if in_order
    then proceed (add128 s.decrypt_nonce 1) false (pos 0)
    else if ltb_ℤ (pos 0) diff
    then proceed (add128 s.decrypt_nonce (to_word 128 diff)) false (pos (pos_part diff - 1))
    else if ltb_ℤ (negsuc 29) diff
    then (if get_or s.decrypt_history nonce_0 0
          == u8 (add128 s.decrypt_nonce (to_word 128 diff) / 2 ^ 8)
        then reject repeat s.decrypt_nonce
        else proceed (add128 s.decrypt_nonce (to_word 128 diff)) true (negsuc 0))
    else reject late_packet (add128 s.decrypt_nonce (to_word 128 diff))

check_nonce-chosen :
    (s : CryptState) (nonce_0 : ℕ) (in_order : Bool) (diff : ℤ)
    → (u8 (add128 s.decrypt_nonce 1) == nonce_0) ≡ in_order
    → diff_of nonce_0 s.decrypt_nonce ≡ diff
    → check_nonce s nonce_0 ≡ chosen s nonce_0 in_order diff
unfolding check_nonce
check_nonce-chosen s nonce_0 in_order diff e1 e2 = ap₂ (chosen s nonce_0) e1 e2

as_i8-pos : (b k : ℕ) → b ≡ k → k < 128 → as_i8 b ≡ pos k
as_i8-pos b k e h = ap as_i8 e ∙ rw (lt→ltb k 128 h) refl

as_i8-negsuc : (b k : ℕ) → b + k ≡ 255 → k < 128 → as_i8 b ≡ negsuc k
as_i8-negsuc b k e h = rw (le→ltb b 128 (omega arith)) (ap negsuc (omega arith))

diff_of-add128 : (nonce k : ℕ) → k < 128 → diff_of (u8 (add128 nonce k)) nonce ≡ pos k
diff_of-add128 nonce k h = as_i8-pos _ k (omega arith) h

diff_of-sub128 : (nonce k : ℕ) → k < 128 → diff_of (u8 (sub128 nonce (suc k))) nonce ≡ negsuc k
diff_of-sub128 nonce k h = as_i8-negsuc _ k (omega arith) h

chosen_ahead :
    (s : CryptState) (nonce_0 k : ℕ)
    → 0 < k
    → k < 128
    → chosen s nonce_0 false (pos k) ≡ proceed (add128 s.decrypt_nonce k) false (pos (k - 1))
chosen_ahead s nonce_0 k h1 h2 =
    rw (lt→ltb (0 + 0) (k + 0) (omega arith))
      (ap (λ (t : ℕ). proceed (add128 s.decrypt_nonce t) false (pos (k - 1))) small)
  where
    small : k % 2 ^ 128 ≡ k
    small = omega arith

-- The nonce that is `k` behind, as the code finds it.
word_behind : (nonce k : ℕ) → k < 128 → add128 nonce (to_word 128 (negsuc k)) ≡ sub128 nonce (suc k)
word_behind nonce k h = omega arith

not_next : (nonce k : ℕ) → k ≤ 128 → (u8 (add128 nonce 1) == u8 (sub128 nonce k)) ≡ false
not_next nonce k h = ==_ne (u8 (add128 nonce 1)) (u8 (sub128 nonce k)) (λ e. absurd (omega arith))

abbrev behind : ℕ → ℤ
behind zero = pos 0
behind (suc k) = negsuc k

diff_of-behind : (nonce k : ℕ) → k ≤ 128 → diff_of (u8 (sub128 nonce k)) nonce ≡ behind k
diff_of-behind nonce zero h = as_i8-pos _ 0 (omega arith) (omega arith)
diff_of-behind nonce (suc k) h = diff_of-sub128 nonce k (omega arith)

diff_of-late :
    (nonce k : ℕ) → 30 ≤ k → k ≤ 128 → diff_of (u8 (sub128 nonce k)) nonce ≡ negsuc (k - 1)
diff_of-late nonce k h1 h2 = as_i8-negsuc _ (k - 1) (omega arith) (omega arith)

-- The byte in the history for the packet `k` behind is that packet's.
abbrev pub seen : CryptState → ℕ → Bool
seen s nonce = get_or s.decrypt_history (u8 nonce) 0 == u8 (nonce / 2 ^ 8)

abbrev accepted : CryptState → ℕ → Bool → Window
accepted s nonce old = if old then reject repeat s.decrypt_nonce else proceed nonce true (negsuc 0)

abbrev window_at : CryptState → ℕ → ℕ → Window
window_at s k n =
    accepted s n (get_or s.decrypt_history (u8 (sub128 s.decrypt_nonce k)) 0 == u8 (n / 2 ^ 8))

chosen-behind :
    (s : CryptState) (k : ℕ)
    → k < 30
    → chosen s (u8 (sub128 s.decrypt_nonce k)) false (behind k)
      ≡ accepted s (sub128 s.decrypt_nonce k) (seen s (sub128 s.decrypt_nonce k))
chosen-behind s zero h = ap (window_at s 0) same
  where
    same : add128 s.decrypt_nonce 0 ≡ sub128 s.decrypt_nonce 0
    same = omega arith
chosen-behind s (suc k) h =
    rw (le→ltb (0 + suc k) 0 (omega arith), lt→ltb (0 + suc k) 30 (omega arith))
      (ap (window_at s (suc k)) (word_behind s.decrypt_nonce k (omega arith)))

check_nonce-accepted :
    (s : CryptState) (k : ℕ)
    → k < 30
    → check_nonce s (u8 (sub128 s.decrypt_nonce k))
      ≡ accepted s (sub128 s.decrypt_nonce k) (seen s (sub128 s.decrypt_nonce k))
check_nonce-accepted s k h =
    check_nonce-chosen s _ false (behind k) (not_next s.decrypt_nonce k (omega arith))
      (diff_of-behind s.decrypt_nonce k (omega arith))
    ∙ chosen-behind s k h

module _ (s : CryptState) (k : ℕ) where
  -- A packet up to 127 ahead of the last one.
  pub check_nonce_ahead :
      0 < k
      → k < 128
      → check_nonce s (u8 (add128 s.decrypt_nonce k))
        ≡ proceed (add128 s.decrypt_nonce k) false (pos (k - 1))
  check_nonce_ahead h1 h2 = elim (dec_lt 1 k) [
    | yes more ↦
        check_nonce-chosen s _ false (pos k)
          (==_ne (u8 (add128 s.decrypt_nonce 1)) (u8 (add128 s.decrypt_nonce k))
            (λ e. absurd (omega arith)))
          (diff_of-add128 s.decrypt_nonce k h2)
        ∙ chosen_ahead s _ k h1 h2
    | no one ↦
        let k1 : k ≡ 1 = omega arith in
        check_nonce-chosen s _ true (pos k)
          ((==_iff (u8 (add128 s.decrypt_nonce 1)) (u8 (add128 s.decrypt_nonce k))).1
            (ap (λ t. u8 (add128 s.decrypt_nonce t)) (sym k1)))
          (diff_of-add128 s.decrypt_nonce k h2)
        ∙ ap (λ (t : ℕ). proceed (add128 s.decrypt_nonce t) false (pos (t - 1))) (sym k1)
  ]

  pub check_nonce_behind :
      k < 30
      → seen s (sub128 s.decrypt_nonce k) ≡ false
      → check_nonce s (u8 (sub128 s.decrypt_nonce k))
        ≡ proceed (sub128 s.decrypt_nonce k) true (negsuc 0)
  check_nonce_behind h e = check_nonce-accepted s k h ∙ ap (accepted s (sub128 s.decrypt_nonce k)) e

  pub check_nonce_repeat :
      k < 30
      → seen s (sub128 s.decrypt_nonce k) ≡ true
      → check_nonce s (u8 (sub128 s.decrypt_nonce k)) ≡ reject repeat s.decrypt_nonce
  check_nonce_repeat h e = check_nonce-accepted s k h ∙ ap (accepted s (sub128 s.decrypt_nonce k)) e

  pub check_nonce_late :
      30 ≤ k
      → k ≤ 128
      → check_nonce s (u8 (sub128 s.decrypt_nonce k))
        ≡ reject late_packet (sub128 s.decrypt_nonce k)
  check_nonce_late h1 h2 =
      check_nonce-chosen s _ false (negsuc (k - 1)) (not_next s.decrypt_nonce k h2)
        (diff_of-late s.decrypt_nonce k h1 h2)
      ∙ rw (le→ltb (0 + suc (k - 1)) 0 (omega arith))
          (rw (le→ltb (0 + suc (k - 1)) 30 (omega arith)) (ap (reject late_packet) (omega arith)))
