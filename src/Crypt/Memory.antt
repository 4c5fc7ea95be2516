-- ===== src/Crypt/Memory.antt =====
-- src/crypt.rs: what the history of a state remembers of the packets it has accepted.
use rust_mumble_protocol.Base.{
  ℕ, ◌+◌, ◌/◌, ◌^◌, ◌≤◌, ◌<◌, ◌≡◌, ◌≢◌, refl, ap, ◌∙◌, arith, true, false, ◌==◌, ==_refl, [], ◌∷◌,
  List, All, All-map, u8, ℤ,
}
use rust_mumble_protocol.Base.{set, get_or, get_or-set_self, get_or-set_other, length, length-set}
use rust_mumble_protocol.Crypt.{CryptState, add128, count_packet}
use rust_mumble_protocol.Crypt.NonceWindow.{sub128, seen}
use rust_mumble_protocol.Crypt.Accepts.{Accepts, on_time, out_of_order}
use rust_mumble_protocol.Base.{◌-◌, sym, subst, pos, negsuc}

-- No number stands twice in the list.
abbrev pub Distinct : List ℕ → Type 0
Distinct [] = Unit
Distinct (n ∷ ns) = All (λ m. m ≢ n) ns × Distinct ns

-- The history knows the nonce, if it is not too old.
abbrev pub Remembered : CryptState → ℕ → Type 0
Remembered s n = (n ≤ s.decrypt_nonce) × (s.decrypt_nonce < n + 30 → seen s n ≡ true)

pub record Knows (s : CryptState) (ns : List ℕ) : Type 0 where
  pub room : s.decrypt_nonce + 128 < 2 ^ 128
  pub history_length : length s.decrypt_history ≡ 256
  pub remembered : All (Remembered s) ns
  pub distinct : Distinct ns

-- Another nonce near the last one does not touch the history's byte.
Remembered-other :
    (s s' : CryptState) (nonce n : ℕ)
    → s'.decrypt_history ≡ set s.decrypt_history (u8 nonce) (u8 (nonce / 2 ^ 8))
    → s.decrypt_nonce ≤ s'.decrypt_nonce
    → nonce ≤ s'.decrypt_nonce
    → s'.decrypt_nonce < nonce + 30
    → n ≢ nonce
    → Remembered s n
    → Remembered s' n
Remembered-other s s' nonce n e h1 h2 h3 ne (below, known) = (
  omega arith,
  λ near.
      ap (λ t. get_or t (u8 n) 0 == u8 (n / 2 ^ 8)) e
      ∙ ap (λ (t : ℕ). t == u8 (n / 2 ^ 8))
          (get_or-set_other s.decrypt_history (u8 nonce) (u8 n) (u8 (nonce / 2 ^ 8)) 0
            (λ same. absurd (apart near same)))
      ∙ known (omega arith),
)
  where
    apart : s'.decrypt_nonce < n + 30 → u8 nonce ≡ u8 n → ⊥
    apart near same = ne (omega arith)

Remembered-new :
    (s s' : CryptState) (nonce : ℕ)
    → s'.decrypt_history ≡ set s.decrypt_history (u8 nonce) (u8 (nonce / 2 ^ 8))
    → length s.decrypt_history ≡ 256
    → nonce ≤ s'.decrypt_nonce
    → Remembered s' nonce
Remembered-new s s' nonce e size h = (
  h,
  λ near.
      ap (λ t. get_or t (u8 nonce) 0 == u8 (nonce / 2 ^ 8)) e
      ∙ ap (λ (t : ℕ). t == u8 (nonce / 2 ^ 8))
          (get_or-set_self s.decrypt_history (u8 nonce) (u8 (nonce / 2 ^ 8)) 0 (omega arith))
      ∙ ==_refl (u8 (nonce / 2 ^ 8)),
)

Remembered-All :
    (s s' : CryptState) (nonce : ℕ) (ns : List ℕ)
    → s'.decrypt_history ≡ set s.decrypt_history (u8 nonce) (u8 (nonce / 2 ^ 8))
    → s.decrypt_nonce ≤ s'.decrypt_nonce
    → nonce ≤ s'.decrypt_nonce
    → s'.decrypt_nonce < nonce + 30
    → All (λ n. n ≢ nonce) ns
    → All (Remembered s) ns
    → All (Remembered s') ns
Remembered-All s s' nonce [] e h1 h2 h3 ne known = tt
Remembered-All s s' nonce (n ∷ ns) e h1 h2 h3 (ne, nes) (known, knowns) = (
  Remembered-other s s' nonce n e h1 h2 h3 ne known,
  Remembered-All s s' nonce ns e h1 h2 h3 nes knowns,
)

Knows-next :
    (s s' : CryptState) (nonce : ℕ) (ns : List ℕ)
    → Knows s ns
    → s'.decrypt_history ≡ set s.decrypt_history (u8 nonce) (u8 (nonce / 2 ^ 8))
    → s.decrypt_nonce ≤ s'.decrypt_nonce
    → nonce ≤ s'.decrypt_nonce
    → s'.decrypt_nonce < nonce + 30
    → s'.decrypt_nonce + 128 < 2 ^ 128
    → ((n : ℕ) → Remembered s n → n ≢ nonce)
    → Knows s' (nonce ∷ ns)
Knows-next s s' nonce ns k e h1 h2 h3 room new =
    let fresh = All-map new ns k.remembered in
    record {
      room = room;
      history_length =
          ap length e
          ∙ length-set s.decrypt_history (u8 nonce) (u8 (nonce / 2 ^ 8))
          ∙ k.history_length;
      remembered = (
        Remembered-new s s' nonce e k.history_length h2,
        Remembered-All s s' nonce ns e h1 h2 h3 fresh k.remembered,
      );
      distinct = (fresh, k.distinct);
    }

Knows-ahead :
    (s : CryptState) (ns : List ℕ) (k : ℕ) (lost : ℤ)
    → Knows s ns
    → 0 < k
    → k < 128
    → add128 s.decrypt_nonce k + 128 < 2 ^ 128
    → Knows
        (count_packet s (u8 (add128 s.decrypt_nonce k)) (add128 s.decrypt_nonce k) false lost)
        (add128 s.decrypt_nonce k ∷ ns)
unfolding count_packet
Knows-ahead s ns k lost known h1 h2 room =
    let here = known.room in
    Knows-next s _ (add128 s.decrypt_nonce k) ns known refl (omega arith) (omega arith)
      (omega arith) room (λ n old same. absurd (above n old.0 same))
  where
    above : (n : ℕ) → n ≤ s.decrypt_nonce → n ≡ add128 s.decrypt_nonce k → ⊥
    above n below same = let here = known.room in omega arith

Knows-delayed :
    (s : CryptState) (ns : List ℕ) (k : ℕ) (lost : ℤ)
    → Knows s ns
    → k < 30
    → seen s (sub128 s.decrypt_nonce k) ≡ false
    → sub128 s.decrypt_nonce k + 128 < 2 ^ 128
    → Knows
        (count_packet s (u8 (sub128 s.decrypt_nonce k)) (sub128 s.decrypt_nonce k) true lost)
        (sub128 s.decrypt_nonce k ∷ ns)
unfolding count_packet
Knows-delayed s ns k lost known h new room =
    let here = known.room in
    Knows-next s _ (sub128 s.decrypt_nonce k) ns known refl (omega arith) (omega arith)
      (omega arith) here (λ n old same. absurd (not_seen n old same))
  where
    not_seen : (n : ℕ) → Remembered s n → n ≡ sub128 s.decrypt_nonce k → ⊥
    not_seen n (below, old) same =
        let here = known.room in
        let yes = old (omega arith) in let no = ap (seen s) same ∙ new in cc

pub Knows-Accepts :
    (s s' : CryptState) (nonce : ℕ) (ns : List ℕ)
    → Knows s ns
    → Accepts s nonce s'
    → nonce + 128 < 2 ^ 128
    → Knows s' (nonce ∷ ns)
Knows-Accepts s s' nonce ns known (on_time k h1 h2 e1 e2) far =
    subst (λ s. Knows s (nonce ∷ ns)) (sym e2)
      (subst (λ n. Knows (count_packet s (u8 n) n false (pos (k - 1))) (n ∷ ns)) (sym e1)
        (Knows-ahead s ns k (pos (k - 1)) known h1 h2
          (subst (λ (n : ℕ). n + 128 < 2 ^ 128) e1 far)))
Knows-Accepts s s' nonce ns known (out_of_order k h e1 new e2) far =
    subst (λ s. Knows s (nonce ∷ ns)) (sym e2)
      (subst (λ n. Knows (count_packet s (u8 n) n true (negsuc 0)) (n ∷ ns)) (sym e1)
        (Knows-delayed s ns k (negsuc 0) known h (subst (λ n. seen s n ≡ false) e1 new)
          (subst (λ (n : ℕ). n + 128 < 2 ^ 128) e1 far)))
