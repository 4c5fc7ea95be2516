-- ===== src/Varint/Format.antt =====
-- The variable-length format on its own: which bytes stand for which number.
use rust_mumble_protocol.Base.{ℕ, ◌+◌, ◌-◌, ◌*◌, ◌≤◌, ◌<◌, [], ◌∷◌, Bytes, not64}

-- The first byte says how many bytes follow and holds the highest bits. Of the six bytes
-- 0b1111_0xxx those with bit 2 clear lead 32 bits, and those with bit 2 set lead 64 bits.
pub data Encodes : Bytes → ℕ → Type 0 where
  seven : {b0 : ℕ} → b0 < 128 → Encodes (b0 ∷ []) b0
  fourteen : {b0 b1 : ℕ} → 128 ≤ b0 → b0 < 192 → Encodes (b0 ∷ b1 ∷ []) ((b0 - 128) * 256 + b1)
  twenty_one :
      {b0 b1 b2 : ℕ}
      → 192 ≤ b0
      → b0 < 224
      → Encodes (b0 ∷ b1 ∷ b2 ∷ []) (((b0 - 192) * 256 + b1) * 256 + b2)
  twenty_eight :
      {b0 b1 b2 b3 : ℕ}
      → 224 ≤ b0
      → b0 < 240
      → Encodes (b0 ∷ b1 ∷ b2 ∷ b3 ∷ []) ((((b0 - 224) * 256 + b1) * 256 + b2) * 256 + b3)
  thirty_two :
      {b0 b1 b2 b3 b4 : ℕ}
      → 240 ≤ b0
      → b0 < 244
      → Encodes (b0 ∷ b1 ∷ b2 ∷ b3 ∷ b4 ∷ []) (((b1 * 256 + b2) * 256 + b3) * 256 + b4)
  sixty_four :
      {b0 b1 b2 b3 b4 b5 b6 b7 b8 : ℕ}
      → 244 ≤ b0
      → b0 < 248
      → Encodes (b0 ∷ b1 ∷ b2 ∷ b3 ∷ b4 ∷ b5 ∷ b6 ∷ b7 ∷ b8 ∷ []) (
          ((((((b1 * 256 + b2) * 256 + b3) * 256 + b4) * 256 + b5) * 256 + b6) * 256 + b7) * 256
          + b8)
  complement :
      {b0 v : ℕ} {bs : Bytes} → 248 ≤ b0 → b0 < 252 → Encodes bs v → Encodes (b0 ∷ bs) (not64 v)
  complement_two : {b0 : ℕ} → 252 ≤ b0 → b0 < 256 → Encodes (b0 ∷ []) (not64 (b0 - 252))
