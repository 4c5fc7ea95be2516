-- ===== src/Buffer/Laws.antt =====
-- A cursor and the buffer under it, where counts are in range.
use rust_mumble_protocol.Base.{
  ℕ, ◌≤◌, ◌≡◌, refl, sym, ap, ap₂, ◌∙◌, arith, [], ◌++◌, append-nil, Bytes, false,
}
use rust_mumble_protocol.Base.{
  length, length-append, take, drop, take-append_length, drop-append_length, ltb, le→ltb, ok,
}
use rust_mumble_protocol.Buffer.{advance, position, split_to}

-- A cursor's position, counted from what it has left, is where that begins.
pub advance-position :
    (taken buf : Bytes) → advance (position (taken ++ buf) buf) (taken ++ buf) ≡ (ok tt, buf)
advance-position taken buf =
    rw counted (rw fits (ap (λ t. (ok tt, t)) (drop-append_length taken buf)))
  where
    counted : position (taken ++ buf) buf ≡ length taken
    counted = omega (arith, length-append taken buf)

    fits : ltb (length (taken ++ buf)) (length taken) ≡ false
    fits = le→ltb _ _ (omega (arith, length-append taken buf))

pub advance_all : (src : Bytes) → advance (length src) src ≡ (ok tt, [])
advance_all src = rw (le→ltb (length src) (length src) (omega arith)) (
    ap (λ t. (ok tt, t))
      (ap (drop (length src)) (sym (append-nil src)) ∙ drop-append_length src []))

pub split_to-append : (f rest : Bytes) → split_to (length f) (f ++ rest) ≡ (ok f, rest)
split_to-append f rest =
    rw (le→ltb (length (f ++ rest)) (length f) (omega (arith, length-append f rest)))
      (ap₂ (λ t u. (ok t, u)) (take-append_length f rest) (drop-append_length f rest))

pub split_to_le :
    (n : ℕ) (src : Bytes) → n ≤ length src → split_to n src ≡ (ok (take n src), drop n src)
split_to_le n src h = rw (le→ltb (length src) n h) refl
