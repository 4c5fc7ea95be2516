-- ===== src/Base/Slices.antt =====
-- Parts of byte lists, and their equality test.
use Prim.Native.Nat.{ℕ, zero, suc, ◌+◌, ◌-◌, ◌^◌, ◌≤◌, ◌<◌}
use mathlib.Core.Path.{◌≡◌, refl, sym, ap, ap₂, ◌∙◌, subst}
use mathlib.Core.List.{List, [], ◌∷◌, ◌++◌}
use mathlib.Core.Bool.{Bool, true, false, ◌&&◌}
use mathlib.Core.Logic.{◌↔◌, ◌≢◌, inl, inr}
use native.Mathlib.Omega.{arith}
use rust_mumble_protocol.Base.Tests.{◌==◌, ==_refl, Bool-cases}
use rust_mumble_protocol.Base.Lists.{
  get_or, set, length, take, drop, replicate, take-append-drop, take_all, length-take, length-drop,
}
use rust_mumble_protocol.Base.Words.{
  IsBytes, to_be_bytes, from_be_bytes, from_be_bytes-lt, to_be_bytes-from_be_bytes,
}

pub IsBytes-append : (xs ys : List ℕ) → IsBytes xs → IsBytes ys → IsBytes (xs ++ ys)
IsBytes-append [] ys h k = k
IsBytes-append (x ∷ xs) ys h k = (h.0, IsBytes-append xs ys h.1 k)

pub IsBytes-append_left : (xs ys : List ℕ) → IsBytes (xs ++ ys) → IsBytes xs
IsBytes-append_left [] ys h = tt
IsBytes-append_left (x ∷ xs) ys h = (h.0, IsBytes-append_left xs ys h.1)

pub IsBytes-append_right : (xs ys : List ℕ) → IsBytes (xs ++ ys) → IsBytes ys
IsBytes-append_right [] ys h = h
IsBytes-append_right (x ∷ xs) ys h = IsBytes-append_right xs ys h.1

pub IsBytes-take : (n : ℕ) (xs : List ℕ) → IsBytes xs → IsBytes (take n xs)
IsBytes-take zero xs h = tt
IsBytes-take (suc n) [] h = tt
IsBytes-take (suc n) (x ∷ xs) h = (h.0, IsBytes-take n xs h.1)

pub IsBytes-drop : (n : ℕ) (xs : List ℕ) → IsBytes xs → IsBytes (drop n xs)
IsBytes-drop zero xs h = h
IsBytes-drop (suc n) [] h = tt
IsBytes-drop (suc n) (x ∷ xs) h = IsBytes-drop n xs h.1

pub IsBytes-replicate : (n x : ℕ) → x < 256 → IsBytes (replicate n x)
IsBytes-replicate zero x h = tt
IsBytes-replicate (suc n) x h = (h, IsBytes-replicate n x h)

-- `bs[from..to]` in range.
abbrev pub slice : ℕ → ℕ → List ℕ → List ℕ
slice from to bs = take (to - from) (drop from bs)

-- Equality of slices.
unfoldable pub bytes_eq : List ℕ → List ℕ → Bool
bytes_eq [] [] = true
bytes_eq [] (b ∷ bs) = false
bytes_eq (a ∷ as') [] = false
bytes_eq (a ∷ as') (b ∷ bs) = a == b && bytes_eq as' bs

bytes_eq→eq : (xs ys : List ℕ) → bytes_eq xs ys ≡ true → xs ≡ ys
unfolding bytes_eq
bytes_eq→eq [] [] e = refl
bytes_eq→eq [] (y ∷ ys) e = cc
bytes_eq→eq (x ∷ xs) [] e = cc
bytes_eq→eq (x ∷ xs) (y ∷ ys) e = ap₂ ◌∷◌ (ground arith) (bytes_eq→eq xs ys (ground arith))

bytes_eq_refl : (xs : List ℕ) → bytes_eq xs xs ≡ true
unfolding bytes_eq
bytes_eq_refl [] = refl
bytes_eq_refl (x ∷ xs) = rw (==_refl x) (bytes_eq_refl xs)

pub bytes_eq_iff : (xs ys : List ℕ) → (bytes_eq xs ys ≡ true) ↔ (xs ≡ ys)
bytes_eq_iff xs ys = (bytes_eq→eq xs ys, λ e. rw (← e) (bytes_eq_refl xs))

pub bytes_eq_ne : (xs ys : List ℕ) → xs ≢ ys → bytes_eq xs ys ≡ false
bytes_eq_ne xs ys ne = elim (Bool-cases (bytes_eq xs ys)) [
  | inl e ↦ absurd (ne ((bytes_eq_iff xs ys).0 e))
  | inr e ↦ e
]

-- Neighbouring parts, and their lengths.
drop-nil : (n : ℕ) → drop {A = ℕ} n [] ≡ []
drop-nil zero = refl
drop-nil (suc n) = refl

take-nil : (n : ℕ) → take {A = ℕ} n [] ≡ []
take-nil zero = refl
take-nil (suc n) = refl

drop-drop : (n m : ℕ) (xs : List ℕ) → drop m (drop n xs) ≡ drop (n + m) xs
drop-drop zero m xs = ap (λ t. drop t xs) (omega arith)
drop-drop (suc n) m [] = drop-nil m ∙ sym (drop-nil (suc n + m))
drop-drop (suc n) m (x ∷ xs) = drop-drop n m xs ∙ ap (λ t. drop t (x ∷ xs)) (sym suc_outside)
  where
    suc_outside : suc n + m ≡ suc (n + m)
    suc_outside = omega arith

pub slice-append-drop :
    (from to : ℕ) (bs : List ℕ) → from ≤ to → slice from to bs ++ drop to bs ≡ drop from bs
slice-append-drop from to bs h =
    ap (λ t. slice from to bs ++ drop t bs) (omega arith)
    ∙ ap (◌++◌ (slice from to bs)) (sym (drop-drop from (to - from) bs))
    ∙ take-append-drop (to - from) (drop from bs)

pub length-slice :
    (from to : ℕ) (bs : List ℕ) → from ≤ to → to ≤ length bs → length (slice from to bs) ≡ to - from
length-slice from to bs h k =
    omega (arith, length-take (to - from) (drop from bs), length-drop from bs)

pub slice-IsBytes : (from to : ℕ) (bs : List ℕ) → IsBytes bs → IsBytes (slice from to bs)
slice-IsBytes from to bs h = IsBytes-take (to - from) (drop from bs) (IsBytes-drop from bs h)

-- The last part.
pub slice_to_end : (from to : ℕ) (bs : List ℕ) → length bs ≤ to → slice from to bs ≡ drop from bs
slice_to_end from to bs h = take_all (to - from) (drop from bs) (omega (arith, length-drop from bs))

pub drop-take : (k n : ℕ) (bs : List ℕ) → drop k (take (k + n) bs) ≡ take n (drop k bs)
drop-take zero n bs = ap (λ t. take t bs) (omega arith)
drop-take (suc k) n [] = ap (drop (suc k)) (take-nil (suc k + n)) ∙ sym (take-nil n)
drop-take (suc k) n (b ∷ bs) =
    ap (λ t. drop (suc k) (take t (b ∷ bs))) suc_outside ∙ drop-take k n bs
  where
    suc_outside : suc k + n ≡ suc (k + n)
    suc_outside = omega arith

-- A part of a buffer, read as a number of `n` bytes and written again.
pub slice_number :
    (from to n : ℕ) (buf : List ℕ)
    → IsBytes buf
    → from ≤ to
    → to ≤ length buf
    → n ≡ to - from
    → (from_be_bytes (slice from to buf) < 256 ^ n)
      × (to_be_bytes n (from_be_bytes (slice from to buf)) ≡ slice from to buf)
slice_number from to n buf h a b e =
    let size : length (slice from to buf) ≡ n = length-slice from to buf a b ∙ sym e in
    let bytes = slice-IsBytes from to buf h in
    (
      subst (λ k. from_be_bytes (slice from to buf) < 256 ^ k) size (from_be_bytes-lt _ bytes),
      ap (λ k. to_be_bytes k (from_be_bytes (slice from to buf))) (sym size)
          ∙ to_be_bytes-from_be_bytes _ bytes,
    )

pub IsBytes-set : (bs : List ℕ) (i v : ℕ) → IsBytes bs → v < 256 → IsBytes (set bs i v)
IsBytes-set [] i v h k = tt
IsBytes-set (b ∷ bs) zero v (hb, h) k = (k, h)
IsBytes-set (b ∷ bs) (suc i) v (hb, h) k = (hb, IsBytes-set bs i v h k)

pub get_or-IsBytes : (bs : List ℕ) (i : ℕ) → IsBytes bs → get_or bs i 0 < 256
get_or-IsBytes [] i h = omega arith
get_or-IsBytes (b ∷ bs) zero h = h.0
get_or-IsBytes (b ∷ bs) (suc i) h = get_or-IsBytes bs i h.1
