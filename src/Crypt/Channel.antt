-- ===== src/Crypt/Channel.antt =====
-- What a voice connection promises: packets may be dropped, delayed and reordered, but each packet
-- that is received was sent, and it is received once.
pub mod Unordered
use rust_mumble_protocol.Base.{suc, sym, refl, ap, ◌∙◌, ==_iff, ==_ne, ◌⊎◌, inl, inr}
use native.Mathlib.Decide.{ℕ_discrete}
use mathlib.Core.List.{map}
use rust_mumble_protocol.Base.{
  ℕ, ◌≡◌, ◌≢◌, List, [], ◌∷◌, Option, none, some, All, length, ◌==◌, if◌then◌else◌,
}

module _ {ℓ} {A : Type ℓ} where
  -- The list has what was sent last at its front; the first thing sent has the index 0.
  unfoldable pub sent_at : List A → ℕ → Option A
  sent_at [] i = none
  sent_at (x ∷ xs) i = if i == length xs then some x else sent_at xs i

  -- What was sent, the indices of what was received, and what was received, the last one first.
  pub data Channel : List A → List ℕ → List A → Type ℓ where
    opened : Channel [] [] []
    sends :
        (x : A) {xs : List A} {is : List ℕ} {got : List A}
        → Channel xs is got
        → Channel (x ∷ xs) is got
    delivers :
        (i : ℕ) (x : A) {xs : List A} {is : List ℕ} {got : List A}
        → sent_at xs i ≡ some x
        → All (λ j. j ≢ i) is
        → Channel xs is got
        → Channel xs (i ∷ is) (x ∷ got)

map-length {ℓ κ} :
    {A : Type ℓ} {B : Type κ} (f : A → B) (xs : List A) → length (map f xs) ≡ length xs
map-length f [] = refl
map-length f (x ∷ xs) = ap suc (map-length f xs)

some_injective {ℓ} : {A : Type ℓ} {x y : A} → some x ≡ some y → x ≡ y
some_injective e = cc

-- The newest one or one before it.
pub sent_at-cons {ℓ} :
    {A : Type ℓ} (y : A) (xs : List A) (i : ℕ) (x : A)
    → sent_at (y ∷ xs) i ≡ some x
    → ((i ≡ length xs) × (y ≡ x)) ⊎ ((i ≢ length xs) × (sent_at xs i ≡ some x))
unfolding sent_at
sent_at-cons y xs i x e = elim (ℕ_discrete i (length xs)) [
  | yes here ↦ inl (
    here,
    some_injective
        (sym (ap (λ t. if t then some y else sent_at xs i) ((==_iff i (length xs)).1 here)) ∙ e),
  )
  | no gone ↦
      inr (gone, sym (ap (λ t. if t then some y else sent_at xs i) (==_ne i (length xs) gone)) ∙ e)
]

pub sent_at-map {ℓ κ} :
    {A : Type ℓ} {B : Type κ} (f : A → B) (xs : List A) (i : ℕ) (x : A)
    → sent_at xs i ≡ some x
    → sent_at (map f xs) i ≡ some (f x)
unfolding sent_at
sent_at-map f [] i x e = cc
sent_at-map f (y ∷ xs) i x e = elim (sent_at-cons y xs i x e) [
  | inl (here, same) ↦
      ap (λ t. if t then some (f y) else sent_at (map f xs) i)
        ((==_iff i (length (map f xs))).1 (here ∙ sym (map-length f xs)))
      ∙ ap (λ x. some (f x)) same
  | inr (gone, old) ↦
      ap (λ t. if t then some (f y) else sent_at (map f xs) i)
        (==_ne i (length (map f xs)) (λ h. gone (h ∙ map-length f xs)))
      ∙ sent_at-map f xs i x old
]
