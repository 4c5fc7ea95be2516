-- ===== src/Crypt/Channel/Unordered.antt =====
-- What a channel promises when the order is forgotten: what was received, with its repetitions, is
-- part of what was sent.
use rust_mumble_protocol.Base.{
  ◌<◌, ◌≤◌, Bool, false, ℕ, ◌≡◌, ◌≢◌, refl, sym, ap, ◌∙◌, subst, arith, List, [], ◌∷◌, some, All,
  length, ◌==◌, ==_iff, ==_ne, All-map, ◌||◌, if◌then◌else◌, Bool-cases, inl, inr,
}
use mathlib.Core.List.{Perm, Subperm, Sublist}
use mathlib.Core.List.Perm
use mathlib.Core.List.Sublist
use rust_mumble_protocol.Crypt.Channel.{sent_at, sent_at-cons, Channel, opened, sends, delivers}

abbrev contains : List ℕ → ℕ → Bool
contains [] i = false
contains (j ∷ js) i = (j == i) || contains js i

contains-All : (is : List ℕ) (i : ℕ) → All (λ j. j ≢ i) is → contains is i ≡ false
contains-All [] i h = refl
contains-All (j ∷ js) i (hj, h) = rw (==_ne j i hj) (contains-All js i h)

module _ {ℓ} {A : Type ℓ} where
  -- What has one of the indices, in the order in which it was sent.
  abbrev picks : List ℕ → List A → List A
  picks is [] = []
  picks is (x ∷ xs) = if contains is (length xs) then x ∷ picks is xs else picks is xs

picks-sublist {ℓ} : {A : Type ℓ} (is : List ℕ) (xs : List A) → Sublist (picks is xs) xs
picks-sublist is [] = Sublist.refl []
picks-sublist is (x ∷ xs) = elim (Bool-cases (contains is (length xs))) [
  | inl e ↦ rw e (Sublist.cons-cons x (picks-sublist is xs))
  | inr e ↦ rw e (Sublist.cons x (picks-sublist is xs))
]

picks_none {ℓ} : {A : Type ℓ} (xs : List A) → picks [] xs ≡ []
picks_none [] = refl
picks_none (x ∷ xs) = picks_none xs

-- An index that is not there picks nothing.
picks_beyond {ℓ} :
    {A : Type ℓ} (i : ℕ) (is : List ℕ) (xs : List A)
    → length xs ≤ i
    → picks (i ∷ is) xs ≡ picks is xs
picks_beyond i is [] h = refl
picks_beyond i is (x ∷ xs) h =
    rw (==_ne i (length xs) (omega arith), picks_beyond i is xs (omega arith)) refl

-- One that is there picks what was sent with it.
picks-sent_at {ℓ} :
    {A : Type ℓ} (i : ℕ) (is : List ℕ) (xs : List A) (x : A)
    → contains is i ≡ false
    → sent_at xs i ≡ some x
    → Perm (picks (i ∷ is) xs) (x ∷ picks is xs)
unfolding sent_at
picks-sent_at i is [] x fresh e = cc
picks-sent_at i is (y ∷ xs) x fresh e = elim (sent_at-cons y xs i x e) [
  | inl (here, same) ↦
      let fresh_here : contains is (length xs) ≡ false = ap (contains is) (sym here) ∙ fresh in
      rw ((==_iff i (length xs)).1 here, picks_beyond i is xs (omega arith), fresh_here)
        (subst (λ t. Perm (y ∷ picks is xs) (t ∷ picks is xs)) same (Perm.refl (y ∷ picks is xs)))
  | inr (gone, old) ↦ elim (Bool-cases (contains is (length xs))) [
    | inl e ↦
        rw (==_ne i (length xs) gone, e)
          (Perm.trans (Perm.cons y (picks-sent_at i is xs x fresh old))
            (Perm.swap x y (picks is xs)))
    | inr e ↦ rw (==_ne i (length xs) gone, e) (picks-sent_at i is xs x fresh old)
  ]
]

sent_at-lt {ℓ} : {A : Type ℓ} (xs : List A) (i : ℕ) (x : A) → sent_at xs i ≡ some x → i < length xs
unfolding sent_at
sent_at-lt [] i x e = cc
sent_at-lt (y ∷ xs) i x e = elim (sent_at-cons y xs i x e) [
  | inl (here, same) ↦ omega arith
  | inr (gone, old) ↦ omega (arith, sent_at-lt xs i x old)
]

module _ {ℓ} {A : Type ℓ} where
  indices_below :
      {xs : List A} {is : List ℕ} {got : List A} → Channel xs is got → All (λ j. j < length xs) is
  indices_below opened = tt
  indices_below (sends x {is} c) = All-map (λ j h. omega arith) is (indices_below c)
  indices_below (delivers i x {xs} e fresh c) = (sent_at-lt xs i x e, indices_below c)

  received-picks :
      {xs : List A} {is : List ℕ} {got : List A} → Channel xs is got → Perm (picks is xs) got
  received-picks opened = Perm.refl []
  received-picks (sends x {xs} {is} c) =
      rw
        (contains-All is (length xs) (All-map (λ j h e. absurd (omega arith)) is (indices_below c)))
        (received-picks c)
  received-picks (delivers i x {xs} {is} e fresh c) =
      Perm.trans (picks-sent_at i is xs x (contains-All is i fresh) e)
        (Perm.cons x (received-picks c))

  -- However a channel drops, delays and reorders: what was received is, up to the order, a part of
  -- what was sent, so nothing comes more often than it was sent.
  pub Channel-subperm :
      {xs : List A} {is : List ℕ} {got : List A} → Channel xs is got → Subperm got xs
  Channel-subperm {xs} {is} c = ∣ (picks is xs, received-picks c, picks-sublist is xs) ∣₁
