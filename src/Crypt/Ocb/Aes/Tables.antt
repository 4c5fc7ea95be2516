-- ===== src/Crypt/Ocb/Aes/Tables.antt =====
-- Two functions that agree on every byte, by evaluation.
use rust_mumble_protocol.Base.{
  ℕ, zero, suc, ◌+◌, ◌%◌, ◌<◌, ◌≡◌, subst, arith, Bool, true, false, ◌==◌, if◌then◌else◌,
}

-- On the `count` numbers from `start` on.
unfoldable pub agree : (ℕ → ℕ) → (ℕ → ℕ) → ℕ → ℕ → Bool
agree f g start zero = true
agree f g start (suc count) = if f start == g start then agree f g (start + 1) count else false

agree-eq :
    (f g : ℕ → ℕ) (start count k : ℕ)
    → agree f g start count ≡ true
    → k < count
    → f (start + k) ≡ g (start + k)
unfolding agree
agree-eq f g start zero k table h = absurd (omega arith)
agree-eq f g start (suc count) zero table h =
    let here : start + 0 ≡ start = omega arith in rw here (ground arith)
agree-eq f g start (suc count) (suc k) table h =
    let there : start + suc k ≡ start + 1 + k = omega arith in
    rw there (ground (arith, agree-eq f g (start + 1) count k))

pub by_table : (f g : ℕ → ℕ) → agree f g 0 256 ≡ true → (x : ℕ) → x < 256 → f x ≡ g x
by_table f g table x h =
    let from_zero : 0 + x ≡ x = omega arith in
    subst (λ (y : ℕ). f y ≡ g y) from_zero (agree-eq f g 0 256 x table h)

pub lt_table : (f : ℕ → ℕ) → agree f (λ x. f x % 256) 0 256 ≡ true → (x : ℕ) → x < 256 → f x < 256
lt_table f table x h = omega (arith, by_table f (λ x. f x % 256) table x h)
