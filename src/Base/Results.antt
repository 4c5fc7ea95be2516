-- ===== src/Base/Results.antt =====
-- Rust's results, with the panic that a failed assertion or an `expect` raises.

-- `ok` and `err` are those of Rust; `panic` is no value of it.
pub data Result {ℓ} (A : Type ℓ) (E : Type 0) : Type ℓ where
  ok : A → Result A E
  err : E → Result A E
  panic : Result A E

-- The kinds of `std::io::Error` that the program makes; its message texts are left out.
pub data IoError : Type 0 where
  unexpected_eof invalid_data other : IoError

-- The `?` operator.
infixl 5 ◌>>=◌
abbrev pub ◌>>=◌ {ℓ κ} :
    {E : Type 0} {A : Type ℓ} {B : Type κ} → Result A E → (A → Result B E) → Result B E
ok a >>= f = f a
err e >>= f = err e
panic >>= f = panic
