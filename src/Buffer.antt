-- ===== src/Buffer.antt =====
-- The operations of `bytes::BytesMut` that the decoders use, on a buffer that is a list of bytes,
-- as a state monad with errors. An index or a count out of range makes `BytesMut` panic.
pub mod Laws
use rust_mumble_protocol.Base.{
  ℕ, ◌-◌, ltb, if◌then◌else◌, Bool, true, false, [], ◌∷◌, Bytes, length, take, drop,
}
use rust_mumble_protocol.Base.{Result, ok, err, panic, IoError}

-- A step returns its result and the buffer that it leaves, also where it fails.
abbrev pub Step {ℓ} : Type ℓ → Type ℓ
Step A = Bytes → Result A IoError × Bytes

abbrev pub resume {ℓ κ} :
    {A : Type ℓ} {B : Type κ} → (A → Step B) → Result A IoError → Bytes → Result B IoError × Bytes
resume f (ok a) src = f a src
resume f (err e) src = (err e, src)
resume f panic src = (panic, src)

infixl 5 ◌>>=◌ ◌>>◌
abbrev pub ◌>>=◌ {ℓ κ} : {A : Type ℓ} {B : Type κ} → Step A → (A → Step B) → Step B
◌>>=◌ m f src = resume f (m src).0 (m src).1

abbrev pub ◌>>◌ {ℓ} : {B : Type ℓ} → Step (Unit {0}) → Step B → Step B
m >> k = m >>= λ _. k

-- A result that does not touch the buffer, such as that of a read through a cursor over it.
abbrev pub lift {ℓ} : {A : Type ℓ} → Result A IoError → Step A
lift r src = (r, src)

abbrev pub pure {ℓ} : {A : Type ℓ} → A → Step A
pure a = lift (ok a)

abbrev pub is_empty : Bytes → Bool
is_empty [] = true
is_empty (b ∷ src) = false

-- `src[0]`
abbrev pub first_byte : Step ℕ
first_byte [] = (panic, [])
first_byte (b ∷ src) = (ok b, b ∷ src)

abbrev pub advance : ℕ → Step (Unit {0})
advance n src = if ltb (length src) n then (panic, src) else (ok tt, drop n src)

abbrev pub split_to : ℕ → Step Bytes
split_to n src = if ltb (length src) n then (panic, src) else (ok (take n src), drop n src)

-- `split`, which takes all.
abbrev pub split : Step Bytes
split src = (ok src, [])

abbrev pub contents : Step Bytes
contents src = (ok src, src)

-- Where a cursor stands that has `buf` left of `src`.
abbrev pub position : Bytes → Bytes → ℕ
position src buf = length src - length buf
