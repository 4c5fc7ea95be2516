-- ===== src/Base.antt =====
-- What the models of src/*.rs share: numbers, tests, lists, results, bytes and bits.
mod Tests
mod Lists
mod Results
mod Digits
mod Bits
mod Xor
mod Words
mod Int
mod Fields
mod Slices
pub use Tests.*
pub use Lists.*
pub use Results.*
pub use Bits.*
pub use Xor.*
pub use Words.*
pub use Int.*
pub use Fields.*
unfoldable pub use Slices.*
pub use Prim.Native.Nat.{ℕ, zero, suc, ◌+◌, ◌-◌, ◌*◌, ◌/◌, ◌%◌, ◌^◌, ◌≤◌, ◌<◌}
pub use Prim.Native.Nat.{bit_and, bit_or, bit_xor}
pub use mathlib.Core.Path.{◌≡◌, refl, sym, ap, ap₂, subst, ◌∙◌}
pub use mathlib.Core.Logic.{◌≢◌, ◌↔◌, ◌⊎◌, inl, inr}
pub use mathlib.Core.Bool.{Bool, true, false, ◌&&◌, ◌||◌, not}
pub use mathlib.Core.Option.{Option, none, some}
pub use mathlib.Core.List.{List, [], ◌∷◌, ◌++◌, append-nil, append_assoc}
pub use native.Mathlib.Omega.{arith}
