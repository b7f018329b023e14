-- ===== src/Base.antt =====
-- Names that the other modules share: the libraries' names passed on, C's tests and words, lists
-- under native indices, signed integers, and the laws of the bit operations.
mod Tests
mod Lists
mod Words
mod Int
mod Options
mod Bytes
pub mod Bits
pub use Tests.*
pub use Lists.*
pub use Words.*
pub use Int.*
pub use Options.*
pub use Bytes.*
pub use Prim.Native.Nat.{ℕ, zero, suc, ◌+◌, ◌-◌, ◌*◌, ◌/◌, ◌%◌, ◌^◌, ◌≤◌, ◌<◌}
pub use Prim.Native.Nat.{bit_and, bit_or, bit_xor}
pub use mathlib.Core.Path.{◌≡◌, refl, sym, ap, ap₂, subst, ◌∙◌}
pub use mathlib.Core.Logic.{◌≢◌, ◌↔◌, ◌⊎◌, inl, inr}
pub use mathlib.Core.Bool.{Bool, true, false, not, ◌&&◌, ◌||◌}
pub use mathlib.Core.Option.{Option, none, some}
pub use mathlib.Core.List.{List, [], ◌∷◌, ◌++◌, map}
pub use native.Mathlib.Omega.{arith}
