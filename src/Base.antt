-- ===== src/Base.antt =====
-- The names that the other modules share: the libraries', passed on, the tests on numbers, the
-- result type of the fallible functions, lists, and keys with a decidable equality.
mod Tests
mod Results
mod Lists
pub mod Keys
pub mod Keyed
pub mod Text
pub mod Headers
pub mod Table
pub mod Order
pub mod Bits
pub use Tests.*
pub use Results.*
pub use Lists.*
pub use Prim.Native.Nat.{ℕ, zero, suc, ◌+◌, ◌-◌, ◌*◌, ◌/◌, ◌%◌, ◌^◌, ◌≤◌, ◌<◌}
pub use mathlib.Core.Path.{◌≡◌, refl, sym, ap, ◌∙◌, subst}
pub use mathlib.Core.Logic.{◌≢◌, ◌↔◌, ◌⊎◌, inl, inr}
pub use mathlib.Core.Bool.{Bool, true, false, not, ◌&&◌, ◌||◌}
pub use mathlib.Core.Option.{Option, none, some}
pub use mathlib.Core.List.{List, [], ◌∷◌, ◌++◌, map}
pub use native.Mathlib.Omega.{arith}
