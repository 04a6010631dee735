-- ===== src/Prelude.antt =====
-- The names that every module shares: the libraries', passed on, and the children's.
pub mod Tests
pub mod Lists
pub mod Results
pub mod Order
pub mod Bits
pub mod Equality
pub mod Keyed
pub mod Orders
pub mod Words
pub mod Slices
pub mod Strings
pub use Tests.*
pub use Lists.*
pub use Results.*
pub use Equality.*
pub use Keyed.*
pub use Orders.*
pub use Words.*
pub use Slices.*
pub use Prim.Native.Nat.{ℕ, zero, suc, ◌+◌, ◌-◌, ◌*◌, ◌/◌, ◌%◌, ◌^◌, ◌≤◌, ◌<◌, min, max}
pub use mathlib.Core.Path.{◌≡◌, refl, sym, ap, ◌∙◌, subst}
pub use mathlib.Core.Logic.{◌≢◌, ◌↔◌, ◌⊎◌, inl, inr}
pub use mathlib.Core.Bool.{Bool, true, false, not, ◌&&◌, ◌||◌}
pub use mathlib.Core.Option.{Option, none, some}
pub use mathlib.Core.List.{List, [], ◌∷◌, ◌++◌, map}
pub use native.Mathlib.Omega.{arith}
