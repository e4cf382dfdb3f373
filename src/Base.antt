-- ===== src/Base.antt =====
-- What the modules share: library names passed on, tests, lists and maps over the native numbers.
mod Tests
mod Lists
mod ByteArray
pub mod Int
pub mod HashMap
pub mod OrderedMap
pub mod HashSet
unfoldable pub use Tests.*
unfoldable pub use Lists.*
unfoldable pub use ByteArray.*
pub use Prim.Native.Nat.{ℕ, zero, suc, ◌+◌, ◌-◌, ◌*◌, ◌/◌, ◌%◌, ◌^◌, ◌≤◌, ◌<◌}
pub use mathlib.Core.Path.{◌≡◌, refl, sym, ap, subst, ◌∙◌}
pub use mathlib.Core.Logic.{◌≢◌, ◌↔◌, ◌⊎◌, inl, inr}
pub use mathlib.Core.Bool.{Bool, true, false, not, ◌&&◌, ◌||◌}
pub use mathlib.Core.Option.{Option, none, some}
pub use mathlib.Core.List.{List, [], ◌∷◌, ◌++◌, map}
pub use native.Mathlib.Omega.{arith}
