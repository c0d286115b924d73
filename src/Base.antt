-- ===== src/Base.antt =====
-- The names that the other modules share: the library's, passed on, and those of the children.
pub mod Tests
pub mod Lists
pub mod Texts
pub mod Words
pub mod Str
pub mod Dict
pub mod IdSet
pub mod NatSet
pub mod Integers
pub use Tests.*
pub use Lists.*
pub use Texts.{Text, same_iff, same_refl, codes}
unfoldable pub use Texts.{same}
pub use Words.*
pub use Integers.*
pub use Prim.Native.Nat.{ℕ, zero, suc, ◌+◌, ◌-◌, ◌*◌, ◌/◌, ◌%◌, ◌^◌, ◌≤◌, ◌<◌, min, max}
pub use mathlib.Core.Path.{◌≡◌, refl, sym, ap, ◌∙◌}
pub use mathlib.Core.Logic.{◌≢◌, ◌↔◌, ◌⊎◌, inl, inr}
pub use mathlib.Core.Bool.{Bool, true, false, not, ◌&&◌, ◌||◌}
pub use mathlib.Core.Option.{Option, none, some}
pub use mathlib.Core.List.{List, [], ◌∷◌, ◌++◌, map}
pub use native.Mathlib.Omega.{arith}
