-- ===== src/Base.antt =====
-- The names that the other modules share: the libraries', passed on, and those of the children.
pub mod Tests
pub mod Lists
pub mod Text
pub mod Int
pub mod Hex
pub mod Member
pub mod Decimal
pub mod Result
pub use Tests.{ltb, leb, Eq, nat_eq, if◌then◌else◌, Bool-cases, Option-cases, ltb→lt, lt→ltb}
pub use Tests.{◌==◌}
pub use Lists.*
pub use Text.{Bytes, IsByte, bytes, bytes_eq, bytes_beq_iff}
unfoldable pub use Text.{bytes_beq}
pub use Prim.Native.Nat.{ℕ, zero, suc, ◌+◌, ◌-◌, ◌*◌, ◌/◌, ◌%◌, ◌^◌, ◌≤◌, ◌<◌}
pub use mathlib.Core.Path.{◌≡◌, refl, sym, ap, ◌∙◌, subst}
pub use mathlib.Core.Logic.{◌≢◌, ◌↔◌, ◌⊎◌, inl, inr}
pub use mathlib.Core.Bool.{Bool, true, false, not, ◌&&◌, ◌||◌}
pub use mathlib.Core.Option.{Option, none, some}
pub use mathlib.Core.List.{List, [], ◌∷◌, ◌++◌, map}
pub use native.Mathlib.Omega.{arith}
