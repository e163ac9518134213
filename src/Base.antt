-- ===== src/Base.antt =====
-- The names that the other modules share: the library's, passed on, and those of four children.
mod Tests
mod Eq
mod Lists
mod Word
pub mod Map
pub mod Select
pub mod Sort
pub mod Rank
pub mod Counts
pub mod Int
pub use Tests.*
pub use Eq.{Eq as EqKey, ◌==◌, nat_eq, pair_eq, pair_beq_iff}
pub use Lists.*
pub use Word.*
pub use Prim.Native.Nat.{ℕ, zero, suc, ◌+◌, ◌-◌, ◌*◌, ◌/◌, ◌%◌, ◌^◌, ◌≤◌, ◌<◌, min, max}
pub use mathlib.Core.Path.{◌≡◌, refl, sym, ap, ◌∙◌, subst}
pub use mathlib.Core.Logic.{◌≢◌, ◌↔◌, ◌⊎◌, inl, inr}
pub use mathlib.Core.Bool.{Bool, true, false, not, ◌&&◌, ◌||◌}
pub use mathlib.Core.Option.{Option, none, some}
pub use mathlib.Core.List.{List, [], ◌∷◌, ◌++◌, map}
pub use native.Mathlib.Omega.{arith}
