-- ===== src/Prelude.antt =====
-- The names that every module of this library shares: those of the libraries, passed on, and the
-- Boolean tests, list helpers and integers of the child modules.
mod Tests
mod Lists
mod Rows
mod Single
pub mod Int
pub mod Dict
pub use Tests.*
pub use Lists.*
pub use Rows.*
pub use Single.*
pub use Prim.Native.Nat.{ℕ, zero, suc, ◌+◌, ◌-◌, ◌*◌, ◌/◌, ◌%◌, ◌≤◌, ◌<◌, min, max}
pub use mathlib.Core.Path.{◌≡◌, refl, sym, ap, ◌∙◌}
pub use mathlib.Core.Logic.{◌≢◌, ◌↔◌, ◌⊎◌, inl, inr}
pub use mathlib.Core.Bool.{Bool, true, false, ◌&&◌, ◌||◌, not}
pub use mathlib.Core.Option.{Option, none, some}
pub use mathlib.Core.List.{List, [], ◌∷◌, ◌++◌, map}
pub use native.Mathlib.Omega.{arith}
