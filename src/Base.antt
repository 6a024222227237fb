-- ===== src/Base.antt =====
-- The names that the modules of the model share: the libraries', passed on, and those of the
-- children: tests, arrays, assertions, bits and integers.
mod Tests
mod Lists
mod Ranges
mod Membership
mod Assertions
pub mod Bits
pub mod Int
pub use Tests.*
pub use Lists.*
pub use Ranges.*
pub use Membership.*
pub use Assertions.*
pub use Prim.Native.Nat.{ℕ, zero, suc, ◌+◌, ◌-◌, ◌*◌, ◌/◌, ◌%◌, ◌^◌, ◌≤◌, ◌<◌, min, max}
pub use mathlib.Core.Path.{◌≡◌, refl, sym, ap, ap₂, ◌∙◌, subst, fun_ext}
pub use mathlib.Core.Logic.{◌≢◌, ◌↔◌, ◌⊎◌, inl, inr}
pub use mathlib.Core.Bool.{Bool, true, false, ◌&&◌, ◌||◌, not}
pub use mathlib.Core.Option.{Option, none, some}
pub use mathlib.Core.List.{List, [], ◌∷◌, ◌++◌, map}
pub use native.Mathlib.Omega.{arith}
