-- ===== src/Base.antt =====
-- The names that every module shares: the libraries', passed on, and those of the children, which
-- model what the program uses of Python (text, exceptions, sorting, integers).
mod Tests
mod Lists
mod Text
mod Exceptions
pub mod Int
pub mod Sort
pub mod Dict
pub mod Strict
pub mod Stateful
pub mod Decimal
pub use Tests.*
pub use Lists.*
unfoldable pub use Text.*
unfoldable pub use Exceptions.*
pub use Prim.Native.Nat.{ℕ, zero, suc, ◌+◌, ◌-◌, ◌*◌, ◌/◌, ◌%◌, ◌^◌, ◌≤◌, ◌<◌}
pub use Prim.Native.Char.{Char, code}
pub use Prim.Native.String.{String, ◌++◌ as ◌<>◌}
pub use mathlib.Core.Path.{◌≡◌, refl, sym, ap, ◌∙◌}
pub use mathlib.Core.Logic.{◌≢◌, ◌↔◌, ◌⊎◌, inl, inr}
pub use mathlib.Core.Bool.{Bool, true, false, ◌&&◌, ◌||◌, not}
pub use mathlib.Core.Option.{Option, none, some}
pub use mathlib.Core.List.{List, [], ◌∷◌, ◌++◌, map}
pub use native.Mathlib.Omega.{arith}
