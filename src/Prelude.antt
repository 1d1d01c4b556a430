-- ===== src/Prelude.antt =====
-- Names that every module shares: the libraries' notation passed on, the Boolean tests on
-- numbers, and the helpers on lists, dictionaries, sorting, text and floats of the child modules.
mod Tests
mod Lists
mod Sublists
mod Membership
mod Dictionaries
mod FloatOps
mod Sorting
mod Indices
pub mod Decimal
pub mod Text
pub use Tests.*
pub use Lists.*
pub use Sublists.*
pub use Membership.*
pub use Dictionaries.*
unfoldable pub use Decimal.*
pub use FloatOps.*
unfoldable pub use Indices.*
unfoldable pub use Sorting.*
pub use Prim.Native.Nat.{ℕ, zero, suc, ◌+◌, ◌-◌, ◌*◌, ◌/◌, ◌%◌, ◌^◌, ◌≤◌, ◌<◌, min, max}
pub use Prim.Native.String.{String}
pub use mathlib.Core.Path.{◌≡◌, refl, sym, ap, ap₂, ◌∙◌, subst}
pub use mathlib.Core.Logic.{◌≢◌, ◌↔◌, ◌⊎◌, inl, inr}
pub use mathlib.Core.Bool.{Bool, true, false, not, ◌&&◌, ◌||◌}
pub use mathlib.Core.Option.{Option, none, some}
pub use mathlib.Core.List.{List, [], ◌∷◌, ◌++◌, map}
pub use native.Mathlib.Omega.{arith}
pub use text.Mathlib.Text.{◌==◌ as str_eq}
pub use text.Mathlib.TextEquality.{eq_iff}
