-- ===== src/Base.antt =====
-- Names that every module shares: the libraries', passed on, and those of the children.
mod Equality
mod Numbers
mod Sequences
pub mod Dict
pub mod Text
pub mod FilePath
pub mod Sorting
pub mod Json
pub mod Exec
pub mod Ensures
pub mod Succeeds
pub mod Answers
pub use Equality.{Eq, nat_eq, bool_eq, ◌==◌, contains, if◌then◌else◌, Bool-cases}
unfoldable pub use Equality.{string_eq, option_eq}
unfoldable pub use Numbers.*
pub use Sequences.*
pub use Prim.Native.Nat.{ℕ, zero, suc, ◌+◌, ◌-◌, ◌*◌, ◌/◌, ◌%◌, ◌≤◌, ◌<◌, min}
pub use Prim.Native.String.{String, ◌++◌ as ◌<>◌}
pub use mathlib.Core.Path.{◌≡◌, refl, sym, ap, ◌∙◌, subst}
pub use mathlib.Core.Logic.{◌≢◌, ◌↔◌, ◌⊎◌, inl, inr}
pub use mathlib.Core.Bool.{Bool, true, false, not, ◌&&◌, ◌||◌}
pub use mathlib.Core.Option.{Option, none, some}
pub use mathlib.Core.List.{List, [], ◌∷◌, ◌++◌, map}
pub use native.Mathlib.Omega.{arith}
unfoldable pub use native.Mathlib.Decide.{ℕ_discrete}
