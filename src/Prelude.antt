-- ===== src/Prelude.antt =====
-- The names that the other modules share: those of the libraries, passed on, tests on numbers,
-- lists indexed by native numbers, and the integers of the few signed variables.
mod Tests
mod Lists
mod Int
mod Reads
mod Text
mod LineText
pub use Tests.*
pub use Lists.*
pub use Int.*
unfoldable pub use Reads.*
unfoldable pub use Text.*
unfoldable pub use LineText.*
pub use Prim.Native.Nat.{ℕ, zero, suc, ◌+◌, ◌-◌, ◌*◌, ◌/◌, ◌%◌, ◌^◌, ◌≤◌, ◌<◌, min}
pub use mathlib.Core.Path.{◌≡◌, refl, sym, ap, ap₂, ◌∙◌, subst}
pub use mathlib.Core.Logic.{◌≢◌, ◌↔◌, ◌⊎◌, inl, inr}
pub use mathlib.Core.Bool.{Bool, true, false, not, ◌&&◌, ◌||◌}
pub use mathlib.Core.Option.{Option, none, some, some-injective}
pub use mathlib.Core.List.{List, [], ◌∷◌, ◌++◌, map, reverse}
pub use native.Mathlib.Omega.{arith}
unfoldable pub use native.Mathlib.Decide.{dec_lt, ℕ_discrete}
