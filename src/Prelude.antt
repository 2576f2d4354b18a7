-- ===== src/Prelude.antt =====
-- Names that every part of the development shares: those of the libraries, passed on, and the
-- helpers of the children (tests and equality, lists, texts, results with transactions).
mod Tests
mod Lists
mod Text
mod Results
mod Tables
pub mod Int
pub mod Effects
pub mod Keys
pub mod Sort
pub use Tests.*
pub use Lists.*
unfoldable pub use Text.*
pub use Results.*
pub use Tables.*
pub use Prim.Native.Nat.{ℕ, zero, suc, ◌+◌, ◌-◌, ◌*◌, ◌/◌, ◌%◌, ◌^◌, ◌≤◌, ◌<◌, min, max}
pub use Prim.Native.String.{String}
pub use mathlib.Core.Path.{◌≡◌, refl, sym, ap, ◌∙◌, subst}
pub use mathlib.Core.Logic.{◌≢◌, ◌↔◌, ◌⊎◌, inl, inr}
pub use mathlib.Core.Bool.{Bool, true, false, not, ◌&&◌, ◌||◌}
pub use mathlib.Core.Option.{Option, none, some}
pub use mathlib.Core.List.{List, [], ◌∷◌, ◌++◌, map}
pub use native.Mathlib.Omega.{arith}
