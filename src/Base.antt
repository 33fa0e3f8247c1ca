-- ===== src/Base.antt =====
-- What the modules of the library share: the names of the standard library, passed on, and the
-- helpers of the children.
mod Tests
mod Int
mod Assoc
mod Lists
mod Text
pub mod Action
pub mod Triple
pub mod Invariant
mod Number
pub use Tests.*
unfoldable pub use Int.*
unfoldable pub use Assoc.*
pub use Lists.*
unfoldable pub use Text.*
unfoldable pub use Number.*
pub use Prim.Native.Nat.{ℕ, zero, suc, ◌+◌, ◌-◌, ◌*◌, ◌/◌, ◌%◌, ◌^◌, ◌≤◌, ◌<◌, min, max}
pub use Prim.Native.String.{String}
pub use mathlib.Core.Path.{◌≡◌, refl, sym, ap, ◌∙◌, subst}
pub use mathlib.Core.Logic.{◌≢◌, ◌↔◌, ◌⊎◌, inl, inr}
pub use mathlib.Core.Bool.{Bool, true, false, not, ◌&&◌, ◌||◌}
pub use mathlib.Core.Option.{Option, none, some}
pub use mathlib.Core.List.{List, [], ◌∷◌, ◌++◌, map}
pub use native.Mathlib.Omega.{arith}
pub use text.Mathlib.Text.{◌==◌}
pub use text.Mathlib.TextEquality.{eq_iff}
pub use text.Mathlib.TextPositions.{eq_refl}
