-- ===== src/Prelude.antt =====
-- Names that all modules share: the libraries' and those of the children, passed on. `Tests` has
-- the Boolean tests, `Lists` the lists by native numbers, `Python` exceptions and fallible results,
-- `Mapping` dictionaries with text keys.
mod Tests
mod Lists
mod Python
mod Mapping
unfoldable pub use Tests.*
unfoldable pub use Lists.*
unfoldable pub use Python.*
unfoldable pub use Mapping.*
pub use Prim.Native.Nat.{ℕ, zero, suc, ◌+◌, ◌-◌, ◌*◌, ◌/◌, ◌%◌, ◌^◌, ◌≤◌, ◌<◌}
pub use Prim.Native.String.{String}
pub use mathlib.Core.Path.{◌≡◌, refl, sym, ap, ◌∙◌}
pub use mathlib.Core.Logic.{◌≢◌, ◌↔◌, ◌⊎◌, inl, inr}
pub use mathlib.Core.Bool.{Bool, true, false, not, ◌&&◌, ◌||◌}
pub use mathlib.Core.Option.{Option, none, some}
pub use mathlib.Core.List.{List, [], ◌∷◌, ◌++◌, map, append-nil, append_assoc}
pub use native.Mathlib.Omega.{arith}
pub use text.Mathlib.TextEquality.{eq_iff}
pub use text.Mathlib.TextPositions.{eq_refl}
