-- ===== src/Prelude.antt =====
-- The names that the other modules share: the libraries', passed on, and those of eight children.
-- Numbers are the native ones; whole texts are `String`, and texts that the code walks are lists
-- of UTF-16 code units.
mod Tests
mod Lists
mod Find
mod Text
mod Upsert
mod Strings
mod Decode
mod Results
pub use Tests.*
pub use Lists.*
pub use Find.*
unfoldable pub use Text.*
unfoldable pub use Upsert.*
pub use Strings.*
pub use Results.*
unfoldable pub use Decode.*
pub use Prim.Native.Nat.{ℕ, zero, suc, ◌+◌, ◌-◌, ◌*◌, ◌/◌, ◌%◌, ◌^◌, ◌≤◌, ◌<◌, min}
pub use Prim.Native.String.{String}
pub use mathlib.Core.Path.{◌≡◌, refl, sym, ap, ◌∙◌}
pub use mathlib.Core.Logic.{◌≢◌, ◌↔◌, ◌⊎◌, inl, inr}
pub use mathlib.Core.Bool.{Bool, true, false, ◌&&◌, ◌||◌, not}
pub use mathlib.Core.Option.{Option, none, some}
pub use mathlib.Core.List.{List, [], ◌∷◌, ◌++◌, map}
pub use native.Mathlib.Omega.{arith}
pub use text.Mathlib.Text.{◌==◌}
pub use text.Mathlib.TextEquality.{eq_iff}
pub use text.Mathlib.TextPositions.{eq_refl}
