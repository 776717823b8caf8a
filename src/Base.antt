-- ===== src/Base.antt =====
-- The names that the models of the proxy share: those of the libraries, passed on, and those of
-- the children: Boolean tests, lists, Go's `int`, Go's `float64`, and Go's string functions.
mod Tests
mod Lists
mod Int
mod Floats
mod Text
mod Encoding
unfoldable pub use Tests.*
pub use Lists.*
unfoldable pub use Int.*
pub use Floats.*
unfoldable pub use Text.*
unfoldable pub use Encoding.*
pub use Prim.Native.Nat.{ℕ, zero, suc, ◌+◌, ◌-◌, ◌*◌, ◌/◌, ◌%◌, ◌≤◌, ◌<◌, max, min}
pub use Prim.Native.String.{String, len}
pub use mathlib.Core.Path.{◌≡◌, refl, sym, ap, subst, fun_ext, ◌∙◌, ◌≡⟨◌⟩◌, ◌∎}
pub use mathlib.Core.Logic.{◌≢◌, ◌↔◌, ◌⊎◌, inl, inr}
pub use mathlib.Core.Bool.{Bool, true, false, not, ◌&&◌, ◌||◌}
pub use mathlib.Core.Option.{Option, none, some}
pub use mathlib.Core.List.{List, [], ◌∷◌, ◌++◌, map}
pub use native.Mathlib.Omega.{arith}
pub use text.Mathlib.Text.{starts_with}
pub use text.Mathlib.TextEquality.{eq_iff}
