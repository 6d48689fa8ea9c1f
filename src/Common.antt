-- ===== src/Common.antt =====
-- The names that every other module shares: those of the libraries, passed on, and those of the
-- children (Boolean tests, lists as tables, integers, results).
mod Tests
mod Lists
mod Keys
mod Int
mod Results
pub use Tests.*
pub use Keys.*
pub use Lists.*
unfoldable pub use Int.*
pub use Results.*
pub use Prim.Native.Nat.{ℕ, zero, suc, ◌+◌, ◌-◌, ◌*◌, ◌≤◌, ◌<◌}
pub use Prim.Native.String.{String}
pub use mathlib.Core.Path.{◌≡◌, refl, sym, ap, subst, ◌∙◌}
pub use mathlib.Core.Logic.{◌≢◌, ◌↔◌, ◌⊎◌, inl, inr}
pub use mathlib.Core.Bool.{Bool, true, false, not, ◌&&◌, ◌||◌}
pub use mathlib.Core.Option.{Option, none, some}
pub use mathlib.Core.List.{List, [], ◌∷◌, ◌++◌, map}
pub use native.Mathlib.Omega.{arith}
pub use text.Mathlib.Text.{◌==◌ as str_eq}
pub use text.Mathlib.TextEquality.{eq_iff as str_eq_iff}
pub use text.Mathlib.TextPositions.{eq_refl as str_eq_refl}
pub use Prim.Native.String.{
  ◌++◌ as str_append, slice as str_slice, len as byte_len, count as char_count,
}
pub use text.Mathlib.Text.{starts_with}
pub use Prim.Native.Char.{Char, code}
pub use Prim.Native.String.{[] as no_text, ◌∷◌ as str_cons}
