-- ===== src/Common.antt =====
-- Names that the other modules share: the libraries', passed on, and those of the children.
mod Tests
mod Lists
mod Except
pub mod Dict
pub mod Text
pub mod Sort
pub use Tests.{
  ltb, leb, ◌==◌, if◌then◌else◌, ltb→lt, lt→ltb, leb→le, le→leb, ==_iff, tests, Bool-cases,
  Option-cases,
}
unfoldable pub use Tests.{round_div}
pub use Lists.*
pub use Except.*
pub use Dict.{
  Eq, ◌=?◌, nat_eq, string_eq, pair_eq, lookup-insert, lookup-delete, length-insert,
  length-insert_new, length-delete-le, length-delete_present, beq_refl, beq_ne,
}
unfoldable pub use Dict.Keys.{has_key}
pub use Dict.Keys.{
  has_key-insert, delete-insert_new, filter_keys, has_key-filter_keys, filter_keys-All,
  length-contained,
}
unfoldable pub use Dict.{contains, lookup, insert, delete}
pub use Prim.Native.Nat.{ℕ, zero, suc, ◌+◌, ◌-◌, ◌*◌, ◌/◌, ◌%◌, ◌^◌, ◌≤◌, ◌<◌, min, max}
pub use Prim.Native.String.{String}
pub use mathlib.Core.Path.{◌≡◌, refl, sym, ap, ◌∙◌, subst, fun_ext}
pub use mathlib.Core.Logic.{◌≢◌, ◌↔◌, ◌⊎◌, inl, inr, ite, if_pos, if_neg}
pub use mathlib.Core.Bool.{Bool, true, false, not, ◌&&◌, ◌||◌}
pub use mathlib.Core.Option.{Option, none, some}
pub use mathlib.Core.List.{List, [], ◌∷◌, ◌++◌, map}
pub use native.Mathlib.Omega.{arith}
pub use text.Mathlib.Text.{◌==◌ as str_eq}
pub use text.Mathlib.TextEquality.{eq_iff as str_eq_iff}
unfoldable pub use native.Mathlib.Decide.{dec_lt, dec_le, ℕ_discrete}
