-- ===== src/Prelude.antt =====
-- The names that the other modules share: the libraries', passed on, and those of the children.
mod Tests
mod Lists
mod Equality
mod Strings
mod Dicts
mod Int
pub use Tests.*
pub use Lists.*
pub use Int.*
pub use Equality.{Comparable, ◌==◌, nat_eq, eq_of_discrete, contains, dec_beq_iff}
pub use Strings.{
  Text, codes, text_eq, is_space, is_nonempty, text_beq_iff, text_beq_refl, lower_idem,
}
unfoldable pub use Strings.{
  text_beq, lower_char, lower, lstrip, strip, is_blank, starts_with, occurs_in,
}
pub use Dicts.{Dict, lookup-put, lookup-remove, lookup-set_default, dict_laws}
unfoldable pub use Dicts.{lookup, put, remove, set_default}
pub use Prim.Native.Nat.{ℕ, zero, suc, ◌+◌, ◌-◌, ◌*◌, ◌/◌, ◌%◌, ◌≤◌, ◌<◌}
pub use mathlib.Core.Path.{◌≡◌, refl, sym, ap, ◌∙◌}
pub use mathlib.Core.Logic.{◌≢◌, ◌↔◌, ◌⊎◌, inl, inr}
pub use mathlib.Core.Bool.{Bool, true, false, not, ◌&&◌, ◌||◌}
pub use mathlib.Core.Option.{Option, none, some}
pub use mathlib.Core.List.{List, [], ◌∷◌, ◌++◌, map, reverse}
pub use native.Mathlib.Omega.{arith}
