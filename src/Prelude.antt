-- ===== src/Prelude.antt =====
-- The names that the other modules share: the libraries', passed on, and those of the children.
mod Tests
mod Lists
mod Bytes
mod Maps
mod Results
pub mod Trim
pub mod Attempts
pub mod Numbers
pub mod States
pub mod Decimal
pub mod Sorting
pub use Tests.*
pub use Lists.*
unfoldable pub use Bytes.{text_eq, starts_with, ends_with}
pub use Bytes.{Text, codes, ascii, text_eq_iff, text_eq_refl, Text-discrete}
unfoldable pub use Maps.{lookup, insert, remove, contains_key, keys}
pub use Maps.{
  Assoc, lookup-insert, lookup-remove, lookup-insert_self, lookup-remove_self, contains_key_lem,
  assoc_laws, is_some, IsFresh, HasUniqueKeys, HasUniqueKeys-insert, HasUniqueKeys-remove,
}
pub use Results.*
pub use Prim.Native.Nat.{ℕ, zero, suc, ◌+◌, ◌-◌, ◌*◌, ◌/◌, ◌%◌, ◌^◌, ◌≤◌, ◌<◌}
pub use Prim.Native.String.{String}
pub use mathlib.Core.Path.{◌≡◌, refl, sym, ap, ◌∙◌}
pub use mathlib.Core.Logic.{◌≢◌, ◌↔◌, ◌⊎◌, inl, inr}
pub use mathlib.Core.Bool.{Bool, true, false, ◌&&◌, ◌||◌, not}
pub use mathlib.Core.Option.{Option, none, some}
pub use mathlib.Core.List.{List, [], ◌∷◌, ◌++◌, map, append-nil, append_assoc}
pub use native.Mathlib.Omega.{arith}
unfoldable pub use native.Mathlib.Decide.{dec_lt, dec_le, ℕ_discrete}
