-- ===== src/Base.antt =====
-- The names that the other modules share: those of the libraries, passed on, and those of the
-- children. `Dict` stands for Rust's `HashMap`, `Words` for its `u64` and `u32`.
mod Tests
mod Lists
mod Words
mod Dict
mod DictAll
mod Text
mod Trimmed
pub use Tests.*
pub use Lists.*
pub use Words.*
unfoldable pub use Dict.{lookup, insert, remove, contains_key, update, retain}
pub use Dict.{
  lookup-insert, lookup-insert_self, lookup-insert_ne, lookup-remove, lookup-remove_self,
  lookup-remove_ne, lookup-update, contains_key-lookup, insert_cases, update_cases, remove_cases,
}
pub use DictAll.*
pub use Text.*
pub use Trimmed.*
unfoldable pub use Text.{
  trim_start, trim_end, trim, is_blank, lower_codes, starts_with_codes, contains_codes,
  lower_contains,
}
pub use Prim.Native.Nat.{ℕ, zero, suc, ◌+◌, ◌-◌, ◌*◌, ◌/◌, ◌%◌, ◌^◌, ◌≤◌, ◌<◌, min, max}
pub use Prim.Native.String.{String}
pub use mathlib.Core.Path.{◌≡◌, refl, sym, ap, ◌∙◌, subst}
pub use mathlib.Core.Logic.{◌≢◌, ◌↔◌, ◌⊎◌, inl, inr}
pub use mathlib.Core.Bool.{Bool, true, false, ◌&&◌, ◌||◌, not}
pub use mathlib.Core.Option.{Option, none, some}
pub use mathlib.Core.List.{List, [], ◌∷◌, ◌++◌, map}
pub use native.Mathlib.Omega.{arith}
