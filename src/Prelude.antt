-- ===== src/Prelude.antt =====
-- The names that the other modules share: the libraries', passed on, and those of the children.
pub mod Tests
pub mod Lists
pub mod Eq
pub mod Assoc
pub mod Text
pub mod Sort
pub mod Bits
pub mod Fnv
pub mod Outcomes
pub mod Splits
pub mod Words
pub mod Floats
pub use Tests.{
  ltb, leb, nat_same, nat_same_iff, if◌then◌else◌, ltb→lt, leb→le, Bool-cases, Option-cases,
}
pub use Lists.{
  length, length-append, length-map, any, all, all-append, any-append, find, filter, last,
  last-append, All, All-append, All-imp, All-filter, is_empty,
}
pub use Outcomes.{Result, ok, err, Result-cases}
pub use Text.{Str, chars, text_eq}
pub use Prim.Native.Nat.{ℕ, zero, suc, ◌+◌, ◌-◌, ◌*◌, ◌/◌, ◌%◌, ◌^◌, ◌≤◌, ◌<◌}
pub use mathlib.Core.Path.{◌≡◌, refl, sym, ap, ◌∙◌}
pub use mathlib.Core.Logic.{◌≢◌, ◌↔◌, ◌⊎◌, inl, inr}
pub use mathlib.Core.Bool.{Bool, true, false, not, ◌&&◌, ◌||◌}
pub use mathlib.Core.Option.{Option, none, some}
pub use mathlib.Core.List.{List, [], ◌∷◌, ◌++◌, map}
pub use native.Mathlib.Omega.{arith}
