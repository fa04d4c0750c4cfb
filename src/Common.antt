-- ===== src/Common.antt =====
-- The names that every component shares: the libraries', passed on, and those of the children.
mod Tests
mod Lists
mod Int
mod Equality
mod Assoc
mod Floats
mod Outcome
mod Effects
mod Decimal
mod Text
mod Casts
pub use Tests.*
pub use Lists.*
unfoldable pub use Int.{◌+ℤ◌, ◌-ℤ◌, ◌*ℤ◌, div_ℤ}
pub use Int.*
pub use Equality.*
unfoldable pub use Assoc.{find, put, erase, weigh}
pub use Assoc.*
pub use Floats.*
pub use Outcome.*
pub use Effects.*
unfoldable pub use Decimal.{digits, show_nat, show_int, read_digits, read_nat}
pub use Decimal.*
unfoldable pub use Text.{all_chars, take_while, drop_while, contains_char, split_at}
pub use Text.*
unfoldable pub use Casts.{cast_unsigned, cast_int, cast_signed}
pub use Casts.*
pub use Prim.Native.Nat.{ℕ, zero, suc, ◌+◌, ◌-◌, ◌*◌, ◌/◌, ◌%◌, ◌^◌, ◌≤◌, ◌<◌}
pub use Prim.Native.String.{String}
pub use mathlib.Core.Path.{◌≡◌, refl, sym, ap, ◌∙◌, subst}
pub use mathlib.Core.Logic.{◌≢◌, ◌↔◌, ◌⊎◌, inl, inr}
pub use mathlib.Core.Bool.{Bool, true, false, not, ◌&&◌, ◌||◌}
pub use mathlib.Core.Option.{Option, none, some}
pub use mathlib.Core.List.{List, [], ◌∷◌, ◌++◌, map}
pub use native.Mathlib.Omega.{arith}
