-- ===== src/CommandLine/Known.antt =====
-- The commands that the process understands.
use fts.Common.{
  Bool, Each, Option, String, contains_char, false, is_empty_text, none, not, some, true, ℕ, ◌&&◌,
  ◌||◌, ◌≡◌,
}
use fts.CommandLine.Arguments.{find_option}
use fts.CommandLine.Command.{Command}
use fts.CommandLine.Table.{long_options}
use fts.CommandLine.Words.{HasNoSpace}

-- The key stands for one option of the table, with or without an argument, and can be written.
abbrev pub is_of_kind : Bool → Option (Bool × ℕ) → Bool
is_of_kind required none = false
is_of_kind true (some (required, val)) = required
is_of_kind false (some (required, val)) = not required

unfoldable pub is_known : Bool → String → Bool
is_known required key =
    is_of_kind required (find_option key long_options)
    && not (contains_char b' ' key || contains_char b'=' key || is_empty_text key)

abbrev pub val_of : Option (Bool × ℕ) → ℕ
val_of none = 0
val_of (some (required, val)) = val

-- The case of the `switch` for a key.
unfoldable pub case_of : String → ℕ
case_of key = val_of (find_option key long_options)

-- Flags take no argument, options do, and no value has a space in it.
pub record IsSendable (c : Command) : Type 0 where
  pub flags_known : Each (λ f. is_known false f ≡ true) c.flags
  pub options_known : Each (λ e. (is_known true e.0 ≡ true) × HasNoSpace e.1) c.options
