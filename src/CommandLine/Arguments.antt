-- ===== src/CommandLine/Arguments.antt =====
-- `ExecuteProcess::getArgv`, and what `getopt_long_only` of the C library makes of the arguments for a
-- table of long options.
use text.Mathlib.Text.{starts_with}
use mathlib.Core.List.{◌++◌}
use fts.Common.{
  Bool, List, Option, String, [], begins, drop_while, false, if◌then◌else◌, is_char, is_empty,
  is_empty_text, keep, none, not, some, split_at, tail, take_while, true, ℕ, ◌&&◌, ◌==◌, ◌∷◌,
  string_key, nat_key,
}

-- The arguments behind the name of the program: the text is split at each space.
unfoldable pub get_argv : String → List String
get_argv arguments = split_at b' ' arguments

-- A row of the table: the name, whether an argument is required, and the value.
abbrev pub LongOption : Type 0
LongOption = String × Bool × ℕ

-- What the loop over `getopt_long_only` is given in one pass.
pub data Event : Type 0 where
  found : ℕ → String → Event
  unrecognized : Event

unfoldable pub exact_option : String → List LongOption → Option (Bool × ℕ)
exact_option name [] = none
exact_option name ((key, required, val) ∷ table) =
    if key == name then some (required, val) else exact_option name table

-- An abbreviation stands for an option if only one begins with it.
unfoldable pub abbreviated_option : String → List LongOption → Option (Bool × ℕ)
abbreviated_option name table = elim (keep (λ (row : LongOption). starts_with row.0 name) table) [
  | [] ↦ none
  | row ∷ rest ↦ if is_empty rest then some (row.1, row.2) else none
]

unfoldable pub find_option : String → List LongOption → Option (Bool × ℕ)
unfolding abbreviated_option
find_option name table = elim (exact_option name table) [
  | some entry ↦ some entry
  | none ↦ abbreviated_option name table
]

-- The name of an option behind one or two dashes.
abbrev pub option_name : String → Option String
option_name s =
    if begins b'-' s && not (is_empty_text (tail s))
    then some (if begins b'-' (tail s) then tail (tail s) else tail s)
    else none

abbrev pub State : Type 0
State = Option ℕ

-- What an option that was found makes of the text behind its name.
abbrev pub with_argument : Option (Bool × ℕ) → String → List Event × State
with_argument none after = (unrecognized ∷ [], none)
with_argument (some (true, val)) after =
    if is_empty_text after then ([], some val) else (found val (tail after) ∷ [], none)
with_argument (some (false, val)) after =
    if is_empty_text after then (found val "" ∷ [], none) else (unrecognized ∷ [], none)

abbrev pub read_named : List LongOption → Option String → List Event × State
read_named table none = ([], none)
read_named table (some name) =
    with_argument (find_option (take_while (λ c. not (is_char b'=' c)) name) table)
      (drop_while (λ c. not (is_char b'=' c)) name)

-- One argument, with the value of the option that still wants one: the events, and the new state. An
-- argument that is no option is passed over.
unfoldable pub read_option : List LongOption → String → List Event × State
read_option table s = read_named table (option_name s)

-- All the arguments. `--` alone ends the options; a required argument that is missing is an error.
unfoldable pub read_arguments : List LongOption → State → List String → List Event
unfolding read_option
read_arguments table none [] = []
read_arguments table (some val) [] = unrecognized ∷ []
read_arguments table (some val) (s ∷ rest) = found val s ∷ read_arguments table none rest
read_arguments table none (s ∷ rest) =
    let (events, state) = read_option table s in
    let more = read_arguments table state rest in if s == "--" then [] else events ++ more
