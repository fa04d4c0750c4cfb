-- ===== src/CommandLine/Values.antt =====
-- UrlCopyOpts.cpp: the values of single options.
use text.Mathlib.Text.{starts_with}
use text.Mathlib.TextBridge.{of_list}
use fts.Common.{
  Option, Result, String, begins, drop_while, err, if◌then◌else◌, is_char, leb, none, not, ok,
  read_nat, some, tail, take_while, ℕ, ◌%◌, ◌-◌, ◌==◌, ◌^◌, ◌||◌, string_key, nat_key,
}
use fts.UrlCopy.Redaction.{chars, replace_metadata_string}
use fts.UrlCopy.Types.{
  ChecksumMode, Opts, Transfer, checksum_both, checksum_none, checksum_source, checksum_target,
}

-- The options that are read so far, and the transfer that they describe.
pub record Parsed : Type 0 where
  pub opts : Opts
  pub reference : Transfer

-- How the process ends: by its usage, with status 0, or by an error, with status -1.
pub data Exit : Type 0 where
  usage bad_lexical_cast no_transfers : Exit

-- The types of transfer of gfal2.
pub record TransferTypes : Type 0 where
  pub pull : String
  pub push : String
  pub streamed : String

unfoldable pub set_checksum : String → Transfer → Transfer
set_checksum checksum t =
    let rest = drop_while (λ c. not (is_char b':' c)) checksum in
    if checksum == "x" then t else record t {
      checksum_algorithm = take_while (λ c. not (is_char b':' c)) checksum;
      checksum_value = tail rest;
    }

unfoldable pub translate_copy_mode : TransferTypes → String → String
translate_copy_mode types text =
    if text == "pull"
    then types.pull
    else if text == "push"
    then types.push
    else if text == "streamed"
    then types.streamed
    else ""

-- `strncmp(word, optarg, strlen(word)) == 0`
unfoldable pub checksum_mode_of : String → ChecksumMode
checksum_mode_of arg =
    if starts_with arg "target" || starts_with arg "t"
    then checksum_target
    else if starts_with arg "source" || starts_with arg "s"
    then checksum_source
    else if starts_with arg "both" || starts_with arg "b"
    then checksum_both
    else checksum_none

unfoldable pub metadata_of : String → String
unfolding replace_metadata_string
metadata_of text = of_list (replace_metadata_string (chars text))

abbrev pub at_most : ℕ → Option ℕ → Option ℕ
at_most bound none = none
at_most bound (some n) = if leb n bound then some n else none

abbrev negated : Option ℕ → Option ℕ
negated none = none
negated (some n) = some ((2 ^ 64 - n) % 2 ^ 64)

-- A value of `long long`, stored in 64 bits without a sign.
unfoldable pub cast_long : String → Option ℕ
cast_long s =
    if begins b'-' s
    then negated (at_most (2 ^ 63) (read_nat (tail s)))
    else at_most (2 ^ 63 - 1) (read_nat (if begins b'+' s then tail s else s))

abbrev pub set_opts : (Opts → Opts) → Parsed → Result Exit Parsed
set_opts f p = ok (record p { opts = f p.opts })

abbrev pub set_reference : (Transfer → Transfer) → Parsed → Result Exit Parsed
set_reference f p = ok (record p { reference = f p.reference })

abbrev pub with_number : Option ℕ → (ℕ → Parsed) → Result Exit Parsed
with_number none f = err bad_lexical_cast
with_number (some n) f = ok (f n)
