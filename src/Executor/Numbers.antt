-- ===== src/Executor/Numbers.antt =====
-- The numbers and the protocol of a command, which the process accepts.
use fts.Common.{
  String, arith, lt_ℤ, negsuc, pos, show_int, show_nat, subst, sym, true, ℕ, ℤ, ◌<◌, ◌^◌, ◌≡◌,
}
use fts.CommandLine.Accepted.{number_keys, text_keys}
use fts.CommandLine.Command.{
  Command, has_flag, prepare_metadata_string, set_if, set_int, set_option,
}
use fts.CommandLine.Good.{IsAccepted, good_filesize, good_number}
use fts.CommandLine.Keeps.{keeps_if, keeps_option, keeps_text}
use fts.CommandLine.Metadata.{prepare_metadata_string-HasNoSpace}
use fts.CommandLine.Values.{TransferTypes}
use fts.Executor.Build.{at_least_zero}

-- A number of the type `int` that is not negative.
abbrev pub IsCount : ℤ → Type 0
IsCount v = (n : ℕ) × (v ≡ pos n) × (n < 2 ^ 31)

-- A number that is not above the type `int`.
abbrev pub IsInt : ℤ → Type 0
IsInt v = lt_ℤ v (pos (2 ^ 31)) ≡ true

pub at_least_zero-IsCount : (v : ℤ) → IsInt v → IsCount (at_least_zero v)
at_least_zero-IsCount (pos n) h = (n, ground arith, ground (arith, h))
at_least_zero-IsCount (negsuc n) h = (0, ground arith, omega arith)

module _ (types : TransferTypes) where
  pub keeps_int :
      {c : Command} (k : String) (v : ℤ)
      → has_flag k number_keys ≡ true
      → IsInt v
      → IsAccepted types c
      → IsAccepted types (set_if (lt_ℤ (pos 0) v) (set_int k v) c)
  unfolding set_int show_int
  keeps_int k (pos n) h i a =
      keeps_if types (lt_ℤ (pos 0) (pos n)) (set_int k (pos n))
        (λ _. keeps_option types k (show_nat n) (good_number types k n h (ground (arith, i)))) a
  keeps_int k (negsuc n) h i a =
      keeps_if types (lt_ℤ (pos 0) (negsuc n)) (set_int k (negsuc n))
        (λ e. absurd (ground (arith, e))) a

  pub keeps_count :
      {c : Command} (k : String) (v : ℤ)
      → has_flag k number_keys ≡ true
      → IsCount v
      → IsAccepted types c
      → IsAccepted types (set_int k v c)
  unfolding set_int show_int
  keeps_count {c} k v h (n, e, i) a =
      subst (λ (v : ℤ). IsAccepted types (set_int k v c)) (sym e)
        (keeps_option types k (show_nat n) (good_number types k n h i) a)

  pub keeps_filesize :
      {c : Command} (v : ℤ)
      → lt_ℤ v (pos (2 ^ 63)) ≡ true
      → IsAccepted types c
      → IsAccepted types (set_if (lt_ℤ (pos 0) v) (set_int "user-filesize" v) c)
  unfolding set_int show_int
  keeps_filesize (pos n) i a =
      keeps_if types (lt_ℤ (pos 0) (pos n)) (set_int "user-filesize" (pos n))
        (λ _.
          keeps_option types "user-filesize" (show_nat n)
            (good_filesize types n (ground (arith, i))))
        a
  keeps_filesize (negsuc n) i a =
      keeps_if types (lt_ℤ (pos 0) (negsuc n)) (set_int "user-filesize" (negsuc n))
        (λ e. absurd (ground (arith, e))) a

  pub keeps_metadata :
      {c : Command} (k text : String)
      → has_flag k text_keys ≡ true
      → IsAccepted types c
      → IsAccepted types (set_option k (prepare_metadata_string text) c)
  keeps_metadata k text h =
      keeps_text types k (prepare_metadata_string text) h (prepare_metadata_string-HasNoSpace text)
