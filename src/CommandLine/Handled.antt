-- ===== src/CommandLine/Handled.antt =====
-- The process reads a command that it accepts without an error.
use fts.Common.{
  Dict, Each, Each-map, List, Result, String, [], err, map, none, ok, refl, subst, sym, true, ◌++◌,
  ◌∷◌, ◌≡◌, string_key, nat_key,
}
use fts.CommandLine.Good.{IsAccepted, IsGoodFlag, IsGoodOption}
use fts.CommandLine.Accepted.{is_ok}
use fts.CommandLine.Arguments.{Event, get_argv, read_arguments}
use fts.CommandLine.Command.{Command, generate_parameters}
use fts.CommandLine.Known.{IsSendable, case_of}
use fts.CommandLine.Options.{handle, handle_events}
use fts.CommandLine.ReadBack.{flag_event, option_event, read_arguments-get_argv}
use fts.CommandLine.Table.{long_options}
use fts.CommandLine.Values.{Exit, Parsed, TransferTypes}

module _ (types : TransferTypes) where
  handled_step :
      (r : Result Exit Parsed) (rest : Parsed → Result Exit Parsed)
      → is_ok r ≡ true
      → ((p : Parsed) → is_ok (rest p) ≡ true)
      → is_ok (elim r [ err e ↦ err e | ok p ↦ rest p ]) ≡ true
  handled_step (err e) rest h k = absurd (cc h)
  handled_step (ok p) rest h k = k p

  handle_flags :
      (fs : List String) (rest : List Event)
      → Each (IsGoodFlag types) fs
      → ((p : Parsed) → is_ok (handle_events types rest p) ≡ true)
      → (p : Parsed) → is_ok (handle_events types (map flag_event fs ++ rest) p) ≡ true
  unfolding handle_events
  handle_flags [] rest h k p = k p
  handle_flags (f ∷ fs) rest h k p =
      handled_step (handle types (case_of f) "" p) (handle_events types (map flag_event fs ++ rest))
        (h.0.1 p) (handle_flags fs rest h.1 k)

  handle_options :
      (m : Dict String String)
      → Each (IsGoodOption types) m
      → (p : Parsed) → is_ok (handle_events types (map option_event m) p) ≡ true
  unfolding handle_events
  handle_options [] h p = refl
  handle_options ((k, v) ∷ m) h p =
      handled_step (handle types (case_of k) v p) (handle_events types (map option_event m))
        (h.0.1 p) (handle_options m h.1)

  IsAccepted-IsSendable : (c : Command) → IsAccepted types c → IsSendable c
  IsAccepted-IsSendable c a = record {
    flags_known = Each-map (IsGoodFlag types) _ c.flags (λ f g. g.0) a.flags_good;
    options_known = Each-map (IsGoodOption types) _ c.options (λ e g. g.0) a.options_good;
  }

  pub IsAccepted-handled :
      (c : Command)
      → IsAccepted types c
      → (p : Parsed)
      → is_ok (
          handle_events types
            (read_arguments long_options none (get_argv (generate_parameters c)))
            p)
        ≡ true
  IsAccepted-handled c a p =
      subst (λ es. is_ok (handle_events types es p) ≡ true)
        (sym (read_arguments-get_argv c (IsAccepted-IsSendable c a)))
        (handle_flags c.flags (map option_event c.options) a.flags_good
          (handle_options c.options a.options_good) p)
