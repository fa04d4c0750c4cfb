-- ===== src/Executor/Accepts.antt =====
-- The process accepts the command that the server builds for a transfer.
use mathlib.Core.Option.{some-injective}
use fts.Common.{
  Bool, Option, String, [], false, lt_ℤ, none, not, pos, refl, some, subst, true, ◌==◌, ◌∷◌, ◌≡◌,
  string_key, nat_key,
}
use fts.CommandLine.Accepted.{is_ok}
use fts.CommandLine.Arguments.{get_argv, read_arguments}
use fts.CommandLine.Command.{
  Command, generate_parameters, has_flag, new_command, prepare_metadata_string, set_flag,
  set_from_transfer, set_issuers, set_option,
}
use fts.CommandLine.Good.{IsAccepted}
use fts.CommandLine.Handled.{IsAccepted-handled}
use fts.CommandLine.Keeps.{keeps_flag, keeps_if, keeps_text}
use fts.CommandLine.Options.{handle_events}
use fts.CommandLine.Setters.{set_seconds_per_mb}
use fts.CommandLine.Table.{long_options}
use fts.CommandLine.Types.{ProtocolParameters, TransferFile}
use fts.CommandLine.Values.{Parsed, TransferTypes}
use fts.CommandLine.Words.{HasNoSpace}
use fts.Executor.Build.{build_command, build_from, get_auth_method, map_option, parameters_of}
use fts.Executor.Numbers.{keeps_int, keeps_metadata}
use fts.Executor.Parameters.{IfSome, IsIntParameters, parameters_of-IsIntParameters}
use fts.Executor.Settings.{LinkSettings, ServerSettings}
use fts.Executor.Steps.{
  IsPlainLink, IsPlainServer, IsPlainTransfer, keeps_auth, keeps_job_type, keeps_protocol,
}
use fts.Executor.Transfers.{keeps_issuers, keeps_link, keeps_retries, keeps_single}

module _ (types : TransferTypes) where
  keeps_from_transfer :
      {c : Command} (issuer : String → String → Option String) (t : TransferFile)
      (publish_user_dn : Bool) (msg_dir : String)
      → ((text key value : String) → issuer text key ≡ some value → HasNoSpace value)
      → IsPlainTransfer t
      → IsAccepted types c
      → IsAccepted types (set_from_transfer issuer t false publish_user_dn msg_dir c)
  unfolding set_from_transfer has_flag
  keeps_from_transfer issuer t publish_user_dn msg_dir hi h a =
      let a₁ =
        keeps_job_type types t.job_type
          (keeps_metadata types "job-metadata" t.job_metadata refl a) in
      let a₂ = keeps_flag types "overwrite" (t.overwrite_flag == "Y") refl (
        keeps_text types "job-id" t.job_id refl h.job_id_plain
          (keeps_text types "vo" t.vo_name refl h.vo_name_plain a₁)) in
      let a₄ =
        keeps_if types (not (t.checksum_mode == "")) (set_option "checksum-mode" t.checksum_mode)
          (λ _. keeps_text types "checksum-mode" t.checksum_mode refl h.checksum_mode_plain) a₂ in
      let a₅ =
        keeps_if types (lt_ℤ (pos 0) t.archive_timeout)
          (λ c.
            set_flag "dst-file-report" (not (t.dst_file_report == ""))
              (set_flag "archiving" true c))
          (λ _ a.
            keeps_flag types "dst-file-report" (not (t.dst_file_report == "")) refl
              (keeps_flag types "archiving" true refl a))
          a₄ in
      let a₇ =
        keeps_text types "source-token-desc" t.source_space_token refl h.source_token_plain (
          keeps_text types "dest-token-desc" t.destination_space_token refl h.dest_token_plain
            a₅) in
      let a₈ =
        keeps_if types (not (t.file_metadata == ""))
          (set_issuers (issuer t.file_metadata) ("source-issuer" ∷ "dest-issuer" ∷ []))
          (λ _.
            keeps_issuers types (issuer t.file_metadata) ("source-issuer" ∷ "dest-issuer" ∷ [])
              (hi t.file_metadata) (refl, (refl, tt)))
          a₇ in
      let a₉ =
        keeps_if types publish_user_dn (set_option "user-dn" (prepare_metadata_string t.user_dn))
          (λ _. keeps_metadata types "user-dn" t.user_dn refl) a₈ in
      keeps_single types t h (
        keeps_flag types "last-hop" t.last_hop refl
          (keeps_flag types "last-replica" t.last_replica refl a₉))

  new_command-IsAccepted : IsAccepted types new_command
  unfolding new_command
  new_command-IsAccepted = record { flags_good = tt; options_good = tt }

  keeps_build_from :
      (read_auth : String → Option String) (issuer : String → String → Option String)
      (l : LinkSettings) (s : ServerSettings) (t : TransferFile) (p : ProtocolParameters)
      → ((text key value : String) → issuer text key ≡ some value → HasNoSpace value)
      → ((text : String) → HasNoSpace (get_auth_method read_auth text))
      → IsPlainLink l
      → IsPlainServer s
      → IsPlainTransfer t
      → IsIntParameters p
      → IsAccepted types (build_from read_auth issuer l s t p)
  unfolding build_from set_seconds_per_mb has_flag
  keeps_build_from read_auth issuer l s t p hi ha hl hs ht hp =
      let a₂ = keeps_from_transfer issuer t l.publish_user_dn s.msg_dir hi ht (
        keeps_protocol types p hp.0 hp.1 hp.2 (
          keeps_int types "sec-per-mb" l.sec_per_mb refl hl.sec_per_mb_int
            new_command-IsAccepted)) in
      keeps_retries types l s t hl hs (
        keeps_link types l s (get_auth_method read_auth t.job_metadata) hl hs
          (keeps_auth types s (get_auth_method read_auth t.job_metadata) hs (ha t.job_metadata) a₂))

  IsAccepted-some :
      (f : ProtocolParameters → Command) (o : Option ProtocolParameters) (c : Command)
      → IfSome IsIntParameters o
      → ((p : ProtocolParameters) → IsIntParameters p → IsAccepted types (f p))
      → map_option f o ≡ some c
      → IsAccepted types c
  IsAccepted-some f none c h k e = absurd (cc e)
  IsAccepted-some f (some p) c h k e = subst (IsAccepted types) (some-injective _ _ e) (k p h)

  -- The process accepts the command.
  pub build_command-IsAccepted :
      (read_auth : String → Option String) (issuer : String → String → Option String)
      (l : LinkSettings) (s : ServerSettings) (t : TransferFile) (c : Command)
      → ((text key value : String) → issuer text key ≡ some value → HasNoSpace value)
      → ((text : String) → HasNoSpace (get_auth_method read_auth text))
      → IsPlainLink l
      → IsPlainServer s
      → IsPlainTransfer t
      → build_command read_auth issuer l s t ≡ some c
      → IsAccepted types c
  unfolding build_command
  build_command-IsAccepted read_auth issuer l s t c hi ha hl hs ht =
      IsAccepted-some (build_from read_auth issuer l s t) (parameters_of l t) c
        (parameters_of-IsIntParameters l t hl)
        (λ p. keeps_build_from read_auth issuer l s t p hi ha hl hs ht)

  -- The process that the server starts reads its command line without an error, in any state of its
  -- options, where the texts that are written as they are have no space and the numbers are in range.
  pub build_command-handled :
      (read_auth : String → Option String) (issuer : String → String → Option String)
      (l : LinkSettings) (s : ServerSettings) (t : TransferFile) (c : Command) (p : Parsed)
      → ((text key value : String) → issuer text key ≡ some value → HasNoSpace value)
      → ((text : String) → HasNoSpace (get_auth_method read_auth text))
      → IsPlainLink l
      → IsPlainServer s
      → IsPlainTransfer t
      → build_command read_auth issuer l s t ≡ some c
      → is_ok (
          handle_events types
            (read_arguments long_options none (get_argv (generate_parameters c)))
            p)
        ≡ true
  build_command-handled read_auth issuer l s t c p hi ha hl hs ht e =
      IsAccepted-handled types c
        (build_command-IsAccepted read_auth issuer l s t c hi ha hl hs ht e) p
