-- ===== src/Executor/Transfers.antt =====
-- What is set for a transfer, which the process accepts.
use fts.Common.{
  Bool-cases, Each, List, Option, String, [], if◌then◌else◌, inl, inr, none, refl, show_nat, some,
  true, ◌==◌, ◌∷◌, ◌≡◌, string_key, nat_key,
}
use fts.CommandLine.Accepted.{text_keys}
use fts.CommandLine.Command.{
  Command, has_flag, is_true, set_ipv6, set_issuers, set_monitoring, set_option, set_single,
  set_skip_evict,
}
use fts.CommandLine.Good.{IsAccepted, good_file_id}
use fts.CommandLine.Keeps.{keeps_flag, keeps_if, keeps_option, keeps_text}
use fts.CommandLine.Setters.{
  set_debug_level, set_disable_delegation, set_disable_streaming, set_fts_name, set_infosystem,
  set_log_dir, set_max_number_of_retries, set_number_of_retries, set_overwrite, set_ping_interval,
  set_proxy, set_third_party_turl,
}
use fts.CommandLine.Types.{TransferFile}
use fts.CommandLine.Values.{TransferTypes}
use fts.CommandLine.Words.{HasNoSpace}
use fts.Executor.Build.{at_least_zero, set_link, set_retries}
use fts.Executor.Numbers.{
  at_least_zero-IsCount, keeps_count, keeps_filesize, keeps_int, keeps_metadata,
}
use fts.Executor.Settings.{LinkSettings, ServerSettings}
use fts.Executor.Steps.{
  IsPlainLink, IsPlainServer, IsPlainTransfer, keeps_copy_mode, keeps_ipv6, keeps_udt,
}

module _ (types : TransferTypes) where
  pub keeps_link :
      {c : Command} (l : LinkSettings) (s : ServerSettings) (auth_method : String)
      → IsPlainLink l
      → IsPlainServer s
      → IsAccepted types c
      → IsAccepted types (set_link l s auth_method c)
  unfolding set_link set_disable_delegation set_debug_level set_third_party_turl set_monitoring
      set_disable_streaming set_ping_interval set_proxy set_infosystem set_skip_evict set_fts_name
      has_flag
  keeps_link l s auth_method hl hs a =
      let a₁ =
        keeps_flag types "no-delegation" l.disable_delegation refl
          (keeps_count types "debug" l.debug_level refl hl.debug_count a) in
      let a₂ =
        keeps_if types _ (set_third_party_turl l.third_party_turl)
          (λ _. keeps_text types "3rd-party-turl" l.third_party_turl refl hl.turl_plain) a₁ in
      let a₃ = keeps_flag types "monitoring" s.monitoring_msg refl (
        keeps_text types "msgDir" s.msg_dir refl hs.msg_plain
          (keeps_flag types "no-streaming" l.disable_streaming refl a₂)) in
      let a₄ = keeps_count types "ping-interval" s.ping_interval refl hs.ping_count a₃ in
      let a₅ =
        keeps_if types _ (set_proxy s.proxy)
          (λ _. keeps_text types "proxy" s.proxy refl hs.proxy_plain) a₄ in
      let a₆ =
        keeps_if types _ (set_infosystem s.infosys)
          (λ _. keeps_text types "infosystem" s.infosys refl hs.infosys_plain) a₅ in
      let a₈ =
        keeps_if types _ (set_ipv6 l.protocol_ipv6) (λ _. keeps_ipv6 types l.protocol_ipv6)
          (keeps_udt types l.protocol_udt a₆) in
      keeps_text types "alias" s.fts_host_name refl hs.host_plain (
        keeps_copy_mode types l.copy_mode
          (keeps_flag types "skip-evict" (is_true l.skip_eviction) refl a₈))

  pub keeps_retries :
      {c : Command} (l : LinkSettings) (s : ServerSettings) (t : TransferFile)
      → IsPlainLink l
      → IsPlainServer s
      → IsAccepted types c
      → IsAccepted types (set_retries l s t c)
  unfolding set_retries set_number_of_retries set_overwrite set_max_number_of_retries set_log_dir
      has_flag
  keeps_retries l s t hl hs a = keeps_text types "logDir" s.logs_dir refl hs.logs_plain (
      keeps_count types "retry_max" (at_least_zero l.retry) refl
        (at_least_zero-IsCount l.retry hl.retry_int)
        (keeps_if types _ (set_overwrite true) (λ _. keeps_flag types "overwrite" true refl)
          (keeps_if types _ (set_overwrite true) (λ _. keeps_flag types "overwrite" true refl)
            (keeps_count types "retry" (at_least_zero l.retry_times) refl
              (at_least_zero-IsCount l.retry_times hl.retry_times_int) a))))

  pub keeps_single :
      {c : Command} (t : TransferFile)
      → IsPlainTransfer t
      → IsAccepted types c
      → IsAccepted types (set_single t c)
  unfolding set_single has_flag
  keeps_single t h a =
      let a₄ = keeps_text types "checksum" t.checksum refl h.checksum_plain (
        keeps_text types "destination" t.dest_surl refl h.dest_plain (
          keeps_text types "source" t.source_surl refl h.source_plain (
            keeps_option types "file-id" (show_nat t.file_id)
              (good_file_id types t.file_id h.file_id_bound) a))) in
      let a₆ =
        keeps_int types "scitag" t.scitag refl h.scitag_int
          (keeps_filesize types t.user_filesize h.user_filesize_bound a₄) in
      let a₉ = keeps_metadata types "transfer-metadata" t.transfer_metadata refl (
        keeps_metadata types "file-metadata" t.file_metadata refl (
          keeps_text types "token-bringonline" t.bring_online_token refl h.bring_online_plain
            a₆)) in
      keeps_if types _ (set_option "activity" t.activity)
        (λ _. keeps_text types "activity" t.activity refl h.activity_plain) a₉

  keeps_issuer :
      {c : Command} (key value : String)
      → has_flag key text_keys ≡ true
      → HasNoSpace value
      → IsAccepted types c
      → IsAccepted types (if value == "" then c else set_option key value c)
  keeps_issuer {c} key value h i a = elim (Bool-cases (value == "")) [
    | inl e ↦ rw e a
    | inr e ↦ rw e (keeps_text types key value h i a)
  ]

  -- The issuers have no space where they are read.
  pub keeps_issuers :
      {c : Command} (issuer : String → Option String) (keys : List String)
      → ((key value : String) → issuer key ≡ some value → HasNoSpace value)
      → Each (λ key. has_flag key text_keys ≡ true) keys
      → IsAccepted types c
      → IsAccepted types (set_issuers issuer keys c)
  unfolding set_issuers
  keeps_issuers issuer [] h k a = a
  keeps_issuers {c} issuer (key ∷ keys) h k a =
      go (issuer key) refl (λ c' a'. keeps_issuers {c = c'} issuer keys h k.1 a')
    where
      go :
          (o : Option String)
          → issuer key ≡ o
          → ((c' : Command) → IsAccepted types c' → IsAccepted types (set_issuers issuer keys c'))
          → IsAccepted types (set_issuers issuer (key ∷ keys) c)
      go none e rest = rw (e, set_issuers) a
      go (some value) e rest =
          rw (e, set_issuers) (rest _ (keeps_issuer key value k.0 (h key value e) a))
