-- ===== src/Executor/Steps.antt =====
-- The parts of the command, which the process accepts.
use fts.Common.{String, contains_char, false, lt_ℤ, none, not, pos, refl, some, true, ◌<◌, ◌^◌, ◌≡◌}
use fts.CommandLine.Command.{
  Command, has_flag, is_determinate, is_true, set_copy_mode, set_from_protocol, set_ipv6,
  set_job_type, set_udt,
}
use fts.CommandLine.Good.{IsAccepted}
use fts.CommandLine.Keeps.{keeps_flag, keeps_if, keeps_text}
use fts.CommandLine.Setters.{
  set_auth_method, set_cloud_config, set_oauth_file, set_retrieve_se_token,
}
use fts.CommandLine.Types.{
  CopyMode, JobType, ProtocolParameters, TransferFile, Tribool, any_mode, multi_hop,
  multiple_replica, pull, push, regular, session_reuse, streaming,
}
use fts.CommandLine.Values.{TransferTypes}
use fts.CommandLine.Words.{HasNoSpace}
use fts.Executor.Build.{set_auth}
use fts.Executor.Numbers.{IsCount, IsInt, keeps_int}
use fts.Executor.Settings.{LinkSettings, ServerSettings}

-- The texts of the transfer that are written as they are have no space, and its numbers are those of
-- their types.
pub record IsPlainTransfer (t : TransferFile) : Type 0 where
  pub file_id_bound : t.file_id < 2 ^ 64
  pub user_filesize_bound : lt_ℤ t.user_filesize (pos (2 ^ 63)) ≡ true
  pub scitag_int : IsInt t.scitag
  pub vo_name_plain : HasNoSpace t.vo_name
  pub job_id_plain : HasNoSpace t.job_id
  pub source_plain : HasNoSpace t.source_surl
  pub dest_plain : HasNoSpace t.dest_surl
  pub checksum_plain : HasNoSpace t.checksum
  pub checksum_mode_plain : HasNoSpace t.checksum_mode
  pub dest_token_plain : HasNoSpace t.destination_space_token
  pub source_token_plain : HasNoSpace t.source_space_token
  pub bring_online_plain : HasNoSpace t.bring_online_token
  pub activity_plain : HasNoSpace t.activity

pub record IsPlainLink (l : LinkSettings) : Type 0 where
  pub sec_per_mb_int : IsInt l.sec_per_mb
  pub streams_int : IsInt l.streams_optimization
  pub timeout_int : IsInt l.global_timeout
  pub debug_count : IsCount l.debug_level
  pub turl_plain : HasNoSpace l.third_party_turl
  pub retry_times_int : IsInt l.retry_times
  pub retry_int : IsInt l.retry

pub record IsPlainServer (s : ServerSettings) : Type 0 where
  pub infosys_plain : HasNoSpace s.infosys
  pub host_plain : HasNoSpace s.fts_host_name
  pub proxy_plain : HasNoSpace s.proxy
  pub logs_plain : HasNoSpace s.logs_dir
  pub msg_plain : HasNoSpace s.msg_dir
  pub ping_count : IsCount s.ping_interval
  pub cloud_plain : HasNoSpace s.cloud_storage_config
  pub oauth_plain : HasNoSpace s.oauth_credentials

module _ (types : TransferTypes) where
  pub keeps_ipv6 :
      {c : Command} (set : Tribool) → IsAccepted types c → IsAccepted types (set_ipv6 set c)
  unfolding set_ipv6 has_flag
  keeps_ipv6 none a = keeps_flag types "ipv4" false refl (
      keeps_flag types "ipv6" false refl
        (record { flags_good = a.flags_good; options_good = a.options_good }))
  keeps_ipv6 (some value) a = keeps_flag types "ipv4" (not value) refl (
      keeps_flag types "ipv6" value refl
        (record { flags_good = a.flags_good; options_good = a.options_good }))

  pub keeps_udt :
      {c : Command} (set : Tribool) → IsAccepted types c → IsAccepted types (set_udt set c)
  unfolding set_udt has_flag
  keeps_udt set a = keeps_flag types "udt" (is_true set) refl a

  pub keeps_copy_mode :
      {c : Command} (mode : CopyMode) → IsAccepted types c → IsAccepted types (set_copy_mode mode c)
  unfolding set_copy_mode has_flag contains_char
  keeps_copy_mode any_mode a = keeps_text types "copy-mode" "pull" refl refl a
  keeps_copy_mode pull a =
      keeps_text types "copy-mode" "pull" refl refl
        (keeps_flag types "disable-fallback" true refl a)
  keeps_copy_mode push a =
      keeps_text types "copy-mode" "push" refl refl
        (keeps_flag types "disable-fallback" true refl a)
  keeps_copy_mode streaming a = keeps_text types "copy-mode" "streamed" refl refl a

  pub keeps_job_type :
      {c : Command} (t : JobType) → IsAccepted types c → IsAccepted types (set_job_type t c)
  unfolding set_job_type has_flag
  keeps_job_type regular a = a
  keeps_job_type session_reuse a = keeps_flag types "reuse" true refl a
  keeps_job_type multiple_replica a = keeps_flag types "job-m-replica" true refl a
  keeps_job_type multi_hop a = keeps_flag types "job-multihop" true refl a

  pub keeps_protocol :
      {c : Command} (p : ProtocolParameters)
      → IsInt p.nostreams
      → IsInt p.timeout
      → IsInt p.buffersize
      → IsAccepted types c
      → IsAccepted types (set_from_protocol p c)
  unfolding set_from_protocol has_flag
  keeps_protocol p n t b a = keeps_flag types "strict-copy" p.strict_copy refl (
      keeps_if types (is_determinate p.udt) (set_udt p.udt) (λ _. keeps_udt p.udt)
        (keeps_if types (is_determinate p.ipv6) (set_ipv6 p.ipv6) (λ _. keeps_ipv6 p.ipv6)
          (keeps_int types "tcp-buffersize" p.buffersize refl b (
            keeps_int types "timeout" p.timeout refl t
              (keeps_int types "nstreams" p.nostreams refl n a)))))

  pub keeps_auth :
      {c : Command} (s : ServerSettings) (auth_method : String)
      → IsPlainServer s
      → HasNoSpace auth_method
      → IsAccepted types c
      → IsAccepted types (set_auth s auth_method c)
  unfolding set_auth set_auth_method set_cloud_config set_oauth_file set_retrieve_se_token has_flag
  keeps_auth s auth_method h m a = keeps_flag types "retrieve-se-token" s.retrieve_se_token refl (
      keeps_if types _ (set_oauth_file s.oauth_credentials)
        (λ _. keeps_text types "oauth" s.oauth_credentials refl h.oauth_plain)
        (keeps_if types _ (set_cloud_config s.cloud_storage_config)
          (λ _. keeps_text types "cloud-config" s.cloud_storage_config refl h.cloud_plain)
          (keeps_text types "auth-method" auth_method refl m a)))
