-- ===== src/Executor/Build.antt =====
-- FileTransferExecutor.cpp: the command of one transfer.
use fts.Common.{
  Bool, Option, String, false, if◌then◌else◌, lt_ℤ, none, not, pos, some, true, ℤ, ◌&&◌, ◌==◌,
  string_key, nat_key,
}
use fts.CommandLine.Command.{
  Command, new_command, set_copy_mode, set_from_protocol, set_from_transfer, set_if, set_ipv6,
  set_monitoring, set_skip_evict, set_udt,
}
use fts.CommandLine.Setters.{
  set_auth_method, set_cloud_config, set_debug_level, set_disable_delegation, set_disable_streaming,
  set_fts_name, set_infosystem, set_log_dir, set_max_number_of_retries, set_number_of_retries,
  set_oauth_file, set_overwrite, set_ping_interval, set_proxy, set_retrieve_se_token,
  set_seconds_per_mb, set_third_party_turl,
}
use fts.CommandLine.Types.{JobType, ProtocolParameters, TransferFile, multi_hop}
use fts.Executor.Protocol.{protocol_parameters}
use fts.Executor.Settings.{LinkSettings, ServerSettings}

-- `read_auth` is the entry `auth_method` of the JSON text, "null" where there is none, and `none` where
-- the library throws.
unfoldable pub get_auth_method : (String → Option String) → String → String
get_auth_method read_auth job_metadata =
    if job_metadata == "null"
    then "null"
    else elim (read_auth job_metadata) [ none ↦ "null" | some method ↦ method ]

-- The parameters of the protocol, from the job or else from the database.
abbrev pub map_option {ℓ κ} : {A : Type ℓ} → {B : Type κ} → (A → B) → Option A → Option B
map_option f none = none
map_option f (some a) = some (f a)

-- What the database says where the job has no parameters.
abbrev pub or_defaults : LinkSettings → TransferFile → ProtocolParameters → ProtocolParameters
or_defaults l t p =
    if t.internal_file_params == ""
    then record p {
      nostreams = l.streams_optimization;
      timeout = l.global_timeout;
      ipv6 = l.protocol_ipv6;
      udt = l.protocol_udt;
    }
    else p

unfoldable pub parameters_of : LinkSettings → TransferFile → Option ProtocolParameters
unfolding protocol_parameters
parameters_of l t = map_option (or_defaults l t) (protocol_parameters t.internal_file_params)

-- The options on credentials.
unfoldable pub set_auth : ServerSettings → String → Command → Command
set_auth s auth_method c =
    let c₁ = set_auth_method auth_method c in
    let c₂ =
      set_if (not (s.cloud_storage_config == "")) (set_cloud_config s.cloud_storage_config) c₁ in
    let c₃ =
      set_if
        (s.cloud_storage_config == ""
          && (auth_method == "oauth2" && not (s.oauth_credentials == "")))
        (set_oauth_file s.oauth_credentials) c₂ in
    set_retrieve_se_token s.retrieve_se_token c₃

-- The options of the link and of the server.
unfoldable pub set_link : LinkSettings → ServerSettings → String → Command → Command
set_link l s auth_method c =
    let c₁ = set_disable_delegation l.disable_delegation (set_debug_level l.debug_level c) in
    let c₂ = set_if (not (l.third_party_turl == "")) (set_third_party_turl l.third_party_turl) c₁ in
    let c₃ =
      set_monitoring s.monitoring_msg s.msg_dir (set_disable_streaming l.disable_streaming c₂) in
    let c₄ = set_ping_interval s.ping_interval c₃ in
    let c₅ = set_if (not (s.proxy == "") && not (auth_method == "oauth2")) (set_proxy s.proxy) c₄ in
    let c₆ = set_if (not (s.infosys == "")) (set_infosystem s.infosys) c₅ in
    let c₇ = set_udt l.protocol_udt c₆ in
    let c₈ = set_if (not c₇.is_ipv6_explicit) (set_ipv6 l.protocol_ipv6) c₇ in
    set_fts_name s.fts_host_name (set_copy_mode l.copy_mode (set_skip_evict l.skip_eviction c₈))

abbrev pub at_least_zero : ℤ → ℤ
at_least_zero n = if lt_ℤ n (pos 0) then pos 0 else n

abbrev is_multi_hop : JobType → Bool
is_multi_hop multi_hop = true
is_multi_hop _ = false

-- The retries, the overwriting that they allow, and the directory of the logs.
unfoldable pub set_retries : LinkSettings → ServerSettings → TransferFile → Command → Command
set_retries l s t c =
    let c₁ = set_number_of_retries (at_least_zero l.retry_times) c in
    let c₂ =
      set_if (lt_ℤ (pos 0) l.retry_times && (t.overwrite_flag == "R")) (set_overwrite true) c₁ in
    let c₃ =
      set_if (is_multi_hop t.job_type && (not t.last_hop && (t.overwrite_flag == "M")))
        (set_overwrite true) c₂ in
    set_log_dir s.logs_dir (set_max_number_of_retries (at_least_zero l.retry) c₃)

module _ (read_auth : String → Option String) (issuer : String → String → Option String) where
  unfoldable pub build_from :
      LinkSettings → ServerSettings → TransferFile → ProtocolParameters → Command
  unfolding set_auth set_link set_retries
  build_from l s t p =
      let auth_method = get_auth_method read_auth t.job_metadata in
      let c₁ = set_if (lt_ℤ (pos 0) l.sec_per_mb) (set_seconds_per_mb l.sec_per_mb) new_command in
      let c₂ =
        set_from_transfer issuer t false l.publish_user_dn s.msg_dir (set_from_protocol p c₁) in
      set_retries l s t (set_link l s auth_method (set_auth s auth_method c₂))

  -- `none` is the exception of a number in the parameters that cannot be read.
  unfoldable pub build_command : LinkSettings → ServerSettings → TransferFile → Option Command
  unfolding build_from parameters_of
  build_command l s t = map_option (build_from l s t) (parameters_of l t)
