-- ===== src/Executor/Settings.antt =====
-- What FileTransferExecutor.cpp is told by the database and by the configuration.
use fts.Common.{Bool, String, ℤ}
use fts.CommandLine.Types.{CopyMode, Tribool}

-- The answers of the database for the storages, the VO and the job of one transfer.
pub record LinkSettings : Type 0 where
  pub is_tr_allowed : Bool
  pub sec_per_mb : ℤ
  pub streams_optimization : ℤ
  pub global_timeout : ℤ
  pub protocol_ipv6 : Tribool
  pub protocol_udt : Tribool
  pub publish_user_dn : Bool
  pub debug_level : ℤ
  pub disable_delegation : Bool
  pub third_party_turl : String
  pub disable_streaming : Bool
  pub skip_eviction : Tribool
  pub copy_mode : CopyMode
  pub retry_times : ℤ
  pub retry : ℤ

-- The members of the executor, two entries of the configuration, and the names of the files with
-- credentials that are written for the transfer, or "".
pub record ServerSettings : Type 0 where
  pub monitoring_msg : Bool
  pub infosys : String
  pub fts_host_name : String
  pub proxy : String
  pub logs_dir : String
  pub msg_dir : String
  pub retrieve_se_token : Bool
  pub ping_interval : ℤ
  pub cloud_storage_config : String
  pub oauth_credentials : String
