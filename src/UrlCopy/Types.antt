-- ===== src/UrlCopy/Types.antt =====
-- UrlCopyError.h, Transfer.h, DestFile.h, UrlCopyOpts.h and the parts of Gfal2.h that hold settings.
use fts.Common.{Bool, List, Option, Result, String, ℕ, ℤ}
use fts.Uri.Types.{Uri}
use fts.UrlCopy.Heuristics.{retry_transfer}
use fts.UrlCopy.Redaction.{sanitize}

pub record UrlCopyError : Type 0 where
  pub scope : String
  pub phase : String
  pub code : ℤ
  pub msg : String

-- The message of an exception of gfal2, with its error number, or of another exception.
pub data Failure : Type 0 where
  gfal2_exception : ℤ → String → Failure
  std_exception : String → Failure

abbrev pub what : Failure → String
what (gfal2_exception code msg) = msg
what (std_exception msg) = msg

-- What is thrown out of `runTransfer`.
pub data Thrown : Type 0 where
  url_copy_error : UrlCopyError → Thrown
  other_exception : String → Thrown

-- The constructors of `UrlCopyError` redact the message.
unfoldable pub new_error : String → String → ℤ → String → UrlCopyError
new_error scope phase code msg = record {
  scope = scope;
  phase = phase;
  code = code;
  msg = sanitize msg;
}

unfoldable pub is_recoverable : UrlCopyError → Bool
is_recoverable e = retry_transfer e.code e.scope e.msg

pub data ChecksumMode : Type 0 where
  checksum_none checksum_source checksum_target checksum_both : ChecksumMode

pub record DestFile : Type 0 where
  pub file_size : ℕ
  pub checksum_type : String
  pub checksum_value : String
  pub file_on_disk : Bool
  pub file_on_tape : Bool

pub record Transfer : Type 0 where
  pub job_id : String
  pub file_id : ℕ
  pub source : Uri
  pub destination : Uri
  pub checksum_algorithm : String
  pub checksum_value : String
  pub user_file_size : ℕ
  pub file_metadata : String
  pub transfer_metadata : String
  pub token_bring_online : String
  pub source_token_description : String
  pub dest_token_description : String
  pub source_token_issuer : String
  pub dest_token_issuer : String
  pub scitag : ℕ
  pub checksum_mode : ChecksumMode
  pub file_size : ℕ
  pub log_file : String
  pub debug_log_file : String
  pub error : Option UrlCopyError
  pub eviction_retc : ℤ
  pub process_start : ℕ
  pub process_end : ℕ
  pub activity : String
  pub is_multiple_replica_job : Bool
  pub is_last_replica : Bool
  pub is_multihop_job : Bool
  pub is_last_hop : Bool
  pub is_archiving : Bool

pub record Opts : Type 0 where
  pub bulk_file : String
  pub is_session_reuse : Bool
  pub third_party_turl : String
  pub vo_name : String
  pub user_dn : String
  pub proxy : String
  pub infosys : String
  pub alias : String
  pub job_metadata : String
  pub optimizer_level : ℕ
  pub enable_udt : Bool
  pub enable_ipv6 : Option Bool
  pub enable_monitoring : Bool
  pub ping_interval : ℕ
  pub retry_max : ℕ
  pub msg_dir : String
  pub log_to_stderr : Bool
  pub auth_method : String
  pub oauth_file : String
  pub cloud_storage_config : String
  pub retrieve_se_token : Bool
  pub timeout : ℕ
  pub add_sec_per_mb : ℕ
  pub strict_copy : Bool
  pub overwrite : Bool
  pub no_delegation : Bool
  pub no_streaming : Bool
  pub skip_evict : Bool
  pub dst_file_report : Bool
  pub copy_mode : String
  pub disable_copy_fallback : Bool
  pub debug_level : ℕ
  pub log_dir : String
  pub retry : ℕ
  pub n_streams : ℕ
  pub tcp_buffersize : ℕ

-- `Gfal2TransferParams`: the settings of one transfer. An empty text or 0 is a setting not made.
pub record Params : Type 0 where
  pub strict_copy : Bool
  pub create_parent_dir : Bool
  pub replace_existing_file : Bool
  pub delegation : Bool
  pub streaming : Bool
  pub scitag : ℕ
  pub transfer_metadata : String
  pub source_bearer_token : String
  pub dest_bearer_token : String
  pub source_spacetoken : String
  pub dest_spacetoken : String
  pub checksum : Option (ChecksumMode × String × String)
  pub number_of_streams : ℕ
  pub tcp_buffersize : ℕ
  pub timeout : ℕ

-- The messages to the reporter.
pub data Report : Type 0 where
  protocol : Transfer → Params → Report
  started : Transfer → Report
  completed : Transfer → Report

-- Gfal2, the file system, the JSON library and the other threads, over a state of the world that each
-- call may change. `timeout_expired` and `canceled` are the flags that `timeout()` and `cancel()` set
-- from other threads.
pub record Gfal2 (W : Type 0) : Type 0 where
  pub set : W → String → String → String → W
  pub add_client_info : W → String → String → W
  pub add_client_number : W → String → ℕ → W
  pub load_config_file : W → String → Option Failure × W
  pub read_lines : W → String → List String
  pub unlink : W → String → W
  pub token_retrieve : W → Uri → String → ℕ → List String → Result Failure String × W
  pub set_checksum : W → ChecksumMode → String → String → Option Failure
  pub stat : W → Params → Uri → Bool → Result Failure ℕ × W
  pub get_checksum : W → Uri → String → Result Failure String × W
  pub get_xattr : W → Uri → String → Result Failure String × W
  pub append_dest_file : String → DestFile → Result Failure String
  pub start_timers : W → ℕ → W
  pub copy : W → Params → Uri → Uri → Option Failure × W
  pub timeout_expired : W → Bool
  pub canceled : W → Bool
  pub release_file : W → Params → Uri → String → Option Failure × W
  pub milliseconds : W → ℕ
  pub generate_log_path : W → String → Transfer → String
  pub generate_archive_log_path : W → String → Transfer → String
  pub rename : W → String → String → Option Failure × W
