-- ===== src/CommandLine/Types.antt =====
-- What the server reads of a transfer (db/generic/TransferFile.h).
use fts.Common.{Bool, Option, String, ℕ, ℤ}

pub data JobType : Type 0 where
  regular session_reuse multiple_replica multi_hop : JobType

pub data CopyMode : Type 0 where
  any_mode pull push streaming : CopyMode

-- `boost::tribool`, where `none` is indeterminate.
abbrev pub Tribool : Type 0
Tribool = Option Bool

pub record ProtocolParameters : Type 0 where
  pub nostreams : ℤ
  pub timeout : ℤ
  pub buffersize : ℤ
  pub strict_copy : Bool
  pub ipv6 : Tribool
  pub udt : Tribool
  pub s3_alternate : Bool

-- The fields of `TransferFile` that the server reads to choose and to start the transfer.
pub record TransferFile : Type 0 where
  pub file_id : ℕ
  pub job_id : String
  pub file_index : ℤ
  pub source_surl : String
  pub source_se : String
  pub dest_se : String
  pub internal_file_params : String
  pub dest_surl : String
  pub user_filesize : ℤ
  pub vo_name : String
  pub overwrite_flag : String
  pub dst_file_report : String
  pub user_dn : String
  pub cred_id : String
  pub checksum_mode : String
  pub checksum : String
  pub source_space_token : String
  pub destination_space_token : String
  pub activity : String
  pub archive_timeout : ℤ
  pub scitag : ℤ
  pub file_metadata : String
  pub job_metadata : String
  pub transfer_metadata : String
  pub bring_online_token : String
  pub job_type : JobType
  pub last_replica : Bool
  pub last_hop : Bool
