-- ===== src/Executor/Samples.antt =====
-- A hop of a job, its link and its server, on which the properties are applied.
use fts.Common.{Option, String, false, negsuc, none, pos, some, true}
use fts.CommandLine.Types.{TransferFile, multi_hop, pull}
use fts.Executor.Settings.{LinkSettings, ServerSettings}

abbrev pub hop : TransferFile
hop = record {
  file_id = 42;
  job_id = "a1b2";
  file_index = pos 0;
  source_surl = "https://one.example:8443/data/file";
  source_se = "https://one.example";
  dest_se = "https://two.example";
  internal_file_params = "nostreams:4,ipv6,strict";
  dest_surl = "davs://two.example/data/file";
  user_filesize = pos 1000;
  vo_name = "dteam";
  overwrite_flag = "M";
  dst_file_report = "Y";
  user_dn = "/CN=Ada Lovelace";
  cred_id = "f3c1";
  checksum_mode = "both";
  checksum = "ADLER32:1a2b3c4d";
  source_space_token = "";
  destination_space_token = "TAPE";
  activity = "default";
  archive_timeout = pos 3600;
  scitag = pos 65;
  file_metadata = "{\"label\": \"first\"}";
  job_metadata = "null";
  transfer_metadata = "";
  bring_online_token = "";
  job_type = multi_hop;
  last_replica = false;
  last_hop = false;
}

abbrev pub link : LinkSettings
link = record {
  is_tr_allowed = true;
  sec_per_mb = pos 2;
  streams_optimization = pos 1;
  global_timeout = pos 0;
  protocol_ipv6 = none;
  protocol_udt = some false;
  publish_user_dn = true;
  debug_level = pos 1;
  disable_delegation = false;
  third_party_turl = "";
  disable_streaming = true;
  skip_eviction = none;
  copy_mode = pull;
  retry_times = negsuc 0;
  retry = pos 3;
}

abbrev pub server : ServerSettings
server = record {
  monitoring_msg = true;
  infosys = "lcg-bdii.example:2170";
  fts_host_name = "fts.example";
  proxy = "/tmp/x509up_h1";
  logs_dir = "/var/log/fts3/transfers";
  msg_dir = "/var/lib/fts3";
  retrieve_se_token = false;
  ping_interval = pos 60;
  cloud_storage_config = "";
  oauth_credentials = "";
}

abbrev pub no_auth : String → Option String
no_auth text = none

abbrev pub no_issuer : String → String → Option String
no_issuer text key = none
