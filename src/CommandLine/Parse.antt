-- ===== src/CommandLine/Parse.antt =====
-- UrlCopyOpts.cpp: the defaults, the bulk file, and `parse`.
use fts.Common.{
  List, Option, Result, String, [], cast_unsigned, err, false, get_elem?, if◌then◌else◌, keep,
  negsuc, none, not, ok, some, split_at, ℕ, ◌&&◌, ◌==◌, ◌∷◌, string_key, nat_key,
}
use fts.CommandLine.Arguments.{read_arguments}
use fts.CommandLine.Options.{handle_events}
use fts.CommandLine.Table.{long_options}
use fts.CommandLine.Values.{
  Exit, Parsed, TransferTypes, bad_lexical_cast, metadata_of, no_transfers, set_checksum,
}
use fts.Uri.Types.{Uri}
use fts.UrlCopy.Types.{Opts, Transfer, checksum_none}
use fts.Uri.Parse.{parse as parse_uri}

unfoldable pub new_uri : Uri
new_uri = record { full_uri = ""; query_string = ""; path = ""; protocol = ""; host = ""; port = 0 }

unfoldable pub new_transfer : Transfer
unfolding new_uri
new_transfer = record {
  job_id = "";
  file_id = 0;
  source = new_uri;
  destination = new_uri;
  checksum_algorithm = "";
  checksum_value = "";
  user_file_size = 0;
  file_metadata = "";
  transfer_metadata = "";
  token_bring_online = "";
  source_token_description = "";
  dest_token_description = "";
  source_token_issuer = "";
  dest_token_issuer = "";
  scitag = 0;
  checksum_mode = checksum_none;
  file_size = 0;
  log_file = "";
  debug_log_file = "";
  error = none;
  eviction_retc = negsuc 0;
  process_start = 0;
  process_end = 0;
  activity = "";
  is_multiple_replica_job = false;
  is_last_replica = false;
  is_multihop_job = false;
  is_last_hop = false;
  is_archiving = false;
}

unfoldable pub new_opts : Opts
new_opts = record {
  bulk_file = "";
  is_session_reuse = false;
  third_party_turl = "";
  vo_name = "";
  user_dn = "";
  proxy = "";
  infosys = "";
  alias = "";
  job_metadata = "";
  optimizer_level = 0;
  enable_udt = false;
  enable_ipv6 = none;
  enable_monitoring = false;
  ping_interval = 60;
  retry_max = 0;
  msg_dir = "/var/lib/fts3";
  log_to_stderr = false;
  auth_method = "";
  oauth_file = "";
  cloud_storage_config = "";
  retrieve_se_token = false;
  timeout = 0;
  add_sec_per_mb = 0;
  strict_copy = false;
  overwrite = false;
  no_delegation = false;
  no_streaming = false;
  skip_evict = false;
  dst_file_report = false;
  copy_mode = "";
  disable_copy_fallback = false;
  debug_level = 0;
  log_dir = "/var/log/fts3";
  retry = 0;
  n_streams = 0;
  tcp_buffersize = 0;
}

-- `strArray[i]`, for the first words of a line. A tenth word would be written out of bounds.
abbrev word : List String → ℕ → String
word words i = elim (get_elem? words i) [ none ↦ "" | some s ↦ s ]

-- "x" stands for an empty value.
abbrev unless_x : String → (String → String) → String
unless_x s f = if s == "x" then "" else f s

-- A line of the bulk file. `none` is `bad_lexical_cast`.
unfoldable pub create_from_string : Transfer → String → Option Transfer
create_from_string reference line =
    let words = keep (λ w. not (w == "")) (split_at b' ' line) in
    elim (cast_unsigned 64 (word words 0)) [
      | none ↦ none
      | some file_id ↦ elim (cast_unsigned 64 (word words 4)) [
        | none ↦ none
        | some user_file_size ↦ elim (cast_unsigned 32 (word words 8)) [
          | none ↦ none
          | some scitag ↦
              let t = record new_transfer {
                job_id = reference.job_id;
                file_id = file_id;
                source = parse_uri (word words 1);
                destination = parse_uri (word words 2);
                checksum_mode = reference.checksum_mode;
              } in
              some (record (set_checksum (word words 3) t) {
                user_file_size = user_file_size;
                file_metadata = unless_x (word words 5) (λ s. s);
                transfer_metadata = unless_x (word words 6) metadata_of;
                token_bring_online = unless_x (word words 7) (λ s. s);
                scitag = scitag;
                source_token_description = reference.source_token_description;
                dest_token_description = reference.dest_token_description;
                source_token_issuer = reference.source_token_issuer;
                dest_token_issuer = reference.dest_token_issuer;
                is_multiple_replica_job = false;
                is_last_replica = false;
              })
        ]
      ]
    ]

-- The lines that are not empty.
unfoldable pub init_list_from_file : Transfer → List String → Option (List Transfer)
init_list_from_file reference [] = some []
init_list_from_file reference (line ∷ lines) =
    let rest = init_list_from_file reference lines in
    if line == "" then rest else elim (create_from_string reference line) [
      | none ↦ none
      | some t ↦ elim rest [ none ↦ none | some ts ↦ some (t ∷ ts) ]
    ]

unfoldable pub validate_required : List Transfer → Result Exit (List Transfer)
validate_required [] = err no_transfers
validate_required (t ∷ ts) = ok (t ∷ ts)

-- The transfers of the options: the one that they describe, or those of the bulk file, whose lines are
-- read by `lines`.
unfoldable pub transfers_of : (String → List String) → Parsed → Result Exit (List Transfer)
unfolding validate_required
transfers_of lines p =
    if p.opts.bulk_file == ""
      && (not (p.reference.source.full_uri == "") && not (p.reference.destination.full_uri == ""))
    then validate_required (p.reference ∷ [])
    else elim (init_list_from_file p.reference (lines p.opts.bulk_file)) [
      | none ↦ err bad_lexical_cast
      | some transfers ↦ validate_required transfers
    ]

unfoldable pub start : Parsed
start = record { opts = new_opts; reference = new_transfer }

unfoldable pub parse :
    TransferTypes → (String → List String) → List String → Result Exit (Opts × List Transfer)
unfolding start transfers_of
parse types lines argv = elim (handle_events types (read_arguments long_options none argv) start) [
  | err e ↦ err e
  | ok p ↦ elim (transfers_of lines p) [ err e ↦ err e | ok transfers ↦ ok (p.opts, transfers) ]
]
