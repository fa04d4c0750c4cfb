-- ===== src/UrlCopy/Examples.antt =====
-- A storage of one file at the source and at most one at the destination, and the properties on it.
use fts.Common.{
  Bool, Each, Option, Result, [], err, false, if◌then◌else◌, negsuc, none, ok, refl, some, true, ℕ,
  ◌++◌, ◌∷◌, ◌≡◌,
}
use fts.Uri.Types.{Uri}
use fts.UrlCopy.Completion.{run-completions}
use fts.UrlCopy.Errno.{ecanceled, enoent, etimedout}
use fts.UrlCopy.Guarantees.{exists_error, run_transfer_exists, run_transfer_validates}
use fts.UrlCopy.Process.{new_params, run}
use fts.UrlCopy.Redaction.{
  IsRedacted, chars, find_question, is_opaque, question, sanitize, sanitize-IsRedacted,
  sanitize_any_query, sanitize_query_string,
}
use fts.UrlCopy.Reports.{completions, file_ids}
use fts.UrlCopy.Transfer.{
  Context, check_destination, compare_size, copy, existence, prepare, release_source,
  report_dest_file, run_transfer, set_protocol, source_size, stat, validate_size,
}
use fts.UrlCopy.Types.{
  Failure, Gfal2, Opts, Params, Transfer, UrlCopyError, checksum_none, gfal2_exception,
  is_recoverable, new_error, url_copy_error,
}

record Storage : Type 0 where
  size : ℕ
  dest_size : Option ℕ
  broken : Bool  -- every copy runs into the timeout
  stopped : Bool  -- the process was canceled

abbrev answer : Option ℕ → Result Failure ℕ
answer (some n) = ok n
answer none = err (gfal2_exception enoent "No such file or directory")

abbrev copied : Storage → Option Failure × Storage
copied w =
    if w.broken
    then (some (gfal2_exception ecanceled "Operation canceled"), w)
    else (none, record w { dest_size = some w.size })

instance abbrev storage : Gfal2 Storage
storage = record {
  set = λ w s k v. w;
  add_client_info = λ w k v. w;
  add_client_number = λ w k v. w;
  load_config_file = λ w f. (none, w);
  read_lines = λ w f. [];
  unlink = λ w f. w;
  token_retrieve = λ w u i v l. (ok "token", w);
  set_checksum = λ w m a v. none;
  stat = λ w p u s. (if s then ok w.size else answer w.dest_size, w);
  get_checksum = λ w u a. (ok "0000", w);
  get_xattr = λ w u k. (ok "ONLINE", w);
  append_dest_file = λ m f. ok m;
  start_timers = λ w n. w;
  copy = λ w p s d. copied w;
  timeout_expired = λ w. w.broken;
  canceled = λ w. w.stopped;
  release_file = λ w p u t. (none, w);
  milliseconds = λ w. 0;
  generate_log_path = λ w d t. "log";
  generate_archive_log_path = λ w d t. "archive";
  rename = λ w a b. (none, w);
}

abbrev here : Uri
here = record {
  full_uri = "https://a/f";
  query_string = "";
  path = "/f";
  protocol = "https";
  host = "a";
  port = 0;
}

abbrev file : Transfer
file = record {
  job_id = "job";
  file_id = 7;
  source = here;
  destination = record here { full_uri = "https://b/f"; host = "b" };
  checksum_algorithm = "ADLER32";
  checksum_value = "";
  user_file_size = 0;
  file_metadata = "";
  transfer_metadata = "";
  token_bring_online = "";
  source_token_description = "";
  dest_token_description = "";
  source_token_issuer = "";
  dest_token_issuer = "";
  scitag = 0;
  checksum_mode = checksum_none;
  file_size = 0;
  log_file = "";
  debug_log_file = "";
  error = none;
  eviction_retc = negsuc 0;
  process_start = 0;
  process_end = 0;
  activity = "";
  is_multiple_replica_job = false;
  is_last_replica = false;
  is_multihop_job = false;
  is_last_hop = false;
  is_archiving = false;
}

abbrev opts : Opts
opts = record {
  bulk_file = "";
  is_session_reuse = false;
  third_party_turl = "";
  vo_name = "";
  user_dn = "";
  proxy = "";
  infosys = "";
  alias = "";
  job_metadata = "";
  optimizer_level = 0;
  enable_udt = false;
  enable_ipv6 = none;
  enable_monitoring = false;
  ping_interval = 60;
  retry_max = 0;
  msg_dir = "";
  log_to_stderr = false;
  auth_method = "";
  oauth_file = "";
  cloud_storage_config = "";
  retrieve_se_token = true;
  timeout = 0;
  add_sec_per_mb = 0;
  strict_copy = false;
  overwrite = false;
  no_delegation = false;
  no_streaming = false;
  skip_evict = false;
  dst_file_report = true;
  copy_mode = "";
  disable_copy_fallback = false;
  debug_level = 0;
  log_dir = "";
  retry = 0;
  n_streams = 1;
  tcp_buffersize = 0;
}

abbrev empty_destination : Storage
empty_destination = record { size = 100; dest_size = none; broken = false; stopped = false }

abbrev full_destination : Storage
full_destination = record empty_destination { dest_size = some 5 }

abbrev slow : Storage
slow = record empty_destination { broken = true }

abbrev start : Storage → Context Storage
start w = record { world = w; transfer = file; params = new_params; reports = [] }

abbrev finish : Context Storage
finish = (run_transfer opts (start empty_destination)).1

copy_succeeds : run_transfer opts (start empty_destination) ≡ (ok tt, finish)
unfolding run_transfer prepare stat source_size check_destination existence set_protocol copy
    release_source validate_size compare_size
copy_succeeds = refl

run_transfer_validates_example :
    (size : ℕ) × (w : Storage) × (params : Params) × ((storage.stat empty_destination new_params
        here true).0
      ≡ ok size)
    × (storage.stat w params file.destination false ≡ (ok size, finish.world))
run_transfer_validates_example =
    run_transfer_validates opts (start empty_destination) finish refl copy_succeeds

run_transfer_exists_example :
    (run_transfer opts (start full_destination) ≡ (
      err (url_copy_error exists_error),
      (report_dest_file opts
          (record (start full_destination) { transfer = record file { file_size = 100 } })).1,
    ))
    × (is_recoverable exists_error ≡ false)
run_transfer_exists_example =
    run_transfer_exists opts (start full_destination) 100 5 full_destination full_destination refl
      refl refl refl

abbrev timeout_error : UrlCopyError
timeout_error = new_error "TRANSFER" "TRANSFER" etimedout "Operation canceled"

slow_copy : copy (start slow) ≡ (err (url_copy_error timeout_error), start slow)
unfolding copy
slow_copy = refl

run-completions_example :
    file_ids (completions (run opts slow (file ∷ record file { file_id = 8 } ∷ [])).reports)
    ≡ 7 ∷ 8 ∷ []
run-completions_example = run-completions opts slow (file ∷ record file { file_id = 8 } ∷ [])

sanitize-IsRedacted_example : IsRedacted (sanitize_query_string (chars "https://a/f?token=x y"))
sanitize-IsRedacted_example = sanitize-IsRedacted (chars "https://a/f?token=x y")

sanitize_any_query_example :
    sanitize_query_string (chars "a" ++ (question ∷ (chars "t=1" ++ chars " end")))
    ≡ sanitize_query_string (chars "a" ++ (question ∷ (chars "t=22" ++ chars " end")))
unfolding is_opaque
sanitize_any_query_example =
    sanitize_any_query (chars "a") (chars "t=1") (chars "t=22") (chars " end") three four
  where
    three : Each (λ c. is_opaque c ≡ true) (chars "t=1")
    three = (refl, (refl, (refl, tt)))

    four : Each (λ c. is_opaque c ≡ true) (chars "t=22")
    four = (refl, (refl, (refl, (refl, tt))))

sanitizes : sanitize "https://a/f?token=x y?z" ≡ "https://a/f?<redacted> y?<redacted>"
unfolding sanitize find_question is_opaque
sanitizes = refl
