-- ===== src/Executor/RunExamples.antt =====
-- Two servers and one transfer.
use fts.Common.{Bool, [], false, if◌then◌else◌, negsuc, none, pos, refl, some, true, ◌∷◌, ◌≡◌}
use fts.CommandLine.Types.{multi_hop}
use fts.Executor.Build.{build_command}
use fts.Executor.Claims.{Starts, run_executor-Starts}
use fts.Executor.Once.{run_executor_taken}
use fts.Executor.Run.{Surroundings, World, report_on, run_executor}
use fts.Executor.Samples.{hop, link, no_auth, no_issuer, server}
use fts.Jobs.Tables.{exists_file, select_one}
use fts.Jobs.Types.{File, Job, State, ready, submitted}

abbrev row : State → File
row state = record {
  file_id = 42;
  job_id = "a1b2";
  file_index = 0;
  file_state = state;
  reason = "";
  source_se = "https://one.example";
  dest_se = "https://two.example";
  vo_name = "dteam";
  selection_strategy = none;
  dest_surl_uuid = none;
  pid = pos 0;
  filesize = 0;
  transferred = 0;
  current_failures = 0;
  retry = 0;
  file_metadata = "";
  transfer_host = none;
  start_time = none;
  finish_time = none;
  staging_start = none;
  staging_finished = none;
}

abbrev one_job : Job
one_job = record {
  job_id = "a1b2";
  job_type = multi_hop;
  job_state = submitted;
  archive_timeout = none;
  bring_online = negsuc 0;
  copy_pin_lifetime = negsuc 0;
  reason = "";
  source_se = "";
  job_finished = none;
  vo_name = "dteam";
  retry = some (pos 3);
}

abbrev world : State → World
world state = record {
  db = record { files = row state ∷ []; jobs = one_job ∷ []; now = 1000 };
  scheduled = 0;
  not_scheduled = [];
  protocol_messages = [];
  state_messages = [];
  started_lines = [];
  watched = [];
}

-- Another server takes the file, if `b` holds, between the read and the write.
abbrev around : Bool → Surroundings
around b = record {
  session = record {
    hostname = "fts.example";
    cancel_unused_multihop_files = true;
    breaks_off = false;
    others = λ db. if b then (world ready).db else db;
    unread = one_job;
  };
  interrupted_first = false;
  interrupted_later = false;
  fork = λ line. some (pos 77);
  failed_pid = pos 0;
}

run_executor_taken_example :
    (run_executor no_auth no_issuer (around true) link server hop (world submitted)).started_lines
    ≡ []
unfolding report_on exists_file
run_executor_taken_example =
    run_executor_taken no_auth no_issuer (around true) link server hop (row submitted)
      (world submitted) refl (unfold select_one in refl) refl

run_executor-Starts_example :
    Starts
      (around false)
      hop
      (build_command no_auth no_issuer link server hop)
      (world submitted)
      (run_executor no_auth no_issuer (around false) link server hop (world submitted))
run_executor-Starts_example =
    run_executor-Starts no_auth no_issuer (around false) link server hop (world submitted)
