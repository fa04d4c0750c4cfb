-- ===== src/Executor/Run.antt =====
-- FileTransferExecutor.cpp: `run`, which starts the process of one transfer.
use fts.Common.{
  Bool, List, Option, String, [], false, if◌then◌else◌, nat_beq, none, pos, some, suc, true, ℕ, ℤ,
  ◌&&◌, ◌==◌, ◌||◌, ◌∷◌, string_key, nat_key,
}
use fts.CommandLine.Command.{Command, generate_parameters}
use fts.CommandLine.Setters.{get_int}
use fts.CommandLine.Types.{TransferFile}
use fts.Executor.Build.{build_command}
use fts.Executor.Settings.{LinkSettings, ServerSettings}
use fts.Jobs.Files.{Report, update_transfer_status}
use fts.Jobs.Status.{update_job_status}
use fts.Jobs.Types.{Db, Session, State, active, failed, ready}

-- What the parameters of a transfer are stored with.
pub record ProtocolMessage : Type 0 where
  pub message_file_id : ℕ
  pub message_buffersize : ℤ
  pub message_nostreams : ℤ
  pub message_timeout : ℤ

-- The database and what the executor does besides: the transfers that it counts, the links that it
-- gives up, the messages on parameters and on states, the command lines that were started, and the
-- processes that are watched.
pub record World : Type 0 where
  pub db : Db
  pub scheduled : ℕ
  pub not_scheduled : List (String × String)
  pub protocol_messages : List ProtocolMessage
  pub state_messages : List (String × ℕ)
  pub started_lines : List String
  pub watched : List (String × ℕ × ℤ)

-- What is around: the session of the database, the interruptions of the thread that the two tests see,
-- the pid of a process that is started or `none` where that fails, and the pid that is then reported.
pub record Surroundings : Type 0 where
  pub session : Session
  pub interrupted_first : Bool
  pub interrupted_later : Bool
  pub fork : String → Option ℤ
  pub failed_pid : ℤ

unfoldable pub report_on : TransferFile → ℤ → State → String → Report
report_on t process_id state reason = record {
  job_id = t.job_id;
  file_id = t.file_id;
  process_id = process_id;
  new_state = state;
  reason = reason;
  filesize = 0;
  retry = false;
  file_metadata = "";
}

-- `none` is `bad_lexical_cast`.
unfoldable pub protocol_message : TransferFile → Command → Option ProtocolMessage
protocol_message t c = elim (get_int "tcp-buffersize" c) [
  | none ↦ none
  | some b ↦ elim (get_int "nstreams" c) [
    | none ↦ none
    | some n ↦ elim (get_int "timeout" c) [
      | none ↦ none
      | some m ↦ some (record {
        message_file_id = t.file_id;
        message_buffersize = b;
        message_nostreams = n;
        message_timeout = m;
      })
    ]
  ]
]

abbrev send_state : TransferFile → World → World
send_state t w = record w { state_messages = (t.job_id, t.file_id) ∷ w.state_messages }

-- What follows the fork, with its pid or `none`.
unfoldable pub launched : Surroundings → TransferFile → Command → Option ℤ → World → World
unfolding report_on
launched e t c none w =
    let reason : String = "Transfer failed to fork, check fts3server.log for more details" in
    let db₁ = (update_transfer_status e.session (report_on t e.failed_pid failed reason) w.db).1 in
    send_state t (record w { db = update_job_status e.session t.job_id failed db₁ })
launched e t c (some pid) w = send_state t (record w {
  db = (update_transfer_status e.session (report_on t pid ready "") w.db).1;
  started_lines = generate_parameters c ∷ w.started_lines;
  watched = (t.job_id, t.file_id, pid) ∷ w.watched;
})

-- What follows the claim, if the file was updated: the parameters are stored and the process is started.
unfoldable pub after_claim :
    Surroundings → TransferFile → Command → Bool → Option ProtocolMessage → World → World
unfolding launched
after_claim e t c false message w = w
after_claim e t c true none w = w
after_claim e t c true (some message) w =
    launched e t c (e.fork (generate_parameters c))
      (record w { protocol_messages = message ∷ w.protocol_messages })

-- The transfer is claimed in the database, and the process is started if no other node was faster.
unfoldable pub claim : Surroundings → TransferFile → Command → World → World
unfolding after_claim protocol_message
claim e t c w =
    let (updated, db₁) = update_transfer_status e.session (report_on t (pos 0) ready "") w.db in
    after_claim e t c updated (protocol_message t c) (record w {
      db = update_job_status e.session t.job_id active db₁;
      scheduled = suc w.scheduled;
    })

unfoldable pub is_given_up_link : String × String → List (String × String) → Bool
is_given_up_link link [] = false
is_given_up_link (s, d) ((s', d') ∷ links) = (s == s' && d == d') || is_given_up_link (s, d) links

unfoldable pub run_allowed : Surroundings → TransferFile → Option Command → World → World
unfolding claim
run_allowed e t none w = w
run_allowed e t (some c) w = if e.interrupted_later then w else claim e t c w

module _ (read_auth : String → Option String) (issuer : String → String → Option String) where
  -- An exception ends it, with the state as it is.
  unfoldable pub run_executor :
      Surroundings → LinkSettings → ServerSettings → TransferFile → World → World
  unfolding run_allowed build_command
  run_executor e l s t w =
      if nat_beq t.file_id 0 || e.interrupted_first
      then w
      else if is_given_up_link (t.source_se, t.dest_se) w.not_scheduled
      then w
      else if l.is_tr_allowed
      then run_allowed e t (build_command read_auth issuer l s t) w
      else record w { not_scheduled = (t.source_se, t.dest_se) ∷ w.not_scheduled }
