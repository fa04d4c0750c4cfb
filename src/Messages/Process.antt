-- ===== src/Messages/Process.antt =====
-- MessageProcessingService.cpp: what the messages of the processes change.
use fts.Common.{
  Action, Bool, List, Option, Result, String, [], err, false, if◌then◌else◌, le_ℤ, lt_ℤ, ltb, map,
  none, not, ok, pos, pure, skip, some, suc, true, ℕ, ℤ, ◌&&◌, ◌++◌, ◌+◌, ◌-ℤ◌, ◌==◌, ◌>>=◌, ◌>>◌,
  ◌||◌, ◌∷◌, string_key, nat_key,
}
use fts.Jobs.Files.{Report, set_retry_transfer, update_transfer_status}
use fts.Jobs.Status.{update_job_status}
use fts.Jobs.Types.{Db, Session, State, canceled, failed, finished, is_state}
use fts.Messages.Retries.{get_retry, get_retry_times}
use fts.Messages.Terminate.{terminate_reuse_process}
use fts.Transfers.Types.{MessageUpdater}
use fts.Transfers.Watch.{erase_file, update_timestamp}
use fts.UrlCopy.Heuristics.{find_substring}

-- The texts of `transfer_status`: "UPDATE" or a state.
pub data Status : Type 0 where
  update : Status
  reached : State → Status

-- The fields of `events::Message` that are read.
pub record Message : Type 0 where
  pub transfer_status : Status
  pub job_id : String
  pub file_id : ℕ
  pub process_id : ℤ
  pub timestamp : ℕ
  pub transfer_message : String
  pub filesize : ℕ
  pub retry : Bool
  pub errcode : ℤ
  pub file_metadata : String

-- The tables, the list of running transfers, the state messages that were sent, the messages that were
-- put back to be processed again, and the number of calls so far.
pub record Station : Type 0 where
  pub db : Db
  pub watched : List MessageUpdater
  pub state_messages : List (String × ℕ)
  pub put_back : List Message
  pub calls : ℕ

-- The calls that may throw.
pub data Call : Type 0 where
  remove_finished get_retries get_times set_retry terminate update_file update_job : Call
  send_message put_message watch_message : Call

-- What is around: the session of the database, the configured retries, the exception of each call, by
-- its number, if it throws one, whether its first transaction is committed then, and the times that the processes of the host started, 0 if they are not
-- there.
pub record Around : Type 0 where
  pub session : Session
  pub server_retry : String → ℤ
  pub fails : ℕ → Call → Option String
  pub commits : ℕ → Bool
  pub pid_start_time : ℤ → ℕ

abbrev pub counted : Station → Station
counted w = record w { calls = suc w.calls }

-- A call of one transaction that throws has changed nothing.
unfoldable pub attempt :
    {A : Type 0} → Around → Call → (Station → A × Station) → Action Station String A
attempt e c f w = elim (e.fails w.calls c) [
  | some error ↦ (err error, counted w)
  | none ↦ (ok (f (counted w)).0, (f (counted w)).1)
]

-- A call of more than one transaction that throws has changed nothing, or what the first one committed.
unfoldable pub attempt_parts :
    {A : Type 0}
    → Around
    → Call
    → (Station → Station)
    → (Station → A × Station)
    → Action Station String A
attempt_parts e c first f w = elim (e.fails w.calls c) [
  | some error ↦ (err error, if e.commits w.calls then first (counted w) else counted w)
  | none ↦ (ok (f (counted w)).0, (f (counted w)).1)
]

abbrev pub broken_off : Session → Session
broken_off s = record s { breaks_off = true }

abbrev pub whole : Session → Session
whole s = record s { breaks_off = false }

unfoldable pub unrecoverable_texts : List String
unrecoverable_texts =
    "Transfer terminate handler called" ∷ "Transfer process died" ∷ "because it was stalled"
    ∷ "canceled by the user" ∷ "undefined symbol" ∷ "canceled because it was not responding"
    ∷ "Out of range value" ∷ []

unfoldable pub is_unrecoverable_error_message : String → Bool
unfolding find_substring unrecoverable_texts
is_unrecoverable_error_message message = find_substring message unrecoverable_texts

abbrev pub has_ended : State → Bool
has_ended a = is_state a finished || (is_state a failed || is_state a canceled)

abbrev pub report_of : Message → State → Report
report_of m a = record {
  job_id = m.job_id;
  file_id = m.file_id;
  process_id = m.process_id;
  new_state = a;
  reason = m.transfer_message;
  filesize = m.filesize;
  retry = m.retry;
  file_metadata = m.file_metadata;
}

module _ (e : Around) where
  unfoldable pub remove_watched : Message → Action Station String (Unit {0})
  remove_watched m =
      attempt e remove_finished
        (λ w. (tt, record w { watched = erase_file m.job_id m.file_id w.watched }))

  unfoldable pub put_back_message : Message → Action Station String (Unit {0})
  put_back_message m =
      attempt e put_message (λ w. (tt, record w { put_back = w.put_back ++ m ∷ [] }))

  unfoldable pub terminate_job : Message → String → Bool → Action Station String (Unit {0})
  terminate_job m text force = attempt e terminate (λ w. (
    tt,
    record w { db = terminate_reuse_process e.session m.job_id m.process_id text force w.db },
  ))

  -- The transfer is retried if the message asks for it and the job has a retry left.
  unfoldable pub set_retry_again : Message → ℤ → ℕ → Action Station String Bool
  set_retry_again m limit times =
      if le_ℤ (pos times) (limit -ℤ pos 1)
      then attempt e set_retry (λ w. (
        true,
        record w {
          db = set_retry_transfer e.session m.job_id m.file_id (times + 1) m.errcode w.db;
        },
      ))
      else pure false

  unfoldable pub retry_within : Message → ℤ → Action Station String Bool
  unfolding set_retry_again
  retry_within m limit =
      if m.retry && (lt_ℤ (pos 0) limit && ltb 0 m.file_id)
      then (attempt e get_times (λ w. (get_retry_times m.job_id m.file_id w.db, w))
          >>= set_retry_again m limit)
      else pure false

  unfoldable pub retry_failed : Message → Action Station String Bool
  unfolding retry_within
  retry_failed m =
      attempt e get_retries (λ w. (get_retry e.session e.server_retry m.job_id w.db, w))
      >>= retry_within m

  -- The exceptions of a retry are logged.
  abbrev pub logged : Result String Bool × Station → Result String Bool × Station
  logged (ok b, w) = (ok b, w)
  logged (err text, w) = (ok false, w)

  unfoldable pub is_retried : Message → State → Action Station String Bool
  unfolding retry_failed
  is_retried m a w = if is_state a failed then logged (retry_failed m w) else (ok false, w)

  unfoldable pub announce : Message → State → Bool → Action Station String (Unit {0})
  announce m a updated =
      if not updated && not (is_state a canceled)
      then skip
      else if not (m.job_id == "") && ltb 0 m.file_id
      then attempt e send_message
          (λ w. (tt, record w { state_messages = (m.job_id, m.file_id) ∷ w.state_messages }))
      else skip

  -- The state of the file and of the job.
  unfoldable pub terminate_if : Message → Action Station String (Unit {0})
  unfolding terminate_job is_unrecoverable_error_message
  terminate_if m =
      if is_unrecoverable_error_message m.transfer_message
      then terminate_job m m.transfer_message false
      else skip

  unfoldable pub store_file : Message → State → Action Station String Bool
  store_file m a =
      let report = λ (s : Session) (w : Station). update_transfer_status s (report_of m a) w.db in
      attempt_parts e update_file (λ w. record w { db = (report (broken_off e.session) w).1 })
        (λ w. ((report (whole e.session) w).0, record w { db = (report (whole e.session) w).1 }))

  unfoldable pub store_job : Message → State → Action Station String (Unit {0})
  store_job m a =
      attempt_parts e update_job
        (λ w. record w { db = update_job_status (broken_off e.session) m.job_id a w.db })
        (λ w. (tt, record w { db = update_job_status (whole e.session) m.job_id a w.db }))

  -- The state of the file and of the job.
  unfoldable pub store_state : Message → State → Action Station String (Unit {0})
  unfolding terminate_if store_file store_job announce
  store_state m a = do terminate_if m; updated ← store_file m a; store_job m a; announce m a updated

  unfoldable pub remove_if_ended : Message → State → Action Station String (Unit {0})
  unfolding remove_watched
  remove_if_ended m a = if has_ended a then remove_watched m else skip

  unfoldable pub unless_retried : Message → State → Bool → Action Station String (Unit {0})
  unfolding store_state
  unless_retried m a retried = if retried then skip else store_state m a

  unfoldable pub perform_state : Message → State → Action Station String (Unit {0})
  unfolding remove_if_ended is_retried unless_retried
  perform_state m a = do remove_if_ended m a; retried ← is_retried m a; unless_retried m a retried

  -- The handler of the exceptions.
  unfoldable pub recover :
      Message → Result String (Unit {0}) × Station → Result String (Unit {0}) × Station
  unfolding put_back_message terminate_job is_unrecoverable_error_message
  recover m (ok a, w) = (ok a, w)
  recover m (err text, w) =
      if is_unrecoverable_error_message text
      then terminate_job m "Database change failed due to invalid values" true w
      else put_back_message m w

  unfoldable pub perform_other_message_db_change : Message → Action Station String (Unit {0})
  unfolding recover perform_state
  perform_other_message_db_change m w = elim m.transfer_status [
    | update ↦ (ok tt, w)
    | reached a ↦ recover m (perform_state m a w)
  ]

  -- The time stamp of the process in the list of running transfers.
  unfoldable pub watch_status : Message → Action Station String (Unit {0})
  unfolding update_timestamp
  watch_status m = attempt e watch_message (λ w. (
    tt,
    record w {
      watched =
          map
            (update_timestamp (e.pid_start_time m.process_id) (record {
              timestamp = m.timestamp;
              job_id = m.job_id;
              file_id = m.file_id;
              process_id = m.process_id;
            }))
            w.watched;
    },
  ))

  -- A message of the loop. The exceptions that are left are logged.
  unfoldable pub handle_message : Message → Station → Station
  unfolding watch_status perform_other_message_db_change
  handle_message m w = ((watch_status m >> perform_other_message_db_change m) w).1

  unfoldable pub put_all : List Message → Action Station String (Unit {0})
  unfolding put_back_message
  put_all [] = skip
  put_all (m ∷ ms) = put_back_message m >> put_all ms

  -- All the messages are put back, also those that were handled, until a call throws. The exception is taken
  -- to be a filesystem_error, which ends here. The messages on logs are left out.
  unfoldable pub dump_messages : List Message → Station → Station
  unfolding put_all
  dump_messages messages w = (put_all messages w).1

  -- The loop over the messages that were read. `interrupted` tells what each test for an interruption finds.
  unfoldable pub handle_rest : (ℕ → Bool) → List Message → ℕ → List Message → Station → Station
  unfolding handle_message dump_messages
  handle_rest interrupted messages n [] w = w
  handle_rest interrupted messages n (m ∷ ms) w =
      let rest = handle_rest interrupted messages (suc n) ms (handle_message m w) in
      if interrupted n then dump_messages messages w else rest

  unfoldable pub handle_other_messages : (ℕ → Bool) → List Message → Station → Station
  unfolding handle_rest
  handle_other_messages interrupted messages w = handle_rest interrupted messages 0 messages w
