-- ===== src/Jobs/Files.antt =====
-- MySqlAPI.cpp: the state of one file, `updateFileTransferStatusInternal` and `setRetryTransfer`.
use fts.Common.{
  Bool, Option, String, eq_ℤ, false, if◌then◌else◌, lt_ℤ, nat_beq, none, not, pos, some, true, ℕ, ℤ,
  ◌&&◌, ◌==◌, ◌||◌, string_key, nat_key,
}
use fts.CommandLine.Types.{JobType, multi_hop, multiple_replica, regular, session_reuse}
use fts.Jobs.Replicas.{
  is_archiving_transfer, set_null_dest_surl_multi_hop, use_file_replica, use_next_hop,
}
use fts.Jobs.Tables.{exists_file, is_open, is_terminal, select_one, update_files, update_jobs}
use fts.Jobs.Types.{
  Db, File, Job, Session, State, active, archiving, canceled, failed, finished, is_state, ready,
  staging, submitted,
}
use fts.UrlCopy.Errno.{etimedout}

-- The arguments of `updateTransferStatus`, without those on speed.
pub record Report : Type 0 where
  pub job_id : String
  pub file_id : ℕ
  pub process_id : ℤ
  pub new_state : State
  pub reason : String
  pub filesize : ℕ
  pub retry : Bool
  pub file_metadata : String

abbrev pub is_report : State → Bool
is_report ready = true
is_report active = true
is_report _ = false

-- Whether the report changes nothing, for a file in the state.
unfoldable pub is_rejected : Report → State → Bool
is_rejected u stored =
    is_terminal stored
    || (is_state stored active && is_state u.new_state ready
        || (is_state stored u.new_state
            && not (is_state u.new_state ready && not (eq_ℤ u.process_id (pos 0)))))

-- The columns that the statement sets, where `state` is the state that is stored.
unfoldable pub written : Session → ℕ → Report → State → State → File → File
written s now u stored state f = record f {
  file_state = state;
  reason = u.reason;
  finish_time = if is_terminal u.new_state then some now else f.finish_time;
  dest_surl_uuid = if is_terminal u.new_state then none else f.dest_surl_uuid;
  start_time = if is_report u.new_state then some now else f.start_time;
  transfer_host = some s.hostname;
  transferred =
      if is_state u.new_state finished
      then u.filesize
      else if is_terminal u.new_state
      then 0
      else f.transferred;
  staging_finished =
      if is_state u.new_state staging && is_state stored staging
      then some now
      else f.staging_finished;
  staging_start =
      if is_state u.new_state staging && not (is_state stored staging)
      then some now
      else f.staging_start;
  file_metadata = if u.file_metadata == "" then f.file_metadata else u.file_metadata;
  pid = u.process_id;
  filesize = u.filesize;
  current_failures = if u.retry then 1 else 0;
}

-- The state that is stored: a transfer that ended goes on to the archive where one is waited for.
unfoldable pub stored_state : Report → Job → Db → State
unfolding is_archiving_transfer
stored_state u j db =
    if is_state u.new_state finished && is_archiving_transfer j u.job_id db
    then archiving
    else u.new_state

abbrev is_given_up : State → Bool
is_given_up canceled = true
is_given_up failed = true
is_given_up _ = false

-- What follows for the other files of the job.
unfoldable pub follow_up : Report → Job → State → Option String → Db → Db
unfolding use_next_hop
follow_up u j state uuid db =
    let is_alive = not (is_given_up j.job_state) in
    elim j.job_type [
      | regular ↦ db
      | session_reuse ↦ db
      | multiple_replica ↦
          if is_alive && is_given_up state then use_file_replica u.job_id u.file_id uuid db else db
      | multi_hop ↦
          if is_alive && is_state state finished
          then use_next_hop u.job_id db
          else set_null_dest_surl_multi_hop u.job_id db
    ]

-- A report without a job is about the file that the process is active on.
unfoldable pub resolve : Report → Db → Report
resolve u db =
    if u.job_id == "" || nat_beq u.file_id 0
    then elim (select_one (λ (f : File). eq_ℤ f.pid u.process_id && is_state f.file_state active)
        db.files) [ none ↦ u | some f ↦ record u { job_id = f.job_id; file_id = f.file_id } ]
    else u

unfoldable pub job_of : Session → String → Db → Job
unfolding select_one
job_of s job_id db = elim (select_one (λ (j : Job). j.job_id == job_id) db.jobs) [
  | none ↦ s.unread
  | some j ↦ j
]

abbrev pub is_target : Report → State → File → Bool
is_target u stored f = nat_beq f.file_id u.file_id && is_state f.file_state stored

-- The write, on what the other sessions have left: the rows that still are in the state that was read.
unfoldable pub write_report : Session → Report → Job → File → State → Db → Bool × Db
unfolding written follow_up
write_report s u j row state db =
    if exists_file (is_target u row.file_state) db
    then (
      true,
      let db' =
            update_files (is_target u row.file_state) (written s db.now u row.file_state state)
              db in
          if s.breaks_off then db' else follow_up u j state row.dest_surl_uuid db',
    )
    else (false, db)

-- The report on a file whose row was read.
unfoldable pub update_row : Session → Report → File → Db → Bool × Db
unfolding write_report stored_state
update_row s u row db =
    let j = job_of s u.job_id db in
    if is_rejected u row.file_state
    then (false, db)
    else write_report s u j row (stored_state u j db) (s.others db)

abbrev pub update_found : Session → Report → Option File → Db → Bool × Db
update_found s u none db = (false, db)
update_found s u (some row) db = update_row s u row db

unfoldable pub update_resolved : Session → Report → Db → Bool × Db
update_resolved s u db =
    update_found s u (select_one (λ (f : File). nat_beq f.file_id u.file_id) db.files) db

-- Whether the file was updated, and the new tables.
unfoldable pub update_transfer_status : Session → Report → Db → Bool × Db
unfolding update_resolved
update_transfer_status s u db = update_resolved s (resolve u db) db

abbrev pub is_stageable : State → Bool
is_stageable a = not (is_terminal a || (is_state a staging || is_state a submitted))

abbrev pub is_retriable : State → Bool
is_retriable a = not (is_terminal a || is_state a submitted)

abbrev pub is_session_reuse : JobType → Bool
is_session_reuse session_reuse = true
is_session_reuse _ = false

-- A file that timed out behind a staging is staged again, any other is submitted again.
unfoldable pub set_retry_transfer : Session → String → ℕ → ℕ → ℤ → Db → Db
unfolding update_jobs
set_retry_transfer s job_id file_id retry_no errcode db =
    let j = job_of s job_id db in
    let db' =
      update_jobs
        (λ (k : Job). k.job_id == job_id && (is_session_reuse k.job_type && is_open k.job_state))
        (λ k. record k { job_state = active }) db in
    let here = λ (f : File). nat_beq f.file_id file_id && f.job_id == job_id in
    if (lt_ℤ (pos 0) j.bring_online || lt_ℤ (pos 0) j.copy_pin_lifetime) && eq_ℤ errcode etimedout
    then update_files (λ f. here f && is_stageable f.file_state)
        (λ f. record f {
          retry = retry_no;
          current_failures = 0;
          file_state = staging;
          filesize = 0;
          transfer_host = none;
          pid = pos 0;
          start_time = none;
          staging_start = none;
          staging_finished = none;
        })
        db'
    else update_files (λ f. here f && is_retriable f.file_state)
        (λ f. record f {
          retry = retry_no;
          file_state = submitted;
          current_failures = 1;
          start_time = none;
          transfer_host = none;
        })
        db'
