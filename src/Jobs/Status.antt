-- ===== src/Jobs/Status.antt =====
-- MySqlAPI.cpp: the state of a job, `updateJobTransferStatusInternal`.
use fts.Common.{
  Bool, String, any, eq_ℤ, false, if◌then◌else◌, lt_ℤ, ltb, none, not, pos, some, true, ℤ, ◌&&◌,
  ◌+ℤ◌, ◌-ℤ◌, ◌==◌, ◌||◌, string_key, nat_key,
}
use fts.CommandLine.Types.{JobType, multiple_replica, regular}
use fts.Jobs.Files.{job_of}
use fts.Jobs.Replicas.{is_multi_hop}
use fts.Jobs.Tables.{count_indices, is_open, select_one, update_files, update_jobs}
use fts.Jobs.Types.{
  Db, File, Job, Session, State, active, archiving, canceled, failed, finished, finished_dirty,
  is_state, not_used, staging, started, submitted,
}

abbrev pub is_regular : JobType → Bool
is_regular regular = true
is_regular _ = false

abbrev pub is_multiple_replica : JobType → Bool
is_multiple_replica multiple_replica = true
is_multiple_replica _ = false

-- The numbers of the files of the job, those with replicas counted once.
pub record Counts : Type 0 where
  pub in_job : ℤ
  pub canceled_files : ℤ
  pub finished_files : ℤ
  pub staging_files : ℤ
  pub archiving_files : ℤ
  pub failed_files : ℤ

unfoldable pub counts_of : String → Db → Counts
unfolding count_indices
counts_of job_id db =
    let n = count_indices (λ f. true) job_id db in
    let not_canceled = count_indices (λ f. not (is_state f.file_state canceled)) job_id db in
    let neither =
      count_indices
        (λ f. not (is_state f.file_state canceled) && not (is_state f.file_state failed)) job_id
        db in
    record {
      in_job = n;
      canceled_files = n -ℤ not_canceled;
      finished_files = count_indices (λ f. is_state f.file_state finished) job_id db;
      staging_files =
          count_indices (λ f. is_state f.file_state staging || is_state f.file_state started) job_id
            db;
      archiving_files = count_indices (λ f. is_state f.file_state archiving) job_id db;
      failed_files = n -ℤ neither -ℤ (n -ℤ not_canceled);
    }

unfoldable pub terminal_files : Counts → ℤ
terminal_files c = c.canceled_files +ℤ c.failed_files +ℤ c.finished_files

unfoldable pub is_job_finished : JobType → Counts → Bool
unfolding terminal_files
is_job_finished type c =
    eq_ℤ c.in_job (terminal_files c)
    || (is_multi_hop type && lt_ℤ (pos 0) (c.failed_files +ℤ c.canceled_files))

-- The state of a job that is finished.
unfoldable pub final_state : JobType → Counts → State
final_state type c =
    if lt_ℤ (pos 0) c.finished_files && lt_ℤ (pos 0) c.failed_files
    then (if is_multi_hop type then failed else finished_dirty)
    else if eq_ℤ c.in_job c.finished_files
    then finished
    else if lt_ℤ (pos 0) c.failed_files
    then failed
    else if lt_ℤ (pos 0) c.canceled_files
    then canceled
    else failed

unfoldable pub final_reason : JobType → Counts → String
final_reason type c =
    if lt_ℤ (pos 0) c.finished_files && lt_ℤ (pos 0) c.failed_files
    then "One or more files failed. Please have a look at the details for more information"
    else if eq_ℤ c.in_job c.finished_files
    then ""
    else if lt_ℤ (pos 0) c.failed_files || lt_ℤ (pos 0) c.canceled_files
    then "One or more files failed. Please have a look at the details for more information"
    else "Inconsistent internal state!"

-- `UPDATE t_job ... WHERE job_id = :jobId AND job_state NOT IN (the final states)`
unfoldable pub set_job : String → (Job → Job) → Db → Db
unfolding update_jobs
set_job job_id f db = update_jobs (λ j. j.job_id == job_id && is_open j.job_state) f db

-- `sourceSe` for the job, or "".
abbrev pub source_of : State → String → Db → String
source_of state job_id db =
    elim (select_one (λ (f : File). f.job_id == job_id && is_state f.file_state state) db.files) [
      | none ↦ ""
      | some f ↦ f.source_se
    ]

unfoldable pub close_job : Session → String → JobType → Counts → String → Db → Db
unfolding set_job
close_job s job_id type c source_se db =
    let db' =
      set_job job_id
        (λ j. record j {
          job_state = final_state type c;
          job_finished = some db.now;
          reason = final_reason type c;
          source_se = if source_se == "" then j.source_se else source_se;
        })
        db in
    if s.cancel_unused_multihop_files && not s.breaks_off && is_multi_hop type
    then update_files (λ f. f.job_id == job_id && is_state f.file_state not_used)
        (λ f. record f { file_state = canceled }) db'
    else db'

-- A job with files that are not done.
unfoldable pub advance_job : String → State → State → Counts → Db → Db
unfolding set_job
advance_job job_id current state c db =
    let unstaged = is_state current staging && eq_ℤ c.staging_files (pos 0) in
    if is_state state active || is_state state staging || is_state state submitted || unstaged
    then set_job job_id (λ j. record j { job_state = if unstaged then submitted else state }) db
    else if lt_ℤ (pos 0) c.archiving_files && eq_ℤ c.in_job (terminal_files c +ℤ c.archiving_files)
    then (if is_state current archiving
        then db
        else set_job job_id (λ j. record j { job_state = archiving }) db)
    else db

-- The part behind the early returns.
unfoldable pub settle_job : Session → String → State → Job → Db → Db
unfolding close_job advance_job
settle_job s job_id state j db =
    let c = counts_of job_id db in
    let source_se =
      if is_state state finished && is_multiple_replica j.job_type
      then source_of finished job_id db
      else "" in
    if is_job_finished j.job_type c
    then (if is_state j.job_state (final_state j.job_type c)
        then db
        else close_job s job_id j.job_type c source_se db)
    else advance_job job_id j.job_state state c db

unfoldable pub update_job_status : Session → String → State → Db → Db
unfolding settle_job
update_job_status s job_id state db =
    let j = job_of s job_id db in
    let waiting =
      any (λ (f : File). f.job_id == job_id && (is_state f.file_state submitted && ltb 0 f.file_id))
        db.files in
    if is_state j.job_state state || (is_state j.job_state staging && is_state state started)
    then db
    else if is_multiple_replica j.job_type
        && (is_state j.job_state archiving && is_state state failed)
    then set_job job_id
        (λ k. record k {
          job_state = state;
          job_finished = some db.now;
          reason = "Archive monitoring failed in a multiple replica job";
          source_se = source_of failed job_id db;
        })
        db
    else if is_state state active && is_regular j.job_type
    then set_job job_id (λ k. record k { job_state = state }) db
    else if (is_state state finished || is_state state failed) && (is_regular j.job_type && waiting)
    then db
    else settle_job s job_id state j db
