-- ===== src/Jobs/Sound.antt =====
-- The updates of jobs, and the retries, are sound: a closed job stays, and the files follow their life.
use fts.Common.{
  String, any, eq_ℤ, if◌then◌else◌, lt_ℤ, ltb, pos, refl, some, ◌&&◌, ◌+ℤ◌, ◌==◌, ◌||◌, string_key,
  nat_key,
}
use fts.Jobs.Closed.{close_job-Follows, set_job-Follows}
use fts.Jobs.Files.{job_of}
use fts.Jobs.Follows.{Follows, Follows-if, Follows-refl}
use fts.Jobs.Status.{
  Counts, advance_job, close_job, counts_of, final_state, is_job_finished, is_multiple_replica,
  is_regular, set_job, settle_job, source_of, terminal_files, update_job_status,
}
use fts.Jobs.Types.{
  Db, File, Job, Session, State, active, archiving, failed, finished, is_state, staging, started,
  submitted,
}

advance_job-Follows :
    (job_id : String) (current state : State) (c : Counts) (db : Db)
    → Follows db (advance_job job_id current state c db)
unfolding advance_job
advance_job-Follows job_id current state c db =
    let unstaged = is_state current staging && eq_ℤ c.staging_files (pos 0) in
    Follows-if
      (is_state state active || is_state state staging || is_state state submitted || unstaged) db
      (set_job job_id (λ j. record j { job_state = if unstaged then submitted else state }) db) _
      (set_job-Follows job_id (λ j. record j { job_state = if unstaged then submitted else state })
        db (λ _. refl))
      (Follows-if
        (lt_ℤ (pos 0) c.archiving_files && eq_ℤ c.in_job (terminal_files c +ℤ c.archiving_files)) db
        _ db
        (Follows-if (is_state current archiving) db db
          (set_job job_id (λ j. record j { job_state = archiving }) db) (Follows-refl db)
          (set_job-Follows job_id (λ j. record j { job_state = archiving }) db (λ _. refl)))
        (Follows-refl db))

settle_job-Follows :
    (s : Session) (job_id : String) (state : State) (j : Job) (db : Db)
    → Follows db (settle_job s job_id state j db)
unfolding settle_job
settle_job-Follows s job_id state j db =
    let c = counts_of job_id db in
    let source_se =
      if is_state state finished && is_multiple_replica j.job_type
      then source_of finished job_id db
      else "" in
    Follows-if (is_job_finished j.job_type c) db _ (advance_job job_id j.job_state state c db)
      (Follows-if (is_state j.job_state (final_state j.job_type c)) db db
        (close_job s job_id j.job_type c source_se db) (Follows-refl db)
        (close_job-Follows s job_id j.job_type c source_se db))
      (advance_job-Follows job_id j.job_state state c db)

-- An update of a job touches no job that is FINISHED, FINISHEDDIRTY, FAILED or CANCELED, and takes the
-- files along their lives only.
pub update_job_status-Follows :
    (s : Session) (job_id : String) (state : State) (db : Db)
    → Follows db (update_job_status s job_id state db)
unfolding update_job_status
update_job_status-Follows s job_id state db =
    let j = job_of s job_id db in
    let waiting =
      any (λ (f : File). f.job_id == job_id && (is_state f.file_state submitted && ltb 0 f.file_id))
        db.files in
    let failing = λ (k : Job). record k {
      job_state = state;
      job_finished = some db.now;
      reason = "Archive monitoring failed in a multiple replica job";
      source_se = source_of failed job_id db;
    } in
    Follows-if
      (is_state j.job_state state || (is_state j.job_state staging && is_state state started)) db db
      _ (Follows-refl db)
      (Follows-if
        (is_multiple_replica j.job_type
          && (is_state j.job_state archiving && is_state state failed))
        db (set_job job_id failing db) _ (set_job-Follows job_id failing db (λ _. refl))
        (Follows-if (is_state state active && is_regular j.job_type) db
          (set_job job_id (λ k. record k { job_state = state }) db) _
          (set_job-Follows job_id (λ k. record k { job_state = state }) db (λ _. refl))
          (Follows-if
            ((is_state state finished || is_state state failed)
              && (is_regular j.job_type && waiting))
            db db (settle_job s job_id state j db) (Follows-refl db)
            (settle_job-Follows s job_id state j db))))
