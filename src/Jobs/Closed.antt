-- ===== src/Jobs/Closed.antt =====
-- The statements on jobs: a job that is closed stays as it is.
use fts.Common.{String, if◌then◌else◌, not, refl, some, ◌&&◌, ◌==◌, ◌≡◌, string_key, nat_key}
use fts.CommandLine.Types.{JobType}
use fts.Jobs.Follows.{Evolves-unused, Follows, Follows-if, Follows-trans, Follows-update, and_right}
use fts.Jobs.Lifecycle.{JobRows-update, Rows-refl, dropped, stays, then_step}
use fts.Jobs.Replicas.{is_multi_hop}
use fts.Jobs.Status.{Counts, close_job, final_reason, final_state, set_job}
use fts.Jobs.Tables.{is_open, update_jobs}
use fts.Jobs.Types.{Db, Job, Session, canceled, is_state, not_used}

-- Statements that only write to open jobs.
pub set_job-Follows :
    (job_id : String) (f : Job → Job) (db : Db)
    → ((j : Job) → j.job_id ≡ (f j).job_id)
    → Follows db (set_job job_id f db)
unfolding set_job update_jobs
set_job-Follows job_id f db h = record {
  rows = Rows-refl db.files;
  closed =
      JobRows-update (λ j. j.job_id == job_id && is_open j.job_state) f db.jobs
        (λ j e. record {
          same_job_id = h j;
          closed_kept =
              λ c. absurd (cc (and_right (j.job_id == job_id) (is_open j.job_state) e, c));
        });
}

pub close_job-Follows :
    (s : Session) (job_id : String) (type : JobType) (c : Counts) (source_se : String) (db : Db)
    → Follows db (close_job s job_id type c source_se db)
unfolding close_job
close_job-Follows s job_id type c source_se db =
    let closing = λ (j : Job). record j {
      job_state = final_state type c;
      job_finished = some db.now;
      reason = final_reason type c;
      source_se = if source_se == "" then j.source_se else source_se;
    } in
    let db' = set_job job_id closing db in
    let sound = set_job-Follows job_id closing db (λ _. refl) in
    Follows-if (s.cancel_unused_multihop_files && not s.breaks_off && is_multi_hop type) db _ db'
      (Follows-trans db db' _ sound (
        Follows-update (λ f. f.job_id == job_id && is_state f.file_state not_used)
          (λ f. record f { file_state = canceled }) db'
          (λ f h.
            Evolves-unused f (record f { file_state = canceled }) refl refl (and_right _ _ h)
              (then_step stays dropped))))
      sound
