-- ===== src/Jobs/Examples.antt =====
-- A job of two replicas, the first of which fails.
use fts.Common.{
  List, String, [], false, get_elem?, map, negsuc, none, pos, refl, some, true, ℕ, ◌++◌, ◌+ℤ◌, ◌-ℤ◌,
  ◌↔◌, ◌∷◌, ◌≡◌,
}
use fts.CommandLine.Types.{multiple_replica}
use fts.Jobs.Accepted.{Takes, update_transfer_status_stores}
use fts.Jobs.Files.{
  Report, follow_up, is_rejected, job_of, resolve, set_retry_transfer, stored_state,
  update_resolved, update_row, update_transfer_status, write_report, written,
}
use fts.Jobs.Finished.{AllFinished}
use fts.Jobs.Follows.{Follows-refl}
use fts.Jobs.History.{Operation, job_status, operate_all, report, retry_transfer, terminal_stays}
use fts.Jobs.Replicas.{is_archiving_transfer, use_file, use_file_replica}
use fts.Jobs.Settles.{update_job_status-AllFinished}
use fts.Jobs.Status.{
  advance_job, close_job, counts_of, final_reason, final_state, is_job_finished, set_job,
  settle_job, terminal_files, update_job_status,
}
use fts.Jobs.Tables.{
  count_indices, distinct, exists_file, is_member, least_unused, select_one, update, update_files,
  update_jobs,
}
use fts.Jobs.Types.{Db, File, Job, Session, State, active, failed, finished, not_used, submitted}
use fts.Jobs.Updates.{OthersFollow}

abbrev pub replica : ℕ → String → State → File
replica file_id source state = record {
  file_id = file_id;
  job_id = "a1b2";
  file_index = 0;
  file_state = state;
  reason = "";
  source_se = source;
  dest_se = "davs://two.example";
  vo_name = "dteam";
  selection_strategy = none;
  dest_surl_uuid = none;
  pid = pos 0;
  filesize = 0;
  transferred = 0;
  current_failures = 0;
  retry = 0;
  file_metadata = "";
  transfer_host = none;
  start_time = none;
  finish_time = none;
  staging_start = none;
  staging_finished = none;
}

abbrev pub job : State → Job
job state = record {
  job_id = "a1b2";
  job_type = multiple_replica;
  job_state = state;
  archive_timeout = none;
  bring_online = negsuc 0;
  copy_pin_lifetime = negsuc 0;
  reason = "";
  source_se = "";
  job_finished = none;
  vo_name = "dteam";
  retry = some (pos 3);
}

abbrev pub tables : State → State → State → Db
tables a b c = record {
  files = replica 1 "davs://one.example" a ∷ replica 2 "davs://three.example" b ∷ [];
  jobs = job c ∷ [];
  now = 1000;
}

abbrev pub alone : Session
alone = record {
  hostname = "fts.example";
  cancel_unused_multihop_files = true;
  breaks_off = false;
  others = λ db. db;
  unread = job submitted;
}

alone-OthersFollow : OthersFollow alone
alone-OthersFollow db = Follows-refl db

abbrev ended : ℕ → State → Report
ended file_id state = record {
  job_id = "a1b2";
  file_id = file_id;
  process_id = pos 77;
  new_state = state;
  reason = "";
  filesize = 5;
  retry = false;
  file_metadata = "";
}

abbrev states : Db → List State
states db = map (λ (f : File). f.file_state) db.files ++ map (λ (j : Job). j.job_state) db.jobs

abbrev story : List Operation
story =
    report (ended 1 failed)
    ∷ job_status "a1b2" failed
    ∷ report (ended 2 finished)
    ∷ job_status "a1b2" finished
    ∷ retry_transfer "a1b2" 2 1 (pos 0)
    ∷ []

-- The second replica is tried, and the job is done with it.
story_run :
    states (operate_all alone story (tables active not_used active))
    ≡ failed ∷ finished ∷ finished ∷ []
unfolding operate_all update_transfer_status update_resolved update_row write_report stored_state
    is_rejected written follow_up use_file_replica use_file update_files update select_one
    exists_file least_unused is_archiving_transfer resolve job_of update_job_status settle_job
    close_job set_job update_jobs counts_of count_indices distinct is_member is_job_finished
    terminal_files final_state final_reason advance_job set_retry_transfer ◌-ℤ◌ ◌+ℤ◌
story_run = refl

terminal_stays_example :
    get_elem? (operate_all alone story (tables failed not_used active)).files 0
    ≡ some (replica 1 "davs://one.example" failed)
terminal_stays_example =
    terminal_stays alone story (tables failed not_used active) 0
      (replica 1 "davs://one.example" failed) alone-OthersFollow refl refl

abbrev done : Job
done = record (job finished) { job_finished = some 1000; source_se = "davs://three.example" }

done_run :
    get_elem? (update_job_status alone "a1b2" finished (tables failed finished active)).jobs 0
    ≡ some done
unfolding update select_one job_of update_job_status settle_job close_job set_job update_jobs
    counts_of count_indices distinct is_member is_job_finished terminal_files final_state
    final_reason ◌-ℤ◌ ◌+ℤ◌
done_run = refl

update_job_status-AllFinished_example : AllFinished "a1b2" (tables failed finished active)
update_job_status-AllFinished_example =
    update_job_status-AllFinished alone "a1b2" finished (tables failed finished active) 0
      (job active) done refl refl done_run refl

update_transfer_status_stores_example :
    ((update_transfer_status alone (ended 1 failed) (tables active not_used active)).0 ≡ true) ↔ (
      Takes (ended 1 failed) active
      × ((i : ℕ) × (f : File) × (get_elem? (tables active not_used active).files i ≡ some f)
          × (f.file_id ≡ 1)
          × (f.file_state ≡ active)))
update_transfer_status_stores_example =
    update_transfer_status_stores alone (ended 1 failed) (replica 1 "davs://one.example" active)
      (tables active not_used active) refl (unfold select_one in refl)
