-- ===== src/Jobs/Earned.antt =====
-- What makes a job FINISHED.
use fts.Common.{
  Bool, List, String, [], eq_ℤ, false, if◌then◌else◌, inl, inr, lt_ℤ, not, pos, refl, some, true,
  ◌&&◌, ◌==◌, ◌∷◌, ◌≡◌, ◌⊎◌, string_key, nat_key,
}
use fts.CommandLine.Types.{JobType}
use fts.Jobs.Finished.{AllFinished, counts_of-AllFinished}
use fts.Jobs.Replicas.{is_multi_hop}
use fts.Jobs.Status.{close_job, counts_of, final_reason, final_state, set_job}
use fts.Jobs.Tables.{is_open, update, update_files, update_jobs}
use fts.Jobs.Types.{Db, Job, Session, canceled, failed, finished, finished_dirty, is_state}

-- Where a job is FINISHED it was so before, or the condition holds.
abbrev pub Earned : Type 0 → List Job → List Job → Type 0
Earned P [] ks = Unit
Earned P (j ∷ js) [] = Unit
Earned P (j ∷ js) (k ∷ ks) =
    (is_state k.job_state finished ≡ true → (is_state j.job_state finished ≡ true) ⊎ P)
    × Earned P js ks

-- The tables of jobs, and the condition that the files have.
pub record Earns (P : Type 0) (db db' : Db) : Type 0 where
  pub earned : Earned P db.jobs db'.jobs

Earned-refl : (P : Type 0) (js : List Job) → Earned P js js
Earned-refl P [] = tt
Earned-refl P (j ∷ js) = (λ e. inl e, Earned-refl P js)

Earned-row :
    (P : Type 0) (b : Bool) (j k : Job)
    → (is_state k.job_state finished ≡ true → P)
    → is_state (if b then k else j).job_state finished ≡ true
    → (is_state j.job_state finished ≡ true) ⊎ P
Earned-row P true j k h e = inr (h e)
Earned-row P false j k h e = inl e

Earned-update :
    (P : Type 0) (p : Job → Bool) (f : Job → Job) (js : List Job)
    → ((j : Job) → is_state (f j).job_state finished ≡ true → P)
    → Earned P js (update p f js)
unfolding update
Earned-update P p f [] h = tt
Earned-update P p f (j ∷ js) h = (Earned-row P (p j) j (f j) (h j), Earned-update P p f js h)

pub Earns-refl : (P : Type 0) (db : Db) → Earns P db db
Earns-refl P db = record { earned = Earned-refl P db.jobs }

pub Earns-if :
    (P : Type 0) (b : Bool) (db x y : Db)
    → (b ≡ true → Earns P db x)
    → (b ≡ false → Earns P db y)
    → Earns P db (if b then x else y)
Earns-if P true db x y h k = h refl
Earns-if P false db x y h k = k refl

pub set_job-Earns :
    (P : Type 0) (job_id : String) (f : Job → Job) (db : Db)
    → ((j : Job) → is_state (f j).job_state finished ≡ true → P)
    → Earns P db (set_job job_id f db)
unfolding set_job update_jobs
set_job-Earns P job_id f db h = record {
  earned = Earned-update P (λ j. j.job_id == job_id && is_open j.job_state) f db.jobs h;
}

final_cases :
    (a m e x y : Bool)
    → is_state
        (if a
          then (if m then failed else finished_dirty)
          else if e
          then finished
          else if x
          then failed
          else if y
          then canceled
          else failed)
        finished
      ≡ true
    → e ≡ true
final_cases a m true x y h = refl
final_cases true true false x y h = absurd (cc h)
final_cases true false false x y h = absurd (cc h)
final_cases false m false true y h = absurd (cc h)
final_cases false m false false true h = absurd (cc h)
final_cases false m false false false h = absurd (cc h)

final_state-AllFinished :
    (job_id : String) (type : JobType) (db : Db)
    → is_state (final_state type (counts_of job_id db)) finished ≡ true
    → AllFinished job_id db
unfolding final_state
final_state-AllFinished job_id type db h =
    let c = counts_of job_id db in
    counts_of-AllFinished job_id db (
      final_cases (lt_ℤ (pos 0) c.finished_files && lt_ℤ (pos 0) c.failed_files) (is_multi_hop type)
        (eq_ℤ c.in_job c.finished_files) (lt_ℤ (pos 0) c.failed_files)
        (lt_ℤ (pos 0) c.canceled_files) h)

pub close_job-Earns :
    (s : Session) (job_id : String) (type : JobType) (source_se : String) (db : Db)
    → Earns (AllFinished job_id db) db (close_job s job_id type (counts_of job_id db) source_se db)
unfolding close_job update_files
close_job-Earns s job_id type source_se db =
    let c = counts_of job_id db in
    let closing = λ (j : Job). record j {
      job_state = final_state type c;
      job_finished = some db.now;
      reason = final_reason type c;
      source_se = if source_se == "" then j.source_se else source_se;
    } in
    let closed =
      set_job-Earns (AllFinished job_id db) job_id closing db
        (λ _ h. final_state-AllFinished job_id type db h) in
    Earns-if (AllFinished job_id db)
      (s.cancel_unused_multihop_files && not s.breaks_off && is_multi_hop type) db _ _
      (λ _. record { earned = closed.earned }) (λ _. closed)
