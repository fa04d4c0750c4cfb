-- ===== src/Jobs/Settles.antt =====
-- The updates of jobs make a job FINISHED only when all of it is.
use mathlib.Core.Option.{some-injective}
use Prim.Native.Nat.{zero, suc}
use fts.Common.{
  Bool, List, String, [], any, ap, eq_ℤ, false, get_elem?, if◌then◌else◌, inl, inr, lt_ℤ, ltb, pos,
  refl, some, subst, sym, true, ℕ, ◌&&◌, ◌+ℤ◌, ◌==◌, ◌||◌, ◌∷◌, ◌≡◌, ◌⊎◌, string_key, nat_key,
}
use fts.Jobs.Earned.{Earned, Earns, Earns-if, Earns-refl, close_job-Earns, set_job-Earns}
use fts.Jobs.Files.{job_of}
use fts.Jobs.Finished.{AllFinished}
use fts.Jobs.Follows.{and_last}
use fts.Jobs.Status.{
  Counts, advance_job, close_job, counts_of, final_state, is_job_finished, is_multiple_replica,
  is_regular, set_job, settle_job, source_of, terminal_files, update_job_status,
}
use fts.Jobs.Types.{
  Db, File, Job, Session, State, active, archiving, failed, finished, is_state, is_state_iff,
  staging, started, submitted,
}

other_state :
    (P : Type 0) (a b : State)
    → is_state a b ≡ true
    → is_state b finished ≡ false
    → is_state a finished ≡ true
    → P
other_state P a b h n e = absurd (cc (n, e, ap (λ x. is_state x finished) ((is_state_iff a b).0 h)))

advancing_state :
    (P : Type 0) (state : State) (unstaged : Bool)
    → (is_state state active || is_state state staging || is_state state submitted || unstaged)
      ≡ true
    → is_state (if unstaged then submitted else state) finished ≡ true
    → P
advancing_state P state true h e = absurd (cc e)
advancing_state P state false h e = absurd (
    cc (
      subst (λ a. (is_state a active || is_state a staging || is_state a submitted || false) ≡ true)
        ((is_state_iff state finished).0 e) h))

advance_job-Earns :
    (P : Type 0) (job_id : String) (current state : State) (c : Counts) (db : Db)
    → Earns P db (advance_job job_id current state c db)
unfolding advance_job
advance_job-Earns P job_id current state c db =
    let unstaged = is_state current staging && eq_ℤ c.staging_files (pos 0) in
    Earns-if P
      (is_state state active || is_state state staging || is_state state submitted || unstaged) db
      (set_job job_id (λ j. record j { job_state = if unstaged then submitted else state }) db) _
      (λ h.
        set_job-Earns P job_id (λ j. record j { job_state = if unstaged then submitted else state })
          db (λ _ e. advancing_state P state unstaged h e))
      (λ _.
        Earns-if P
          (lt_ℤ (pos 0) c.archiving_files && eq_ℤ c.in_job (terminal_files c +ℤ c.archiving_files))
          db _ db
          (λ _.
            Earns-if P (is_state current archiving) db db
              (set_job job_id (λ j. record j { job_state = archiving }) db) (λ _. Earns-refl P db)
              (λ _.
                set_job-Earns P job_id (λ j. record j { job_state = archiving }) db
                  (λ _ e. absurd (cc e))))
          (λ _. Earns-refl P db))

settle_job-Earns :
    (s : Session) (job_id : String) (state : State) (j : Job) (db : Db)
    → Earns (AllFinished job_id db) db (settle_job s job_id state j db)
unfolding settle_job
settle_job-Earns s job_id state j db =
    let P = AllFinished job_id db in
    let c = counts_of job_id db in
    let source_se =
      if is_state state finished && is_multiple_replica j.job_type
      then source_of finished job_id db
      else "" in
    Earns-if P (is_job_finished j.job_type c) db _ (advance_job job_id j.job_state state c db)
      (λ _.
        Earns-if P (is_state j.job_state (final_state j.job_type c)) db db
          (close_job s job_id j.job_type c source_se db) (λ _. Earns-refl P db)
          (λ _. close_job-Earns s job_id j.job_type source_se db))
      (λ _. advance_job-Earns P job_id j.job_state state c db)

pub and_left : (a b : Bool) → (a && b) ≡ true → a ≡ true
and_left true b h = refl
and_left false b h = absurd (cc h)

update_job_status-Earns :
    (s : Session) (job_id : String) (state : State) (db : Db)
    → Earns (AllFinished job_id db) db (update_job_status s job_id state db)
unfolding update_job_status
update_job_status-Earns s job_id state db =
    let P = AllFinished job_id db in
    let j = job_of s job_id db in
    let waiting =
      any (λ (f : File). f.job_id == job_id && (is_state f.file_state submitted && ltb 0 f.file_id))
        db.files in
    let failing = λ (k : Job). record k {
      job_state = state;
      job_finished = some db.now;
      reason = "Archive monitoring failed in a multiple replica job";
      source_se = source_of failed job_id db;
    } in
    Earns-if P
      (is_state j.job_state state || (is_state j.job_state staging && is_state state started)) db db
      _ (λ _. Earns-refl P db)
      (λ _.
        Earns-if P
          (is_multiple_replica j.job_type
            && (is_state j.job_state archiving && is_state state failed))
          db (set_job job_id failing db) _
          (λ h. set_job-Earns P job_id failing db (λ _.
            other_state P state failed
              (and_last (is_multiple_replica j.job_type) (is_state j.job_state archiving)
                (is_state state failed) h)
              refl))
          (λ _.
            Earns-if P (is_state state active && is_regular j.job_type) db
              (set_job job_id (λ k. record k { job_state = state }) db) _
              (λ h.
                set_job-Earns P job_id (λ k. record k { job_state = state }) db
                  (λ _.
                    other_state P state active
                      (and_left (is_state state active) (is_regular j.job_type) h) refl))
              (λ _.
                Earns-if P
                  ((is_state state finished || is_state state failed)
                    && (is_regular j.job_type && waiting))
                  db db (settle_job s job_id state j db) (λ _. Earns-refl P db)
                  (λ _. settle_job-Earns s job_id state j db))))

Earned-get_elem :
    (P : Type 0) (i : ℕ) (j k : Job) (js ks : List Job)
    → Earned P js ks
    → get_elem? js i ≡ some j
    → get_elem? ks i ≡ some k
    → is_state k.job_state finished ≡ true
    → (is_state j.job_state finished ≡ true) ⊎ P
Earned-get_elem P i j k [] ks r e f h = absurd (cc e)
Earned-get_elem P i j k (x ∷ js) [] r e f h = absurd (cc f)
Earned-get_elem P zero j k (x ∷ js) (y ∷ ks) r e f h =
    subst (λ (z : Job). (is_state z.job_state finished ≡ true) ⊎ P) (some-injective x j e)
      (r.0
        (subst (λ (z : Job). is_state z.job_state finished ≡ true) (sym (some-injective y k f)) h))
Earned-get_elem P (suc i) j k (x ∷ js) (y ∷ ks) r e f h = Earned-get_elem P i j k js ks r.1 e f h

-- A job that an update finds not to be FINISHED, and leaves FINISHED, has for each of its indices a
-- file that is FINISHED.
pub update_job_status-AllFinished :
    (s : Session) (job_id : String) (state : State) (db : Db) (i : ℕ) (j k : Job)
    → get_elem? db.jobs i ≡ some j
    → is_state j.job_state finished ≡ false
    → get_elem? (update_job_status s job_id state db).jobs i ≡ some k
    → is_state k.job_state finished ≡ true
    → AllFinished job_id db
update_job_status-AllFinished s job_id state db i j k e n f h =
    elim (Earned-get_elem (AllFinished job_id db) i j k db.jobs
      (update_job_status s job_id state db).jobs (update_job_status-Earns s job_id state db).earned
      e f h) [ inl m ↦ absurd (cc (n, m)) | inr a ↦ a ]
