-- ===== src/Jobs/History.antt =====
-- Every sequence of updates, by any number of servers: what is terminal stays.
use mathlib.Core.Option.{some-injective}
use Prim.Native.Nat.{zero, suc}
use fts.Common.{
  Bool, List, String, [], ap, eq_ℤ, false, get_elem?, lt_ℤ, nat_beq, not, pos, refl, some, subst,
  sym, true, ℕ, ℤ, ◌&&◌, ◌==◌, ◌||◌, ◌∙◌, ◌∷◌, ◌≡◌, string_key, nat_key,
}
use fts.Jobs.Files.{
  Report, is_retriable, is_session_reuse, is_stageable, job_of, set_retry_transfer,
  update_transfer_status,
}
use fts.Jobs.Follows.{Follows, Follows-if, Follows-refl, Follows-trans, and_last, and_right}
use fts.Jobs.Lifecycle.{Evolves, Evolves-step, JobRows, JobRows-update, Rows, Rows-update, reported}
use fts.Jobs.Sound.{update_job_status-Follows}
use fts.Jobs.Status.{update_job_status}
use fts.Jobs.Tables.{is_open, is_terminal, update_files, update_jobs}
use fts.Jobs.Types.{Db, File, Job, Session, State, active, is_state, ready}
use fts.Jobs.Updates.{OthersFollow, update_transfer_status-Follows}
use fts.UrlCopy.Errno.{etimedout}

not_first : (a b : Bool) → not (a || b) ≡ true → a ≡ false
not_first false b h = refl
not_first true b h = absurd (cc h)

retried :
    (f g : File) (b : Bool)
    → f.file_id ≡ g.file_id
    → f.job_id ≡ g.job_id
    → not (is_terminal f.file_state || b) ≡ true
    → is_state g.file_state ready ≡ false
    → Evolves f g
retried f g b i j h r =
    let t = not_first (is_terminal f.file_state) b h in
    Evolves-step f g i j t (reported t (rw r (and_false (is_state f.file_state active))))
  where
    and_false : (b : Bool) → (b && false) ≡ false
    and_false true = refl
    and_false false = refl

-- A retry touches no file that is FINISHED, FAILED or CANCELED, and no job that is closed.
pub set_retry_transfer-Follows :
    (s : Session) (job_id : String) (file_id retry_no : ℕ) (errcode : ℤ) (db : Db)
    → Follows db (set_retry_transfer s job_id file_id retry_no errcode db)
unfolding set_retry_transfer update_files update_jobs
set_retry_transfer-Follows s job_id file_id retry_no errcode db =
    let j = job_of s job_id db in
    let reopened =
      λ (k : Job). k.job_id == job_id && (is_session_reuse k.job_type && is_open k.job_state) in
    let db' = update_jobs reopened (λ k. record k { job_state = active }) db in
    let closed =
      JobRows-update reopened (λ k. record k { job_state = active }) db.jobs
        (λ k h. record {
          same_job_id = refl;
          closed_kept = λ c. absurd (
              cc (
                and_last (k.job_id == job_id) (is_session_reuse k.job_type) (is_open k.job_state) h,
                c,
              ));
        }) in
    let here = λ (f : File). nat_beq f.file_id file_id && f.job_id == job_id in
    Follows-if
      ((lt_ℤ (pos 0) j.bring_online || lt_ℤ (pos 0) j.copy_pin_lifetime) && eq_ℤ errcode etimedout)
      db _ _
      (record {
        rows =
            Rows-update (λ f. here f && is_stageable f.file_state) _ db.files
              (λ f h. retried f _ _ refl refl (and_right _ _ h) refl);
        closed = closed;
      })
      (record {
        rows =
            Rows-update (λ f. here f && is_retriable f.file_state) _ db.files
              (λ f h. retried f _ _ refl refl (and_right _ _ h) refl);
        closed = closed;
      })

-- What a server does: a report on a file, an update of a job, or a retry.
pub data Operation : Type 0 where
  report : Report → Operation
  job_status : String → State → Operation
  retry_transfer : String → ℕ → ℕ → ℤ → Operation

abbrev pub operate : Session → Operation → Db → Db
operate s (report u) db = (update_transfer_status s u db).1
operate s (job_status job_id state) db = update_job_status s job_id state db
operate s (retry_transfer job_id file_id retry_no errcode) db =
    set_retry_transfer s job_id file_id retry_no errcode db

unfoldable pub operate_all : Session → List Operation → Db → Db
operate_all s [] db = db
operate_all s (o ∷ os) db = operate_all s os (operate s o db)

operate-Follows :
    (s : Session) (o : Operation) (db : Db) → OthersFollow s → Follows db (operate s o db)
operate-Follows s (report u) db h = update_transfer_status-Follows s u db h
operate-Follows s (job_status job_id state) db h = update_job_status-Follows s job_id state db
operate-Follows s (retry_transfer job_id file_id retry_no errcode) db h =
    set_retry_transfer-Follows s job_id file_id retry_no errcode db

-- In every sequence of reports, updates of jobs and retries, with what other sessions do meanwhile, no file
-- leaves a terminal state, and the jobs that are closed stay as they are.
pub operate_all-Follows :
    (s : Session) (os : List Operation) (db : Db)
    → OthersFollow s
    → Follows db (operate_all s os db)
unfolding operate_all
operate_all-Follows s [] db h = Follows-refl db
operate_all-Follows s (o ∷ os) db h =
    Follows-trans db (operate s o db) _ (operate-Follows s o db h)
      (operate_all-Follows s os (operate s o db) h)

pub row_stays :
    (i : ℕ) (f : File) (fs gs : List File)
    → Rows fs gs
    → get_elem? fs i ≡ some f
    → is_terminal f.file_state ≡ true
    → get_elem? gs i ≡ some f
row_stays i f [] gs r e t = absurd (cc e)
row_stays i f (x ∷ fs) [] r e t = absurd r
row_stays zero f (x ∷ fs) (y ∷ gs) r e t =
    let same = some-injective x f e in
    ap some
      (sym (r.0.kept (subst (λ (z : File). is_terminal z.file_state ≡ true) (sym same) t)) ∙ same)
row_stays (suc i) f (x ∷ fs) (y ∷ gs) r e t = row_stays i f fs gs r.1 e t

pub job_stays :
    (i : ℕ) (j : Job) (js ks : List Job)
    → JobRows js ks
    → get_elem? js i ≡ some j
    → is_open j.job_state ≡ false
    → get_elem? ks i ≡ some j
job_stays i j [] ks r e t = absurd (cc e)
job_stays i j (x ∷ js) [] r e t = absurd r
job_stays zero j (x ∷ js) (y ∷ ks) r e t =
    let same = some-injective x j e in
    ap some
      (sym (r.0.closed_kept (subst (λ (z : Job). is_open z.job_state ≡ false) (sym same) t)) ∙ same)
job_stays (suc i) j (x ∷ js) (y ∷ ks) r e t = job_stays i j js ks r.1 e t

-- A file that is FINISHED, FAILED or CANCELED keeps its row in every sequence of reports, updates of
-- jobs and retries, where the other sessions follow the life of a file too.
pub terminal_stays :
    (s : Session) (os : List Operation) (db : Db) (i : ℕ) (f : File)
    → OthersFollow s
    → get_elem? db.files i ≡ some f
    → is_terminal f.file_state ≡ true
    → get_elem? (operate_all s os db).files i ≡ some f
terminal_stays s os db i f h e t =
    row_stays i f db.files (operate_all s os db).files (operate_all-Follows s os db h).rows e t
