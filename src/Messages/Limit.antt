-- ===== src/Messages/Limit.antt =====
-- A transfer is retried at most as often as its job may be.
use fts.Common.{
  Action, Bool, Bool-cases, List, Option, Result, String, [], arith, continue, eq_ℤ, err, false,
  if◌then◌else◌, inl, inr, le_ℤ, lt_ℤ, ltb, nat_beq, nat_beq_iff, none, ok, pos, refl, some,
  str_beq_iff, true, ℕ, ℤ, ◌&&◌, ◌+◌, ◌-ℤ◌, ◌==◌, ◌>>=◌, ◌||◌, ◌∷◌, ◌≡◌, string_key, nat_key,
}
use fts.Jobs.Files.{is_retriable, is_stageable, job_of, set_retry_transfer}
use fts.Jobs.Follows.{and_right}
use fts.Jobs.Settles.{and_left}
use fts.Jobs.Tables.{update, update_files, update_jobs}
use fts.Jobs.Types.{Db, File, Session}
use fts.Messages.Process.{
  Around, Call, Message, Station, attempt, counted, get_retries, get_times, retry_failed,
  retry_within, set_retry, set_retry_again,
}
use fts.Messages.Retries.{get_retry, get_retry_times}
use fts.UrlCopy.Errno.{etimedout}

-- A row has kept its retries, or it is the one of the message and they are within the limit.
pub data IsRetried (job_id : String) (file_id : ℕ) (limit : ℤ) (f g : File) : Type 0 where
  kept : g ≡ f → IsRetried job_id file_id limit f g
  again :
      f.job_id ≡ job_id
      → f.file_id ≡ file_id
      → le_ℤ (pos g.retry) limit ≡ true
      → IsRetried job_id file_id limit f g

abbrev pub AreRetried : String → ℕ → ℤ → List File → List File → Type 0
AreRetried j i l [] [] = Unit
AreRetried j i l (f ∷ fs) (g ∷ gs) = IsRetried j i l f g × AreRetried j i l fs gs
AreRetried j i l [] (g ∷ gs) = ⊥
AreRetried j i l (f ∷ fs) [] = ⊥

AreRetried-refl : (j : String) (i : ℕ) (l : ℤ) (fs : List File) → AreRetried j i l fs fs
AreRetried-refl j i l [] = tt
AreRetried-refl j i l (f ∷ fs) = (kept refl, AreRetried-refl j i l fs)

AreRetried-update :
    (j : String) (i : ℕ) (l : ℤ) (p : File → Bool) (h : File → File) (fs : List File)
    → ((f : File) → p f ≡ true → IsRetried j i l f (h f))
    → AreRetried j i l fs (update p h fs)
unfolding update
AreRetried-update j i l p h [] k = tt
AreRetried-update j i l p h (f ∷ fs) k = (retried_if (p f) (k f), AreRetried-update j i l p h fs k)
  where
    retried_if :
        (b : Bool) → (b ≡ true → IsRetried j i l f (h f)) → IsRetried j i l f (if b then h f else f)
    retried_if true k = k refl
    retried_if false k = kept refl

one_more : (n : ℕ) (l : ℤ) → le_ℤ (pos n) (l -ℤ pos 1) ≡ true → le_ℤ (pos (n + 1)) l ≡ true
unfolding ◌-ℤ◌
one_more n l h = ground (arith, h)

one_file_retried :
    (j : String) (i : ℕ) (l : ℤ) (q : File → Bool) (h : File → File) (db : Db)
    → ((f : File) → le_ℤ (pos (h f).retry) l ≡ true)
    → AreRetried j i l db.files
        (update (λ f. (nat_beq f.file_id i && f.job_id == j) && q f) h db.files)
one_file_retried j i l q h db r = AreRetried-update j i l _ _ db.files (λ f k.
    let here = and_left _ (q f) k in
    again ((str_beq_iff f.job_id j).0 (and_right _ _ here))
      ((nat_beq_iff f.file_id i).0 (and_left _ (f.job_id == j) here)) (r f))

either_retried :
    (j : String) (i : ℕ) (l : ℤ) (b : Bool) (fs : List File) (x y : Db)
    → AreRetried j i l fs x.files
    → AreRetried j i l fs y.files
    → AreRetried j i l fs (if b then x else y).files
either_retried j i l true fs x y p q = p
either_retried j i l false fs x y p q = q

set_retry_transfer-AreRetried :
    (s : Session) (j : String) (i n : ℕ) (l : ℤ) (errcode : ℤ) (db : Db)
    → le_ℤ (pos n) l ≡ true
    → AreRetried j i l db.files (set_retry_transfer s j i n errcode db).files
unfolding set_retry_transfer update_files update_jobs
set_retry_transfer-AreRetried s j i n l errcode db h =
    either_retried j i l
      ((lt_ℤ (pos 0) (job_of s j db).bring_online || lt_ℤ (pos 0) (job_of s j db).copy_pin_lifetime)
        && eq_ℤ errcode etimedout)
      db.files _ _ (one_file_retried j i l (λ f. is_stageable f.file_state) _ db (λ f. h))
      (one_file_retried j i l (λ f. is_retriable f.file_state) _ db (λ f. h))

module _ (e : Around) (m : Message) where
  abbrev limit_of : Station → ℤ
  limit_of w = get_retry e.session e.server_retry m.job_id w.db

  abbrev IsWithin : Station → ℤ → Station → Type 0
  IsWithin w l v = AreRetried m.job_id m.file_id l w.db.files v.db.files

  attempt-IsWithin :
      {A : Type 0} (c : Call) (f : Station → A × Station) (l : ℤ) (w : Station)
      → IsWithin w l (f (counted w)).1
      → IsWithin w l (attempt e c f w).1
  unfolding attempt
  attempt-IsWithin {A} c f l w k = by_call (e.fails w.calls c)
    where
      by_call :
          (o : Option String)
          → IsWithin w l
              (elim o as (λ _. Result String A × Station) [
                | some error ↦ (err error, counted w)
                | none ↦ (ok (f (counted w)).0, (f (counted w)).1)
              ]).1
      by_call none = k
      by_call (some x) = AreRetried-refl m.job_id m.file_id l w.db.files

  set_retry_again-IsWithin :
      (l : ℤ) (n : ℕ) (w : Station) → IsWithin w l (set_retry_again e m l n w).1
  unfolding set_retry_again
  set_retry_again-IsWithin l n w = elim (Bool-cases (le_ℤ (pos n) (l -ℤ pos 1))) [
    | inl b ↦ rw b (
        attempt-IsWithin set_retry
          (λ v. (
            true,
            record v {
              db = set_retry_transfer e.session m.job_id m.file_id (n + 1) m.errcode v.db;
            },
          ))
          l w
          (set_retry_transfer-AreRetried e.session m.job_id m.file_id (n + 1) l m.errcode w.db
            (one_more n l b)))
    | inr b ↦ rw b (AreRetried-refl m.job_id m.file_id l w.db.files)
  ]

  -- What follows a reading of the tables, which may throw.
  read-IsWithin :
      {A : Type 0} (c : Call) (r : Station → A) (f : A → Action Station String Bool) (l : ℤ)
      (w : Station)
      → IsWithin w l (f (r (counted w)) (counted w)).1
      → IsWithin w l ((attempt e c (λ v. (r v, v)) >>= f) w).1
  unfolding attempt
  read-IsWithin {A} c r f l w k = by_call (e.fails w.calls c)
    where
      read : Option String → Result String A × Station
      read o = elim o [
        | some error ↦ (err error, counted w)
        | none ↦ (ok (r (counted w)), counted w)
      ]

      by_call : (o : Option String) → IsWithin w l (continue (read o).0 f (read o).1).1
      by_call none = k
      by_call (some x) = AreRetried-refl m.job_id m.file_id l w.db.files

  retry_within-IsWithin : (l : ℤ) (w : Station) → IsWithin w l (retry_within e m l w).1
  unfolding retry_within
  retry_within-IsWithin l w = elim (Bool-cases (m.retry && (lt_ℤ (pos 0) l && ltb 0 m.file_id))) [
    | inl b ↦ rw b (
        read-IsWithin get_times (λ v. get_retry_times m.job_id m.file_id v.db)
          (set_retry_again e m l) l w
          (set_retry_again-IsWithin l (get_retry_times m.job_id m.file_id w.db) (counted w)))
    | inr b ↦ rw b (AreRetried-refl m.job_id m.file_id l w.db.files)
  ]

-- When a FAILED message asks for a retry, whichever calls throw: every row of t_file stays as it is, or
-- it is the row of the message and its number of retries is at most the limit of its job.
pub retry_failed-AreRetried :
    (e : Around) (m : Message) (w : Station)
    → AreRetried m.job_id m.file_id
        (get_retry e.session e.server_retry m.job_id w.db)
        w.db.files
        (retry_failed e m w).1.db.files
unfolding retry_failed
retry_failed-AreRetried e m w =
    let l = get_retry e.session e.server_retry m.job_id w.db in
    read-IsWithin e m get_retries (λ v. get_retry e.session e.server_retry m.job_id v.db)
      (retry_within e m) l w (retry_within-IsWithin e m l (counted w))
