-- ===== src/Messages/Tried.antt =====
-- What the handling of a FAILED message does about a retry.
use fts.Common.{
  Action, Bool, Bool-cases, Option, Result, String, ap, continue, err, false, inl, inr, le_ℤ, lt_ℤ,
  ltb, none, ok, pos, refl, some, sym, true, ℤ, ◌&&◌, ◌+◌, ◌-ℤ◌, ◌>>=◌, ◌∙◌, ◌≡◌, ◌≢◌,
}
use fts.Jobs.Files.{set_retry_transfer}
use fts.Jobs.Settles.{and_left}
use fts.Jobs.Types.{Db}
use fts.Messages.Process.{
  Around, Call, Message, Station, attempt, counted, get_retries, get_times, logged, retry_failed,
  retry_within, set_retry, set_retry_again,
}
use fts.Messages.Retries.{get_retry, get_retry_times}

module _ (e : Around) (m : Message) where
  -- What the handling of a FAILED message has done about a retry.
  pub data IsTried (db : Db) : Result String Bool × Station → Type 0 where
    unchanged : {r : Result String Bool} {v : Station} → v.db ≡ db → r ≢ ok true → IsTried db (r, v)
    again :
        {v : Station}
        → m.retry ≡ true
        → v.db
          ≡ set_retry_transfer e.session m.job_id m.file_id
              (get_retry_times m.job_id m.file_id db + 1)
              m.errcode
              db
        → IsTried db (ok true, v)

  false_is_not : ◌≢◌ {A = Result String Bool} (ok false) (ok true)
  false_is_not h = cc h

  err_is_not : (x : String) → ◌≢◌ {A = Result String Bool} (err x) (ok true)
  err_is_not x h = cc h

  set_retry_again-IsTried :
      (l : ℤ) (w : Station)
      → m.retry ≡ true
      → IsTried w.db (set_retry_again e m l (get_retry_times m.job_id m.file_id w.db) w)
  unfolding set_retry_again attempt
  set_retry_again-IsTried l w r =
      elim (Bool-cases (le_ℤ (pos (get_retry_times m.job_id m.file_id w.db)) (l -ℤ pos 1))) [
        | inl b ↦ rw b (by_call (e.fails w.calls set_retry))
        | inr b ↦ rw b (unchanged refl false_is_not)
      ]
    where
      after : Station
      after = record (counted w) {
        db =
            set_retry_transfer e.session m.job_id m.file_id
              (get_retry_times m.job_id m.file_id w.db + 1) m.errcode w.db;
      }

      by_call :
          (o : Option String)
          → IsTried w.db (elim o as (λ _. Result String Bool × Station) [
            | some error ↦ (err error, counted w)
            | none ↦ (ok true, after)
          ])
      by_call none = again r refl
      by_call (some x) = unchanged refl (err_is_not x)

  -- What follows a reading of the tables, which may throw.
  read-IsTried :
      {A : Type 0} (c : Call) (r : Station → A) (f : A → Action Station String Bool) (w : Station)
      → IsTried w.db (f (r (counted w)) (counted w))
      → IsTried w.db ((attempt e c (λ v. (r v, v)) >>= f) w)
  unfolding attempt
  read-IsTried {A} c r f w k = by_call (e.fails w.calls c)
    where
      read : Option String → Result String A × Station
      read o = elim o [
        | some error ↦ (err error, counted w)
        | none ↦ (ok (r (counted w)), counted w)
      ]

      by_call : (o : Option String) → IsTried w.db (continue (read o).0 f (read o).1)
      by_call none = k
      by_call (some x) = unchanged refl (err_is_not x)

  retry_within-IsTried : (l : ℤ) (w : Station) → IsTried w.db (retry_within e m l w)
  unfolding retry_within
  retry_within-IsTried l w = elim (Bool-cases (m.retry && (lt_ℤ (pos 0) l && ltb 0 m.file_id))) [
    | inl b ↦ rw b (
        read-IsTried get_times (λ v. get_retry_times m.job_id m.file_id v.db)
          (set_retry_again e m l) w
          (set_retry_again-IsTried l (counted w)
            (and_left m.retry (lt_ℤ (pos 0) l && ltb 0 m.file_id) b)))
    | inr b ↦ rw b (unchanged refl false_is_not)
  ]

  pub retry_failed-IsTried : (w : Station) → IsTried w.db (retry_failed e m w)
  unfolding retry_failed
  retry_failed-IsTried w =
      read-IsTried get_retries (λ v. get_retry e.session e.server_retry m.job_id v.db)
        (retry_within e m) w
        (retry_within-IsTried (get_retry e.session e.server_retry m.job_id w.db) (counted w))

  pub logged-IsTried :
      (db : Db) (p : Result String Bool × Station) → IsTried db p → IsTried db (logged e p)
  logged-IsTried db (ok b, v) t = t
  logged-IsTried db (err x, v) t = left t refl
    where
      left :
          {p : Result String Bool × Station}
          → IsTried db p
          → p ≡ (err x, v)
          → IsTried db (ok false, v)
      left (unchanged q n) h = unchanged (sym (ap (λ r. r.1.db) h) ∙ q) false_is_not
      left (again q r) h = absurd (cc h)

  pub tried_ok :
      {p : Result String Bool × Station} (db : Db) (v : Station)
      → IsTried db p
      → p ≡ (ok false, v)
      → v.db ≡ db
  tried_ok db v (unchanged q n) h = sym (ap (λ r. r.1.db) h) ∙ q
  tried_ok db v (again q r) h = absurd (cc h)
