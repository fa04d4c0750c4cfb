-- ===== src/Messages/Stored.antt =====
-- What the tables are after a message whose handling ended without an exception.
use fts.Common.{
  Bool, Bool-cases, Option, Result, String, ap, err, false, if◌then◌else◌, inl, inr, ltb, none, not,
  ok, ok-bind, skip, some, subst, sym, true, ◌&&◌, ◌+◌, ◌==◌, ◌∙◌, ◌≡◌, string_key, nat_key,
}
use fts.Jobs.Files.{set_retry_transfer, update_transfer_status}
use fts.Jobs.Status.{update_job_status}
use fts.Jobs.Types.{Db, State, canceled, failed, is_state, is_state_iff}
use fts.Messages.Process.{
  Around, Call, Message, Station, announce, attempt, attempt_parts, counted, has_ended, is_retried,
  is_unrecoverable_error_message, perform_state, remove_finished, remove_if_ended, remove_watched,
  report_of, send_message, store_file, store_job, store_state, terminate, terminate_if,
  terminate_job, unless_retried, update_file, update_job, whole,
}
use fts.Messages.Retries.{get_retry_times}
use fts.Messages.Terminate.{terminate_reuse_process}
use fts.Messages.Tried.{IsTried, again, logged-IsTried, retry_failed-IsTried, tried_ok, unchanged}

-- The tables after a message with a state: the transfer is submitted for another try, with one retry more,
-- or the state is stored for the file, as a report, and then for its job, where a text that tells of the end
-- of the process has failed the other files of the job before.
pub data IsStored (e : Around) (m : Message) (a : State) (db db' : Db) : Type 0 where
  tried_again :
      a ≡ failed
      → m.retry ≡ true
      → db'
        ≡ set_retry_transfer e.session m.job_id m.file_id
            (get_retry_times m.job_id m.file_id db + 1)
            m.errcode
            db
      → IsStored e m a db db'
  reported :
      (db₁ : Db)
      → db₁ ≡ (
          if is_unrecoverable_error_message m.transfer_message
          then terminate_reuse_process e.session m.job_id m.process_id m.transfer_message false db
          else db)
      → db'
        ≡ update_job_status
            (whole e.session)
            m.job_id
            a
            (update_transfer_status (whole e.session) (report_of m a) db₁).1
      → IsStored e m a db db'

module _ (e : Around) where
  attempt_ok :
      {A : Type 0} (c : Call) (f : Station → A × Station) (w v : Station) (a : A)
      → attempt e c f w ≡ (ok a, v)
      → (f (counted w)).1 ≡ v
  unfolding attempt
  attempt_ok {A} c f w v a h = by_call (e.fails w.calls c) h
    where
      by_call :
          (o : Option String)
          → (elim o as (λ _. Result String A × Station) [
            | some error ↦ (err error, counted w)
            | none ↦ (ok (f (counted w)).0, (f (counted w)).1)
          ])
            ≡ (ok a, v)
          → (f (counted w)).1 ≡ v
      by_call none h = ap (λ r. r.1) h
      by_call (some x) h = absurd (cc h)

  attempt_parts_ok :
      {A : Type 0} (c : Call) (first : Station → Station) (f : Station → A × Station)
      (w v : Station) (a : A)
      → attempt_parts e c first f w ≡ (ok a, v)
      → (f (counted w)).1 ≡ v
  unfolding attempt_parts
  attempt_parts_ok {A} c first f w v a h = by_call (e.fails w.calls c) h
    where
      by_call :
          (o : Option String)
          → (elim o as (λ _. Result String A × Station) [
            | some error ↦ (err error, if e.commits w.calls then first (counted w) else counted w)
            | none ↦ (ok (f (counted w)).0, (f (counted w)).1)
          ])
            ≡ (ok a, v)
          → (f (counted w)).1 ≡ v
      by_call none h = ap (λ r. r.1) h
      by_call (some x) h = absurd (cc h)

  module _ (m : Message) where
    terminate_if_ok :
        (w v : Station)
        → terminate_if e m w ≡ (ok tt, v)
        → v.db ≡ (
            if is_unrecoverable_error_message m.transfer_message
            then terminate_reuse_process e.session m.job_id m.process_id m.transfer_message false
                w.db
            else w.db)
    unfolding terminate_if terminate_job
    terminate_if_ok w v h = elim (Bool-cases (is_unrecoverable_error_message m.transfer_message)) [
      | inl b ↦ rw b (sym (ap (λ (s : Station). s.db) (attempt_ok terminate _ w v tt (rw b at h))))
      | inr b ↦ rw b (sym (ap (λ r. r.1.db) (rw b at h)))
    ]

    store_file_ok :
        (a : State) (w v : Station) (b : Bool)
        → store_file e m a w ≡ (ok b, v)
        → v.db ≡ (update_transfer_status (whole e.session) (report_of m a) w.db).1
    unfolding store_file
    store_file_ok a w v b h =
        sym (ap (λ (s : Station). s.db) (attempt_parts_ok update_file _ _ w v b h))

    store_job_ok :
        (a : State) (w v : Station)
        → store_job e m a w ≡ (ok tt, v)
        → v.db ≡ update_job_status (whole e.session) m.job_id a w.db
    unfolding store_job
    store_job_ok a w v h =
        sym (ap (λ (s : Station). s.db) (attempt_parts_ok update_job _ _ w v tt h))

    announce_ok :
        (a : State) (b : Bool) (w v : Station) → announce e m a b w ≡ (ok tt, v) → v.db ≡ w.db
    unfolding announce
    announce_ok a b w v h = elim (Bool-cases (not b && not (is_state a canceled))) [
      | inl x ↦ sym (ap (λ r. r.1.db) (rw x at h))
      | inr x ↦ elim (Bool-cases (not (m.job_id == "") && ltb 0 m.file_id)) [
        | inl y ↦
            sym (ap (λ (s : Station). s.db) (attempt_ok send_message _ w v tt (rw (x, y) at h)))
        | inr y ↦ sym (ap (λ r. r.1.db) (rw (x, y) at h))
      ]
    ]

    remove_if_ended_ok :
        (a : State) (w v : Station) → remove_if_ended e m a w ≡ (ok tt, v) → v.db ≡ w.db
    unfolding remove_if_ended remove_watched
    remove_if_ended_ok a w v h = elim (Bool-cases (has_ended a)) [
      | inl b ↦ sym (ap (λ (s : Station). s.db) (attempt_ok remove_finished _ w v tt (rw b at h)))
      | inr b ↦ sym (ap (λ r. r.1.db) (rw b at h))
    ]

    store_state_ok :
        (a : State) (w v : Station) → store_state e m a w ≡ (ok tt, v) → IsStored e m a w.db v.db
    unfolding store_state
    store_state_ok a w v h =
        let (_, w₁, e₁, r₁) = ok-bind (terminate_if e m) _ w v tt h in
        let (b, w₂, e₂, r₂) = ok-bind (store_file e m a) _ w₁ v tt r₁ in
        let (_, w₃, e₃, r₃) = ok-bind (store_job e m a) _ w₂ v tt r₂ in
        reported w₁.db (terminate_if_ok w w₁ e₁) (
          announce_ok a b w₃ v r₃
          ∙ store_job_ok a w₂ w₃ e₃
          ∙ ap (update_job_status (whole e.session) m.job_id a) (store_file_ok a w₁ w₂ b e₂))

    retried_ok :
        {p : Result String Bool × Station} (a : State) (db : Db) (v : Station)
        → a ≡ failed
        → IsTried e m db p
        → p ≡ (ok true, v)
        → IsStored e m a db v.db
    retried_ok a db v f (unchanged q n) h = absurd (n (ap (λ r. r.0) h))
    retried_ok a db v f (again q r) h = tried_again f q (sym (ap (λ r. r.1.db) h) ∙ r)

    unless_retried_ok :
        (a : State) (b : Bool) (w w₁ v : Station)
        → is_retried e m a w ≡ (ok b, w₁)
        → unless_retried e m a b w₁ ≡ (ok tt, v)
        → IsStored e m a w.db v.db
    unfolding is_retried unless_retried
    unless_retried_ok a b w w₁ v h k = elim (Bool-cases (is_state a failed)) [
      | inl f ↦
          by_retry b ((is_state_iff a failed).0 f)
            (logged-IsTried e m w.db _ (retry_failed-IsTried e m w)) (rw f at h) k
      | inr f ↦ by_none b (rw f at h) k
    ]
      where
        by_retry :
            {p : Result String Bool × Station} (b : Bool)
            → a ≡ failed
            → IsTried e m w.db p
            → p ≡ (ok b, w₁)
            → (if b then skip else store_state e m a) w₁ ≡ (ok tt, v)
            → IsStored e m a w.db v.db
        by_retry true f t h k =
            subst (IsStored e m a w.db) (ap (λ r. r.1.db) k) (retried_ok a w.db w₁ f t h)
        by_retry false f t h k =
            subst (λ db. IsStored e m a db v.db) (tried_ok e m w.db w₁ t h)
              (store_state_ok a w₁ v k)

        by_none :
            (b : Bool)
            → ◌≡◌ {A = Result String Bool × Station} (ok false, w) (ok b, w₁)
            → (if b then skip else store_state e m a) w₁ ≡ (ok tt, v)
            → IsStored e m a w.db v.db
        by_none true h k = absurd (cc h)
        by_none false h k =
            subst (λ db. IsStored e m a db v.db) (sym (ap (λ r. r.1.db) h))
              (store_state_ok a w₁ v k)

    -- A message with a state that is handled without an exception has been stored.
    pub perform_state_ok :
        (a : State) (w v : Station) → perform_state e m a w ≡ (ok tt, v) → IsStored e m a w.db v.db
    unfolding perform_state
    perform_state_ok a w v h =
        let (_, w₁, e₁, r₁) = ok-bind (remove_if_ended e m a) _ w v tt h in
        let (b, w₂, e₂, r₂) = ok-bind (is_retried e m a) _ w₁ v tt r₁ in
        subst (λ db. IsStored e m a db v.db) (remove_if_ended_ok a w w₁ e₁)
          (unless_retried_ok a b w₁ w₂ v e₂ r₂)
