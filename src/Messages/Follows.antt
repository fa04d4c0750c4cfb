-- ===== src/Messages/Follows.antt =====
-- Whatever the messages are, and whichever calls fail: the files go along their lives.
use fts.Common.{
  Bool, Bool-cases, List, Option, Preserves, Preserves-bind, Preserves-if, Preserves-pure,
  Preserves-skip, Result, String, [], err, false, get_elem?, if◌then◌else◌, inl, inr, none, ok,
  preserves_rules, some, subst, suc, sym, true, ℕ, ℤ, ◌+◌, ◌∷◌, ◌≡◌,
}
use fts.Jobs.Follows.{Follows, Follows-refl, Follows-trans}
use fts.Jobs.History.{job_stays, row_stays, set_retry_transfer-Follows}
use fts.Jobs.Sound.{update_job_status-Follows}
use fts.Jobs.Tables.{is_open, is_terminal}
use fts.Jobs.Types.{Db, File, Job, State, failed, is_state}
use fts.Jobs.Updates.{OthersFollow, update_transfer_status-Follows}
use fts.Messages.Ended.{HasUniqueIds, Rows-HasUniqueIds, terminate_reuse_process-Follows}
use fts.Messages.Process.{
  update, Around, Call, Message, Station, Status, announce, attempt, attempt_parts, broken_off,
  counted, dump_messages, get_retries, get_times, handle_message, handle_other_messages,
  handle_rest, is_retried, is_unrecoverable_error_message, logged, perform_other_message_db_change,
  perform_state, put_all, put_back_message, put_message, reached, recover, remove_finished,
  remove_if_ended, remove_watched, report_of, retry_failed, retry_within, send_message, set_retry,
  set_retry_again, store_file, store_job, store_state, terminate, terminate_if, terminate_job,
  unless_retried, update_file, update_job, watch_message, watch_status, whole,
}

-- What holds of the tables all the time, from the tables at the start.
record Goes (db₀ : Db) (w : Station) : Type 0 where
  unique : HasUniqueIds w.db.files
  follows : Follows db₀ w.db

module _ (e : Around) (db₀ : Db) (quiet : (db : Db) → e.session.others db ≡ db) where
  Goes-Follows : (w w' : Station) → Goes db₀ w → Follows w.db w'.db → Goes db₀ w'
  Goes-Follows w w' g f = record {
    unique = Rows-HasUniqueIds w.db.files w'.db.files f.rows g.unique;
    follows = Follows-trans db₀ w.db w'.db g.follows f;
  }

  others_follow : OthersFollow e.session
  others_follow db = subst (Follows db) (sym (quiet db)) (Follows-refl db)

  attempt-Preserves :
      {A : Type 0} (c : Call) (f : Station → A × Station)
      → ((w : Station) → Goes db₀ w → Follows w.db (f w).1.db)
      → Preserves (Goes db₀) (attempt e c f)
  unfolding attempt
  attempt-Preserves {A} c f k = record {
    at = λ w g.
        by_call (e.fails w.calls c) (counted w) (Goes-Follows w (counted w) g (Follows-refl w.db));
  }
    where
      by_call :
          (o : Option String) (w : Station)
          → Goes db₀ w
          → Goes db₀
              (elim o as (λ _. Result String A × Station) [
                | some error ↦ (err error, w)
                | none ↦ (ok (f w).0, (f w).1)
              ]).1
      by_call none w g = Goes-Follows w (f w).1 g (k w g)
      by_call (some x) w g = g

  attempt_parts-Preserves :
      {A : Type 0} (c : Call) (first : Station → Station) (f : Station → A × Station)
      → ((w : Station) → Follows w.db (first w).db)
      → ((w : Station) → Follows w.db (f w).1.db)
      → Preserves (Goes db₀) (attempt_parts e c first f)
  unfolding attempt_parts
  attempt_parts-Preserves {A} c first f j k = record {
    at = λ w g.
        by_call (e.fails w.calls c) (e.commits w.calls) (counted w)
          (Goes-Follows w (counted w) g (Follows-refl w.db));
  }
    where
      by_call :
          (o : Option String) (b : Bool) (w : Station)
          → Goes db₀ w
          → Goes db₀
              (elim o as (λ _. Result String A × Station) [
                | some error ↦ (err error, if b then first w else w)
                | none ↦ (ok (f w).0, (f w).1)
              ]).1
      by_call none b w g = Goes-Follows w (f w).1 g (k w)
      by_call (some x) true w g = Goes-Follows w (first w) g (j w)
      by_call (some x) false w g = g

  remove_watched-Preserves : (m : Message) → Preserves (Goes db₀) (remove_watched e m)
  unfolding remove_watched
  remove_watched-Preserves m = attempt-Preserves remove_finished _ (λ w g. Follows-refl w.db)

  put_back_message-Preserves : (m : Message) → Preserves (Goes db₀) (put_back_message e m)
  unfolding put_back_message
  put_back_message-Preserves m = attempt-Preserves put_message _ (λ w g. Follows-refl w.db)

  watch_status-Preserves : (m : Message) → Preserves (Goes db₀) (watch_status e m)
  unfolding watch_status
  watch_status-Preserves m = attempt-Preserves watch_message _ (λ w g. Follows-refl w.db)

  terminate_job-Preserves :
      (m : Message) (text : String) (force : Bool)
      → Preserves (Goes db₀) (terminate_job e m text force)
  unfolding terminate_job
  terminate_job-Preserves m text force = attempt-Preserves terminate _ (λ w g.
      (terminate_reuse_process-Follows e.session m.job_id m.process_id text force w.db g.unique
        (quiet w.db)))

  set_retry_again-Preserves :
      (m : Message) (limit : ℤ) (times : ℕ) → Preserves (Goes db₀) (set_retry_again e m limit times)
  unfolding set_retry_again
  set_retry_again-Preserves m limit times =
      Preserves-if (Goes db₀) _ _ _
        (attempt-Preserves set_retry _ (λ w g.
          (set_retry_transfer-Follows e.session m.job_id m.file_id (times + 1) m.errcode w.db)))
        (Preserves-pure (Goes db₀) false)

  retry_within-Preserves : (m : Message) (limit : ℤ) → Preserves (Goes db₀) (retry_within e m limit)
  unfolding retry_within
  retry_within-Preserves m limit =
      Preserves-if (Goes db₀) _ _ _
        (Preserves-bind (Goes db₀) _ _ (attempt-Preserves get_times _ (λ w g. Follows-refl w.db))
          (set_retry_again-Preserves m limit))
        (Preserves-pure (Goes db₀) false)

  retry_failed-Preserves : (m : Message) → Preserves (Goes db₀) (retry_failed e m)
  unfolding retry_failed
  retry_failed-Preserves m =
      Preserves-bind (Goes db₀) _ _ (attempt-Preserves get_retries _ (λ w g. Follows-refl w.db))
        (retry_within-Preserves m)

  is_retried-Preserves : (m : Message) (a : State) → Preserves (Goes db₀) (is_retried e m a)
  unfolding is_retried
  is_retried-Preserves m a = record { at = λ w g. tested (is_state a failed) w g }
    where
      caught : (r : Result String Bool × Station) → Goes db₀ r.1 → Goes db₀ (logged e r).1
      caught (ok b, w) g = g
      caught (err x, w) g = g

      tested :
          (b : Bool) (w : Station)
          → Goes db₀ w
          → Goes db₀ (if b then logged e (retry_failed e m w) else (ok false, w)).1
      tested true w g = caught _ ((retry_failed-Preserves m).at w g)
      tested false w g = g

  announce-Preserves :
      (m : Message) (a : State) (b : Bool) → Preserves (Goes db₀) (announce e m a b)
  unfolding announce
  announce-Preserves m a b = Preserves-if (Goes db₀) _ _ _ (Preserves-skip (Goes db₀)) (
      Preserves-if (Goes db₀) _ _ _ (attempt-Preserves send_message _ (λ w g. Follows-refl w.db))
        (Preserves-skip (Goes db₀)))

  store_file-Preserves : (m : Message) (a : State) → Preserves (Goes db₀) (store_file e m a)
  unfolding store_file
  store_file-Preserves m a =
      attempt_parts-Preserves update_file _ _
        (λ w.
          update_transfer_status-Follows (broken_off e.session) (report_of m a) w.db others_follow)
        (λ w. update_transfer_status-Follows (whole e.session) (report_of m a) w.db others_follow)

  store_job-Preserves : (m : Message) (a : State) → Preserves (Goes db₀) (store_job e m a)
  unfolding store_job
  store_job-Preserves m a =
      attempt_parts-Preserves update_job _ _
        (λ w. update_job_status-Follows (broken_off e.session) m.job_id a w.db)
        (λ w. update_job_status-Follows (whole e.session) m.job_id a w.db)

  store_state-Preserves : (m : Message) (a : State) → Preserves (Goes db₀) (store_state e m a)
  unfolding store_state terminate_if
  store_state-Preserves m a = search (
    preserves_rules, terminate_job-Preserves, store_file-Preserves, store_job-Preserves,
    announce-Preserves,
  )

  perform_state-Preserves : (m : Message) (a : State) → Preserves (Goes db₀) (perform_state e m a)
  unfolding perform_state remove_if_ended unless_retried
  perform_state-Preserves m a =
      search
        (preserves_rules, remove_watched-Preserves, is_retried-Preserves, store_state-Preserves)

  recover-Goes :
      (m : Message) (r : Result String (Unit {0}) × Station)
      → Goes db₀ r.1
      → Goes db₀ (recover e m r).1
  unfolding recover
  recover-Goes m (ok a, w) g = g
  recover-Goes m (err x, w) g = by_text (is_unrecoverable_error_message x)
    where
      text : String
      text = "Database change failed due to invalid values"

      by_text :
          (b : Bool)
          → Goes db₀ (if b then terminate_job e m text true w else put_back_message e m w).1
      by_text true = (terminate_job-Preserves m text true).at w g
      by_text false = (put_back_message-Preserves m).at w g

  perform_other_message_db_change-Preserves :
      (m : Message) → Preserves (Goes db₀) (perform_other_message_db_change e m)
  unfolding perform_other_message_db_change
  perform_other_message_db_change-Preserves m = record {
    at = λ w g. by_status m.transfer_status w g;
  }
    where
      by_status :
          (t : Status) (w : Station)
          → Goes db₀ w
          → Goes db₀
              (elim t as (λ _. Result String (Unit {0}) × Station) [
                | update ↦ (ok tt, w)
                | reached a ↦ recover e m (perform_state e m a w)
              ]).1
      by_status update w g = g
      by_status (reached a) w g =
          recover-Goes m (perform_state e m a w) ((perform_state-Preserves m a).at w g)

  handle_message-Goes : (m : Message) (w : Station) → Goes db₀ w → Goes db₀ (handle_message e m w)
  unfolding handle_message
  handle_message-Goes m w g =
      (Preserves-bind (Goes db₀) _ _ (watch_status-Preserves m)
          (λ _. perform_other_message_db_change-Preserves m)).at
        w g

  put_all-Preserves : (messages : List Message) → Preserves (Goes db₀) (put_all e messages)
  unfolding put_all
  put_all-Preserves [] = Preserves-skip (Goes db₀)
  put_all-Preserves (m ∷ ms) =
      Preserves-bind (Goes db₀) _ _ (put_back_message-Preserves m) (λ _. put_all-Preserves ms)

  dump_messages-Goes :
      (messages : List Message) (w : Station) → Goes db₀ w → Goes db₀ (dump_messages e messages w)
  unfolding dump_messages
  dump_messages-Goes messages w g = (put_all-Preserves messages).at w g

  handle_rest-Goes :
      (interrupted : ℕ → Bool) (messages : List Message) (n : ℕ) (ms : List Message) (w : Station)
      → Goes db₀ w
      → Goes db₀ (handle_rest e interrupted messages n ms w)
  unfolding handle_rest
  handle_rest-Goes interrupted messages n [] w g = g
  handle_rest-Goes interrupted messages n (m ∷ ms) w g = elim (Bool-cases (interrupted n)) [
    | inl i ↦ rw i (dump_messages-Goes messages w g)
    | inr i ↦ rw i (handle_rest-Goes interrupted messages (suc n) ms _ (handle_message-Goes m w g))
  ]

-- However the messages of the processes are handled, whichever calls throw, before or after what they
-- commit, and wherever the loop is interrupted: a file that is FINISHED, FAILED or CANCELED keeps its row,
-- and so does a job that is closed, where the numbers of the files are unique and no other session writes
-- meanwhile.
pub handle_other_messages-stays :
    (e : Around) (interrupted : ℕ → Bool) (messages : List Message) (w : Station)
    → HasUniqueIds w.db.files
    → ((db : Db) → e.session.others db ≡ db)
    → let db = (handle_other_messages e interrupted messages w).db in
      ((i : ℕ) (f : File)
        → get_elem? w.db.files i ≡ some f
        → is_terminal f.file_state ≡ true
        → get_elem? db.files i ≡ some f)
      × ((i : ℕ) (j : Job)
          → get_elem? w.db.jobs i ≡ some j
          → is_open j.job_state ≡ false
          → get_elem? db.jobs i ≡ some j)
unfolding handle_other_messages
handle_other_messages-stays e interrupted messages w u quiet =
    let f =
      (handle_rest-Goes e w.db quiet interrupted messages 0 messages w
        (record { unique = u; follows = Follows-refl w.db })).follows in
    (λ i g. row_stays i g w.db.files _ f.rows, λ i j. job_stays i j w.db.jobs _ f.closed)
