-- ===== src/Messages/Held.antt =====
-- What was put back stays put back.
use mathlib.Core.List.{Mem, mem-append_left}
use fts.Common.{
  Bool, Bool-cases, List, Option, Preserves, Preserves-bind, Result, String, [], err, false,
  if◌then◌else◌, inl, inr, none, ok, preserves_rules, some, suc, true, ℕ, ℤ, ◌∷◌,
}
use fts.Jobs.Types.{State, failed, is_state}
use fts.Messages.Process.{
  Around, Call, Message, Station, Status, announce, attempt, attempt_parts, counted, dump_messages,
  handle_message, handle_rest, is_retried, is_unrecoverable_error_message, logged,
  perform_other_message_db_change, perform_state, put_all, put_back_message, put_message, reached,
  recover, remove_if_ended, remove_watched, retry_failed, retry_within, set_retry_again, store_file,
  store_job, store_state, terminate, terminate_if, terminate_job, unless_retried, update,
  watch_message, watch_status,
}

module _ (e : Around) (x : Message) where
  abbrev IsHeld : Station → Type 0
  IsHeld w = Mem x w.put_back

  attempt-IsHeld :
      {A : Type 0} (c : Call) (f : Station → A × Station)
      → ((w : Station) → IsHeld w → IsHeld (f w).1)
      → Preserves IsHeld (attempt e c f)
  unfolding attempt
  attempt-IsHeld {A} c f k = record { at = λ w g. by_call (e.fails w.calls c) (counted w) g }
    where
      by_call :
          (o : Option String) (w : Station)
          → IsHeld w
          → IsHeld
              (elim o as (λ _. Result String A × Station) [
                | some error ↦ (err error, w)
                | none ↦ (ok (f w).0, (f w).1)
              ]).1
      by_call none w g = k w g
      by_call (some y) w g = g

  attempt_parts-IsHeld :
      {A : Type 0} (c : Call) (first : Station → Station) (f : Station → A × Station)
      → ((w : Station) → IsHeld w → IsHeld (first w))
      → ((w : Station) → IsHeld w → IsHeld (f w).1)
      → Preserves IsHeld (attempt_parts e c first f)
  unfolding attempt_parts
  attempt_parts-IsHeld {A} c first f j k = record {
    at = λ w g. by_call (e.fails w.calls c) (e.commits w.calls) (counted w) g;
  }
    where
      by_call :
          (o : Option String) (b : Bool) (w : Station)
          → IsHeld w
          → IsHeld
              (elim o as (λ _. Result String A × Station) [
                | some error ↦ (err error, if b then first w else w)
                | none ↦ (ok (f w).0, (f w).1)
              ]).1
      by_call none b w g = k w g
      by_call (some y) true w g = j w g
      by_call (some y) false w g = g

  put_back_message-IsHeld : (m : Message) → Preserves IsHeld (put_back_message e m)
  unfolding put_back_message
  put_back_message-IsHeld m = attempt-IsHeld put_message _ (λ w g. mem-append_left (m ∷ []) g)

  terminate_job-IsHeld :
      (m : Message) (text : String) (force : Bool) → Preserves IsHeld (terminate_job e m text force)
  unfolding terminate_job
  terminate_job-IsHeld m text force = attempt-IsHeld terminate _ (λ w g. g)

  watch_status-IsHeld : (m : Message) → Preserves IsHeld (watch_status e m)
  unfolding watch_status
  watch_status-IsHeld m = attempt-IsHeld watch_message _ (λ w g. g)

  retry_within-IsHeld : (m : Message) (l : ℤ) → Preserves IsHeld (retry_within e m l)
  unfolding retry_within set_retry_again
  retry_within-IsHeld m l = search (preserves_rules, attempt-IsHeld)

  retry_failed-IsHeld : (m : Message) → Preserves IsHeld (retry_failed e m)
  unfolding retry_failed
  retry_failed-IsHeld m = search (preserves_rules, attempt-IsHeld, retry_within-IsHeld)

  is_retried-IsHeld : (m : Message) (a : State) → Preserves IsHeld (is_retried e m a)
  unfolding is_retried
  is_retried-IsHeld m a = record { at = λ w g. tested (is_state a failed) w g }
    where
      caught : (r : Result String Bool × Station) → IsHeld r.1 → IsHeld (logged e r).1
      caught (ok b, w) g = g
      caught (err y, w) g = g

      tested :
          (b : Bool) (w : Station)
          → IsHeld w
          → IsHeld (if b then logged e (retry_failed e m w) else (ok false, w)).1
      tested true w g = caught (retry_failed e m w) ((retry_failed-IsHeld m).at w g)
      tested false w g = g

  announce-IsHeld : (m : Message) (a : State) (b : Bool) → Preserves IsHeld (announce e m a b)
  unfolding announce
  announce-IsHeld m a b = search (preserves_rules, attempt-IsHeld)

  store_state-IsHeld : (m : Message) (a : State) → Preserves IsHeld (store_state e m a)
  unfolding store_state terminate_if store_file store_job
  store_state-IsHeld m a =
      search (preserves_rules, attempt_parts-IsHeld, terminate_job-IsHeld, announce-IsHeld) depth 8

  perform_state-IsHeld : (m : Message) (a : State) → Preserves IsHeld (perform_state e m a)
  unfolding perform_state remove_if_ended remove_watched unless_retried
  perform_state-IsHeld m a =
      search (preserves_rules, attempt-IsHeld, is_retried-IsHeld, store_state-IsHeld)

  recover-IsHeld :
      (m : Message) (r : Result String (Unit {0}) × Station) → IsHeld r.1 → IsHeld (recover e m r).1
  unfolding recover
  recover-IsHeld m (ok a, w) g = g
  recover-IsHeld m (err y, w) g = by_text (is_unrecoverable_error_message y)
    where
      text : String
      text = "Database change failed due to invalid values"

      by_text :
          (b : Bool)
          → IsHeld (if b then terminate_job e m text true w else put_back_message e m w).1
      by_text true = (terminate_job-IsHeld m text true).at w g
      by_text false = (put_back_message-IsHeld m).at w g

  perform_other_message_db_change-IsHeld :
      (m : Message) → Preserves IsHeld (perform_other_message_db_change e m)
  unfolding perform_other_message_db_change
  perform_other_message_db_change-IsHeld m = record { at = λ w g. by_status m.transfer_status w g }
    where
      by_status :
          (t : Status) (w : Station)
          → IsHeld w
          → IsHeld
              (elim t as (λ _. Result String (Unit {0}) × Station) [
                | update ↦ (ok tt, w)
                | reached a ↦ recover e m (perform_state e m a w)
              ]).1
      by_status update w g = g
      by_status (reached a) w g =
          recover-IsHeld m (perform_state e m a w) ((perform_state-IsHeld m a).at w g)

  pub handle_message-IsHeld :
      (m : Message) (w : Station) → Mem x w.put_back → Mem x (handle_message e m w).put_back
  unfolding handle_message
  handle_message-IsHeld m w g =
      (Preserves-bind IsHeld _ _ (watch_status-IsHeld m)
          (λ _. perform_other_message_db_change-IsHeld m)).at
        w g

  pub put_all-IsHeld :
      (messages : List Message) (w : Station)
      → Mem x w.put_back
      → Mem x (put_all e messages w).1.put_back
  unfolding put_all
  put_all-IsHeld [] w g = g
  put_all-IsHeld (m ∷ ms) w g =
      (Preserves-bind IsHeld _ _ (put_back_message-IsHeld m)
          (λ _. record { at = λ v h. put_all-IsHeld ms v h })).at
        w g

  pub handle_rest-IsHeld :
      (interrupted : ℕ → Bool) (messages : List Message) (n : ℕ) (ms : List Message) (w : Station)
      → Mem x w.put_back
      → Mem x (handle_rest e interrupted messages n ms w).put_back
  unfolding handle_rest dump_messages
  handle_rest-IsHeld interrupted messages n [] w g = g
  handle_rest-IsHeld interrupted messages n (m ∷ ms) w g = elim (Bool-cases (interrupted n)) [
    | inl i ↦ rw i (put_all-IsHeld messages w g)
    | inr i ↦ rw i (
        handle_rest-IsHeld interrupted messages (suc n) ms (handle_message e m w)
          (handle_message-IsHeld m w g))
  ]
