-- ===== src/Messages/Kept.antt =====
-- A message is not lost when its handling throws.
use fts.Common.{
  Bool, Option, Result, String, err, false, if◌then◌else◌, none, ok, some, true, ℕ, ◌≡◌,
}
use fts.Jobs.Types.{State, failed, is_state}
use fts.Messages.Process.{
  Around, Call, Message, Station, announce, attempt, attempt_parts, counted, is_retried, logged,
  perform_state, remove_if_ended, remove_watched, retry_failed, store_file, store_job, store_state,
  terminate_if, terminate_job, unless_retried,
}
use fts.Messages.Throws.{Throws, throws_rules}

module _ (e : Around) (P : String → Type 0)
    (known : (n : ℕ) (c : Call) (x : String) → e.fails n c ≡ some x → P x) where
  Throws-attempt : {A : Type 0} (c : Call) (f : Station → A × Station) → Throws P (attempt e c f)
  unfolding attempt
  Throws-attempt {A} c f = record {
    only = λ w x h. by_call (e.fails w.calls c) (known w.calls c) (counted w) x h;
  }
    where
      by_call :
          (o : Option String)
          → ((x : String) → o ≡ some x → P x)
          → (w : Station) (x : String)
          → (elim o as (λ _. Result String A × Station) [
            | some error ↦ (err error, w)
            | none ↦ (ok (f w).0, (f w).1)
          ]).0
            ≡ err x
          → P x
      by_call none k w x h = absurd (cc h)
      by_call (some y) k w x h = k x (cc h)

  Throws-attempt_parts :
      {A : Type 0} (c : Call) (first : Station → Station) (f : Station → A × Station)
      → Throws P (attempt_parts e c first f)
  unfolding attempt_parts
  Throws-attempt_parts {A} c first f = record {
    only =
        λ w x h. by_call (e.fails w.calls c) (known w.calls c) (e.commits w.calls) (counted w) x h;
  }
    where
      by_call :
          (o : Option String)
          → ((x : String) → o ≡ some x → P x)
          → (b : Bool) (w : Station) (x : String)
          → (elim o as (λ _. Result String A × Station) [
            | some error ↦ (err error, if b then first w else w)
            | none ↦ (ok (f w).0, (f w).1)
          ]).0
            ≡ err x
          → P x
      by_call none k b w x h = absurd (cc h)
      by_call (some y) k b w x h = k x (cc h)

  is_retried-Throws : (m : Message) (a : State) → Throws P (is_retried e m a)
  unfolding is_retried
  is_retried-Throws m a = record { only = λ w x h. tested (is_state a failed) w x h }
    where
      caught : (r : Result String Bool × Station) (x : String) → (logged e r).0 ≡ err x → P x
      caught (ok b, w) x h = absurd (cc h)
      caught (err y, w) x h = absurd (cc h)

      tested :
          (b : Bool) (w : Station) (x : String)
          → (if b then logged e (retry_failed e m w) else (ok false, w)).0 ≡ err x
          → P x
      tested true w x h = caught (retry_failed e m w) x h
      tested false w x h = absurd (cc h)

  announce-Throws : (m : Message) (a : State) (b : Bool) → Throws P (announce e m a b)
  unfolding announce
  announce-Throws m a b = search (throws_rules, Throws-attempt)

  terminate_if-Throws : (m : Message) → Throws P (terminate_if e m)
  unfolding terminate_if terminate_job
  terminate_if-Throws m = search (throws_rules, Throws-attempt)

  store_state-Throws : (m : Message) (a : State) → Throws P (store_state e m a)
  unfolding store_state store_file store_job
  store_state-Throws m a =
      search (throws_rules, Throws-attempt_parts, terminate_if-Throws, announce-Throws)

  pub perform_state-Throws : (m : Message) (a : State) → Throws P (perform_state e m a)
  unfolding perform_state remove_if_ended remove_watched unless_retried
  perform_state-Throws m a =
      search (throws_rules, Throws-attempt, is_retried-Throws, store_state-Throws)
