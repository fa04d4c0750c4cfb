-- ===== src/Transfers/Spares.antt =====
-- `markAsStalled` kills neither the server itself nor a process group.
use fts.Common.{
  Bool, Each, Each-append, List, Preserves, Preserves-bind, Preserves-skip, Preserves-test, Result,
  String, [], arith, continue, eq_ℤ, eq_ℤ_iff, err, false, if◌then◌else◌, le_ℤ, lt_ℤ, ok, pos, refl,
  subst, sym, true, ℤ, ◌∷◌, ◌≡◌, ◌≢◌,
}
use fts.Transfers.Canceler.{
  kill, mark_as_stalled, reap_expired, reap_message, reap_messages, stalled_reason,
}
use fts.Transfers.Local.{
  Preserves-fail_stalled, Preserves-lock, Preserves-modify, Preserves-stalled_reason,
}
use fts.Transfers.Stalled.{check_expired_ok}
use fts.Transfers.Types.{Host, MessageUpdater, Reason, Service, Signal, sigkill}
use fts.Transfers.Watch.{
  check_expired_msg, delete_msg, erase_files, expired_messages, is_expired, lock,
}

-- The process of the message has a number, or there is none yet: no process group is meant.
abbrev pub IsPid : MessageUpdater → Type 0
IsPid m = le_ℤ (pos 0) m.process_id ≡ true

module _ {W : Type 0} ⦃h : Host W⦄ where
  -- Signals were sent to single processes only, and not to the server itself.
  abbrev pub SparesItself : Service W → Type 0
  SparesItself s = Each (λ k. (k.0 ≢ h.getpid) × (lt_ℤ (pos 0) k.0 ≡ true)) s.signals

  spares_kill :
      (m : MessageUpdater) (signal : Signal)
      → m.process_id ≢ h.getpid
      → lt_ℤ (pos 0) m.process_id ≡ true
      → Preserves SparesItself (kill m.process_id signal)
  unfolding kill
  spares_kill m signal own single = record {
    at = λ s p.
        Each-append (λ k. (k.0 ≢ h.getpid) × (lt_ℤ (pos 0) k.0 ≡ true)) s.signals _ p
          ((own, single), tt);
  }

  spares_reap_message :
      (reason : Reason) (m : MessageUpdater)
      → IsPid m
      → Preserves SparesItself (reap_message reason m)
  unfolding reap_message
  spares_reap_message reason m n =
      let failing = Preserves-fail_stalled SparesItself (λ s w p. p) reason m in
      Preserves-test SparesItself (eq_ℤ m.process_id (pos 0)) _ _ (λ _. failing)
        (λ alive.
          Preserves-test SparesItself (eq_ℤ m.process_id h.getpid) _ _
            (λ _. Preserves-skip SparesItself)
            (λ other.
              Preserves-bind SparesItself _ _
                (spares_kill m sigkill (λ q. ground (arith, eq_ℤ_iff m.process_id h.getpid))
                  (ground (arith, n, alive)))
                (λ _. failing)))

  spares_reap_messages :
      (reason : Reason) (ms : List MessageUpdater)
      → Each IsPid ms
      → Preserves SparesItself (reap_messages reason ms)
  unfolding reap_messages
  spares_reap_messages reason [] n = Preserves-skip SparesItself
  spares_reap_messages reason (m ∷ ms) n =
      Preserves-bind SparesItself (reap_message reason m) _ (spares_reap_message reason m n.0)
        (λ _. spares_reap_messages reason ms n.1)

  spares_delete_msg : (ms : List MessageUpdater) → Preserves SparesItself (delete_msg ms)
  unfolding delete_msg
  spares_delete_msg ms =
      Preserves-bind SparesItself lock _ (Preserves-lock SparesItself (λ s w p. p)) (λ _.
        Preserves-modify SparesItself (λ s. record s { watched = erase_files ms s.watched })
          (λ s p. p))

  spares_reap_expired :
      (timeout : ℤ) (ms : List MessageUpdater)
      → Each IsPid ms
      → Preserves SparesItself (reap_expired timeout ms)
  unfolding reap_expired
  spares_reap_expired timeout [] n = Preserves-skip SparesItself
  spares_reap_expired timeout (m ∷ ms) n =
      Preserves-bind SparesItself (stalled_reason timeout) _
        (Preserves-stalled_reason SparesItself (λ s w p. p) timeout)
        (λ reason.
          Preserves-bind SparesItself _ _ (spares_reap_messages reason (m ∷ ms) n)
            (λ _. spares_delete_msg (m ∷ ms)))

  spares_check_expired : (timeout : ℤ) → Preserves SparesItself (check_expired_msg timeout)
  unfolding check_expired_msg
  spares_check_expired timeout =
      Preserves-bind SparesItself _ _ (Preserves-lock SparesItself (λ s w p. p))
        (λ _. record { at = λ s p. p })

  Each-expired_messages :
      (timeout : ℤ) (w : W) (ms : List MessageUpdater)
      → Each IsPid ms
      → Each IsPid (expired_messages timeout w ms).0
  unfolding expired_messages
  Each-expired_messages timeout w [] n = tt
  Each-expired_messages timeout w (m ∷ ms) n =
      either (is_expired timeout (h.now w).0 m) (expired_messages timeout (h.now w).1 ms).0
        (Each-expired_messages timeout (h.now w).1 ms n.1)
    where
      either :
          (b : Bool) (rest : List MessageUpdater)
          → Each IsPid rest
          → Each IsPid (if b then m ∷ rest else rest)
      either true rest k = (n.0, k)
      either false rest k = k

  Each-check_expired_msg :
      (timeout : ℤ) (s s' : Service W) (ms : List MessageUpdater)
      → Each IsPid s.watched
      → check_expired_msg timeout s ≡ (ok ms, s')
      → Each IsPid ms
  Each-check_expired_msg timeout s s' ms n e =
      subst (Each IsPid) (sym ((check_expired_ok timeout s s' ms e).1))
        (Each-expired_messages timeout (h.timed_lock s.world).1 s.watched n)

  -- The reaper of stalled transfers sends signals to single processes only, none of them the server
  -- itself, also when it is stopped by an exception, where the messages in its list have no negative number
  -- of a process.
  pub mark_as_stalled-spares :
      (timeout : ℤ) (s : Service W)
      → Each IsPid s.watched
      → SparesItself s
      → SparesItself (mark_as_stalled timeout s).1
  unfolding mark_as_stalled
  mark_as_stalled-spares timeout s n p =
      after (check_expired_msg timeout s) ((spares_check_expired timeout).at s p)
        (λ ms e. Each-check_expired_msg timeout s _ ms n e)
    where
      after :
          (r : Result String (List MessageUpdater) × Service W)
          → SparesItself r.1
          → ((ms : List MessageUpdater) → r ≡ (ok ms, r.1) → Each IsPid ms)
          → SparesItself (continue r.0 (reap_expired timeout) r.1).1
      after (ok ms, s) p k = (spares_reap_expired timeout ms (k ms refl)).at s p
      after (err e, s) p k = p
