-- ===== src/Transfers/Canceler.antt =====
-- CancelerService.cpp: transfers that no longer report, or run too long, and jobs canceled by a user.
use fts.Common.{
  Bool, List, String, [], eq_ℤ, if◌then◌else◌, is_empty, lt_ℤ, modify, negsuc, ok, pos, pure, skip,
  ℤ, ◌++◌, ◌>>=◌, ◌>>◌, ◌∷◌,
}
use fts.Transfers.Types.{
  Act, Host, MessageUpdater, Reason, Signal, call, no_space_left, not_updated, probe, sigkill,
  sigterm, was_stalled,
}
use fts.Transfers.Watch.{check_expired_msg, delete_msg, push_back}

module _ {W : Type 0} ⦃h : Host W⦄ where
  unfoldable pub kill : ℤ → Signal → Act W Bool
  kill pid signal s =
      let (done, w) = h.kill s.world pid signal in
      (ok done, record s { world = w; signals = s.signals ++ (pid, signal) ∷ [] })

  -- The status of the file and of its job, without the message.
  unfoldable pub set_failed : Reason → MessageUpdater → Act W Bool
  unfolding call
  set_failed reason m = do
    updated ← call (λ w. h.update_transfer_status w m.job_id m.file_id m.process_id "FAILED" reason)
    call (λ w. h.update_job_status w m.job_id "FAILED")
    pure updated

  unfoldable pub send_state : MessageUpdater → Act W (Unit {0})
  unfolding call
  send_state m = call (λ w. h.send_state_message w m.job_id (pos m.file_id))

  unfoldable pub fail_stalled : Reason → MessageUpdater → Act W (Unit {0})
  fail_stalled reason m = do updated ← set_failed reason m; if updated then send_state m else skip

  -- "Make sure we don't kill ourselves": then nothing is done for this message.
  unfoldable pub reap_message : Reason → MessageUpdater → Act W (Unit {0})
  reap_message reason m =
      if eq_ℤ m.process_id (pos 0)
      then fail_stalled reason m
      else if eq_ℤ m.process_id h.getpid
      then skip
      else do kill m.process_id sigkill; fail_stalled reason m

  unfoldable pub reap_messages : Reason → List MessageUpdater → Act W (Unit {0})
  reap_messages reason [] = skip
  reap_messages reason (m ∷ ms) = do reap_message reason m; reap_messages reason ms

  unfoldable pub stalled_reason : ℤ → Act W Reason
  unfolding call
  stalled_reason timeout = do
    free ← call h.has_space
    pure (if free then not_updated timeout else no_space_left)

  unfoldable pub reap_expired : ℤ → List MessageUpdater → Act W (Unit {0})
  unfolding stalled_reason
  reap_expired timeout [] = skip
  reap_expired timeout (m ∷ ms) = do
    reason ← stalled_reason timeout
    reap_messages reason (m ∷ ms)
    delete_msg (m ∷ ms)

  unfoldable pub mark_as_stalled : ℤ → Act W (Unit {0})
  mark_as_stalled timeout = do messages ← check_expired_msg timeout; reap_expired timeout messages

  unfoldable pub kill_active : MessageUpdater → Act W (Unit {0})
  kill_active m = if lt_ℤ (pos 0) m.process_id then (do kill m.process_id sigkill; skip) else skip

  unfoldable pub fail_active : List MessageUpdater → Act W (Unit {0})
  fail_active [] = skip
  fail_active (m ∷ ms) = do kill_active m; set_failed was_stalled m; send_state m; fail_active ms

  unfoldable pub apply_active_timeouts : Act W (Unit {0})
  unfolding call
  apply_active_timeouts = do
    stalled ← call h.reap_stalled_transfers
    fail_active stalled
    delete_msg stalled

  unfoldable pub recover_processes : List MessageUpdater → Act W (Unit {0})
  recover_processes [] = skip
  recover_processes (m ∷ ms) = do push_back m; recover_processes ms

  unfoldable pub recover_processes_from_db : Act W (Unit {0})
  unfolding call
  recover_processes_from_db = do actives ← call h.get_active_in_host; recover_processes actives

  unfoldable pub terminate_each : List ℤ → Act W (Unit {0})
  terminate_each [] = skip
  terminate_each (pid ∷ pids) = do kill pid sigterm; terminate_each pids

  unfoldable pub kill_if_alive : ℤ → Act W (Unit {0})
  kill_if_alive pid = do alive ← kill pid probe; if alive then (do kill pid sigkill; skip) else skip

  unfoldable pub kill_each : List ℤ → Act W (Unit {0})
  kill_each [] = skip
  kill_each (pid ∷ pids) = do kill_if_alive pid; kill_each pids

  unfoldable pub kill_running_job : ℤ → List ℤ → Act W (Unit {0})
  kill_running_job sig_kill_delay pids = do
    terminate_each pids
    modify (λ s. record s { world = h.sleep s.world sig_kill_delay })
    kill_each pids

  unfoldable pub kill_canceled_by_user : ℤ → Act W (Unit {0})
  unfolding call
  kill_canceled_by_user sig_kill_delay = do
    pids ← call h.get_cancel_job
    if is_empty pids then skip else kill_running_job sig_kill_delay pids

  -- A state message for all the files of each job.
  unfoldable pub send_states : List String → Act W (Unit {0})
  unfolding call
  send_states [] = skip
  send_states (job ∷ jobs) = do call (λ w. h.send_state_message w job (negsuc 0)); send_states jobs

  unfoldable pub apply_queue_timeouts : Act W (Unit {0})
  unfolding call
  apply_queue_timeouts = do jobs ← call h.set_to_fail_old_queued_jobs; send_states jobs
