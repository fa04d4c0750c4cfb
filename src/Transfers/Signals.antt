-- ===== src/Transfers/Signals.antt =====
-- The signals of `killRunningJob`, and the list that `recoverProcessesFromDb` builds.
use mathlib.Core.List.{append-nil, append_assoc}
use fts.Common.{
  Bool-cases, List, [], ap, arith, false, inl, inr, map, ok, ok-bind, refl, subst, sym, true, ℤ,
  ◌++◌, ◌∙◌, ◌∷◌, ◌≡◌,
}
use fts.Transfers.Canceler.{
  kill, kill_each, kill_if_alive, kill_running_job, recover_processes, terminate_each,
}
use fts.Transfers.Types.{Host, MessageUpdater, Service, Signal, probe, sigkill, sigterm}
use fts.Transfers.Watch.{lock, push_back}

abbrev pub terminations : List ℤ → List (ℤ × Signal)
terminations = map (λ pid. (pid, sigterm))

module _ {W : Type 0} ⦃h : Host W⦄ where
  -- The world after SIGTERM was sent to every process.
  abbrev pub terminated_all : List ℤ → W → W
  terminated_all [] w = w
  terminated_all (pid ∷ pids) w = terminated_all pids (h.kill w pid sigterm).1

  -- The second round, from a world on: a process is probed, and killed exactly if the probe finds it.
  pub data IsSecondRound : W → List ℤ → List (ℤ × Signal) → Type 0 where
    nobody : {w : W} → IsSecondRound w [] []
    found_gone :
        {w : W} {pid : ℤ} {pids : List ℤ} {sent : List (ℤ × Signal)}
        → (h.kill w pid probe).0 ≡ false
        → IsSecondRound (h.kill w pid probe).1 pids sent
        → IsSecondRound w (pid ∷ pids) ((pid, probe) ∷ sent)
    found_alive :
        {w : W} {pid : ℤ} {pids : List ℤ} {sent : List (ℤ × Signal)}
        → (h.kill w pid probe).0 ≡ true
        → IsSecondRound (h.kill (h.kill w pid probe).1 pid sigkill).1 pids sent
        → IsSecondRound w (pid ∷ pids) ((pid, probe) ∷ (pid, sigkill) ∷ sent)

  terminate_each-signals :
      (pids : List ℤ) (s : Service W)
      → (s' : Service W) × (terminate_each pids s ≡ (ok tt, s'))
        × (s'.signals ≡ s.signals ++ terminations pids)
        × (s'.world ≡ terminated_all pids s.world)
  unfolding terminate_each kill
  terminate_each-signals [] s = (s, refl, sym (append-nil s.signals), refl)
  terminate_each-signals (pid ∷ pids) s =
      let (s', e, r, v) = terminate_each-signals pids (kill pid sigterm s).1 in
      (s', e, r ∙ append_assoc s.signals ((pid, sigterm) ∷ []) (terminations pids), v)

  kill_each-signals :
      (pids : List ℤ) (s : Service W)
      → (s' : Service W) × (sent : List (ℤ × Signal)) × (kill_each pids s ≡ (ok tt, s'))
        × (s'.signals ≡ s.signals ++ sent)
        × IsSecondRound s.world pids sent
  unfolding kill_each kill_if_alive kill
  kill_each-signals [] s = (s, [], refl, sym (append-nil s.signals), nobody)
  kill_each-signals (pid ∷ pids) s = elim (Bool-cases (h.kill s.world pid probe).0) [
    | inl e ↦
        let (s', sent, e', r, q) =
          kill_each-signals pids (kill pid sigkill (kill pid probe s).1).1 in
        (
          s',
          (pid, probe) ∷ (pid, sigkill) ∷ sent,
          rw e e',
          r
              ∙ append_assoc (s.signals ++ (pid, probe) ∷ []) ((pid, sigkill) ∷ []) sent
              ∙ append_assoc s.signals ((pid, probe) ∷ []) ((pid, sigkill) ∷ sent),
          found_alive e q,
        )
    | inr e ↦
        let (s', sent, e', r, q) = kill_each-signals pids (kill pid probe s).1 in
        (
          s',
          (pid, probe) ∷ sent,
          rw e e',
          r ∙ append_assoc s.signals ((pid, probe) ∷ []) sent,
          found_gone e q,
        )
  ]

  -- The cancellation of a job returns; it sends SIGTERM to every process before anything else, waits for
  -- the delay, and then probes each process and sends SIGKILL exactly to those that the probe finds.
  pub kill_running_job-signals :
      (delay : ℤ) (pids : List ℤ) (s : Service W)
      → (s' : Service W) × (sent : List (ℤ × Signal)) × (kill_running_job delay pids s
          ≡ (ok tt, s'))
        × (s'.signals ≡ s.signals ++ (terminations pids ++ sent))
        × IsSecondRound (h.sleep (terminated_all pids s.world) delay) pids sent
  unfolding kill_running_job
  kill_running_job-signals delay pids s =
      let (s₁, e₁, r₁, v₁) = terminate_each-signals pids s in
      let (s₂, sent, e₂, r₂, q) =
        kill_each-signals pids (record s₁ { world = h.sleep s₁.world delay }) in
      (
        s₂,
        sent,
        rw e₁ e₂,
        r₂ ∙ ap (λ l. l ++ sent) r₁ ∙ append_assoc s.signals (terminations pids) sent,
        subst (λ w. IsSecondRound (h.sleep w delay) pids sent) v₁ q,
      )

  recover_processes-watched :
      (actives : List MessageUpdater) (s s' : Service W)
      → recover_processes actives s ≡ (ok tt, s')
      → s'.watched ≡ s.watched ++ actives
  unfolding recover_processes push_back lock
  recover_processes-watched [] s s' e = sym (ap (λ r. r.1.watched) e) ∙ sym (append-nil s.watched)
  recover_processes-watched (m ∷ ms) s s' e =
      let (_, s₁, e₁, e₂) = ok-bind (push_back m) _ s s' tt e in
      recover_processes-watched ms s₁ s' e₂
      ∙ ap (λ l. l ++ ms) (push_ok m s s₁ e₁)
      ∙ append_assoc s.watched (m ∷ []) ms
    where
      push_ok :
          (m : MessageUpdater) (s s₁ : Service W)
          → push_back m s ≡ (ok tt, s₁)
          → s₁.watched ≡ s.watched ++ m ∷ []
      push_ok m s s₁ e = ground arith
