-- ===== src/Transfers/Rounds.antt =====
-- `CancelerService::runService`: what each round of the service checks.
use fts.Common.{
  Action, Bool, Result, String, err, false, if◌then◌else◌, leb, ltb, modify, ok, pos, pure, skip,
  true, ℕ, ℤ, ◌%◌, ◌&&◌, ◌*ℤ◌, ◌+◌, ◌>>◌, ◌^◌, ◌≡◌,
}
use fts.Transfers.Canceler.{
  apply_active_timeouts, apply_queue_timeouts, kill_canceled_by_user, mark_as_stalled,
  recover_processes_from_db,
}
use fts.Transfers.Types.{Act, Host, Service}

pub record Intervals : Type 0 where
  pub cancel_interval : ℕ
  pub queue_timeout_interval : ℕ
  pub active_timeout_interval : ℕ
  pub check_stalled_transfers : Bool
  pub check_stalled_timeout : ℤ
  pub sig_kill_delay : ℤ

-- The counters are local variables of the service, of 32 bits. `stallRecords` tells the heartbeat when the
-- last round began.
pub record Rounds (W : Type 0) : Type 0 where
  pub service : Service W
  pub stall_records : ℕ
  pub counter_active_timeouts : ℕ
  pub counter_queue_timeouts : ℕ
  pub counter_canceled : ℕ

abbrev pub Step : Type 0 → Type 0 → Type 0
Step W A = Action (Rounds W) String A

unfoldable pub on_service : {W A : Type 0} → Act W A → Step W A
on_service m s = let (r, v) = m s.service in (r, record s { service = v })

module _ {W : Type 0} ⦃h : Host W⦄ where
  unfoldable pub check_canceled : Intervals → Step W (Unit {0})
  unfolding on_service
  check_canceled config = do
    modify (λ s. record s { counter_canceled = (s.counter_canceled + 1) % 2 ^ 32 })
    (λ s.
        if ltb 0 config.cancel_interval && leb config.cancel_interval s.counter_canceled
        then (do
          on_service (kill_canceled_by_user config.sig_kill_delay)
          modify (λ s'. record s' { counter_canceled = 0 }))
            s
        else skip s)

  unfoldable pub count_active : Intervals → Step W (Unit {0})
  unfolding on_service
  count_active config = do
    modify (λ s. record s { counter_active_timeouts = (s.counter_active_timeouts + 1) % 2 ^ 32 })
    (λ s.
        if leb config.active_timeout_interval s.counter_active_timeouts
        then (do
          on_service apply_active_timeouts
          modify (λ s'. record s' { counter_active_timeouts = 0 }))
            s
        else skip s)

  unfoldable pub check_active : Intervals → Step W (Unit {0})
  unfolding count_active
  check_active config =
      if config.check_stalled_transfers && ltb 0 config.active_timeout_interval
      then count_active config
      else skip

  unfoldable pub check_queue : Intervals → Step W (Unit {0})
  unfolding on_service
  check_queue config = do
    modify (λ s. record s { counter_queue_timeouts = (s.counter_queue_timeouts + 1) % 2 ^ 32 })
    (λ s.
        if ltb 0 config.queue_timeout_interval
          && leb config.queue_timeout_interval s.counter_queue_timeouts
        then (do
          on_service apply_queue_timeouts
          modify (λ s'. record s' { counter_queue_timeouts = 0 }))
            s
        else skip s)

  -- `if (interruption_requested()) return;`, where `false` says that the service has returned.
  unfoldable pub go_on : Step W Bool → Step W Bool
  go_on m s = if h.interruption_requested s.service.world then (ok false, s) else m s

  unfoldable pub round : Intervals → Step W Bool
  unfolding on_service go_on
  round config = do
    on_service (mark_as_stalled config.check_stalled_timeout)
    go_on (do
      check_canceled config
      go_on (do check_active config; go_on (do check_queue config; pure true)))

  unfoldable pub sleep_seconds : ℤ → Rounds W → Rounds W
  sleep_seconds n s = record s {
    service = record s.service { world = h.sleep s.service.world (n *ℤ pos 1000) };
  }

  -- The handlers of the exceptions set the counters back, and the loop goes on.
  unfoldable pub after_round : Result String Bool → Rounds W → Bool × Rounds W
  unfolding sleep_seconds
  after_round (ok b) s = (b, if b then sleep_seconds (pos 1) s else s)
  after_round (err e) s = (
    true,
    sleep_seconds (pos 1) (record (sleep_seconds (pos 10) s) {
      counter_active_timeouts = 0;
      counter_queue_timeouts = 0;
      counter_canceled = 0;
    }),
  )

  -- One pass through the loop, and whether the loop goes on.
  unfoldable pub service_step : Intervals → Rounds W → Bool × Rounds W
  unfolding after_round sleep_seconds
  service_step config s =
      let s₀ = record s { stall_records = h.time s.service.world } in
      if h.is_draining s.service.world
      then (true, sleep_seconds (pos 15) s₀)
      else (let (r, s₁) = round config s₀ in after_round r s₁)

  -- The service after some passes through the loop, and whether it goes on. The counters start at 0.
  pub data IsReached (config : Intervals) (start : Service W) : Bool × Rounds W → Type 0 where
    at_start :
        {s : Service W} {t : ℕ}
        → recover_processes_from_db start ≡ (ok tt, s)
        → IsReached config start (
          true,
          record {
            service = s;
            stall_records = t;
            counter_active_timeouts = 0;
            counter_queue_timeouts = 0;
            counter_canceled = 0;
          },
        )
    next :
        {s : Rounds W}
        → IsReached config start (true, s)
        → h.interruption_requested s.service.world ≡ false
        → IsReached config start (service_step config s)
