-- ===== src/Transfers/Examples.antt =====
-- A host with a clock that ticks at each reading, two watched transfers, and a link with three VOs.
use fts.Common.{
  Bool-cases, Dict, Double, Each, List, String, [], arith, div_ℤ, eq_ℤ, false, find, get_elem?,
  if◌then◌else◌, inl, inr, le_ℤ, map, none, ok, pos, pos_part, refl, some, suc, true, whole_numbers,
  ℕ, ℤ, ◌*ℤ◌, ◌*◌, ◌+◌, ◌-ℤ◌, ◌/◌, ◌∷◌, ◌≡◌, ◌⊎◌, string_key, nat_key,
}
use fts.Optimizer.Types.{Pair, pair_key}
use fts.Transfers.Canceler.{
  fail_stalled, kill, kill_running_job, mark_as_stalled, reap_expired, reap_message, reap_messages,
  send_state, set_failed, stalled_reason,
}
use fts.Transfers.Given.{apply_vo_shares-given}
use fts.Transfers.OnePerLink.{HasOnePerLink, apply_vo_shares-HasOnePerLink}
use fts.Transfers.Selection.{PicksPositive, select_queue-schedulable}
use fts.Transfers.Signals.{IsSecondRound, kill_running_job-signals}
use fts.Transfers.Spares.{SparesItself, mark_as_stalled-spares}
use fts.Transfers.Stalled.{Clock, mark_as_stalled-clears}
use fts.Transfers.Types.{Host, MessageUpdater, Service, Signal, call, sigterm}
use fts.Transfers.VoShares.{
  Generator, QueueId, apply_vo_shares, draw, final_weight, is_unschedulable, public_count,
  public_share, public_weight, queue_id, select_queue_for_pair,
}
use fts.Transfers.Watch.{
  check_expired_msg, delete_msg, erase_file, erase_files, expired_messages, is_expired, lock,
  update_msg,
}
use fts.Transfers.Watching.{update_msg-not_expired}

instance abbrev ticking : Host ℕ
ticking = record {
  timed_lock = λ w. (true, w);
  now = λ w. (w, suc w);
  time = λ w. w / 1000000;
  get_pid_startime = λ w pid. (1000, w);
  getpid = pos 1;
  kill = λ w pid signal. (eq_ℤ pid (pos 20), w);
  sleep = λ w delay. w + 1000 * pos_part delay;
  has_space = λ w. (ok true, w);
  update_transfer_status = λ w job file pid status reason. (ok true, w);
  update_job_status = λ w job status. (ok tt, w);
  send_state_message = λ w job file. (ok tt, w);
  reap_stalled_transfers = λ w. (ok [], w);
  get_active_in_host = λ w. (ok [], w);
  get_cancel_job = λ w. (ok [], w);
  set_to_fail_old_queued_jobs = λ w. (ok [], w);
  interruption_requested = λ w. false;
  is_draining = λ w. false;
}

abbrev old : MessageUpdater
old = record { timestamp = 2000; job_id = "job"; file_id = 7; process_id = pos 20 }

abbrev young : MessageUpdater
young = record { timestamp = 900000; job_id = "job"; file_id = 8; process_id = pos 21 }

abbrev busy : Service ℕ
busy = record { world = 1000000000; watched = old ∷ young ∷ []; signals = [] }

abbrev ticking_clock : Clock ticking
ticking_clock = record {
  time = λ w. w;
  now_time = λ w. omega arith;
  now_later = λ w. omega arith;
  lock_later = λ w. omega arith;
}

mark_as_stalled-clears_example :
    Each (λ i. is_expired (pos 300) 1000000000 i ≡ false) (mark_as_stalled (pos 300) busy).1.watched
unfolding mark_as_stalled check_expired_msg lock expired_messages is_expired reap_expired
    stalled_reason reap_messages reap_message kill fail_stalled set_failed send_state call
    delete_msg erase_files erase_file ◌*ℤ◌ ◌-ℤ◌
mark_as_stalled-clears_example =
    mark_as_stalled-clears ticking_clock (pos 300) busy (mark_as_stalled (pos 300) busy).1 refl

mark_as_stalled-spares_example : SparesItself (mark_as_stalled (pos 300) busy).1
mark_as_stalled-spares_example = mark_as_stalled-spares (pos 300) busy (refl, (refl, tt)) tt

abbrev ping : MessageUpdater
ping = record old { timestamp = 950000 }

update_msg-not_expired_example :
    Each
      (λ i. i.process_id ≡ pos 20 → is_expired (pos 300) 1200000000 i ≡ false)
      (update_msg ping busy).1.watched
unfolding update_msg lock
update_msg-not_expired_example =
    update_msg-not_expired 300 1200000000 ping busy (update_msg ping busy).1 refl (omega arith)
      (omega arith) (omega arith)

kill_running_job-signals_example :
    (s' : Service ℕ) × (sent : List (ℤ × Signal)) × (kill_running_job
        (pos 500)
        (pos 20 ∷ pos 21 ∷ [])
        busy
      ≡ (ok tt, s'))
    × (s'.signals ≡ (pos 20, sigterm) ∷ (pos 21, sigterm) ∷ sent)
    × IsSecondRound {W = ℕ} 1000500000 (pos 20 ∷ pos 21 ∷ []) sent
kill_running_job-signals_example = kill_running_job-signals (pos 500) (pos 20 ∷ pos 21 ∷ []) busy

instance abbrev doubles : Double ℤ
doubles = whole_numbers

-- A generator that always takes the first positive weight.
abbrev first_positive : List ℤ → ℕ
first_positive [] = 0
first_positive (w ∷ ws) = let rest = first_positive ws in if le_ℤ w (pos 0) then suc rest else 0

instance abbrev first : Generator ℤ (Unit {0})
first = record { discrete = λ g ws. (first_positive ws, g) }

first_picks : PicksPositive doubles first
first_picks g [] e = absurd (cc e)
first_picks g (w ∷ ws) e = elim (Bool-cases (le_ℤ w (pos 0))) [
  | inl p ↦
      (let (v, at_v, pv) = first_picks g ws (ground (arith, e, p)) in
        (v, ground (arith, at_v, p), pv))
  | inr p ↦ (w, ground (arith, p), p)
]

abbrev link : Pair
link = record { source = "https://a.cern.ch"; destination = "https://b.infn.it" }

abbrev waiting : List (String × ℕ)
waiting = ("atlas", 4) ∷ ("cms", 2) ∷ []

abbrev no_atlas : Dict String ℤ
no_atlas = ("atlas", pos 0) ∷ ("public", pos 10) ∷ []

select_queue-schedulable_example :
    (((select_queue_for_pair link waiting no_atlas ([], tt)).0 ≡ none)
      × Each (λ v. is_unschedulable no_atlas waiting v ≡ true) waiting)
    ⊎ ((i : ℕ) × (v : String × ℕ) × (get_elem? waiting i ≡ some v)
        × ((select_queue_for_pair link waiting no_atlas ([], tt)).0 ≡ some (queue_id link v))
        × (is_unschedulable no_atlas waiting v ≡ false))
select_queue-schedulable_example = select_queue-schedulable first_picks link waiting no_atlas [] tt

abbrev queues : List QueueId
queues = map (queue_id link) waiting

abbrev config : Pair → List (String × ℤ)
config p = no_atlas

apply_vo_shares-given_example :
    let (result, u, g) = apply_vo_shares config queues ([], tt) in
    Each (λ q. q.source_se ≡ link.source) result × Each (λ q. q.source_se ≡ link.source) u
apply_vo_shares-given_example =
    apply_vo_shares-given (λ q. q.source_se ≡ link.source) config queues [] tt (refl, (refl, tt)) tt

apply_vo_shares-HasOnePerLink_example : HasOnePerLink (apply_vo_shares config queues ([], tt)).0
apply_vo_shares-HasOnePerLink_example = apply_vo_shares-HasOnePerLink config queues [] tt

-- Runs of the model: the transfer that no longer reports is removed, and the VO with a weight is chosen.
mark_as_stalled_run : (mark_as_stalled (pos 300) busy).1.watched ≡ young ∷ []
unfolding mark_as_stalled check_expired_msg lock expired_messages is_expired reap_expired
    stalled_reason reap_messages reap_message kill fail_stalled set_failed send_state call
    delete_msg erase_files erase_file ◌*ℤ◌ ◌-ℤ◌
mark_as_stalled_run = refl

select_run :
    (select_queue_for_pair link waiting no_atlas ([], tt)).0 ≡ some (queue_id link ("cms", 2))
unfolding select_queue_for_pair draw final_weight is_unschedulable public_share public_weight
    public_count find div_ℤ
select_run = refl
