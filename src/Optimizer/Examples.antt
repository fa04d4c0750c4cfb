-- ===== src/Optimizer/Examples.antt =====
-- A data source with one link, over whole numbers for doubles, and the properties on it.
use fts.Common.{
  Double, [], arith, div_ℤ, false, find, inl, pos, put, refl, whole_numbers, ℤ, ◌*ℤ◌, ◌+ℤ◌, ◌-ℤ◌,
  ◌<ℤ◌, ◌↔◌, ◌∷◌, ◌≡◌, ◌≤ℤ◌, string_key, nat_key,
}
use fts.Optimizer.Bounds.{IsWorkingRange, working_range_iff}
use fts.Optimizer.Connections.{
  get_optimizer_working_range, is_first_run, is_steady, observe, optimize_connections_for_pair,
  previous_state, start_decision, throttle,
}
use fts.Optimizer.Decide.{exponential_moving_average, range_min, working_range}
use fts.Optimizer.Run.{run, run_optimizer_for_pair}
use fts.Optimizer.Start.{start_streams}
use fts.Optimizer.Streams.{optimize_streams_for_pair, streams_decision}
use fts.Optimizer.Types.{
  DataSource, Optimizer, Pair, PairState, Range, StorageLimits, is_lan_pair, new_optimizer,
  new_pair_state, optimizer_normal, pair_key,
}
use fts.Optimizer.Values.{
  Remembers, range_of, value_after, value_after_in_range, value_after_throttled,
}

instance abbrev doubles : Double ℤ
doubles = whole_numbers

-- The database for one link: its value, its streams, and the throughput of its source.
record Link : Type 0 where
  number : ℤ
  streams : ℤ
  load : ℤ

abbrev configured : Range
configured = record { min = pos 2; max = pos 8; specific = false; storage_specific = false }

abbrev limits : StorageLimits ℤ
limits = record {
  source = pos 20;
  destination = pos 30;
  throughput_source = pos 100;
  throughput_destination = pos 0;
}

abbrev pair : Pair
pair = record { source = "https://a.cern.ch"; destination = "https://b.infn.it" }

instance abbrev one_link : DataSource ℤ Link
one_link = record {
  time = λ w. pos 1000;
  get_active_pairs = λ w. pair ∷ [];
  get_optimizer_mode = λ w s t. optimizer_normal;
  get_pair_limits = λ w p. (configured, limits);
  get_optimizer_value = λ w p. w.number;
  get_throughput_info = λ w p t. (pos 50, pos 10, pos 1);
  get_average_duration = λ w p t. pos 20;
  get_success_rate = λ w p t. (pos 99, pos 0);
  get_active = λ w p. pos 2;
  get_submitted = λ w p. pos 10;
  get_throughput_as_source = λ w s. w.load;
  get_throughput_as_destination = λ w s. pos 0;
  store_optimizer_decision = λ w p v s diff r. record w { number = v };
  store_optimizer_streams = λ w p n. record w { streams = n };
  notify_decision = λ w p v s diff r. w;
}

abbrev fresh : Link
fresh = record { number = pos 0; streams = pos 0; load = pos 0 }

abbrev running : Link
running = record { number = pos 5; streams = pos 0; load = pos 0 }

abbrev overloaded : Link
overloaded = record { number = pos 2; streams = pos 0; load = pos 500 }

remembers : Remembers one_link
remembers = record {
  value_stored = λ w p v s diff r. refl;
  value_notified = λ w p q v s diff r. refl;
}

-- A link with no value starts halfway, and one with a good success rate goes up by two.
starts_halfway : (run (new_optimizer {F = ℤ} false, fresh)).1.number ≡ pos 5
unfolding run run_optimizer_for_pair optimize_connections_for_pair optimize_streams_for_pair
    get_optimizer_working_range working_range observe start_decision new_optimizer streams_decision
    ◌+ℤ◌ ◌-ℤ◌ div_ℤ find put is_lan_pair
starts_halfway = refl

abbrev started : Optimizer ℤ
started = new_optimizer false

running-IsWorkingRange : IsWorkingRange (range_of {F = ℤ} optimizer_normal pair started running)
unfolding get_optimizer_working_range working_range is_lan_pair
running-IsWorkingRange = record { min_pos = omega arith; min_le_max = omega arith }

value_after_in_range_example :
    (pos 2 ≤ℤ value_after optimizer_normal pair started running)
    × (value_after optimizer_normal pair started running ≤ℤ pos 8)
unfolding get_optimizer_working_range working_range throttle
value_after_in_range_example =
    value_after_in_range remembers optimizer_normal pair started running running-IsWorkingRange refl
      (λ _. omega arith)

value_after_throttled_example :
    value_after optimizer_normal pair started overloaded ≡ pos 2 -ℤ started.decrease_step_size
unfolding get_optimizer_working_range working_range throttle
value_after_throttled_example =
    value_after_throttled remembers optimizer_normal pair started overloaded (inl (refl, refl))
      (λ e. cc) (λ e. cc)

start_streams_example :
    (run_optimizer_for_pair pair (started, fresh)).1
    ≡ one_link.store_optimizer_streams
        (optimize_connections_for_pair optimizer_normal pair (started, fresh)).1
        pair
        (pos 1)
start_streams_example = start_streams pair started fresh refl

working_range_iff_example :
    IsWorkingRange (working_range pair configured limits)
    ↔ (pos 0 <ℤ pos 8 → range_min pair configured ≤ℤ pos 8)
working_range_iff_example = working_range_iff pair configured limits

abbrev seen : PairState ℤ
seen = record (observe {F = ℤ} running pair) {
  connections = pos 30;
  active_count = pos 2;
  queue_size = pos 4;
}

steady_state : Optimizer ℤ
steady_state = record (new_optimizer false) {
  in_memory_store =
      (pair, record (observe {F = ℤ} running pair) { ema = pos 5; connections = pos 5 }) ∷ [];
  ema_alpha = pos 0;
}

is_steady_example_fact :
    (optimize_connections_for_pair optimizer_normal pair (steady_state, running)).2 ≡ false
unfolding optimize_connections_for_pair steady_state is_steady is_first_run previous_state find
    observe new_optimizer throttle exponential_moving_average working_range is_lan_pair ◌+ℤ◌ ◌-ℤ◌
    ◌*ℤ◌ new_pair_state
is_steady_example_fact = refl
