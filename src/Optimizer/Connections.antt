-- ===== src/Optimizer/Connections.antt =====
-- `optimizeConnectionsForPair` and `setOptimizerDecision` (OptimizerConnections.cpp).
use fts.Common.{
  Bool, Double, Option, [], div_ℤ, eq_ℤ, false, find, if◌then◌else◌, lt_ℤ, none, not, pos, put,
  some, true, ℤ, ◌&&◌, ◌+ℤ◌, ◌+◌, ◌-ℤ◌, ◌∷◌, nat_key, string_key,
}
use fts.Optimizer.Types.{
  DataSource, Optimizer, OptimizerMode, Pair, PairState, Range, Rationale, StorageLimits,
  new_pair_state, text, value, pair_key,
}
use fts.Optimizer.Decide.{calculate_time_frame, decide, exponential_moving_average, working_range}

module _ {F : Type 0} where
  -- The value that a link starts with.
  unfoldable pub start_decision : Range → ℤ × Rationale F
  start_decision range =
      if range.specific
      then (range.max, text "No information. Use configured range max." ∷ [])
      else (
        range.min +ℤ div_ℤ (range.max -ℤ range.min) (pos 2),
        text "No information. Start halfway." ∷ [],
      )

  -- The state of the previous run: the stored one, or at the first sight the observed one.
  unfoldable pub previous_state : Pair → PairState F → Optimizer F → PairState F
  previous_state pair current o = elim (find pair o.in_memory_store) [
    | some previous ↦ previous
    | none ↦ record current { ema = current.throughput }
  ]

  unfoldable pub is_first_run : Pair → Optimizer F → Bool
  is_first_run pair o = elim (find pair o.in_memory_store) [ some previous ↦ false | none ↦ true ]

  -- `inMemoryStore[pair] = current` at the first sight since the restart.
  unfoldable pub remember_first : Pair → PairState F → Optimizer F → Optimizer F
  unfolding is_first_run
  remember_first pair current o =
      if is_first_run pair o
      then record o {
        in_memory_store = put pair (record current { ema = current.throughput }) o.in_memory_store;
      }
      else o

module _ {F : Type 0} ⦃d : Double F⦄ where
  -- "Run only when it makes sense"
  unfoldable pub is_steady : Bool → Optimizer F → PairState F → PairState F → Bool
  is_steady first_run o current previous =
      not first_run
      && (d.feq current.success_rate previous.success_rate
          && (d.feq current.ema previous.ema
              && lt_ℤ (current.timestamp -ℤ previous.timestamp) o.steady_interval))

module _ {F W : Type 0} ⦃d : Double F⦄ ⦃ds : DataSource F W⦄ where
  unfoldable pub get_optimizer_working_range : W → Pair → Range × StorageLimits F
  get_optimizer_working_range w pair =
      let (range, limits) = ds.get_pair_limits w pair in (working_range pair range limits, limits)

  -- "Initialize current state": the fields that the data source gives.
  unfoldable pub observe : W → Pair → PairState F
  unfolding new_pair_state calculate_time_frame
  observe w pair =
      let avg_duration = ds.get_average_duration w pair 30 in
      let time_frame = calculate_time_frame avg_duration in
      let (throughput, filesize_avg, filesize_std_dev) = ds.get_throughput_info w pair time_frame in
      let (success_rate, retry_count) = ds.get_success_rate w pair time_frame in
      record new_pair_state {
        timestamp = ds.time w;
        avg_duration = avg_duration;
        throughput = throughput;
        filesize_avg = filesize_avg;
        filesize_std_dev = filesize_std_dev;
        success_rate = success_rate;
        retry_count = retry_count;
        active_count = ds.get_active w pair;
        queue_size = ds.get_submitted w pair;
      }

  unfoldable pub set_optimizer_decision :
      Pair → ℤ → PairState F → ℤ → Rationale F → Optimizer F × W → Optimizer F × W
  set_optimizer_decision pair decision current diff rationale (o, w) =
      let stored = ds.store_optimizer_decision w pair decision current diff rationale in
      (
        record o {
          in_memory_store = put pair (record current { connections = decision }) o.in_memory_store;
        },
        if o.has_callbacks
            then ds.notify_decision stored pair decision current diff rationale
            else stored,
      )

  -- "There is no value yet." The state that is kept afterwards is the observed one.
  unfoldable pub start_pair : Pair → Range → PairState F → Optimizer F × W → Optimizer F × W
  unfolding set_optimizer_decision
  start_pair pair range current s =
      let (decision, rationale) = start_decision range in
      let (o, w) = set_optimizer_decision pair decision current decision rationale s in
      (
        record o {
          in_memory_store =
              put pair (record current { ema = current.throughput }) o.in_memory_store;
        },
        w,
      )

  -- The bandwidth limits: the message of the first one that is exceeded.
  unfoldable pub throttle : W → Pair → StorageLimits F → Option (Rationale F)
  throttle w pair limits =
      let nought = d.of_int (pos 0) in
      if d.lt nought limits.throughput_source
        && d.lt limits.throughput_source (ds.get_throughput_as_source w pair.source)
      then some (
          text "Source throughput limitation reached ("
          ∷ value limits.throughput_source
          ∷ text ")"
          ∷ [])
      else if d.lt nought limits.throughput_destination
          && d.lt limits.throughput_destination
              (ds.get_throughput_as_destination w pair.destination)
      then some (
          text "Destination throughput limitation reached ("
          ∷ value limits.throughput_destination
          ∷ text ")"
          ∷ [])
      else none

  -- The part that follows once there is feedback of a previous run.
  unfoldable pub use_feedback :
      OptimizerMode
      → Pair
      → Range
      → StorageLimits F
      → ℤ
      → PairState F
      → PairState F
      → Bool
      → Optimizer F × W
      → Optimizer F × W × Bool
  use_feedback mode pair range limits previous_value current previous first_run (o, w) =
      if eq_ℤ range.min range.max
      then (let (o', w') =
            set_optimizer_decision pair range.min current (pos 0) (text "Range fixed" ∷ [])
              (o, w) in
          (o', w', true))
      else elim (throttle w pair limits) [
        | some rationale ↦
            let (o', w') =
              set_optimizer_decision pair (previous_value -ℤ o.decrease_step_size) current (pos 0)
                rationale (o, w) in
            (o', w', true)
        | none ↦
            if is_steady first_run o current previous
            then (o, w, false)
            else let (decision, rationale) = decide o mode range current previous previous_value in
              let (o', w') =
                set_optimizer_decision pair decision current (decision -ℤ previous_value) rationale
                  (o, w) in
              (o', w', true)
      ]

  -- True if a decision was stored.
  unfoldable pub optimize_connections_for_pair :
      OptimizerMode → Pair → Optimizer F × W → Optimizer F × W × Bool
  unfolding get_optimizer_working_range observe start_pair previous_state is_first_run
      remember_first exponential_moving_average use_feedback
  optimize_connections_for_pair mode pair (o₀, w) =
      let o = record o₀ { pair_idx = o₀.pair_idx + 1 } in
      let (range, limits) = get_optimizer_working_range w pair in
      let previous_value = ds.get_optimizer_value w pair in
      let seen = observe w pair in
      if eq_ℤ previous_value (pos 0)
      then (let (o', w') = start_pair pair range seen (o, w) in (o', w', true))
      else let previous = previous_state pair seen o in
        let current = record seen {
          ema = exponential_moving_average seen.throughput o.ema_alpha previous.ema;
        } in
        use_feedback mode pair range limits previous_value current previous (is_first_run pair o)
          (remember_first pair seen o, w)
