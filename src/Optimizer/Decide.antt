-- ===== src/Optimizer/Decide.antt =====
-- The steps of `optimizeConnectionsForPair` (OptimizerConnections.cpp) that only compute.
use fts.Common.{
  Double, [], if◌then◌else◌, le_ℤ, leb, lt_ℤ, min_ℤ, nat_beq, not, pos, true, ℕ, ℤ, ◌&&◌, ◌*ℤ◌,
  ◌++◌, ◌+ℤ◌, ◌-ℤ◌, ◌∷◌,
}
use fts.Optimizer.Types.{
  Optimizer, OptimizerMode, Pair, PairState, Range, Rationale, StorageLimits, is_lan_pair,
  mode_number, text,
}

-- The time frame, in minutes. An average of exactly 30 seconds falls through to the last case.
unfoldable pub calculate_time_frame : ℤ → ℕ
calculate_time_frame avg_duration =
    if lt_ℤ (pos 0) avg_duration && lt_ℤ avg_duration (pos 30)
    then 5
    else if lt_ℤ (pos 30) avg_duration && lt_ℤ avg_duration (pos 900)
    then 15
    else 30

abbrev pub default_min_active : ℤ
default_min_active = pos 2

abbrev pub default_lan_active : ℤ
default_lan_active = pos 10

-- The lower end: the configured one, or the default for the kind of link.
unfoldable pub range_min : Pair → Range → ℤ
range_min pair range =
    if le_ℤ range.min (pos 0)
    then (if is_lan_pair pair then default_lan_active else default_min_active)
    else range.min

unfoldable pub storage_max : {F : Type 0} → StorageLimits F → ℤ → ℤ
storage_max limits low =
    let high = min_ℤ limits.source limits.destination in if lt_ℤ high low then low else high

module _ {F : Type 0} where
  -- What `getOptimizerWorkingRange` makes of the limits that were read.
  unfoldable pub working_range : Pair → Range → StorageLimits F → Range
  unfolding range_min storage_max
  working_range pair range limits =
      let low = range_min pair range in
      if lt_ℤ (pos 0) range.max
      then record range { min = low }
      else record range { min = low; max = storage_max limits low; storage_specific = true }

module _ {F : Type 0} ⦃d : Double F⦄ where
  unfoldable pub exponential_moving_average : F → F → F → F
  exponential_moving_average sample alpha cur =
      if d.lt (d.of_int (pos 0)) sample
      then d.add (d.mul sample alpha) (d.mul (d.sub (d.of_int (pos 1)) alpha) cur)
      else cur

  unfoldable pub optimize_low_success_rate : PairState F → PairState F → ℤ → ℤ → ℤ → ℤ × Rationale F
  optimize_low_success_rate current previous previous_value base_success_rate decrease_step_size =
      if d.lt previous.success_rate current.success_rate
        && d.le (d.of_int base_success_rate) current.success_rate
        && le_ℤ current.retry_count previous.retry_count
      then (previous_value, text "Bad link efficiency but progressively improving" ∷ [])
      else if d.lt current.success_rate previous.success_rate
      then (previous_value -ℤ decrease_step_size, text "Bad link efficiency" ∷ [])
      else (previous_value -ℤ decrease_step_size, text "Bad link efficiency, no changes" ∷ [])

  unfoldable pub optimize_not_enough_information : ℤ → ℤ × Rationale F
  optimize_not_enough_information previous_value =
      (previous_value, text "Steady, not enough throughput information" ∷ [])

  unfoldable pub optimize_good_success_rate :
      PairState F → PairState F → ℤ → ℤ → ℤ → ℤ × Rationale F
  optimize_good_success_rate current previous previous_value decrease_step_size increase_step_size =
      if lt_ℤ current.queue_size previous_value
      then (previous_value, text "Queue emptying. Hold on." ∷ [])
      else if d.lt current.ema previous.ema
      then (if d.lt (d.round_log10 current.filesize_avg) (d.round_log10 previous.filesize_avg)
          then (
            previous_value +ℤ increase_step_size,
            text "Good link efficiency, throughput deterioration, avg. filesize decreasing" ∷ [],
          )
          else if d.lt (d.round_log10 current.ema) (d.round_log10 previous.ema)
          then (
            previous_value -ℤ decrease_step_size,
            text "Good link efficiency, throughput deterioration" ∷ [],
          )
          else (previous_value, text "Good link efficiency, small throughput deterioration" ∷ []))
      else if d.lt previous.ema current.ema
      then (
        previous_value +ℤ increase_step_size,
        text "Good link efficiency, current average throughput is larger than the preceding average"
            ∷ [],
      )
      else (previous_value +ℤ increase_step_size, text "Good link efficiency. Increment" ∷ [])

  -- The increase step for the mode of the link.
  unfoldable pub local_increase_step : Optimizer F → OptimizerMode → ℤ
  local_increase_step o mode =
      if leb 2 (mode_number mode) then o.increase_aggressive_step_size else o.increase_step_size

  -- The choice between the three rules, before any margin is applied.
  unfoldable pub choose :
      Optimizer F → OptimizerMode → PairState F → PairState F → ℤ → ℤ × Rationale F
  unfolding optimize_low_success_rate optimize_not_enough_information optimize_good_success_rate
      local_increase_step
  choose o mode current previous previous_value =
      if d.lt current.success_rate (d.of_int o.low_success_rate)
      then optimize_low_success_rate current previous previous_value o.base_success_rate
          o.decrease_step_size
      else if d.feq current.ema (d.of_int (pos 0))
      then optimize_not_enough_information previous_value
      else optimize_good_success_rate current previous previous_value o.decrease_step_size
          (local_increase_step o mode)

  -- `if (decision < range.min) … else if (decision > range.max) …`
  unfoldable pub apply_margins : Range → ℤ × Rationale F → ℤ × Rationale F
  apply_margins range (decision, rationale) =
      if lt_ℤ decision range.min
      then (
        range.min,
        rationale
            ++ (text ". Hit lower range limit"
                ∷ (if range.specific then [] else text ". Using *->* link configuration" ∷ [])),
      )
      else if lt_ℤ range.max decision
      then (
        range.max,
        rationale
            ++ (text ". Hit upper range limit"
                ∷ (if not range.specific
                    then text ". Using *->* link configuration" ∷ []
                    else if range.storage_specific
                    then text ". Link not configured. Using SE limits" ∷ []
                    else [])),
      )
      else (decision, rationale)

  -- In the conservative mode: no more connections than files in the queue.
  unfoldable pub limit_by_queue :
      OptimizerMode → PairState F → ℤ → ℤ × Rationale F → ℤ × Rationale F
  limit_by_queue mode current previous_value (decision, rationale) =
      if nat_beq (mode_number mode) 1
        && (lt_ℤ previous_value decision && lt_ℤ current.queue_size decision)
      then (previous_value, rationale ++ text ". Not enough files in the queue" ∷ [])
      else (decision, rationale)

  -- In the normal and aggressive modes: no more connections than streams for the queue.
  unfoldable pub limit_by_streams :
      OptimizerMode → ℤ → PairState F → ℤ → ℤ × Rationale F → ℤ × Rationale F
  limit_by_streams mode max_number_of_streams current previous_value (decision, rationale) =
      if leb 2 (mode_number mode)
        && (lt_ℤ previous_value decision
            && lt_ℤ (current.queue_size *ℤ max_number_of_streams) decision)
      then (previous_value, rationale ++ text ". Too many streams" ∷ [])
      else (decision, rationale)

  -- The decision for a link with feedback that is neither fixed, throttled nor steady.
  unfoldable pub decide :
      Optimizer F → OptimizerMode → Range → PairState F → PairState F → ℤ → ℤ × Rationale F
  unfolding apply_margins limit_by_queue limit_by_streams
  decide o mode range current previous previous_value =
      limit_by_streams mode o.max_number_of_streams current previous_value (
        limit_by_queue mode current previous_value
          (apply_margins range (choose o mode current previous previous_value)))
