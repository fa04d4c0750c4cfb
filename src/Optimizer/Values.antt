-- ===== src/Optimizer/Values.antt =====
-- The value that the database holds for a link after a run.
use fts.Common.{
  Bool, Double, Option, arith, eq_ℤ, if◌then◌else◌, inl, inr, none, pos, refl, some, true, ℤ, ◌+◌,
  ◌-ℤ◌, ◌≡◌, ◌≢◌, ◌≤ℤ◌, ◌⊎◌,
}
use fts.Optimizer.Bounds.{IsWorkingRange, decide_bounds, start_decision_bounds}
use fts.Optimizer.Connections.{
  use_feedback, get_optimizer_working_range, is_first_run, is_steady, observe,
  optimize_connections_for_pair, previous_state, remember_first, set_optimizer_decision,
  start_decision, start_pair, throttle,
}
use fts.Optimizer.Decide.{decide, exponential_moving_average}
use fts.Optimizer.Types.{
  DataSource, Optimizer, OptimizerMode, Pair, PairState, Range, Rationale, StorageLimits,
}

-- "Permanently register the optimizer decision": what is stored for a link is read back for it, and
-- the other writes keep it.
pub record Remembers {F W : Type 0} (ds : DataSource F W) : Type 0 where
  pub value_stored :
      (w : W) (p : Pair) (v : ℤ) (s : PairState F) (diff : ℤ) (r : Rationale F)
      → ds.get_optimizer_value (ds.store_optimizer_decision w p v s diff r) p ≡ v
  pub value_notified :
      (w : W) (p q : Pair) (v : ℤ) (s : PairState F) (diff : ℤ) (r : Rationale F)
      → ds.get_optimizer_value (ds.notify_decision w p v s diff r) q ≡ ds.get_optimizer_value w q

module _ {F W : Type 0} ⦃d : Double F⦄ ⦃ds : DataSource F W⦄ where
  -- The value that the rules say, given the state that the run observes.
  abbrev expected_feedback :
      OptimizerMode
      → Pair
      → Range
      → StorageLimits F
      → ℤ
      → PairState F
      → PairState F
      → Bool
      → Optimizer F
      → W
      → ℤ
  expected_feedback mode pair range limits previous_value current previous first_run o w =
      if eq_ℤ range.min range.max then range.min else elim (throttle w pair limits) [
        | some _ ↦ previous_value -ℤ o.decrease_step_size
        | none ↦
            if is_steady first_run o current previous
            then previous_value
            else (decide o mode range current previous previous_value).0
      ]

  module _ (mode : OptimizerMode) (p : Pair) (o : Optimizer F) (w : W) where
    abbrev pub range_of : Range
    range_of = (get_optimizer_working_range {F = F} w p).0

    abbrev pub limits_of : StorageLimits F
    limits_of = (get_optimizer_working_range w p).1

    abbrev pub value_after : ℤ
    value_after = ds.get_optimizer_value (optimize_connections_for_pair mode p (o, w)).1 p

    abbrev pub counted : Optimizer F
    counted = record o { pair_idx = o.pair_idx + 1 }

    -- The state of the previous run, and the observed one with the new moving average.
    abbrev pub previous_of : PairState F
    previous_of = previous_state p (observe w p) counted

    abbrev pub current_of : PairState F
    current_of = record (observe w p) {
      ema = exponential_moving_average (observe w p).throughput o.ema_alpha previous_of.ema;
    }

module _ {F W : Type 0} ⦃d : Double F⦄ ⦃ds : DataSource F W⦄ (law : Remembers ds) where
  value-set_decision :
      (p : Pair) (v : ℤ) (s : PairState F) (diff : ℤ) (r : Rationale F) (o : Optimizer F) (w : W)
      → ds.get_optimizer_value (set_optimizer_decision p v s diff r (o, w)).1 p ≡ v
  unfolding set_optimizer_decision
  value-set_decision p v s diff r o w = ground (
    arith,
    law.value_stored w p v s diff r,
    law.value_notified (ds.store_optimizer_decision w p v s diff r) p p v s diff r,
  )

  value-use_feedback :
      (mode : OptimizerMode) (p : Pair) (range : Range) (limits : StorageLimits F)
      (current previous : PairState F) (first_run : Bool) (o : Optimizer F) (w : W)
      → ds.get_optimizer_value
          (use_feedback mode p range limits
            (ds.get_optimizer_value w p)
            current
            previous
            first_run
            (o, w)).1
          p
        ≡ expected_feedback mode p range limits
            (ds.get_optimizer_value w p)
            current
            previous
            first_run
            o
            w
  unfolding use_feedback
  value-use_feedback mode p range limits current previous first_run o w =
      grind (arith, value-set_decision)

  value-start_pair :
      (p : Pair) (range : Range) (current : PairState F) (o : Optimizer F) (w : W)
      → ds.get_optimizer_value (start_pair p range current (o, w)).1 p
        ≡ (start_decision {F = F} range).0
  unfolding start_pair
  value-start_pair p range current o w =
      value-set_decision p (start_decision {F = F} range).0 current (start_decision {F = F} range).0
        (start_decision {F = F} range).1 o w

  module _ (mode : OptimizerMode) (p : Pair) (o : Optimizer F) (w : W) where
    -- A link with no value yet gets the start value, and any other one what the rules say.
    value_after_lem : (value_after mode p o w) ≡ (
        if eq_ℤ (ds.get_optimizer_value w p) (pos 0)
        then (start_decision {F = F} (range_of mode p o w)).0
        else expected_feedback mode p
            (range_of mode p o w)
            (limits_of mode p o w)
            (ds.get_optimizer_value w p)
            (current_of mode p o w)
            (previous_of mode p o w)
            (is_first_run p (counted mode p o w))
            (remember_first p (observe w p) (counted mode p o w))
            w)
    unfolding optimize_connections_for_pair
    value_after_lem = ground (
      arith,
      value-start_pair p (range_of mode p o w) (observe w p) (counted mode p o w) w,
      value-use_feedback mode p (range_of mode p o w) (limits_of mode p o w) (current_of mode p o w)
          (previous_of mode p o w) (is_first_run p (counted mode p o w))
          (remember_first p (observe w p) (counted mode p o w)) w,
    )

    -- For a link with a working range whose bandwidth limits are not exceeded, a value that is 0 or in
    -- the range is followed by a value in the range.
    pub value_after_in_range :
        IsWorkingRange (range_of mode p o w)
        → throttle w p (limits_of mode p o w) ≡ none
        → (ds.get_optimizer_value w p ≢ pos 0
            → ((range_of mode p o w).min ≤ℤ ds.get_optimizer_value w p)
              × (ds.get_optimizer_value w p ≤ℤ (range_of mode p o w).max))
        → ((range_of mode p o w).min ≤ℤ (value_after mode p o w))
          × ((value_after mode p o w) ≤ℤ (range_of mode p o w).max)
    value_after_in_range valid free inside = ground (
      arith,
      value_after_lem,
      start_decision_bounds F (range_of mode p o w) valid,
      decide_bounds (remember_first p (observe w p) (counted mode p o w)) mode
          (current_of mode p o w) (previous_of mode p o w) (ds.get_optimizer_value w p)
          (range_of mode p o w),
    )

    -- A configured limit on the throughput of the source, or of the destination, is below what is measured.
    abbrev pub IsExceeded : Type 0
    IsExceeded =
        ((d.lt (d.of_int (pos 0)) (limits_of mode p o w).throughput_source ≡ true)
          × (d.lt (limits_of mode p o w).throughput_source (ds.get_throughput_as_source w p.source)
              ≡ true))
        ⊎ ((d.lt (d.of_int (pos 0)) (limits_of mode p o w).throughput_destination ≡ true)
            × (d.lt (limits_of mode p o w).throughput_destination
                  (ds.get_throughput_as_destination w p.destination)
                ≡ true))

    throttle_exceeded : IsExceeded → throttle w p (limits_of mode p o w) ≢ none
    unfolding throttle
    throttle_exceeded (inl h) e = ground (arith, h.0, h.1, e)
    throttle_exceeded (inr h) e = ground (arith, h.0, h.1, e)

    -- When a configured limit on the throughput of the source or of the destination of a link is exceeded,
    -- and the link has a value and an open range, the value goes down by one step, and no margin is applied
    -- to it.
    pub value_after_throttled :
        IsExceeded
        → ds.get_optimizer_value w p ≢ pos 0
        → (range_of mode p o w).min ≢ (range_of mode p o w).max
        → (value_after mode p o w) ≡ ds.get_optimizer_value w p -ℤ o.decrease_step_size
    unfolding remember_first
    value_after_throttled over known open_range =
        by_limit (throttle w p (limits_of mode p o w)) refl
      where
        by_limit :
            (r : Option (Rationale F))
            → throttle w p (limits_of mode p o w) ≡ r
            → (value_after mode p o w) ≡ ds.get_optimizer_value w p -ℤ o.decrease_step_size
        by_limit none e = absurd (throttle_exceeded over e)
        by_limit (some r) e = ground (arith, value_after_lem, e)
