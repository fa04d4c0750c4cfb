-- ===== src/Optimizer/Bounds.antt =====
-- Bounds of the range, of the decision and of the streams.
use fts.Common.{
  +ℤ_parts, -ℤ_parts, Double, [], arith, div_ℤ, inl, inr, int_laws, min_ℤ, negsuc, pos, ℤ, ◌+ℤ◌,
  ◌-ℤ◌, ◌<ℤ◌, ◌↔◌, ◌≡◌, ◌≢◌, ◌≤ℤ◌, ◌⊎◌,
}
use fts.Optimizer.Types.{Optimizer, OptimizerMode, Pair, PairState, Range, StorageLimits}
use fts.Optimizer.Connections.{start_decision}
use fts.Optimizer.Decide.{choose, decide, local_increase_step, range_min, working_range}

pub range_min_pos : (pair : Pair) (range : Range) → pos 0 <ℤ range_min pair range
unfolding range_min
range_min_pos pair range = ground arith

-- The two parts of the assertion that ends `getOptimizerWorkingRange`.
pub record IsWorkingRange (range : Range) : Type 0 where
  pub min_pos : pos 0 <ℤ range.min
  pub min_le_max : range.min ≤ℤ range.max

-- The working range satisfies the assertion of the code exactly when a maximum that is configured is
-- at least the minimum, where the minimum is the configured one or the default of the link.
pub working_range_iff :
    {F : Type 0} (pair : Pair) (range : Range) (limits : StorageLimits F)
    → IsWorkingRange (working_range pair range limits)
      ↔ (pos 0 <ℤ range.max → range_min pair range ≤ℤ range.max)
unfolding working_range
working_range_iff pair range limits = (
  λ v h. ground (arith, v.min_le_max),
  λ h. record {
    min_pos = ground (arith, range_min_pos pair range);
    min_le_max = ground (arith, h);
  },
)

half_bounds : (a : ℤ) → pos 0 ≤ℤ a → (pos 0 ≤ℤ div_ℤ a (pos 2)) × (div_ℤ a (pos 2) ≤ℤ a)
unfolding div_ℤ
half_bounds (pos a) h = ground arith
half_bounds (negsuc a) h = absurd (omega arith)

-- The first value of a link lies in its range.
pub start_decision_bounds :
    (F : Type 0) (range : Range)
    → IsWorkingRange range
    → (range.min ≤ℤ (start_decision {F = F} range).0)
      × ((start_decision {F = F} range).0 ≤ℤ range.max)
unfolding start_decision
start_decision_bounds F range valid = ground (
  arith,
  half_bounds (range.max -ℤ range.min),
  -ℤ_parts range.max range.min,
  +ℤ_parts range.min (div_ℤ (range.max -ℤ range.min) (pos 2)),
)

module _ {F : Type 0} ⦃d : Double F⦄ where
  module _ (o : Optimizer F) (mode : OptimizerMode) (current previous : PairState F)
      (previous_value : ℤ) where
    -- The decision before the margins is the previous value, or one step away from it.
    choose_cases :
        ((choose o mode current previous previous_value).0 ≡ previous_value)
        ⊎ (((choose o mode current previous previous_value).0
              ≡ previous_value -ℤ o.decrease_step_size)
            ⊎ ((choose o mode current previous previous_value).0
                ≡ previous_value +ℤ local_increase_step o mode))
    unfolding choose
    choose_cases = ground arith

    -- Before the margins, one run moves the decision by at most one step in either direction.
    pub choose_step :
        pos 0 ≤ℤ o.decrease_step_size
        → pos 0 ≤ℤ local_increase_step o mode
        → (previous_value -ℤ o.decrease_step_size
            ≤ℤ (choose o mode current previous previous_value).0)
          × ((choose o mode current previous previous_value).0
              ≤ℤ previous_value +ℤ local_increase_step o mode)
    choose_step h k = elim choose_cases [
      | inl e ↦ rw e (omega int_laws)
      | inr (inl e) ↦ rw e (omega int_laws)
      | inr (inr e) ↦ rw e (omega int_laws)
    ]

    -- The final decision is at most the maximum of the range, and at least its minimum or the previous
    -- value, if that was lower.
    pub decide_bounds :
        (range : Range)
        → range.min ≤ℤ range.max
        → ((decide o mode range current previous previous_value).0 ≤ℤ range.max)
          × (min_ℤ range.min previous_value
              ≤ℤ (decide o mode range current previous previous_value).0)
    unfolding decide
    decide_bounds range h = ground arith

    choose_rationale : (choose o mode current previous previous_value).1 ≢ []
    unfolding choose
    choose_rationale = ground arith

    -- Each decision is logged with a reason.
    pub decide_rationale :
        (range : Range) → (decide o mode range current previous previous_value).1 ≢ []
    unfolding decide
    decide_rationale range = ground (arith, choose_rationale)
