-- ===== src/Optimizer/Shares.antt =====
-- The streams share the decided connections among the transfers.
use fts.Common.{arith, div_ℤ, max_ℤ, negsuc, pos, ℕ, ℤ, ◌*ℤ◌, ◌*◌, ◌+ℤ◌, ◌/◌, ◌<ℤ◌, ◌≤ℤ◌, ◌≤◌}
use fts.Optimizer.Types.{PairState}
use fts.Optimizer.Streams.{streams_decision}

mul-le_of_le_div : (a b s : ℕ) → s ≤ a / b → s * b ≤ a
mul-le_of_le_div a b s h = grind arith

quotient-mul-le : (a b s : ℤ) → pos 0 <ℤ b → pos 1 ≤ℤ s → s ≤ℤ div_ℤ a b → s *ℤ b ≤ℤ a
unfolding div_ℤ ◌*ℤ◌
quotient-mul-le (pos a) (pos b) (pos s) h k l = ground (arith, mul-le_of_le_div a b s)
quotient-mul-le (pos a) (pos b) (negsuc s) h k l = absurd (omega arith)
quotient-mul-le (pos a) (negsuc b) s h k l = absurd (omega arith)
quotient-mul-le (negsuc a) (pos b) s h k l = absurd (ground arith)
quotient-mul-le (negsuc a) (negsuc b) s h k l = absurd (omega arith)

module _ {F : Type 0} (most : ℤ) (state : PairState F) where
  abbrev available : ℤ
  available = state.active_count +ℤ state.queue_size

  -- The streams are at least one, and at most the larger of one and the configured maximum.
  pub streams_decision_bounds :
      (pos 1 ≤ℤ streams_decision most state) × (streams_decision most state ≤ℤ max_ℤ most (pos 1))
  unfolding streams_decision
  streams_decision_bounds = ground arith

  streams-le-quotient :
      pos 1 <ℤ streams_decision most state
      → (pos 0 <ℤ available) × (streams_decision most state ≤ℤ div_ℤ state.connections available)
  unfolding streams_decision
  streams-le-quotient h = ground arith

  -- More than one stream for each transfer is given only if the decided connections suffice for all
  -- the active and queued transfers.
  pub streams_decision_share :
      pos 1 <ℤ streams_decision most state
      → streams_decision most state *ℤ available ≤ℤ state.connections
  streams_decision_share h =
      let (some_transfer, below) = streams-le-quotient h in
      quotient-mul-le state.connections available (streams_decision most state) some_transfer
        (omega arith) below
