-- ===== src/Optimizer/Streams.antt =====
-- `optimizeStreamsForPair` of OptimizerStreams.cpp.
use fts.Common.{
  Double, div_ℤ, find, if◌then◌else◌, le_ℤ, leb, lt_ℤ, max_ℤ, none, pos, put, some, ℤ, ◌+ℤ◌,
  nat_key, string_key,
}
use fts.Optimizer.Types.{
  DataSource, Optimizer, OptimizerMode, Pair, PairState, mode_number, new_pair_state, pair_key,
}

module _ {F : Type 0} where
  -- `floor` is applied to the integer quotient, and so does nothing.
  unfoldable pub streams_decision : ℤ → PairState F → ℤ
  streams_decision max_number_of_streams state =
      let available_transfers = state.active_count +ℤ state.queue_size in
      let quotient = div_ℤ state.connections available_transfers in
      if lt_ℤ (pos 0) available_transfers
      then (if le_ℤ quotient (pos 0)
          then pos 1
          else if lt_ℤ max_number_of_streams quotient
          then max_ℤ max_number_of_streams (pos 1)
          else quotient)
      else pos 1

module _ {F W : Type 0} ⦃d : Double F⦄ ⦃ds : DataSource F W⦄ where
  -- `auto state = inMemoryStore[pair]` enters a default state if there is none.
  unfoldable pub optimize_streams_for_pair :
      OptimizerMode → Pair → Optimizer F × W → Optimizer F × W
  unfolding streams_decision new_pair_state
  optimize_streams_for_pair mode pair (o, w) =
      if leb (mode_number mode) 1
      then (o, ds.store_optimizer_streams w pair (pos 1))
      else elim (find pair o.in_memory_store) [
        | some state ↦
            (o, ds.store_optimizer_streams w pair (streams_decision o.max_number_of_streams state))
        | none ↦ (
          record o { in_memory_store = put pair new_pair_state o.in_memory_store },
          ds.store_optimizer_streams w pair
              (streams_decision o.max_number_of_streams (new_pair_state {F = F})),
        )
      ]
