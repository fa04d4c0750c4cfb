-- ===== src/Optimizer/Start.antt =====
-- The runs that store nothing, and the first run of a link.
use fts.Common.{
  Double, arith, div_ℤ, false, find, find-put_self, inl, inr, negsuc, pos, put, refl, some, suc,
  true, zero, ℤ, ◌+ℤ◌, ◌+◌, ◌<ℤ◌, ◌≡◌, ◌⊎◌, nat_key, string_key,
}
use fts.Optimizer.Run.{run_optimizer_for_pair}
use fts.Optimizer.Types.{
  DataSource, Optimizer, OptimizerMode, Pair, PairState, new_pair_state, pair_key,
}
use fts.Optimizer.Connections.{
  get_optimizer_working_range, is_first_run, is_steady, observe, optimize_connections_for_pair,
  start_decision, start_pair,
}
use fts.Optimizer.Streams.{optimize_streams_for_pair, streams_decision}

one_quotient : (b : ℤ) → pos 0 <ℤ b → (div_ℤ (pos 1) b ≡ pos 0) ⊎ (div_ℤ (pos 1) b ≡ pos 1)
unfolding div_ℤ
one_quotient (pos zero) h = absurd (omega arith)
one_quotient (pos (suc zero)) h = inr refl
one_quotient (pos (suc (suc b))) h = inl (ground arith)
one_quotient (negsuc b) h = absurd (omega arith)

-- One connection never gives a transfer more than one stream.
streams_of_one :
    {F : Type 0} (most : ℤ) (state : PairState F)
    → state.connections ≡ pos 1
    → streams_decision most state ≡ pos 1
unfolding streams_decision
streams_of_one most state e = ground (arith, one_quotient (state.active_count +ℤ state.queue_size))

module _ {F W : Type 0} ⦃d : Double F⦄ ⦃ds : DataSource F W⦄ where
  module _ (mode : OptimizerMode) (p : Pair) (o : Optimizer F) (w : W) where
    -- A run that reports that it stored no decision has changed nothing but the counter of pairs.
    pub steady_unchanged :
        (optimize_connections_for_pair mode p (o, w)).2 ≡ false
        → ((optimize_connections_for_pair mode p (o, w)).0 ≡ record o { pair_idx = o.pair_idx + 1 })
          × ((optimize_connections_for_pair mode p (o, w)).1 ≡ w)
    unfolding optimize_connections_for_pair is_steady is_first_run
    steady_unchanged h = ground arith

    start_stored :
        ds.get_optimizer_value w p ≡ pos 0
        → find p (optimize_connections_for_pair mode p (o, w)).0.in_memory_store
          ≡ some (record (observe w p) { ema = (observe w p).throughput })
    unfolding optimize_connections_for_pair start_pair
    start_stored h = ground (
      arith,
      find-put_self p (record (observe w p) { ema = (observe w p).throughput })
          (put p
            (record (observe w p) {
              connections = (start_decision {F = F} (get_optimizer_working_range {F = F} w p).0).0;
            })
            o.in_memory_store),
    )

    start_true :
        ds.get_optimizer_value w p ≡ pos 0 → (optimize_connections_for_pair mode p (o, w)).2 ≡ true
    unfolding optimize_connections_for_pair
    start_true h = ground arith

    observe_connections : (observe {F = F} w p).connections ≡ pos 1
    unfolding observe new_pair_state
    observe_connections = refl

    start_streams_set :
        ds.get_optimizer_value w p ≡ pos 0
        → (optimize_streams_for_pair mode p
            (let (o', w', _) = optimize_connections_for_pair mode p (o, w) in (o', w'))).1
          ≡ ds.store_optimizer_streams (optimize_connections_for_pair mode p (o, w)).1 p (pos 1)
    unfolding optimize_streams_for_pair
    start_streams_set h = ground (
      arith,
      start_stored h,
      streams_of_one (optimize_connections_for_pair mode p (o, w)).0.max_number_of_streams
          (record (observe w p) { ema = (observe w p).throughput }) observe_connections,
    )

  -- In the run that gives a link its first value, the streams are set to one, whatever the value.
  pub start_streams :
      (p : Pair) (o : Optimizer F) (w : W)
      → ds.get_optimizer_value w p ≡ pos 0
      → (run_optimizer_for_pair p (o, w)).1
        ≡ ds.store_optimizer_streams
            (optimize_connections_for_pair
              (ds.get_optimizer_mode w p.source p.destination)
              p
              (o, w)).1
            p
            (pos 1)
  unfolding run_optimizer_for_pair
  start_streams p o w h = ground (
    arith,
    start_true (ds.get_optimizer_mode w p.source p.destination) p o w h,
    start_streams_set (ds.get_optimizer_mode w p.source p.destination) p o w h,
  )
