-- ===== src/Heartbeat/Service.antt =====
-- HeartBeat.cpp: the loop of the heartbeat, the test for stalled threads, and the lead node.
use fts.Common.{
  Bool, List, Result, String, [], err, false, if◌then◌else◌, leb, lt_ℤ, nat_beq, not, ok, pos, true,
  ℕ, ◌&&◌, ◌-ℤ◌, ◌∷◌,
}

-- What the service asks of the host and the database. Times are in seconds.
pub record Node (W : Type 0) : Type 0 where
  pub is_draining : W → Bool
  pub time : W → ℕ × W
  pub sleep : W → ℕ → W
  -- `Server::instance().stop()`
  pub stop_server : W → W
  -- The index of the host, the number of hosts, and the share of the hash space.
  pub update_heart_beat : W → Result String (ℕ × ℕ × ℕ × ℕ) × W

pub record HeartBeat (W : Type 0) : Type 0 where
  pub world : W
  pub index : ℕ
  pub count : ℕ
  pub start : ℕ
  pub end : ℕ

-- The times at which the critical threads began their last round.
pub record Records : Type 0 where
  pub retrieve_records : ℕ
  pub update_records : ℕ
  pub stall_records : ℕ

pub data Beat (W : Type 0) : Type 0 where
  running : HeartBeat W → Beat W
  exited : ℕ → HeartBeat W → Beat W

-- `difftime(now, since) > limit`
unfoldable pub is_late : ℕ → ℕ → ℕ → Bool
is_late now since limit = lt_ℤ (pos limit) (pos now -ℤ pos since)

module _ {W : Type 0} ⦃n : Node W⦄ where
  -- The clock is read for each of the threads that is looked at.
  unfoldable pub critical_thread_expired : Records → W → Bool × W
  critical_thread_expired records w =
      let (now₁, w₁) = n.time w in
      let (now₂, w₂) = n.time w₁ in
      let (now₃, w₃) = n.time w₂ in
      if is_late now₁ records.retrieve_records 7200
      then (true, w₁)
      else if is_late now₂ records.update_records 7200
      then (true, w₂)
      else if is_late now₃ records.stall_records 10000
      then (true, w₃)
      else (false, w₃)

  unfoldable pub ordered_shutdown : HeartBeat W → Beat W
  ordered_shutdown s = exited 1 (record s { world = n.sleep (n.stop_server s.world) 30 })

  -- The update of the heartbeat. After a failure the service waits one second.
  unfoldable pub beat : ℕ → HeartBeat W → Beat W
  beat interval s =
      let (r, w) = n.update_heart_beat s.world in
      elim r [
        | err e ↦ running (record s { world = n.sleep w 1 })
        | ok (index, count, start, end) ↦ running (record {
          world = n.sleep w interval;
          index = index;
          count = count;
          start = start;
          end = end;
        })
      ]

  -- One pass through the loop, with the records as they are then.
  unfoldable pub heart_beat_step : ℕ → Records → HeartBeat W → Beat W
  unfolding critical_thread_expired ordered_shutdown beat
  heart_beat_step interval records s =
      if n.is_draining s.world
      then running (record s { world = n.sleep s.world 15 })
      else (let (expired, w) = critical_thread_expired records s.world in
          if expired
          then ordered_shutdown (record s { world = w })
          else beat interval (record s { world = w }))

  -- The loop, over the records at the start of each pass. Intervals that make no sense end the process.
  unfoldable pub heart_beat_loop : ℕ → List Records → Beat W → Beat W
  unfolding heart_beat_step
  heart_beat_loop interval [] b = b
  heart_beat_loop interval (r ∷ rs) (exited code s) = exited code s
  heart_beat_loop interval (r ∷ rs) (running s) =
      heart_beat_loop interval rs (heart_beat_step interval r s)

  unfoldable pub run_service : ℕ → ℕ → List Records → HeartBeat W → Beat W
  unfolding heart_beat_loop
  run_service interval grace_interval records s =
      if leb grace_interval interval
      then exited 1 s
      else heart_beat_loop interval records (running s)

  unfoldable pub is_lead_node : Bool → HeartBeat W → Bool
  is_lead_node bypass_draining s =
      if n.is_draining s.world && not bypass_draining then false else nat_beq s.index 0
