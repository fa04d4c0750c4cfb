-- ===== src/Heartbeat/Alive.antt =====
-- When the heartbeat stops the server.
use fts.Common.{arith, false, ℕ, ◌+◌, ◌-ℤ◌, ◌↔◌, ◌≡◌, ◌≤◌}
use fts.Heartbeat.Service.{
  HeartBeat, Node, Records, beat, critical_thread_expired, exited, heart_beat_step, is_late,
  ordered_shutdown,
}

is_late_iff : (now since limit : ℕ) → (is_late now since limit ≡ false) ↔ (now ≤ since + limit)
unfolding is_late ◌-ℤ◌
is_late_iff now since limit = ground arith

module _ {W : Type 0} ⦃n : Node W⦄ where
  -- The readings of the clock in one test.
  abbrev pub readings : W → ℕ × ℕ × ℕ
  readings w = ((n.time w).0, (n.time (n.time w).1).0, (n.time (n.time (n.time w).1).1).0)

  -- The server stops itself in a pass of the heartbeat exactly if it does not drain and one of the
  -- threads began its last round too long before the clock was read for it.
  pub heart_beat-stops_iff :
      (interval : ℕ) (records : Records) (s : HeartBeat W)
      → ((s' : HeartBeat W) × (heart_beat_step interval records s ≡ exited 1 s')) ↔ (
          (n.is_draining s.world ≡ false)
          × ¬ (
              ((readings s.world).0 ≤ records.retrieve_records + 7200)
              × ((readings s.world).1 ≤ records.update_records + 7200)
              × ((readings s.world).2 ≤ records.stall_records + 10000)))
  unfolding heart_beat_step critical_thread_expired ordered_shutdown beat
  heart_beat-stops_iff interval records s =
      let (a, b, c) = readings s.world in
      let late₁ = is_late_iff a records.retrieve_records 7200 in
      let late₂ = is_late_iff b records.update_records 7200 in
      let late₃ = is_late_iff c records.stall_records 10000 in
      (
        λ stopped. ground (arith, stopped, late₁, late₂, late₃),
        λ cause. (
          record s {
            world = n.sleep (n.stop_server (critical_thread_expired records s.world).1) 30;
          },
          ground (arith, cause, late₁, late₂, late₃),
        ),
      )
