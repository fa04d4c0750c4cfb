-- ===== src/Heartbeat/Examples.antt =====
-- A node whose clock stands still, with a thread that stalled.
use fts.Common.{false, ok, refl, ℕ, ◌+◌, ◌-ℤ◌, ◌↔◌, ◌≡◌, ◌≤◌}
use fts.Heartbeat.Alive.{heart_beat-stops_iff}
use fts.Heartbeat.Service.{
  HeartBeat, Node, Records, critical_thread_expired, exited, heart_beat_step, is_late,
  ordered_shutdown,
}

instance abbrev node : Node ℕ
node = record {
  is_draining = λ w. false;
  time = λ w. (w, w);
  sleep = λ w seconds. w + seconds;
  stop_server = λ w. w;
  update_heart_beat = λ w. (ok (0, 1, 0, 65535), w);
}

abbrev start : HeartBeat ℕ
start = record { world = 20000; index = 0; count = 0; start = 0; end = 0 }

abbrev stalled : Records
stalled = record { retrieve_records = 19990; update_records = 19995; stall_records = 9000 }

heart_beat-stops_iff_example :
    ((s' : HeartBeat ℕ) × (heart_beat_step 60 stalled start ≡ exited 1 s')) ↔ (
      (false ≡ false)
      × ¬ ((20000 ≤ 19990 + 7200) × (20000 ≤ 19995 + 7200) × (20000 ≤ 9000 + 10000)))
heart_beat-stops_iff_example = heart_beat-stops_iff 60 stalled start

-- A run of the model: the stalled thread makes the server stop.
stops_run : heart_beat_step 60 stalled start ≡ exited 1 (record start { world = 20030 })
unfolding heart_beat_step critical_thread_expired is_late ◌-ℤ◌ ordered_shutdown
stops_run = refl
