-- ===== src/Transfers/Types.antt =====
-- The messages of running transfers, and the calls that the services make on the host and the database.
use fts.Common.{Action, Bool, List, Result, String, ℕ, ℤ}

-- The fields of the message `MessageUpdater` (msg-bus/events) that the server reads from its list.
pub record MessageUpdater : Type 0 where
  pub timestamp : ℕ
  pub job_id : String
  pub file_id : ℕ
  pub process_id : ℤ

pub data Signal : Type 0 where
  sigterm sigkill probe : Signal

-- The texts that the services give as the reason of a failure.
pub data Reason : Type 0 where
  no_space_left : Reason
  not_updated : ℤ → Reason
  was_stalled : Reason

-- What the code calls outside this directory. An exception carries its text.
pub record Host (W : Type 0) : Type 0 where
  pub timed_lock : W → Bool × W
  -- Microseconds since the epoch, at successive readings of the clock.
  pub now : W → ℕ × W
  -- `time(0)`, in seconds.
  pub time : W → ℕ
  -- Milliseconds since the epoch, 0 for a process that does not exist.
  pub get_pid_startime : W → ℤ → ℕ × W
  pub getpid : ℤ
  -- Whether `kill` returned 0.
  pub kill : W → ℤ → Signal → Bool × W
  pub sleep : W → ℤ → W
  -- Whether `space` found free and available bytes.
  pub has_space : W → Result String Bool × W
  pub update_transfer_status : W → String → ℕ → ℤ → String → Reason → Result String Bool × W
  pub update_job_status : W → String → String → Result String (Unit {0}) × W
  pub send_state_message : W → String → ℤ → Result String (Unit {0}) × W
  pub reap_stalled_transfers : W → Result String (List MessageUpdater) × W
  pub get_active_in_host : W → Result String (List MessageUpdater) × W
  pub get_cancel_job : W → Result String (List ℤ) × W
  pub set_to_fail_old_queued_jobs : W → Result String (List String) × W
  pub interruption_requested : W → Bool
  pub is_draining : W → Bool

-- The list of watched transfers, and the signals that were sent.
pub record Service (W : Type 0) : Type 0 where
  pub world : W
  pub watched : List MessageUpdater
  pub signals : List (ℤ × Signal)

abbrev pub Act : Type 0 → Type 0 → Type 0
Act W A = Action (Service W) String A

-- A call that changes nothing of the server's own state.
unfoldable pub call : {W A : Type 0} → (W → Result String A × W) → Act W A
call f s = let (r, w) = f s.world in (r, record s { world = w })
