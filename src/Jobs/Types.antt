-- ===== src/Jobs/Types.antt =====
-- The rows of t_file and t_job that MySqlAPI.cpp reads and writes to follow transfers.
use fts.Common.{
  Bool, List, Option, String, ap, if◌then◌else◌, nat_beq, nat_beq_iff, refl, sym, true, ℕ, ℤ, ◌↔◌,
  ◌∙◌, ◌≡◌,
}
use fts.CommandLine.Types.{JobType}

-- The values of the columns file_state and job_state.
pub data State : Type 0 where
  staging archiving qos_transition qos_request_submitted started submitted ready active : State
  finished failed canceled not_used on_hold on_hold_staging force_start token_prep : State
  finished_dirty deleted : State

abbrev number : State → ℕ
number staging = 0
number archiving = 1
number qos_transition = 2
number qos_request_submitted = 3
number started = 4
number submitted = 5
number ready = 6
number active = 7
number finished = 8
number failed = 9
number canceled = 10
number not_used = 11
number on_hold = 12
number on_hold_staging = 13
number force_start = 14
number token_prep = 15
number finished_dirty = 16
number deleted = 17

abbrev pub is_state : State → State → Bool
is_state a b = nat_beq (number a) (number b)

-- The state of a number, from the last one down.
abbrev of_number : ℕ → State
of_number n =
    if nat_beq n 0
    then staging
    else if nat_beq n 1
    then archiving
    else if nat_beq n 2
    then qos_transition
    else if nat_beq n 3
    then qos_request_submitted
    else if nat_beq n 4
    then started
    else if nat_beq n 5
    then submitted
    else if nat_beq n 6
    then ready
    else if nat_beq n 7
    then active
    else if nat_beq n 8
    then finished
    else if nat_beq n 9
    then failed
    else if nat_beq n 10
    then canceled
    else if nat_beq n 11
    then not_used
    else if nat_beq n 12
    then on_hold
    else if nat_beq n 13
    then on_hold_staging
    else if nat_beq n 14
    then force_start
    else if nat_beq n 15
    then token_prep
    else if nat_beq n 16
    then finished_dirty
    else deleted

of_number-number : (a : State) → of_number (number a) ≡ a
of_number-number staging = refl
of_number-number archiving = refl
of_number-number qos_transition = refl
of_number-number qos_request_submitted = refl
of_number-number started = refl
of_number-number submitted = refl
of_number-number ready = refl
of_number-number active = refl
of_number-number finished = refl
of_number-number failed = refl
of_number-number canceled = refl
of_number-number not_used = refl
of_number-number on_hold = refl
of_number-number on_hold_staging = refl
of_number-number force_start = refl
of_number-number token_prep = refl
of_number-number finished_dirty = refl
of_number-number deleted = refl

pub is_state_iff : (a b : State) → (is_state a b ≡ true) ↔ (a ≡ b)
is_state_iff a b = (
  λ h.
      sym (of_number-number a)
      ∙ ap of_number ((nat_beq_iff (number a) (number b)).0 h)
      ∙ of_number-number b,
  λ e. (nat_beq_iff (number a) (number b)).1 (ap number e),
)

-- A row of t_file. The columns on speed are left out.
pub record File : Type 0 where
  pub file_id : ℕ
  pub job_id : String
  pub file_index : ℕ
  pub file_state : State
  pub reason : String
  pub source_se : String
  pub dest_se : String
  pub vo_name : String
  pub selection_strategy : Option String
  pub dest_surl_uuid : Option String
  pub pid : ℤ
  pub filesize : ℕ
  pub transferred : ℕ
  pub current_failures : ℕ
  pub retry : ℕ
  pub file_metadata : String
  pub transfer_host : Option String
  pub start_time : Option ℕ
  pub finish_time : Option ℕ
  pub staging_start : Option ℕ
  pub staging_finished : Option ℕ

-- A row of t_job.
pub record Job : Type 0 where
  pub job_id : String
  pub job_type : JobType
  pub job_state : State
  pub archive_timeout : Option ℤ
  pub bring_online : ℤ
  pub copy_pin_lifetime : ℤ
  pub reason : String
  pub source_se : String
  pub job_finished : Option ℕ
  pub vo_name : String
  pub retry : Option ℤ

-- The two tables, and the time.
pub record Db : Type 0 where
  pub files : List File
  pub jobs : List Job
  pub now : ℕ

-- The host, an entry of the configuration, whether a call throws after the first transaction that it
-- commits, so that the statements behind it are not executed, what other sessions do to the database
-- between the read and the write of a transaction, and what the variables hold when a job is not found.
pub record Session : Type 0 where
  pub hostname : String
  pub cancel_unused_multihop_files : Bool
  pub breaks_off : Bool
  pub others : Db → Db
  pub unread : Job
