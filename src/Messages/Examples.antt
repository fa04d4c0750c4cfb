-- ===== src/Messages/Examples.antt =====
-- Messages of a job of one transfer, which may be retried three times.
use mathlib.Core.Option.{some-injective}
use fts.Common.{
  Bool, List, Option, String, [], false, get_elem?, if◌then◌else◌, nat_beq, none, pos, refl, some,
  subst, true, ℕ, ◌-ℤ◌, ◌∷◌, ◌≡◌,
}
use fts.CommandLine.Types.{regular}
use fts.Jobs.Examples.{alone, job, replica}
use fts.Jobs.Types.{Db, File, Job, State, active, failed, finished}
use fts.Messages.Follows.{handle_other_messages-stays}
use fts.Messages.Limit.{AreRetried, retry_failed-AreRetried}
use fts.Messages.NotLost.{AreKept, handle_other_messages-AreKept}
use fts.Messages.Process.{
  Around, Call, Message, Station, attempt, attempt_parts, get_retries, get_times, handle_message,
  handle_other_messages, handle_rest, is_retried, is_unrecoverable_error_message,
  perform_other_message_db_change, perform_state, put_back_message, put_message, reached, recover,
  remove_finished, remove_if_ended, remove_watched, retry_failed, retry_within, send_message,
  set_retry, set_retry_again, store_file, store_state, terminate, terminate_if, unless_retried,
  unrecoverable_texts, update_file, update_job, watch_message, watch_status,
}
use fts.UrlCopy.Heuristics.{find_substring}
use fts.Jobs.Tables.{is_open, is_terminal, select_one}
use fts.Messages.Retries.{get_retry, get_retry_times, limit_retries, retries_of_job}

abbrev one_transfer : Db
one_transfer = record {
  files = replica 1 "davs://one.example" active ∷ replica 2 "davs://three.example" finished ∷ [];
  jobs = record (job active) { job_type = regular } ∷ [];
  now = 1000;
}

-- The file of the second message cannot be stored.
abbrev broken : ℕ → Call → Option String
broken n update_file = if nat_beq n 7 then some "Lost connection" else none
broken n _ = none

abbrev around : (ℕ → Call → Option String) → Around
around fails = record {
  session = alone;
  server_retry = λ vo. pos 0;
  fails = fails;
  commits = λ n. true;
  pid_start_time = λ pid. 0;
}

abbrev message : ℕ → State → Bool → Message
message file_id state retry = record {
  transfer_status = reached state;
  job_id = "a1b2";
  file_id = file_id;
  process_id = pos 0;
  timestamp = 5;
  transfer_message = "";
  filesize = 10;
  retry = retry;
  errcode = pos 5;
  file_metadata = "";
}

abbrev station : Station
station = record { db = one_transfer; watched = []; state_messages = []; put_back = []; calls = 0 }

abbrev messages : List Message
messages = message 1 failed true ∷ message 2 finished false ∷ []

-- The first transfer is retried, and the second message is put back.
messages_run :
    (handle_other_messages (around broken) (λ n. false) messages station).put_back
    ≡ message 2 finished false ∷ []
unfolding handle_other_messages handle_rest handle_message watch_status attempt
    perform_other_message_db_change recover perform_state attempt_parts remove_if_ended
    remove_watched is_retried retry_failed retry_within set_retry_again unless_retried store_state
    terminate_if store_file put_back_message is_unrecoverable_error_message find_substring
    unrecoverable_texts get_retry get_retry_times retries_of_job limit_retries select_one ◌-ℤ◌
messages_run = refl

handle_other_messages-stays_example :
    let db = (handle_other_messages (around broken) (λ n. false) messages station).db in
    ((i : ℕ) (f : File)
      → get_elem? one_transfer.files i ≡ some f
      → is_terminal f.file_state ≡ true
      → get_elem? db.files i ≡ some f)
    × ((i : ℕ) (j : Job)
        → get_elem? one_transfer.jobs i ≡ some j
        → is_open j.job_state ≡ false
        → get_elem? db.jobs i ≡ some j)
handle_other_messages-stays_example =
    handle_other_messages-stays (around broken) (λ n. false) messages station ((refl, tt), (tt, tt))
      (λ db. refl)

retry_failed-AreRetried_example :
    AreRetried "a1b2" 1
      (get_retry alone (λ vo. pos 0) "a1b2" one_transfer)
      one_transfer.files
      (retry_failed (around broken) (message 1 failed true) station).1.db.files
retry_failed-AreRetried_example =
    retry_failed-AreRetried (around broken) (message 1 failed true) station

broken_texts :
    (n : ℕ) (c : Call) (x : String) → broken n c ≡ some x → is_unrecoverable_error_message x ≡ false
unfolding is_unrecoverable_error_message find_substring unrecoverable_texts
broken_texts n update_file x h = by_number (nat_beq n 7) h
  where
    by_number :
        (b : Bool)
        → (if b then some "Lost connection" else none) ≡ some x
        → is_unrecoverable_error_message x ≡ false
    by_number true h =
        subst (λ y. is_unrecoverable_error_message y ≡ false) (some-injective "Lost connection" x h)
          refl
    by_number false h = absurd (cc h)
broken_texts n remove_finished x h = absurd (cc h)
broken_texts n get_retries x h = absurd (cc h)
broken_texts n get_times x h = absurd (cc h)
broken_texts n set_retry x h = absurd (cc h)
broken_texts n terminate x h = absurd (cc h)
broken_texts n update_job x h = absurd (cc h)
broken_texts n send_message x h = absurd (cc h)
broken_texts n put_message x h = absurd (cc h)
broken_texts n watch_message x h = absurd (cc h)

handle_other_messages-AreKept_example :
    AreKept
      (around broken)
      messages
      station
      (handle_other_messages (around broken) (λ n. false) messages station)
handle_other_messages-AreKept_example =
    handle_other_messages-AreKept (around broken) (λ n. false) messages station (λ n. refl)
      (λ n. refl) broken_texts
