-- ===== src/Scheduling/Serve.antt =====
-- TransfersService.cpp: the loop of `getFiles`, which starts the transfers.
use fts.Common.{
  Bool, Dict, Key, List, Option, String, [], arith, false, find, get_or, if◌then◌else◌, is_empty,
  le_ℤ, nat_beq, none, pos, put, some, str_beq_iff, suc, true, zero, ℕ, ℤ, ◌&&◌, ◌++◌, ◌+◌, ◌-ℤ◌,
  ◌==◌, ◌||◌, ◌↔◌, ◌∷◌, ◌≡◌, string_key, nat_key,
}
use fts.CommandLine.Types.{TransferFile}
use fts.Scheduling.Handler.{Handler, get, is_served, new_handler, size}
use fts.Scheduling.Slots.{Slots, StorageConfig, is_some, slots_for, take_slots}
use fts.Scheduling.Types.{index_key}
use fts.Transfers.VoShares.{QueueId}

-- A FileTransferExecutor as it is given to the pool.
pub record Task : Type 0 where
  pub transfer : TransferFile
  pub proxy : String

-- The key of the proxies: the delegation and the user.
pub record ProxyKey : Type 0 where
  pub delegation : String
  pub user : String

abbrev pub proxy_key_beq : ProxyKey → ProxyKey → Bool
proxy_key_beq a b = a.delegation == b.delegation && a.user == b.user

pub proxy_key_beq_iff : (a b : ProxyKey) → (proxy_key_beq a b ≡ true) ↔ (a ≡ b)
proxy_key_beq_iff a b =
    ground (arith, str_beq_iff a.delegation b.delegation, str_beq_iff a.user b.user)

instance abbrev pub proxy_key : Key ProxyKey
proxy_key = record { same = proxy_key_beq; same_iff = proxy_key_beq_iff }

-- The variables of the loop. `checks` counts the tests for an interruption, and `is_interrupted` says that
-- one was true, which ends the loop.
pub record Serving : Type 0 where
  pub handler : Handler
  pub available : ℤ
  pub slots : Slots
  pub scheduled_by_activity : Dict String ℕ
  pub proxies : Dict ProxyKey String
  pub tasks : List Task
  pub checks : ℕ
  pub is_interrupted : Bool

abbrev pub proxy_key_of : TransferFile → ProxyKey
proxy_key_of t = record { delegation = t.cred_id; user = t.user_dn }

abbrev pub left_for : String → Dict String ℤ → ℤ
left_for se m = get_or (pos 0) (find se m)

unfoldable pub start_task : TransferFile → Serving → Serving
start_task t s = record s {
  available = s.available -ℤ pos 1;
  slots = record {
    left_for_destination = take_slots t.dest_se 1 s.slots.left_for_destination;
    left_for_source = take_slots t.source_se 1 s.slots.left_for_source;
  };
  scheduled_by_activity =
      put t.activity (suc (get_or 0 (find t.activity s.scheduled_by_activity)))
        s.scheduled_by_activity;
  tasks =
      s.tasks ++ record { transfer = t; proxy = get_or "" (find (proxy_key_of t) s.proxies) } ∷ [];
}

-- The limits of the destination and of the source.
unfoldable pub start_if_free : TransferFile → Serving → Serving
unfolding start_task
start_if_free t s =
    if le_ℤ (left_for t.dest_se s.slots.left_for_destination) (pos 0)
    then s
    else if le_ℤ (left_for t.source_se s.slots.left_for_source) (pos 0)
    then s
    else start_task t s

unfoldable pub note_activity : TransferFile → Serving → Serving
note_activity t s =
    if is_some (find t.activity s.scheduled_by_activity)
    then s
    else record s { scheduled_by_activity = put t.activity 0 s.scheduled_by_activity }

module _ (get_proxy_file : String → String → String) where
  unfoldable pub note_proxy : TransferFile → Serving → Serving
  note_proxy t s = if is_some (find (proxy_key_of t) s.proxies) then s else record s {
    proxies = put (proxy_key_of t) (get_proxy_file t.user_dn t.cred_id) s.proxies;
  }

abbrev pub is_incomplete : TransferFile → Bool
is_incomplete t = nat_beq t.file_id 0 || t.user_dn == "" || t.cred_id == ""

module _ (get_proxy_file : String → String → String) where
  unfoldable pub serve_file : TransferFile → Serving → Serving
  unfolding note_activity note_proxy start_if_free
  serve_file t s =
      if is_incomplete t
      then s
      else start_if_free t (note_proxy get_proxy_file t (note_activity t s))

  unfoldable pub serve_got : Option TransferFile × Handler → Serving → Serving
  unfolding serve_file
  serve_got (none, h) s = record s { handler = h }
  serve_got (some t, h) s = serve_file t (record s { handler = h })

  unfoldable pub serve_vo : String → Serving → Serving
  unfolding serve_got
  serve_vo vo s = serve_got (get vo s.handler) (record s { checks = suc s.checks })

module _ (get_proxy_file : String → String → String) (interrupted : ℕ → Bool) where
  -- The loop over the VOs. `interrupted` tells what each test for an interruption finds.
  unfoldable pub serve_pass : List String → Serving → Serving
  unfolding serve_vo
  serve_pass [] s = s
  serve_pass (vo ∷ vos) s =
      let rest = serve_pass vos (serve_vo get_proxy_file vo s) in
      if le_ℤ s.available (pos 0)
      then s
      else if interrupted s.checks
      then record s { is_interrupted = true }
      else rest

  -- The outer loop. `none` means that the fuel ran out.
  unfoldable pub serve : ℕ → Serving → Option Serving
  unfolding serve_pass is_served
  serve zero s = none
  serve (suc fuel) s =
      let rest = serve fuel (serve_pass s.handler.vos s) in
      if s.is_interrupted || is_served s.handler || le_ℤ s.available (pos 0) then some s else rest

abbrev pub new_serving : Dict String (List TransferFile) → ℤ → Slots → Serving
new_serving files available slots = record {
  handler = new_handler files;
  available = available;
  slots = slots;
  scheduled_by_activity = [];
  proxies = [];
  tasks = [];
  checks = 0;
  is_interrupted = false;
}

-- What `getFiles` asks for: the limits of the storages and the files of queues from the database, the
-- largest number of processes, the processes that there are at first and when the loop starts, the proxies, and the interruptions.
pub record Environment : Type 0 where
  pub get_storage_config : String → StorageConfig
  pub get_ready_transfers : List QueueId → Dict String (List TransferFile)
  pub max_url_copy : ℤ
  pub url_copy_count_before : ℤ
  pub url_copy_count : ℤ
  pub get_proxy_file : String → String → String
  pub interrupted : ℕ → Bool

-- The tasks that are given to the pool. The fuel is two more than the files: there is a result by
-- serve-Ends (Ends).
unfoldable pub get_files : Environment → List QueueId → Option (List Task)
unfolding slots_for serve new_handler size
get_files e queues =
    let slots = slots_for e.get_storage_config queues in
    let files = e.get_ready_transfers queues in
    let s = new_serving files (e.max_url_copy -ℤ e.url_copy_count) slots in
    if is_empty queues || is_empty files
    then some []
    else elim (serve e.get_proxy_file e.interrupted (2 + size (new_handler files)) s) [
      | none ↦ none
      | some s' ↦ some s'.tasks
    ]
