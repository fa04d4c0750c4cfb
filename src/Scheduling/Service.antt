-- ===== src/Scheduling/Service.antt =====
-- TransfersService.cpp: a round of the service, with the shares of the VOs.
use fts.Common.{
  Bool, Dict, Double, List, Option, String, [], false, if◌then◌else◌, is_empty, le_ℤ, map, none,
  pos, some, ℕ, ℤ, ◌++◌, ◌-ℤ◌, ◌∷◌, string_key, nat_key,
}
use fts.CommandLine.Types.{TransferFile}
use fts.Optimizer.Types.{Pair, pair_key}
use fts.Scheduling.Serve.{Environment, Task, get_files, proxy_key}
use fts.Transfers.VoShares.{Generator, QueueId, apply_vo_shares}

-- The fields of `events::Message` that `failUnschedulable` sets, but for the time stamp.
pub record StatusMessage : Type 0 where
  pub transfer_status : String
  pub process_id : ℤ
  pub job_id : String
  pub file_id : ℕ
  pub source_se : String
  pub dest_se : String
  pub transfer_message : String
  pub retry : Bool
  pub errcode : ℕ

abbrev pub eperm : ℕ
eperm = 1

unfoldable pub unschedulable_message : TransferFile → StatusMessage
unschedulable_message t = record {
  transfer_status = "FAILED";
  process_id = pos 0;
  job_id = t.job_id;
  file_id = t.file_id;
  source_se = t.source_se;
  dest_se = t.dest_se;
  transfer_message = "No share configured for this VO";
  retry = false;
  errcode = eperm;
}

-- The messages, in the order in which they are sent.
unfoldable pub fail_unschedulable : Dict String (List TransferFile) → List StatusMessage
unfolding unschedulable_message
fail_unschedulable [] = []
fail_unschedulable ((vo, ts) ∷ files) = map unschedulable_message ts ++ fail_unschedulable files

-- The messages and the tasks of a round.
pub record Round : Type 0 where
  pub messages : List StatusMessage
  pub tasks : List Task

abbrev pub nothing_done : Round
nothing_done = record { messages = []; tasks = [] }

unfoldable pub with_tasks : List StatusMessage → Option (List Task) → Option Round
with_tasks messages none = none
with_tasks messages (some tasks) = some (record { messages = messages; tasks = tasks })

-- After the shares were applied.
unfoldable pub schedule : Environment → List QueueId → List QueueId → Option Round
unfolding fail_unschedulable with_tasks
schedule e queues unschedulable =
    let messages = fail_unschedulable (e.get_ready_transfers unschedulable) in
    if is_empty queues
    then some (record { messages = messages; tasks = [] })
    else with_tasks messages (get_files e queues)

module _ {F G : Type 0} ⦃d : Double F⦄ ⦃r : Generator F G⦄ where
  -- `queues` are those of the database in the order that `std::random_shuffle` gave them. `none` means
  -- that the fuel of `getFiles` ran out.
  unfoldable pub execute_urlcopy :
      Environment → (Pair → List (String × F)) → List QueueId → G → Option Round
  unfolding schedule apply_vo_shares
  execute_urlcopy e get_share_config queues g =
      let (chosen, unschedulable, g') = apply_vo_shares get_share_config queues ([], g) in
      if le_ℤ (e.max_url_copy -ℤ e.url_copy_count_before) (pos 0)
      then some nothing_done
      else schedule e chosen unschedulable

  -- A turn of the service. A server that is drained does nothing.
  unfoldable pub service_turn :
      Bool → Environment → (Pair → List (String × F)) → List QueueId → G → Option Round
  unfolding execute_urlcopy
  service_turn drained e get_share_config queues g =
      if drained then some nothing_done else execute_urlcopy e get_share_config queues g
