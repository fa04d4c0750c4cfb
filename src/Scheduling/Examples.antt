-- ===== src/Scheduling/Examples.antt =====
-- Two VOs with queues: the replicas of a file of one, and a file of the other.
use fts.Common.{
  Dict, Double, List, String, [], erase, false, find, inl, length, pos, pos_part, put, refl, some,
  weigh, whole_numbers, ℤ, ◌+◌, ◌-ℤ◌, ◌-◌, ◌∷◌, ◌≡◌, ◌≤◌, string_key, nat_key,
}
use fts.CommandLine.Types.{TransferFile}
use fts.Executor.Samples.{hop}
use fts.Optimizer.Types.{Pair, pair_key}
use fts.Scheduling.Handed.{get_each, handed_once, has_index, pending, times}
use fts.Scheduling.Handler.{get, new_handler}
use fts.Scheduling.Limits.{active_on, into_storage, limit_on}
use fts.Scheduling.Once.{get_files_once, is_at, vos_with}
use fts.Scheduling.OneVo.{HasOneVoPerLink, chosen_of, execute_urlcopy-HasOneVoPerLink}
use fts.Scheduling.Runs.{EndsWith, get_files_ends}
use fts.Scheduling.Serve.{Environment, Serving, Task, get_files, proxy_key}
use fts.Scheduling.Service.{Round, execute_urlcopy}
use fts.Scheduling.Started.{tally}
use fts.Scheduling.Types.{FileIndex, index_key}
use fts.Scheduling.Within.{get_files_within, is_on}
use fts.Transfers.LinkMap.{push_link}
use fts.Transfers.VoShares.{
  Generator, QueueId, apply_vo_shares, is_unschedulable, select_queue_for_pair, select_queues,
}

-- A replica of the same file at another source.
abbrev replica : TransferFile
replica = record hop { file_id = 43; source_se = "https://three.example" }

abbrev other : TransferFile
other = record hop { file_id = 44; job_id = "c3d4"; vo_name = "ops" }

abbrev files : Dict String (List TransferFile)
files = ("dteam", hop ∷ replica ∷ []) ∷ ("ops", other ∷ []) ∷ []

abbrev index : FileIndex
index = record { job = "a1b2"; index = pos 0 }

files_of_dteam : find "dteam" files ≡ some (hop ∷ replica ∷ [])
unfolding find
files_of_dteam = refl

handed_once_example :
    times "dteam" index (get_each ("dteam" ∷ "ops" ∷ "dteam" ∷ []) (new_handler files)).0
      + pending "dteam" index (get_each ("dteam" ∷ "ops" ∷ "dteam" ∷ []) (new_handler files)).1
    ≡ 1
unfolding has_index
handed_once_example =
    handed_once files "dteam" (hop ∷ replica ∷ []) index ("dteam" ∷ "ops" ∷ "dteam" ∷ [])
      (refl, (refl, tt)) ((refl, tt), (tt, tt)) files_of_dteam

-- The replica is not handed out.
first_handed :
    (get_each ("dteam" ∷ "ops" ∷ "dteam" ∷ []) (new_handler files)).0
    ≡ ("dteam", hop) ∷ ("ops", other) ∷ []
unfolding get_each get new_handler find put push_link erase
first_handed = refl

abbrev queue : String → String → QueueId
queue source vo = record {
  source_se = source;
  dest_se = "https://two.example";
  vo_name = vo;
  active_count = 1;
}

abbrev queues : List QueueId
queues = queue "https://one.example" "dteam" ∷ queue "https://three.example" "dteam" ∷ []

abbrev around : Environment
around = record {
  get_storage_config = λ se. record { inbound_max_active = pos 3; outbound_max_active = pos 0 };
  get_ready_transfers = λ queues. files;
  max_url_copy = pos 10;
  url_copy_count_before = pos 3;
  url_copy_count = pos 4;
  get_proxy_file = λ dn credential. "/tmp/x509up";
  interrupted = λ n. false;
}

-- Of the three slots of the destination two are taken, so one transfer is started.
one_started : get_files around queues ≡ some (record { transfer = hop; proxy = "/tmp/x509up" } ∷ [])
unfolding get_files weigh put find push_link ◌-ℤ◌ get erase
one_started = refl

get_files_ends_example :
    (s' : Serving) × (get_files around queues ≡ some s'.tasks) × EndsWith around queues s'
get_files_ends_example = get_files_ends around queues (refl, (refl, tt))

get_files_once_example :
    (tasks : List Task) × (get_files around queues ≡ some tasks)
    × (tally (is_at index) tasks ≤ vos_with index files)
get_files_once_example = get_files_once around queues index (refl, (refl, tt))

get_files_within_example :
    (tasks : List Task) × (get_files around queues ≡ some tasks)
    × (tally (is_on into_storage "https://two.example") tasks
        ≤ pos_part (limit_on into_storage (around.get_storage_config "https://two.example"))
          - active_on into_storage "https://two.example" queues)
    × (length tasks ≤ pos_part (pos 10 -ℤ pos 4))
get_files_within_example =
    get_files_within around queues into_storage "https://two.example" (refl, (refl, tt))

instance abbrev doubles : Double ℤ
doubles = whole_numbers

-- A distribution that always picks the first.
instance abbrev first : Generator ℤ (Unit {0})
first = record { discrete = λ g weights. (0, g) }

-- On the link from the first storage the two VOs have a share, and "dteam" is chosen.
abbrev shares : Pair → List (String × ℤ)
shares p = ("dteam", pos 2) ∷ ("ops", pos 1) ∷ []

abbrev pending_queues : List QueueId
pending_queues = queue "https://one.example" "dteam" ∷ queue "https://one.example" "ops" ∷ []

abbrev around_one : Environment
around_one = record around { get_ready_transfers = λ queues. ("dteam", hop ∷ []) ∷ [] }

chosen_example : chosen_of shares pending_queues tt ≡ queue "https://one.example" "dteam" ∷ []
unfolding apply_vo_shares select_queues push_link select_queue_for_pair is_unschedulable find put
chosen_example = refl

execute_urlcopy-HasOneVoPerLink_example :
    (x : Round) × (execute_urlcopy around_one shares pending_queues tt ≡ some x)
    × HasOneVoPerLink x.tasks
unfolding apply_vo_shares select_queues push_link select_queue_for_pair is_unschedulable find put
execute_urlcopy-HasOneVoPerLink_example =
    execute_urlcopy-HasOneVoPerLink around_one shares pending_queues tt (refl, tt)
      (((inl (refl, refl)), tt), tt)
