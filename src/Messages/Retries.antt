-- ===== src/Messages/Retries.antt =====
-- How often a transfer is retried: `getRetry` and `getRetryTimes` of src/db/mysql/Config.cpp.
use fts.Common.{
  Bool, String, eq_ℤ, false, if◌then◌else◌, le_ℤ, lt_ℤ, nat_beq, negsuc, none, pos, some, true, ℕ,
  ℤ, ◌&&◌, ◌==◌, string_key, nat_key,
}
use fts.CommandLine.Types.{JobType, multi_hop, multiple_replica}
use fts.Jobs.Tables.{select_one}
use fts.Jobs.Types.{Db, File, Job, Session}

abbrev is_single_try : JobType → Bool
is_single_try multiple_replica = true
is_single_try multi_hop = true
is_single_try _ = false

-- `server_retry` is the entry of t_server_config for the VO, or for all.
unfoldable pub retries_of_job : (String → ℤ) → Job → ℤ
retries_of_job server_retry j = elim j.retry [
  | none ↦ server_retry j.vo_name
  | some n ↦
      if eq_ℤ n (pos 0) then server_retry j.vo_name else if le_ℤ n (pos 0) then negsuc 0 else n
]

-- The jobs with replicas or hops are not retried.
unfoldable pub limit_retries : JobType → ℤ → ℤ
limit_retries t n = if lt_ℤ (pos 0) n && is_single_try t then pos 0 else n

unfoldable pub get_retry : Session → (String → ℤ) → String → Db → ℤ
unfolding retries_of_job limit_retries select_one
get_retry s server_retry job_id db = elim (select_one (λ (j : Job). j.job_id == job_id) db.jobs) [
  | none ↦ limit_retries s.unread.job_type (server_retry "")
  | some j ↦ limit_retries j.job_type (retries_of_job server_retry j)
]

unfoldable pub get_retry_times : String → ℕ → Db → ℕ
unfolding select_one
get_retry_times job_id file_id db =
    elim (select_one (λ (f : File). nat_beq f.file_id file_id && f.job_id == job_id) db.files) [
      | none ↦ 0
      | some f ↦ f.retry
    ]
