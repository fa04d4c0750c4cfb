-- ===== src/Jobs/Replicas.antt =====
-- MySqlAPI.cpp: the next file of a job with replicas or hops.
use fts.Common.{
  Bool, List, Option, String, [], false, if◌then◌else◌, keep, length, lt_ℤ, ltb, nat_beq, negsuc,
  none, some, true, ℕ, ◌&&◌, ◌==◌, ◌||◌, ◌∷◌, string_key, nat_key,
}
use fts.CommandLine.Types.{JobType, multi_hop}
use fts.Jobs.Tables.{exists_file, least_unused, select_one, update_files}
use fts.Jobs.Types.{Db, File, Job, active, is_state, not_used, ready, submitted}
use fts.Optimizer.Run.{lt_string}

-- A link and the files that wait for it.
abbrev pub Candidate : Type 0
Candidate = (String × String) × ℕ

abbrev pub count : (File → Bool) → List File → ℕ
count p files = length (keep p files)

abbrev queued_files : String → File → Db → ℕ
queued_files vo f db =
    count
      (λ (g : File).
        is_state g.file_state submitted
        && (g.source_se == f.source_se && (g.dest_se == f.dest_se && g.vo_name == vo)))
      db.files

abbrev is_before : String × String → String × String → Bool
is_before (s, d) (s', d') = lt_string s s' || (s == s' && lt_string d d')

-- The smallest queue, the link that comes first in the order of the map where two are equal.
abbrev pub better : Candidate → Option Candidate → Candidate
better c none = c
better (link, n) (some (link', m)) =
    if ltb n m || (nat_beq n m && is_before link link') then (link, n) else (link', m)

-- The links of the files that are not used, up to the first that is free.
unfoldable pub best_link : String → Db → List File → Option Candidate
best_link vo db [] = none
best_link vo db (f ∷ files) =
    let rest = best_link vo db files in
    let c : Candidate = ((f.source_se, f.dest_se), queued_files vo f db) in
    if nat_beq (queued_files vo f db) 0 then some c else some (better c rest)

unfoldable pub get_best_next_replica : String → String → Db → ℕ
unfolding best_link select_one
get_best_next_replica job_id vo db =
    let unused = λ (f : File). f.job_id == job_id && is_state f.file_state not_used in
    elim (best_link vo db (keep unused db.files)) [
      | none ↦ 0
      | some ((source, dest), n) ↦
          elim (select_one (λ f. unused f && (f.source_se == source && f.dest_se == dest))
            db.files) [ none ↦ 0 | some f ↦ f.file_id ]
    ]

abbrev pub or_zero : Option ℕ → ℕ
or_zero none = 0
or_zero (some n) = n

-- The file becomes SUBMITTED if it is not used.
unfoldable pub use_file : String → ℕ → Option String → Db → Db
unfolding update_files
use_file job_id file_id uuid db =
    update_files
      (λ f. f.job_id == job_id && (nat_beq f.file_id file_id && is_state f.file_state not_used))
      (λ f. record f { file_state = submitted; finish_time = none; dest_surl_uuid = uuid }) db

abbrev pub strategy_of : Option File → String
strategy_of none = "orderly"
strategy_of (some f) = elim f.selection_strategy [ none ↦ "orderly" | some s ↦ s ]

abbrev pub vo_of : Option File → String
vo_of none = ""
vo_of (some f) = f.vo_name

abbrev pub is_started : File → Bool
is_started f = is_state f.file_state ready || is_state f.file_state active

unfoldable pub use_file_replica : String → ℕ → Option String → Db → Db
unfolding use_file get_best_next_replica exists_file
use_file_replica job_id file_id uuid db =
    let row = select_one (λ (f : File). nat_beq f.file_id file_id) db.files in
    if exists_file (λ f. is_started f && f.job_id == job_id) db
    then db
    else if strategy_of row == "auto"
    then (let best = get_best_next_replica job_id (vo_of row) db in
        if ltb 0 best then use_file job_id best uuid db else db)
    else use_file job_id (or_zero (least_unused job_id db.files)) uuid db

unfoldable pub get_next_hop : String → Db → ℕ
unfolding least_unused
get_next_hop job_id db = or_zero (least_unused job_id db.files)

unfoldable pub use_next_hop : String → Db → Db
unfolding get_next_hop
use_next_hop job_id db =
    let next = get_next_hop job_id db in
    if nat_beq next 0
    then db
    else update_files (λ f. nat_beq f.file_id next && is_state f.file_state not_used)
        (λ f. record f { file_state = submitted; finish_time = none }) db

unfoldable pub set_null_dest_surl_multi_hop : String → Db → Db
unfolding update_files
set_null_dest_surl_multi_hop job_id db =
    update_files (λ f. f.job_id == job_id && is_state f.file_state not_used)
      (λ f. record f { dest_surl_uuid = none }) db

abbrev pub is_multi_hop : JobType → Bool
is_multi_hop multi_hop = true
is_multi_hop _ = false

unfoldable pub is_archiving_transfer : Job → String → Db → Bool
unfolding get_next_hop
is_archiving_transfer j job_id db =
    let next = if is_multi_hop j.job_type then get_next_hop job_id db else 0 in
    nat_beq next 0 && elim j.archive_timeout [ none ↦ false | some t ↦ lt_ℤ (negsuc 0) t ]
