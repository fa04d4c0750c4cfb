-- ===== src/Messages/Terminate.antt =====
-- `terminateReuseProcess` of MySqlAPI.cpp.
use fts.Common.{
  Bool, List, String, [], eq_ℤ, false, if◌then◌else◌, none, not, some, true, ℕ, ℤ, ◌&&◌, ◌==◌, ◌||◌,
  ◌∷◌, string_key, nat_key,
}
use fts.CommandLine.Types.{JobType, multi_hop, session_reuse}
use fts.Jobs.Tables.{is_member, is_terminal, select_one, update_files}
use fts.Jobs.Types.{Db, File, Job, Session, active, failed, is_state}

-- The job of a process, if the message names none.
unfoldable pub job_id_of : String → ℤ → Db → String
unfolding select_one
job_id_of job_id pid db =
    if job_id == ""
    then elim (select_one (λ (f : File). eq_ℤ f.pid pid && is_state f.file_state active) db.files) [
      | none ↦ job_id
      | some f ↦ f.job_id
    ]
    else job_id

abbrev is_one_process : JobType → Bool
is_one_process session_reuse = true
is_one_process multi_hop = true
is_one_process _ = false

unfoldable pub is_reuse : String → Db → Bool
unfolding select_one
is_reuse job_id db = elim (select_one (λ (j : Job). j.job_id == job_id) db.jobs) [
  | none ↦ false
  | some j ↦ is_one_process j.job_type
]

-- The files of the job that have not ended, when they are read.
unfoldable pub open_files : String → List File → List ℕ
open_files job_id [] = []
open_files job_id (f ∷ files) =
    let rest = open_files job_id files in
    if f.job_id == job_id && not (is_terminal f.file_state) then f.file_id ∷ rest else rest

abbrev pub terminated : ℕ → String → File → File
terminated now message f = record f {
  file_state = failed;
  finish_time = some now;
  dest_surl_uuid = none;
  reason = message;
}

-- The statements are executed by the number of the file alone. The files are those of the job that the
-- message names, also where the type was read for the job of the process.
unfoldable pub terminate_reuse_process : Session → String → ℤ → String → Bool → Db → Db
unfolding job_id_of is_reuse open_files
terminate_reuse_process s job_id pid message force db =
    if force || is_reuse (job_id_of job_id pid db) db
    then (let files = open_files job_id db.files in
        let db' = s.others db in
        update_files (λ f. is_member f.file_id files) (terminated db'.now message) db')
    else db
