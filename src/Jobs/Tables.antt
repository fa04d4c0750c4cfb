-- ===== src/Jobs/Tables.antt =====
-- The SQL statements of MySqlAPI.cpp, on the tables as lists of rows.
use fts.Common.{
  Bool, List, Option, String, [], any, false, if◌then◌else◌, keep, ltb, map, nat_beq, none, pos,
  some, suc, true, ℕ, ℤ, ◌&&◌, ◌==◌, ◌||◌, ◌∷◌, string_key, nat_key,
}
use fts.Jobs.Types.{
  Db, File, Job, State, canceled, failed, finished, finished_dirty, is_state, not_used,
}

module _ {ℓ} {A : Type ℓ} where
  -- `UPDATE t SET f WHERE p`
  unfoldable pub update : (A → Bool) → (A → A) → List A → List A
  update p f [] = []
  update p f (r ∷ rows) = (if p r then f r else r) ∷ update p f rows

  -- `SELECT ... WHERE p LIMIT 1`
  unfoldable pub select_one : (A → Bool) → List A → Option A
  select_one p [] = none
  select_one p (r ∷ rows) = if p r then some r else select_one p rows

-- `SELECT COUNT(*) WHERE p`, as a test for more than none
unfoldable pub exists_file : (File → Bool) → Db → Bool
exists_file p db = any p db.files

unfoldable pub update_files : (File → Bool) → (File → File) → Db → Db
unfolding update
update_files p f db = record db { files = update p f db.files }

unfoldable pub update_jobs : (Job → Bool) → (Job → Job) → Db → Db
unfolding update
update_jobs p f db = record db { jobs = update p f db.jobs }

unfoldable pub is_member : ℕ → List ℕ → Bool
is_member n [] = false
is_member n (m ∷ ms) = nat_beq n m || is_member n ms

unfoldable pub distinct : List ℕ → ℕ
unfolding is_member
distinct [] = 0
distinct (n ∷ ns) = let rest = distinct ns in if is_member n ns then rest else suc rest

abbrev pub index_of : File → ℕ
index_of f = f.file_index

-- `SELECT COUNT(DISTINCT file_index) FROM t_file WHERE job_id = :jobId AND p`
unfoldable pub count_indices : (File → Bool) → String → Db → ℤ
unfolding distinct
count_indices p job_id db =
    pos (distinct (map index_of (keep (λ (f : File). f.job_id == job_id && p f) db.files)))

abbrev pub is_terminal : State → Bool
is_terminal finished = true
is_terminal failed = true
is_terminal canceled = true
is_terminal _ = false

-- `NOT IN ('FAILED','FINISHEDDIRTY','CANCELED','FINISHED')`
abbrev pub is_open : State → Bool
is_open finished = false
is_open failed = false
is_open canceled = false
is_open finished_dirty = false
is_open _ = true

-- `SELECT min(file_id) FROM t_file WHERE file_state = 'NOT_USED' AND job_id = :job_id`
unfoldable pub least_unused : String → List File → Option ℕ
least_unused job_id [] = none
least_unused job_id (f ∷ files) =
    let rest = least_unused job_id files in
    if f.job_id == job_id && is_state f.file_state not_used
    then elim rest [
      | none ↦ some f.file_id
      | some n ↦ some (if ltb n f.file_id then n else f.file_id)
    ]
    else rest
