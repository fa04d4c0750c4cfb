-- ===== src/Jobs/Follows.antt =====
-- Every statement on files follows the life of a file.
use fts.Common.{
  Bool, Option, String, ap, false, if◌then◌else◌, ltb, nat_beq, none, refl, subst, sym, true, ℕ,
  ◌&&◌, ◌==◌, ◌≡◌, string_key, nat_key,
}
use fts.CommandLine.Types.{JobType, multi_hop, multiple_replica, regular, session_reuse}
use fts.Jobs.Files.{Report, follow_up}
use fts.Jobs.Lifecycle.{
  Evolves, IsPath, JobRows, JobRows-refl, JobRows-trans, Rows, Rows-refl, Rows-trans, Rows-update,
  selected, stays, then_step,
}
use fts.Jobs.Replicas.{
  get_best_next_replica, is_started, or_zero, set_null_dest_surl_multi_hop, strategy_of, use_file,
  use_file_replica, use_next_hop, vo_of,
}
use fts.Jobs.Tables.{exists_file, is_terminal, least_unused, select_one, update_files}
use fts.Jobs.Types.{Db, File, Job, State, is_state, is_state_iff, not_used, submitted}

-- The files have evolved, and the jobs that were closed have stayed.
pub record Follows (db db' : Db) : Type 0 where
  pub rows : Rows db.files db'.files
  pub closed : JobRows db.jobs db'.jobs

pub Follows-refl : (db : Db) → Follows db db
Follows-refl db = record { rows = Rows-refl db.files; closed = JobRows-refl db.jobs }

pub Follows-trans : (a b c : Db) → Follows a b → Follows b c → Follows a c
Follows-trans a b c x y = record {
  rows = Rows-trans a.files b.files c.files x.rows y.rows;
  closed = JobRows-trans a.jobs b.jobs c.jobs x.closed y.closed;
}

pub Follows-update :
    (p : File → Bool) (h : File → File) (db : Db)
    → ((f : File) → p f ≡ true → Evolves f (h f))
    → Follows db (update_files p h db)
unfolding update_files
Follows-update p h db k = record {
  rows = Rows-update p h db.files k;
  closed = JobRows-refl db.jobs;
}

pub Evolves-unused :
    (f g : File)
    → f.file_id ≡ g.file_id
    → f.job_id ≡ g.job_id
    → is_state f.file_state not_used ≡ true
    → IsPath not_used g.file_state
    → Evolves f g
Evolves-unused f g i j u p =
    let e = (is_state_iff f.file_state not_used).0 u in
    record {
      same_id = i;
      same_job = j;
      path = subst (λ a. IsPath a g.file_state) (sym e) p;
      kept = λ t. absurd (cc (ap is_terminal (sym e), t));
    }

submitted_path : IsPath not_used submitted
submitted_path = then_step stays selected

pub and_last : (a b c : Bool) → (a && (b && c)) ≡ true → c ≡ true
and_last true true c h = h
and_last true false c h = absurd (cc h)
and_last false b c h = absurd (cc h)

pub and_right : (a b : Bool) → (a && b) ≡ true → b ≡ true
and_right true b h = h
and_right false b h = absurd (cc h)

use_file-Follows :
    (job_id : String) (file_id : ℕ) (uuid : Option String) (db : Db)
    → Follows db (use_file job_id file_id uuid db)
unfolding use_file
use_file-Follows job_id file_id uuid db = Follows-update _ _ db (λ f h.
    Evolves-unused f
      (record f { file_state = submitted; finish_time = none; dest_surl_uuid = uuid }) refl refl
      (and_last _ _ _ h) submitted_path)

pub Follows-if :
    (b : Bool) (db x y : Db) → Follows db x → Follows db y → Follows db (if b then x else y)
Follows-if true db x y h k = h
Follows-if false db x y h k = k

use_file_replica-Follows :
    (job_id : String) (file_id : ℕ) (uuid : Option String) (db : Db)
    → Follows db (use_file_replica job_id file_id uuid db)
unfolding use_file_replica
use_file_replica-Follows job_id file_id uuid db =
    let row = select_one (λ (f : File). nat_beq f.file_id file_id) db.files in
    let best = get_best_next_replica job_id (vo_of row) db in
    Follows-if (exists_file (λ f. is_started f && f.job_id == job_id) db) db _ _ (Follows-refl db) (
      Follows-if (strategy_of row == "auto") db _ _
        (Follows-if (ltb 0 best) db _ _ (use_file-Follows job_id best uuid db) (Follows-refl db))
        (use_file-Follows job_id (or_zero (least_unused job_id db.files)) uuid db))

use_next_hop-Follows : (job_id : String) (db : Db) → Follows db (use_next_hop job_id db)
unfolding use_next_hop
use_next_hop-Follows job_id db = Follows-if _ db _ _ (Follows-refl db) (
    Follows-update _ _ db (λ f h.
      Evolves-unused f (record f { file_state = submitted; finish_time = none }) refl refl
        (and_right _ _ h) submitted_path))

set_null_dest_surl_multi_hop-Follows :
    (job_id : String) (db : Db) → Follows db (set_null_dest_surl_multi_hop job_id db)
unfolding set_null_dest_surl_multi_hop
set_null_dest_surl_multi_hop-Follows job_id db = Follows-update _ _ db (λ f h.
    let e = (is_state_iff f.file_state not_used).0 (and_right _ _ h) in
    Evolves-unused f (record f { dest_surl_uuid = none }) refl refl (and_right _ _ h)
      (subst (λ a. IsPath not_used a) (sym e) stays))

pub follow_up-Follows :
    (u : Report) (j : Job) (state : State) (uuid : Option String) (db : Db)
    → Follows db (follow_up u j state uuid db)
unfolding follow_up
follow_up-Follows u j state uuid db = go j.job_type
  where
    go : (t : JobType) → Follows db (follow_up u (record j { job_type = t }) state uuid db)
    go regular = Follows-refl db
    go session_reuse = Follows-refl db
    go multiple_replica =
        Follows-if _ db _ _ (use_file_replica-Follows u.job_id u.file_id uuid db) (Follows-refl db)
    go multi_hop =
        Follows-if _ db _ _ (use_next_hop-Follows u.job_id db)
          (set_null_dest_surl_multi_hop-Follows u.job_id db)
