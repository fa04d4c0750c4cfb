-- ===== src/Jobs/Updates.antt =====
-- The updates of files follow the life of a file, whatever other sessions do that follow it too.
use fts.Common.{
  Bool, Bool-cases, Option, ap, eq_ℤ, false, if◌then◌else◌, inl, inr, nat_beq, none, not, pos, refl,
  some, subst, sym, true, ℕ, ◌&&◌, ◌||◌, ◌∙◌, ◌≡◌,
}
use fts.Jobs.Files.{
  Report, follow_up, is_rejected, is_target, job_of, resolve, stored_state, update_found,
  update_resolved, update_row, update_transfer_status, write_report, written,
}
use fts.Jobs.Follows.{
  Follows, Follows-if, Follows-refl, Follows-trans, Follows-update, and_right, follow_up-Follows,
}
use fts.Jobs.Lifecycle.{Evolves, Evolves-step, IsStep, reported}
use fts.Jobs.Replicas.{is_archiving_transfer}
use fts.Jobs.Tables.{exists_file, is_terminal, select_one, update_files}
use fts.Jobs.Types.{
  Db, File, Job, Session, State, active, archiving, finished, is_state, is_state_iff, ready,
}

or_parts : (a b c : Bool) → (a || (b || c)) ≡ false → (a ≡ false) × (b ≡ false)
or_parts false false c h = (refl, refl)
or_parts false true c h = absurd (cc h)
or_parts true b c h = absurd (cc h)

stored_state-IsStep :
    (u : Report) (j : Job) (a : State) (db : Db)
    → is_rejected u a ≡ false
    → IsStep a (stored_state u j db)
unfolding is_rejected stored_state
stored_state-IsStep u j a db h =
    let (t, r) = or_parts (is_terminal a) (is_state a active && is_state u.new_state ready) _ h in
    go (is_state u.new_state finished && is_archiving_transfer j u.job_id db) t r
  where
    and_false : (b : Bool) → (b && false) ≡ false
    and_false true = refl
    and_false false = refl

    go :
        (b : Bool)
        → is_terminal a ≡ false
        → (is_state a active && is_state u.new_state ready) ≡ false
        → IsStep a (if b then archiving else u.new_state)
    go true t r = reported t (and_false (is_state a active))
    go false t r = reported t r

not_terminal : (u : Report) (a : State) → is_rejected u a ≡ false → is_terminal a ≡ false
unfolding is_rejected
not_terminal u a h =
    (or_parts (is_terminal a) (is_state a active && is_state u.new_state ready)
      (is_state a u.new_state
        && not (is_state u.new_state ready && not (eq_ℤ u.process_id (pos 0))))
      h).0

written-Evolves :
    (s : Session) (now : ℕ) (u : Report) (stored state : State) (f : File)
    → is_rejected u stored ≡ false
    → IsStep stored state
    → is_target u stored f ≡ true
    → Evolves f (written s now u stored state f)
unfolding written
written-Evolves s now u stored state f h p t =
    let e = (is_state_iff f.file_state stored).0 (and_right _ _ t) in
    Evolves-step f (written s now u stored state f) refl refl
      (ap is_terminal e ∙ not_terminal u stored h) (subst (λ a. IsStep a state) (sym e) p)

write_report-Follows :
    (s : Session) (u : Report) (j : Job) (row : File) (state : State) (db : Db)
    → is_rejected u row.file_state ≡ false
    → IsStep row.file_state state
    → Follows db (write_report s u j row state db).1
unfolding write_report
write_report-Follows s u j row state db h p =
    elim (Bool-cases (exists_file (is_target u row.file_state) db)) [
      | inl e ↦ rw e (
          Follows-trans db _ _
            (Follows-update (is_target u row.file_state) (written s db.now u row.file_state state)
              db (λ f. written-Evolves s db.now u row.file_state state f h p))
            (followed (
              update_files (is_target u row.file_state) (written s db.now u row.file_state state)
                db)))
      | inr e ↦ rw e (Follows-refl db)
    ]
  where
    followed :
        (db' : Db)
        → Follows db' (if s.breaks_off then db' else follow_up u j state row.dest_surl_uuid db')
    followed db' =
        Follows-if s.breaks_off db' db' _ (Follows-refl db')
          (follow_up-Follows u j state row.dest_surl_uuid db')

-- The other sessions follow the life of a file too.
abbrev pub OthersFollow : Session → Type 0
OthersFollow s = (db : Db) → Follows db (s.others db)

update_row-Follows :
    (s : Session) (u : Report) (row : File) (db : Db)
    → OthersFollow s
    → Follows db (update_row s u row db).1
unfolding update_row
update_row-Follows s u row db h = elim (Bool-cases (is_rejected u row.file_state)) [
  | inl e ↦ rw e (Follows-refl db)
  | inr e ↦
      let j = job_of s u.job_id db in
      rw e (
        Follows-trans db (s.others db) _ (h db) (
          write_report-Follows s u j row (stored_state u j db) (s.others db) e
            (stored_state-IsStep u j row.file_state db e)))
]

update_found-Follows :
    (s : Session) (u : Report) (row : Option File) (db : Db)
    → OthersFollow s
    → Follows db (update_found s u row db).1
update_found-Follows s u none db h = Follows-refl db
update_found-Follows s u (some row) db h = update_row-Follows s u row db h

-- A report on a file, with what other sessions do meanwhile, takes every file along its life only: it
-- leaves no terminal state, and does not go back from ACTIVE to READY in one step.
pub update_transfer_status-Follows :
    (s : Session) (u : Report) (db : Db)
    → OthersFollow s
    → Follows db (update_transfer_status s u db).1
unfolding update_transfer_status update_resolved
update_transfer_status-Follows s u db h =
    let v = resolve u db in
    update_found-Follows s v (select_one (λ (f : File). nat_beq f.file_id v.file_id) db.files) db h
