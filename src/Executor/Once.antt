-- ===== src/Executor/Once.antt =====
-- A transfer that another server has taken is not started.
use fts.Common.{
  Bool, Option, String, false, inl, inr, nat_beq, not, pos, refl, some, true, ◌&&◌, ◌==◌, ◌||◌, ◌∙◌,
  ◌≡◌, string_key, nat_key,
}
use fts.CommandLine.Types.{TransferFile}
use fts.Executor.Claims.{is_claimed, run_executor-Starts}
use fts.Executor.Run.{Surroundings, World, report_on, run_executor}
use fts.Executor.Settings.{LinkSettings, ServerSettings}
use fts.Jobs.Accepted.{update_transfer_status_lem}
use fts.Jobs.Files.{is_rejected, is_target}
use fts.Jobs.Tables.{exists_file, is_terminal, select_one}
use fts.Jobs.Types.{File, State, active, is_state, ready}

-- The states that only a server that has taken the file gives it, and those that end it.
abbrev pub is_taken : State → Bool
is_taken a = is_terminal a || (is_state a active || is_state a ready)

taken_rejected : (x y z : Bool) → (x || (y || z)) ≡ true → (x || (y && true || (z && true))) ≡ true
taken_rejected true y z h = refl
taken_rejected false true z h = refl
taken_rejected false false true h = refl
taken_rejected false false false h = absurd (cc h)

taken-is_rejected :
    (t : TransferFile) (a : State)
    → is_taken a ≡ true
    → is_rejected (report_on t (pos 0) ready "") a ≡ true
unfolding is_rejected report_on
taken-is_rejected t a h = taken_rejected (is_terminal a) (is_state a active) (is_state a ready) h

lost :
    (taken rejected present : Bool)
    → (taken ≡ true → rejected ≡ true)
    → (taken || not present) ≡ true
    → (not rejected && present) ≡ false
lost true rejected present h k = rw (h refl) refl
lost false false false h k = refl
lost false true false h k = refl
lost false rejected true h k = absurd (cc k)

is_claimed-taken :
    (e : Surroundings) (t : TransferFile) (row : File) (w : World)
    → (t.job_id == "" || nat_beq t.file_id 0) ≡ false
    → select_one (λ (f : File). nat_beq f.file_id t.file_id) w.db.files ≡ some row
    → (is_taken row.file_state
        || not (
            exists_file
              (is_target (report_on t (pos 0) ready "") row.file_state)
              (e.session.others w.db)))
      ≡ true
    → is_claimed e t w ≡ false
unfolding is_claimed report_on
is_claimed-taken e t row w g h k =
    let u = report_on t (pos 0) ready "" in
    update_transfer_status_lem e.session u row w.db g h
    ∙ lost (is_taken row.file_state) (is_rejected u row.file_state)
        (exists_file (is_target u row.file_state) (e.session.others w.db))
        (taken-is_rejected t row.file_state) k

-- No process is started for a transfer that the database has as READY, ACTIVE or ended, or that the
-- other sessions take out of the state that was read before the claim is written.
pub run_executor_taken :
    (read_auth : String → Option String) (issuer : String → String → Option String)
    (e : Surroundings) (l : LinkSettings) (s : ServerSettings) (t : TransferFile) (row : File)
    (w : World)
    → (t.job_id == "" || nat_beq t.file_id 0) ≡ false
    → select_one (λ (f : File). nat_beq f.file_id t.file_id) w.db.files ≡ some row
    → (is_taken row.file_state
        || not (
            exists_file
              (is_target (report_on t (pos 0) ready "") row.file_state)
              (e.session.others w.db)))
      ≡ true
    → (run_executor read_auth issuer e l s t w).started_lines ≡ w.started_lines
run_executor_taken read_auth issuer e l s t row w g h k =
    elim (run_executor-Starts read_auth issuer e l s t w) [
      | inl a ↦ a
      | inr (c, b, won, d) ↦ absurd (cc (won, is_claimed-taken e t row w g h k))
    ]
