-- ===== src/Jobs/Accepted.antt =====
-- Which reports on a file are stored.
use mathlib.Core.Option.{some-injective}
use Prim.Native.Nat.{zero, suc}
use fts.Common.{
  Bool, Bool-cases, List, [], any, ap, arith, eq_ℤ_iff, false, get_elem?, inl, inr, nat_beq,
  nat_beq_iff, not, pos, refl, some, sym, true, ℕ, ◌&&◌, ◌==◌, ◌||◌, ◌↔◌, ◌∙◌, ◌∷◌, ◌≡◌, ◌≢◌, ◌⊎◌,
  string_key, nat_key,
}
use fts.Jobs.Files.{
  Report, is_rejected, is_target, resolve, update_found, update_resolved, update_row,
  update_transfer_status, write_report,
}
use fts.Jobs.Follows.{and_right}
use fts.Jobs.Settles.{and_left}
use fts.Jobs.Tables.{exists_file, is_terminal, select_one}
use fts.Jobs.Types.{
  Db, File, Session, State, active, canceled, failed, finished, is_state_iff, ready,
}

resolve_given :
    (u : Report) (db : Db) → (u.job_id == "" || nat_beq u.file_id 0) ≡ false → resolve u db ≡ u
unfolding resolve
resolve_given u db h = rw h refl

stored_report :
    (s : Session) (u : Report) (row : File) (db : Db)
    → (update_row s u row db).0 ≡ (
        not (is_rejected u row.file_state)
        && exists_file (is_target u row.file_state) (s.others db))
unfolding update_row write_report
stored_report s u row db = elim (Bool-cases (is_rejected u row.file_state)) [
  | inl e ↦ rw e refl
  | inr e ↦ elim (Bool-cases (exists_file (is_target u row.file_state) (s.others db))) [
    | inl x ↦ rw (e, x) refl
    | inr x ↦ rw (e, x) refl
  ]
]

-- A file in the state may take the report: it has not ended, it does not go back from ACTIVE to READY, and
-- the state is a new one, or it is READY and the process is known.
pub record Takes (u : Report) (a : State) : Type 0 where
  pub going_on : (a ≢ finished) × (a ≢ failed) × (a ≢ canceled)
  pub not_back : a ≡ active → u.new_state ≢ ready
  pub new_or_ready : a ≡ u.new_state → (u.new_state ≡ ready) × (u.process_id ≢ pos 0)

terminal_cases :
    (a : State) → is_terminal a ≡ true → (a ≡ finished) ⊎ ((a ≡ failed) ⊎ (a ≡ canceled))
terminal_cases finished h = inl refl
terminal_cases failed h = inr (inl refl)
terminal_cases canceled h = inr (inr refl)
terminal_cases _ h = absurd (cc h)

is_terminal_iff :
    (a : State) → (is_terminal a ≡ false) ↔ ((a ≢ finished) × (a ≢ failed) × (a ≢ canceled))
is_terminal_iff a = (
  λ h. (
    λ e. absurd (cc (h, ap is_terminal e)),
    λ e. absurd (cc (h, ap is_terminal e)),
    λ e. absurd (cc (h, ap is_terminal e)),
  ),
  λ h. elim (Bool-cases (is_terminal a)) [
    | inl t ↦ elim (terminal_cases a t) [
      | inl e ↦ absurd (h.0 e)
      | inr (inl e) ↦ absurd (h.1 e)
      | inr (inr e) ↦ absurd (h.2 e)
    ]
    | inr t ↦ t
  ],
)

Takes-iff : (u : Report) (a : State) → (is_rejected u a ≡ false) ↔ Takes u a
unfolding is_rejected
Takes-iff u a =
    let ended = is_terminal_iff a in
    let is_active = is_state_iff a active in
    let is_ready = is_state_iff u.new_state ready in
    let is_same = is_state_iff a u.new_state in
    let is_unknown = eq_ℤ_iff u.process_id (pos 0) in
    (
      λ h. record {
        going_on = ended.0 (ground (arith, h));
        not_back = λ e n. ground (arith, h, is_active.1 e, is_ready.1 n);
        new_or_ready = λ e. (
          ground (arith, h, is_same.1 e, is_ready.0),
          λ z. ground (arith, h, is_same.1 e, is_unknown.1 z),
        );
      },
      λ t. ground (
        arith,
        ended.1 t.going_on,
        t.not_back,
        t.new_or_ready,
        is_active.0,
        is_ready.0,
        is_ready.1,
        is_same.0,
        is_unknown.0,
      ),
    )

found_in :
    (p : File → Bool) (fs : List File)
    → any p fs ≡ true
    → (i : ℕ) × (f : File) × (get_elem? fs i ≡ some f) × (p f ≡ true)
found_in p [] h = absurd (cc h)
found_in p (x ∷ fs) h = elim (Bool-cases (p x)) [
  | inl e ↦ (0, x, refl, e)
  | inr e ↦ let (i, f, at_i, k) = found_in p fs (rw e at h) in (suc i, f, at_i, k)
]

is_found :
    (p : File → Bool) (fs : List File) (i : ℕ) (f : File)
    → get_elem? fs i ≡ some f
    → p f ≡ true
    → any p fs ≡ true
is_found p [] i f e k = absurd (cc e)
is_found p (x ∷ fs) zero f e k = let here = ap p (some-injective x f e) ∙ k in ground (arith, here)
is_found p (x ∷ fs) (suc i) f e k = ground (arith, is_found p fs i f e k)

pub update_transfer_status_lem :
    (s : Session) (u : Report) (row : File) (db : Db)
    → (u.job_id == "" || nat_beq u.file_id 0) ≡ false
    → select_one (λ (f : File). nat_beq f.file_id u.file_id) db.files ≡ some row
    → (update_transfer_status s u db).0 ≡ (
        not (is_rejected u row.file_state)
        && exists_file (is_target u row.file_state) (s.others db))
unfolding update_transfer_status update_resolved
update_transfer_status_lem s u row db g h =
    ap (λ v. (update_resolved s v db).0) (resolve_given u db g)
    ∙ ap (λ r. (update_found s u r db).0) h
    ∙ stored_report s u row db

target_iff :
    (u : Report) (a : State) (f : File)
    → (is_target u a f ≡ true) ↔ ((f.file_id ≡ u.file_id) × (f.file_state ≡ a))
target_iff u a f =
    let number = nat_beq_iff f.file_id u.file_id in
    let state = is_state_iff f.file_state a in
    (
      λ h. (number.0 (and_left _ _ h), state.0 (and_right _ _ h)),
      λ h. ground (arith, number.1 h.0, state.1 h.1),
    )

-- A report that names its file is stored exactly if the file has not ended, would not go back from ACTIVE
-- to READY, and is not yet in the state reported, unless that is READY and the process is known, and if
-- the other sessions leave a row of the file in the state that was read.
pub update_transfer_status_stores :
    (s : Session) (u : Report) (row : File) (db : Db)
    → (u.job_id == "" || nat_beq u.file_id 0) ≡ false
    → select_one (λ (f : File). nat_beq f.file_id u.file_id) db.files ≡ some row
    → ((update_transfer_status s u db).0 ≡ true) ↔ (
        Takes u row.file_state
        × ((i : ℕ) × (f : File) × (get_elem? (s.others db).files i ≡ some f)
            × (f.file_id ≡ u.file_id)
            × (f.file_state ≡ row.file_state)))
unfolding exists_file
update_transfer_status_stores s u row db g h =
    let same = update_transfer_status_lem s u row db g h in
    let takes = Takes-iff u row.file_state in
    let target = λ (f : File). target_iff u row.file_state f in
    (
      λ e.
          let both = sym same ∙ e in
          let (i, f, at_i, t) = found_in (is_target u row.file_state) (s.others db).files (
            and_right (not (is_rejected u row.file_state))
              (exists_file (is_target u row.file_state) (s.others db)) both) in
          let (number, state) = (target f).0 t in
          (
            takes.0 (
                ground (
                  arith,
                  and_left (not (is_rejected u row.file_state))
                      (exists_file (is_target u row.file_state) (s.others db)) both,
                )),
            (i, f, at_i, number, state),
          ),
      λ (t, (i, f, at_i, number, state)).
          let found =
            is_found (is_target u row.file_state) (s.others db).files i f at_i
              ((target f).1 (number, state)) in
          same ∙ ground (arith, takes.1 t, found),
    )
