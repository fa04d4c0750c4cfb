-- ===== src/Messages/Ended.antt =====
-- A file that has ended is not touched by the termination of its job, unless it ends meanwhile.
use fts.Common.{
  Bool, Bool-cases, Each, Each-map, List, String, [], arith, false, if◌then◌else◌, inl, inr,
  nat_beq, nat_beq_iff, refl, true, ℕ, ℤ, ◌&&◌, ◌||◌, ◌∷◌, ◌≡◌, ◌⊎◌,
}
use fts.Jobs.Follows.{Follows, Follows-refl}
use fts.Jobs.Lifecycle.{Evolves, Evolves-refl, Evolves-step, JobRows-refl, Rows, reported}
use fts.Jobs.Tables.{is_member, is_terminal, update, update_files}
use fts.Jobs.Types.{Db, File, Session, active, is_state}
use fts.Messages.Terminate.{is_reuse, job_id_of, open_files, terminate_reuse_process, terminated}

-- The number of a file is the key of the table.
abbrev pub HasUniqueIds : List File → Type 0
HasUniqueIds [] = Unit
HasUniqueIds (f ∷ fs) = Each (λ g. nat_beq g.file_id f.file_id ≡ false) fs × HasUniqueIds fs

absent :
    (job_id : String) (n : ℕ) (fs : List File)
    → Each (λ f. nat_beq f.file_id n ≡ false) fs
    → is_member n (open_files job_id fs) ≡ false
unfolding open_files is_member
absent job_id n [] h = refl
absent job_id n (f ∷ fs) h =
    ground (arith, h.0, absent job_id n fs h.1, nat_beq_iff f.file_id n, nat_beq_iff n f.file_id)

abbrev IsSpared : String → List File → File → Type 0
IsSpared job_id fs g =
    (is_terminal g.file_state ≡ false) ⊎ (is_member g.file_id (open_files job_id fs) ≡ false)

IsSpared-later :
    (job_id : String) (f g : File) (fs : List File)
    → nat_beq g.file_id f.file_id ≡ false
    → IsSpared job_id fs g
    → IsSpared job_id (f ∷ fs) g
unfolding open_files is_member
IsSpared-later job_id f g fs n (inl t) = inl t
IsSpared-later job_id f g fs n (inr h) = inr (ground (arith, n, h))

all_later :
    (job_id : String) (f : File) (fs gs : List File)
    → Each (λ g. nat_beq g.file_id f.file_id ≡ false) gs
    → Each (IsSpared job_id fs) gs
    → Each (IsSpared job_id (f ∷ fs)) gs
all_later job_id f fs [] n h = tt
all_later job_id f fs (g ∷ gs) n h =
    (IsSpared-later job_id f g fs n.0 h.0, all_later job_id f fs gs n.1 h.1)

IsSpared-first :
    (job_id : String) (f : File) (fs : List File)
    → Each (λ g. nat_beq g.file_id f.file_id ≡ false) fs
    → IsSpared job_id (f ∷ fs) f
unfolding open_files is_member
IsSpared-first job_id f fs n = elim (Bool-cases (is_terminal f.file_state)) [
  | inl t ↦ inr (ground (arith, t, absent job_id f.file_id fs n))
  | inr t ↦ inl t
]

all-IsSpared : (job_id : String) (fs : List File) → HasUniqueIds fs → Each (IsSpared job_id fs) fs
all-IsSpared job_id [] u = tt
all-IsSpared job_id (f ∷ fs) u =
    (IsSpared-first job_id f fs u.0, all_later job_id f fs fs u.0 (all-IsSpared job_id fs u.1))

Rows-update-Each :
    (p : File → Bool) (h : File → File) (fs : List File)
    → Each (λ f. p f ≡ true → Evolves f (h f)) fs
    → Rows fs (update p h fs)
unfolding update
Rows-update-Each p h [] k = tt
Rows-update-Each p h (f ∷ fs) k = (evolves_if (p f) k.0, Rows-update-Each p h fs k.1)
  where
    evolves_if : (b : Bool) → (b ≡ true → Evolves f (h f)) → Evolves f (if b then h f else f)
    evolves_if true k = k refl
    evolves_if false k = Evolves-refl f

-- Where no other session writes meanwhile, only files that have not ended are FAILED.
pub terminate_reuse_process-Follows :
    (s : Session) (job_id : String) (pid : ℤ) (message : String) (force : Bool) (db : Db)
    → HasUniqueIds db.files
    → s.others db ≡ db
    → Follows db (terminate_reuse_process s job_id pid message force db)
unfolding terminate_reuse_process update_files
terminate_reuse_process-Follows s job_id pid message force db u quiet =
    elim (Bool-cases (force || is_reuse (job_id_of job_id pid db) db)) [
      | inl e ↦
          rw (e, quiet)
            (record {
              rows = Rows-update-Each _ _ db.files (
                  Each-map (IsSpared job_id db.files) _ db.files (λ f k. failing f k)
                    (all-IsSpared job_id db.files u));
              closed = JobRows-refl db.jobs;
            })
      | inr e ↦ rw e (Follows-refl db)
    ]
  where
    failing :
        (f : File)
        → IsSpared job_id db.files f
        → is_member f.file_id (open_files job_id db.files) ≡ true
        → Evolves f (terminated db.now message f)
    failing f (inl t) m =
        Evolves-step f _ refl refl t (reported t (last (is_state f.file_state active)))
      where
        last : (b : Bool) → (b && false) ≡ false
        last true = refl
        last false = refl
    failing f (inr n) m = absurd (cc (n, m))

-- The numbers of the files stay.
others_apart :
    (f g : File) (fs gs : List File)
    → f.file_id ≡ g.file_id
    → Rows fs gs
    → Each (λ x. nat_beq x.file_id f.file_id ≡ false) fs
    → Each (λ x. nat_beq x.file_id g.file_id ≡ false) gs
others_apart f g [] [] e r h = tt
others_apart f g (x ∷ fs) (y ∷ gs) e r h =
    (rw (← r.0.same_id, ← e) (h.0), others_apart f g fs gs e r.1 h.1)
others_apart f g [] (y ∷ gs) e r h = absurd r
others_apart f g (x ∷ fs) [] e r h = absurd r

pub Rows-HasUniqueIds : (fs gs : List File) → Rows fs gs → HasUniqueIds fs → HasUniqueIds gs
Rows-HasUniqueIds [] [] r u = tt
Rows-HasUniqueIds (f ∷ fs) (g ∷ gs) r u =
    (others_apart f g fs gs r.0.same_id r.1 u.0, Rows-HasUniqueIds fs gs r.1 u.1)
Rows-HasUniqueIds [] (g ∷ gs) r u = absurd r
Rows-HasUniqueIds (f ∷ fs) [] r u = absurd r
