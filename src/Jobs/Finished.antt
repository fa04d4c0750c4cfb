-- ===== src/Jobs/Finished.antt =====
-- A job becomes FINISHED only when each of its files, or one of the replicas, is FINISHED.
use fts.Common.{
  Bool, Bool-cases, List, String, [], any, arith, eq_ℤ, false, inl, inr, keep, map, nat_beq, refl,
  sym, true, ℕ, ◌&&◌, ◌==◌, ◌∙◌, ◌∷◌, ◌≡◌, string_key, nat_key,
}
use fts.Jobs.Counting.{distinct-same_members}
use fts.Jobs.Status.{counts_of}
use fts.Jobs.Tables.{count_indices, index_of, is_member}
use fts.Jobs.Types.{Db, File, finished, is_state}

member_any :
    (p : File → Bool) (n : ℕ) (fs : List File)
    → is_member n (map index_of (keep p fs)) ≡ any (λ (f : File). p f && nat_beq n f.file_index) fs
unfolding is_member
member_any p n [] = refl
member_any p n (f ∷ fs) = ground (arith, member_any p n fs)

any_part :
    (p q : File → Bool) (fs : List File)
    → ((f : File) → p f ≡ true → q f ≡ true)
    → any p fs ≡ true
    → any q fs ≡ true
any_part p q [] h e = absurd (cc e)
any_part p q (f ∷ fs) h e = elim (Bool-cases (p f)) [
  | inl i ↦ ground (arith, h f i)
  | inr i ↦ ground (arith, i, e, any_part p q fs h)
]

-- A file of the job with the index is FINISHED.
abbrev pub HasFinished : String → Db → ℕ → Type 0
HasFinished job_id db n =
    any
      (λ (f : File).
        (f.job_id == job_id && is_state f.file_state finished) && nat_beq n f.file_index)
      db.files
    ≡ true

-- Each index of the job has a file that is FINISHED.
abbrev pub AllFinished : String → Db → Type 0
AllFinished job_id db =
    (n : ℕ)
    → any (λ (f : File). (f.job_id == job_id && true) && nat_beq n f.file_index) db.files ≡ true
    → HasFinished job_id db n

and_weaken : (a b c : Bool) → ((a && b) && c) ≡ true → ((a && true) && c) ≡ true
and_weaken true true c h = h
and_weaken true false c h = absurd (cc h)
and_weaken false b c h = h

pub counts_of-AllFinished :
    (job_id : String) (db : Db)
    → eq_ℤ (counts_of job_id db).in_job (counts_of job_id db).finished_files ≡ true
    → AllFinished job_id db
unfolding counts_of count_indices
counts_of-AllFinished job_id db e n h =
    let whole = λ (f : File). f.job_id == job_id && true in
    let part = λ (f : File). f.job_id == job_id && is_state f.file_state finished in
    let all = map index_of (keep whole db.files) in
    let done = map index_of (keep part db.files) in
    sym (member_any part n db.files)
    ∙ distinct-same_members done all
        (λ m i.
          member_any whole m db.files
          ∙ any_part (λ f. part f && nat_beq m f.file_index)
              (λ f. whole f && nat_beq m f.file_index) db.files
              (λ f j.
                and_weaken (f.job_id == job_id) (is_state f.file_state finished)
                  (nat_beq m f.file_index) j)
              (sym (member_any part m db.files) ∙ i))
        (ground (arith, e)) n (member_any whole n db.files ∙ h)
