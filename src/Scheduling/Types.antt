-- ===== src/Scheduling/Types.antt =====
-- The indexes of files that TransferFileHandler.h works on.
use fts.Common.{
  Bool, Key, String, arith, eq_ℤ, eq_ℤ_iff, str_beq_iff, true, ℤ, ◌&&◌, ◌==◌, ◌↔◌, ◌≡◌, string_key,
  nat_key,
}
use fts.CommandLine.Types.{TransferFile}

-- `FileIndex`: the job and the index of the file in it, which the replicas of a file share.
pub record FileIndex : Type 0 where
  pub job : String
  pub index : ℤ

abbrev pub index_beq : FileIndex → FileIndex → Bool
index_beq a b = a.job == b.job && eq_ℤ a.index b.index

pub index_beq_iff : (a b : FileIndex) → (index_beq a b ≡ true) ↔ (a ≡ b)
index_beq_iff a b = ground (arith, str_beq_iff a.job b.job, eq_ℤ_iff a.index b.index)

instance abbrev pub index_key : Key FileIndex
index_key = record { same = index_beq; same_iff = index_beq_iff }

abbrev pub index_of : TransferFile → FileIndex
index_of t = record { job = t.job_id; index = t.file_index }
