-- ===== src/Scheduling/Building.antt =====
-- What a file that is added to the handler changes.
use fts.Common.{
  Bool-cases, Each, Each-append, Each-find, Each-put, HasDistinctKeys, HasDistinctKeys-put, List,
  Option, String, [], ap, arith, false, find, find-put, if◌then◌else◌, inl, inr, is_empty, length,
  length-append, none, refl, some, true, ◌++◌, ◌+◌, ◌==◌, ◌∙◌, ◌∷◌, ◌≡◌, ◌≤◌, string_key, nat_key,
}
use fts.CommandLine.Types.{TransferFile}
use fts.Optimizer.Types.{pair_key}
use fts.Scheduling.Amounts.{amount}
use fts.Scheduling.Built.{amount-push_index, push_link-IsFilled}
use fts.Scheduling.Handler.{
  Handler, files_at, link_of_file, links_of, note_storages, push_file, push_index,
}
use fts.Scheduling.Ready.{IsFilled, has_vo}
use fts.Scheduling.Stock.{IsStocked, at_index}
use fts.Scheduling.Types.{FileIndex, index_key, index_of}
use fts.Transfers.LinkMap.{LinkMap, push_link}

-- What holds while the files of a VO are added to a handler.
pub record IsBuilding (vo : String) (h₀ h : Handler) : Type 0 where
  pub distinct : HasDistinctKeys h.vo_to_file_indexes
  pub listed : Each (λ e. has_vo e.0 h.vos ≡ true) h.vo_to_file_indexes
  pub filled : Each (λ e. IsFilled e.1) h.vo_to_file_indexes
  pub stocked : IsStocked h
  pub same_turns : h.next_pair_for_vo ≡ h₀.next_pair_for_vo
  pub here : has_vo vo h.vos ≡ true
  pub others :
      (w : String) → (vo == w) ≡ false → find w h.vo_to_file_indexes ≡ find w h₀.vo_to_file_indexes

module _ (t : TransferFile) (h : Handler) where
  files_pushed :
      (j : FileIndex)
      → files_at j (push_file t h)
        ≡ (if index_of t == j then files_at j h ++ t ∷ [] else files_at j h)
  files_pushed j =
      rw (find-put (index_of t) j (files_at (index_of t) h ++ t ∷ []) h.file_index_to_files)
        (elim (Bool-cases (index_of t == j)) [
          | inl k ↦
              rw k (ap (λ j. files_at j h ++ t ∷ []) ((index_key.same_iff (index_of t) j).0 k))
          | inr k ↦ rw k refl
        ])

  named_pushed :
      IsStocked h → (j : FileIndex) → Each (λ t. index_of t ≡ j) (files_at j (push_file t h))
  named_pushed s j = rw (files_pushed j) (elim (Bool-cases (index_of t == j)) [
    | inl k ↦ rw k (
        Each-append (λ t. index_of t ≡ j) (files_at j h) (t ∷ []) (s.named j)
          ((index_key.same_iff (index_of t) j).0 k, tt))
    | inr k ↦ rw k (s.named j)
  ])

  -- One more file at the index of the file.
  length_pushed :
      (j : FileIndex)
      → length (files_at j (push_file t h))
        ≡ length (files_at j h) + (if index_of t == j then 1 else 0)
  length_pushed j = rw (files_pushed j) (elim (Bool-cases (index_of t == j)) [
    | inl k ↦ rw k (length-append (files_at j h) (t ∷ []))
    | inr k ↦ rw k (omega arith)
  ])

  push_file-IsStocked : IsStocked h → IsStocked (push_file t h)
  push_file-IsStocked s = record {
    enough = λ j. let a = s.enough j in let b = length_pushed j in enough_if j b a;
    named = named_pushed s;
  }
    where
      enough_if :
          (j : FileIndex)
          → length (files_at j (push_file t h))
            ≡ length (files_at j h) + (if index_of t == j then 1 else 0)
          → amount (at_index j) h ≤ length (files_at j h)
          → amount (at_index j) h ≤ length (files_at j (push_file t h))
      enough_if j b a = rw b (omega arith)

  push_both-IsStocked : (vo : String) → IsStocked h → IsStocked (push_index vo t (push_file t h))
  push_both-IsStocked vo s = record {
    enough = λ j.
        rw (amount-push_index (at_index j) vo t (push_file t h), length_pushed j)
          (let a = s.enough j in omega arith);
    named = named_pushed s;
  }

module _ (vo : String) (t : TransferFile) (h₀ h : Handler) (b : IsBuilding vo h₀ h) where
  links_filled : Each (λ e. is_empty e.1 ≡ false) (links_of vo h)
  links_filled = by_entry (find vo h.vo_to_file_indexes) refl
    where
      by_entry :
          (o : Option (LinkMap FileIndex))
          → find vo h.vo_to_file_indexes ≡ o
          → Each (λ e. is_empty e.1 ≡ false) (links_of vo h)
      by_entry none e = rw e tt
      by_entry (some m) e =
          rw e ((Each-find (λ e. IsFilled e.1) vo m h.vo_to_file_indexes e b.filled).1)

  pub push_file-IsBuilding : IsBuilding vo h₀ (push_file t h)
  push_file-IsBuilding = record {
    distinct = b.distinct;
    listed = b.listed;
    filled = b.filled;
    stocked = push_file-IsStocked t h b.stocked;
    same_turns = b.same_turns;
    here = b.here;
    others = b.others;
  }

  pub push_both-IsBuilding : IsBuilding vo h₀ (push_index vo t (push_file t h))
  push_both-IsBuilding =
      let m = push_link (link_of_file t) (index_of t) (links_of vo h) in
      record {
        distinct = HasDistinctKeys-put vo m h.vo_to_file_indexes b.distinct;
        listed = Each-put (λ e. has_vo e.0 h.vos ≡ true) vo m h.vo_to_file_indexes b.here b.listed;
        filled =
            Each-put (λ e. IsFilled e.1) vo m h.vo_to_file_indexes
              (push_link-IsFilled (link_of_file t) (index_of t) (links_of vo h) links_filled)
              b.filled;
        stocked = push_both-IsStocked t h vo b.stocked;
        same_turns = b.same_turns;
        here = b.here;
        others = λ w n. find-put vo w m h.vo_to_file_indexes ∙ (rw n (b.others w n));
      }

abbrev pub IsBuilt : String → Handler → List FileIndex × Handler → Type 0
IsBuilt vo h₀ (seen, h) =
    IsBuilding vo h₀ h
    × (is_empty seen ≡ false → (m : LinkMap FileIndex) × (find vo h.vo_to_file_indexes ≡ some m))

pub noted-IsBuilding :
    (vo : String) (t : TransferFile) (h₀ h : Handler)
    → IsBuilding vo h₀ h
    → IsBuilding vo h₀ (note_storages t h)
noted-IsBuilding vo t h₀ h b = record {
  distinct = b.distinct;
  listed = b.listed;
  filled = b.filled;
  stocked = record { enough = b.stocked.enough; named = b.stocked.named };
  same_turns = b.same_turns;
  here = b.here;
  others = b.others;
}
