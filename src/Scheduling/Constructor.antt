-- ===== src/Scheduling/Constructor.antt =====
-- What holds while the constructor adds the files of a VO to the handler.
use fts.Common.{
  Bool-cases, Each-map, List, String, [], arith, false, find, find-put_self, inl, inr, is_empty,
  refl, some, str_beq_iff, true, ◌++◌, ◌∷◌, ◌≡◌, string_key, nat_key,
}
use fts.CommandLine.Types.{TransferFile}
use fts.Optimizer.Types.{pair_key}
use fts.Scheduling.Building.{
  IsBuilding, IsBuilt, noted-IsBuilding, push_both-IsBuilding, push_file-IsBuilding,
}
use fts.Scheduling.Handler.{
  Handler, add_file, add_files, contains_index, link_of_file, links_of, note_storages,
}
use fts.Scheduling.Ready.{IsReady, has_vo}
use fts.Scheduling.Stock.{IsStocked}
use fts.Scheduling.Types.{FileIndex, index_of, index_key}
use fts.Transfers.LinkMap.{LinkMap, push_link}

add_file-IsBuilt :
    (vo : String) (t : TransferFile) (h₀ : Handler) (s : List FileIndex × Handler)
    → IsBuilt vo h₀ s
    → IsBuilt vo h₀ (add_file vo t s) × (is_empty (add_file vo t s).0 ≡ false)
unfolding add_file
add_file-IsBuilt vo t h₀ (seen, h) b = elim (Bool-cases (contains_index (index_of t) seen)) [
  | inl e ↦ rw e (
    (push_file-IsBuilding vo t h₀ (note_storages t h) (noted-IsBuilding vo t h₀ h b.0), b.1),
    not_empty seen e,
  )
  | inr e ↦ rw e (
    (
      push_both-IsBuilding vo t h₀ (note_storages t h) (noted-IsBuilding vo t h₀ h b.0),
      λ n. (
        push_link (link_of_file t) (index_of t) (links_of vo h),
        find-put_self vo _ h.vo_to_file_indexes,
      ),
    ),
    refl,
  )
]
  where
    not_empty :
        (seen : List FileIndex) → contains_index (index_of t) seen ≡ true → is_empty seen ≡ false
    not_empty [] e = absurd (ground (arith, e))
    not_empty (i ∷ seen) e = refl

add_files-IsBuilt :
    (vo : String) (ts : List TransferFile) (h₀ : Handler) (s : List FileIndex × Handler)
    → IsBuilt vo h₀ s
    → is_empty s.0 ≡ false
    → IsBuilt vo h₀ (add_files vo ts s) × (is_empty (add_files vo ts s).0 ≡ false)
unfolding add_files
add_files-IsBuilt vo [] h₀ s b n = (b, n)
add_files-IsBuilt vo (t ∷ ts) h₀ s b n =
    let r = add_file-IsBuilt vo t h₀ s b in add_files-IsBuilt vo ts h₀ (add_file vo t s) r.0 r.1

-- A VO with a file has an entry, once its files are added.
pub all_added :
    (vo : String) (ts : List TransferFile) (h₀ : Handler)
    → is_empty ts ≡ false
    → IsBuilding vo h₀ h₀
    → IsBuilding vo h₀ (add_files vo ts ([], h₀)).1
      × ((m : LinkMap FileIndex) × (find vo (add_files vo ts ([], h₀)).1.vo_to_file_indexes
            ≡ some m))
unfolding add_files
all_added vo [] h₀ n b = absurd (cc n)
all_added vo (t ∷ ts) h₀ n b =
    let r = add_file-IsBuilt vo t h₀ ([], h₀) (b, λ e. absurd (cc e)) in
    let r' = add_files-IsBuilt vo ts h₀ (add_file vo t ([], h₀)) r.0 r.1 in (r'.0.0, r'.0.1 r'.1)

has_vo-append :
    (w v : String) (vos : List String) → has_vo w vos ≡ true → has_vo w (vos ++ v ∷ []) ≡ true
unfolding has_vo
has_vo-append w v [] h = absurd (cc h)
has_vo-append w v (x ∷ vos) h = ground (arith, has_vo-append w v vos, h)

has_vo-last : (v : String) (vos : List String) → has_vo v (vos ++ v ∷ []) ≡ true
unfolding has_vo
has_vo-last v [] = ground (arith, str_beq_iff v v)
has_vo-last v (x ∷ vos) = ground (arith, has_vo-last v vos)

abbrev pub with_vo : String → Handler → Handler
with_vo vo h = record h { vos = h.vos ++ vo ∷ [] }

pub with_vo-IsBuilding :
    (vo : String) (h : Handler)
    → IsReady h
    → IsStocked h
    → IsBuilding vo (with_vo vo h) (with_vo vo h)
with_vo-IsBuilding vo h r s = record {
  distinct = r.distinct;
  listed =
      Each-map (λ e. has_vo e.0 h.vos ≡ true) _ h.vo_to_file_indexes
        (λ e. has_vo-append e.0 vo h.vos) r.listed;
  filled = r.filled;
  stocked = record { enough = s.enough; named = s.named };
  same_turns = refl;
  here = has_vo-last vo h.vos;
  others = λ w n. refl;
}
