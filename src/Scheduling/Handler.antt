-- ===== src/Scheduling/Handler.antt =====
-- TransferFileHandler.cpp: which file of a VO is the next.
use fts.Common.{
  Bool, Dict, List, Option, String, [], erase, false, find, get_or, if◌then◌else◌, is_empty, length,
  none, put, some, weigh, ℕ, ◌++◌, ◌==◌, ◌||◌, ◌∷◌, string_key, nat_key,
}
use fts.CommandLine.Types.{TransferFile}
use fts.Optimizer.Run.{lt_string}
use fts.Optimizer.Types.{Pair, pair_key}
use fts.Scheduling.Types.{FileIndex, index_of, index_key}
use fts.Transfers.LinkMap.{LinkMap, push_link}

-- An iterator into the links of a VO is the link that it stands at, or `none` for `end()`. `vos` is in
-- the order of the set.
pub record Handler : Type 0 where
  pub file_index_to_files : Dict FileIndex (List TransferFile)
  pub vo_to_file_indexes : Dict String (LinkMap FileIndex)
  pub vos : List String
  pub next_pair_for_vo : Dict String (Option Pair)
  pub source_to_destinations : Dict String (List String)
  pub source_to_vos : Dict String (List String)
  pub destination_to_sources : Dict String (List String)
  pub destination_to_vos : Dict String (List String)

-- `begin()`
unfoldable pub first_link : LinkMap FileIndex → Option Pair
first_link [] = none
first_link ((p, l) ∷ m) = some p

-- `operator ++` on the iterator that stands at the link.
unfoldable pub link_after : Pair → LinkMap FileIndex → Option Pair
link_after p [] = none
link_after p ((q, l) ∷ m) = if q == p then first_link m else link_after p m

abbrev pub links_of : String → Handler → LinkMap FileIndex
links_of vo h = get_or [] (find vo h.vo_to_file_indexes)

abbrev pub files_at : FileIndex → Handler → List TransferFile
files_at i h = get_or [] (find i h.file_index_to_files)

unfoldable pub contains_index : FileIndex → List FileIndex → Bool
contains_index i [] = false
contains_index i (j ∷ js) = (j == i) || contains_index i js

-- `set.insert(name)`
unfoldable pub insert_name : String → List String → List String
unfolding lt_string
insert_name x [] = x ∷ []
insert_name x (y ∷ ys) =
    let rest = insert_name x ys in
    if x == y then y ∷ ys else if lt_string x y then x ∷ y ∷ ys else y ∷ rest

-- `map[key].insert(name)`
abbrev pub insert_at : String → String → Dict String (List String) → Dict String (List String)
insert_at k x m = put k (insert_name x (get_or [] (find k m))) m

-- The storages and the VOs that each storage has transfers with.
abbrev pub note_storages : TransferFile → Handler → Handler
note_storages t h = record h {
  source_to_destinations = insert_at t.source_se t.dest_se h.source_to_destinations;
  source_to_vos = insert_at t.source_se t.vo_name h.source_to_vos;
  destination_to_sources = insert_at t.dest_se t.source_se h.destination_to_sources;
  destination_to_vos = insert_at t.dest_se t.vo_name h.destination_to_vos;
}

abbrev pub push_file : TransferFile → Handler → Handler
push_file t h = record h {
  file_index_to_files = put (index_of t) (files_at (index_of t) h ++ t ∷ []) h.file_index_to_files;
}

abbrev pub link_of_file : TransferFile → Pair
link_of_file t = record { source = t.source_se; destination = t.dest_se }

abbrev pub push_index : String → TransferFile → Handler → Handler
push_index vo t h = record h {
  vo_to_file_indexes =
      put vo (push_link (link_of_file t) (index_of t) (links_of vo h)) h.vo_to_file_indexes;
}

-- One file of a VO. `seen` holds the indexes of the VO that there were, `unique[vo]`.
unfoldable pub add_file :
    String → TransferFile → List FileIndex × Handler → List FileIndex × Handler
unfolding contains_index
add_file vo t (seen, h) =
    if contains_index (index_of t) seen
    then (seen, push_file t (note_storages t h))
    else (index_of t ∷ seen, push_index vo t (push_file t (note_storages t h)))

unfoldable pub add_files :
    String → List TransferFile → List FileIndex × Handler → List FileIndex × Handler
unfolding add_file
add_files vo [] s = s
add_files vo (t ∷ ts) s = add_files vo ts (add_file vo t s)

-- A VO of the loop of `getMapFromCache`: `voToFileIndexes[vo]` is made, also where there are no files.
unfoldable pub add_vo : String → List TransferFile → Handler → Handler
unfolding add_files first_link
add_vo vo ts h =
    let h₁ = (add_files vo ts ([], record h { vos = h.vos ++ vo ∷ [] })).1 in
    record h₁ {
      vo_to_file_indexes = put vo (links_of vo h₁) h₁.vo_to_file_indexes;
      next_pair_for_vo = put vo (first_link (links_of vo h₁)) h₁.next_pair_for_vo;
    }

unfoldable pub add_vos : Dict String (List TransferFile) → Handler → Handler
unfolding add_vo
add_vos [] h = h
add_vos ((vo, ts) ∷ files) h = add_vos files (add_vo vo ts h)

abbrev pub no_files : Handler
no_files = record {
  file_index_to_files = [];
  vo_to_file_indexes = [];
  vos = [];
  next_pair_for_vo = [];
  source_to_destinations = [];
  source_to_vos = [];
  destination_to_sources = [];
  destination_to_vos = [];
}

-- The constructor. `files` is in the order of the map.
unfoldable pub new_handler : Dict String (List TransferFile) → Handler
unfolding add_vos
new_handler files = add_vos files no_files

-- The iterator, wrapped around at the end.
unfoldable pub wrapped : Option Pair → LinkMap FileIndex → Option Pair
unfolding first_link
wrapped none m = first_link m
wrapped (some p) m = some p

unfoldable pub move_on : String → LinkMap FileIndex → Option Pair → Handler → Option Pair × Handler
unfolding link_after
move_on vo m none h = (none, h)
move_on vo m (some p) h =
    (some p, record h { next_pair_for_vo = put vo (link_after p m) h.next_pair_for_vo })

-- The link in turn for the VO, and the iterator moved on. There is an entry for the VO.
unfoldable pub get_next_pair : String → Handler → Option Pair × Handler
unfolding wrapped move_on
get_next_pair vo h =
    if is_empty (links_of vo h)
    then (none, h)
    else move_on vo (links_of vo h)
        (wrapped (get_or none (find vo h.next_pair_for_vo)) (links_of vo h)) h

-- The links of the VO without the index that was taken, of whose link the others are left.
abbrev pub without_front : Pair → List FileIndex → LinkMap FileIndex → LinkMap FileIndex
without_front p [] m = erase p m
without_front p (i ∷ rest) m = put p (i ∷ rest) m

abbrev pub store_links : String → LinkMap FileIndex → Handler → Handler
store_links vo [] h = record h { vo_to_file_indexes = erase vo h.vo_to_file_indexes }
store_links vo (e ∷ m) h = record h { vo_to_file_indexes = put vo (e ∷ m) h.vo_to_file_indexes }

-- `front()` and `pop_front()` of the indexes of the link. An empty list would be undefined behaviour.
unfoldable pub pop_index :
    String → Pair → LinkMap FileIndex → List FileIndex → Handler → Option FileIndex × Handler
pop_index vo p m [] h = (none, h)
pop_index vo p m (i ∷ rest) h = (some i, store_links vo (without_front p rest m) h)

unfoldable pub pop_link :
    String → LinkMap FileIndex → Option Pair × Handler → Option FileIndex × Handler
unfolding pop_index
pop_link vo m (none, h) = (none, h)
pop_link vo m (some p, h) = pop_index vo p m (get_or [] (find p m)) h

unfoldable pub get_index : String → Handler → Option FileIndex × Handler
unfolding pop_link get_next_pair
get_index vo h =
    if is_empty (links_of vo h) then (none, h) else pop_link vo (links_of vo h) (get_next_pair vo h)

-- `front()` and `pop_front()` of the replicas at the index.
unfoldable pub pop_file : FileIndex → List TransferFile → Handler → Option TransferFile × Handler
pop_file i [] h = (none, h)
pop_file i (t ∷ ts) h = (some t, record h { file_index_to_files = put i ts h.file_index_to_files })

unfoldable pub get_file : FileIndex → Handler → Option TransferFile × Handler
unfolding pop_file
get_file i h = pop_file i (files_at i h) h

unfoldable pub file_of_index : Option FileIndex × Handler → Option TransferFile × Handler
unfolding get_file
file_of_index (none, h) = (none, h)
file_of_index (some i, h) = get_file i h

unfoldable pub get : String → Handler → Option TransferFile × Handler
unfolding get_index file_of_index
get vo h = file_of_index (get_index vo h)

unfoldable pub is_served : Handler → Bool
is_served h = is_empty h.vo_to_file_indexes

unfoldable pub count_links : LinkMap FileIndex → ℕ
count_links m = weigh (λ p l. length l) m

-- `size()`
unfoldable pub size : Handler → ℕ
unfolding count_links
size h = weigh (λ vo m. count_links m) h.vo_to_file_indexes

unfoldable pub get_sources : String → Handler → List String
get_sources se h = get_or [] (find se h.destination_to_sources)

unfoldable pub get_destinations : String → Handler → List String
get_destinations se h = get_or [] (find se h.source_to_destinations)

unfoldable pub get_sources_vos : String → Handler → List String
get_sources_vos se h = get_or [] (find se h.destination_to_vos)

unfoldable pub get_destinations_vos : String → Handler → List String
get_destinations_vos se h = get_or [] (find se h.source_to_vos)
