-- ===== src/Scheduling/Handed.antt =====
-- The files that the handler hands out, whatever the order in which the VOs ask.
use fts.Common.{
  Bool, Bool-cases, Dict, Each, HasDistinctKeys, List, Option, String, [], ap, arith, false, find,
  if◌then◌else◌, inl, inr, is_empty, none, refl, some, str_beq_iff, weigh_single, ℕ, ◌++◌, ◌+◌,
  ◌==◌, ◌||◌, ◌∙◌, ◌∷◌, ◌≡◌, string_key, nat_key,
}
use fts.CommandLine.Types.{TransferFile}
use fts.Scheduling.Amounts.{amount, sum_of}
use fts.Scheduling.Handler.{Handler, contains_index, get, new_handler}
use fts.Scheduling.New.{fresh_indexes, fresh_new, fresh_seen, new_handler-IsAdded}
use fts.Scheduling.Ready.{IsReady}
use fts.Scheduling.Stock.{Hands, IsStocked, at_index, get-Hands, hands, nothing_left}
use fts.Scheduling.Types.{FileIndex, index_key, index_of}

abbrev pub handed_to : String → Option TransferFile → List (String × TransferFile)
handed_to vo none = []
handed_to vo (some t) = (vo, t) ∷ []

-- The files that calls of `get` for the VOs hand out, with the VO of each, and the handler afterwards.
unfoldable pub get_each : List String → Handler → List (String × TransferFile) × Handler
get_each [] h = ([], h)
get_each (vo ∷ calls) h =
    let (o, h') = get vo h in let (l, h'') = get_each calls h' in (handed_to vo o ++ l, h'')

abbrev at_vo : String → FileIndex → String → FileIndex → ℕ
at_vo v i w j = if w == v then (if j == i then 1 else 0) else 0

-- How often a file of the index is handed out to the VO.
unfoldable pub times : String → FileIndex → List (String × TransferFile) → ℕ
times v i [] = 0
times v i ((w, t) ∷ l) = at_vo v i w (index_of t) + times v i l

-- How often the index waits for the VO in the handler.
unfoldable pub pending : String → FileIndex → Handler → ℕ
pending v i h = amount (at_vo v i) h

unfoldable pub has_index : FileIndex → List TransferFile → Bool
has_index i [] = false
has_index i (t ∷ ts) = (index_of t == i) || has_index i ts

times-append :
    (v : String) (i : FileIndex) (l k : List (String × TransferFile))
    → times v i (l ++ k) ≡ times v i l + times v i k
unfolding times
times-append v i [] k = omega arith
times-append v i (x ∷ l) k = omega (arith, times-append v i l k)

-- A call that hands out a file takes an index of the VO.
Hands-IsReady :
    {vo : String} {h : Handler} (x : Option TransferFile × Handler)
    → IsReady h
    → IsStocked h
    → Hands vo h x
    → IsReady x.1 × IsStocked x.1
Hands-IsReady x r s (nothing_left e) = (r, s)
Hands-IsReady x r s (hands t h' r' s' v a) = (r', s')

Hands-times :
    {vo : String} {h : Handler} (v : String) (i : FileIndex) (x : Option TransferFile × Handler)
    → Hands vo h x
    → times v i (handed_to vo x.0) + pending v i x.1 ≡ pending v i h
unfolding times pending
Hands-times v i x (nothing_left e) = omega arith
Hands-times v i x (hands t h' r' s' w a) = let b = a (at_vo v i) in omega (arith, b)

times-get_each :
    (v : String) (i : FileIndex) (calls : List String) (h : Handler)
    → IsReady h
    → IsStocked h
    → times v i (get_each calls h).0 + pending v i (get_each calls h).1 ≡ pending v i h
unfolding get_each times
times-get_each v i [] h r s = omega arith
times-get_each v i (vo ∷ calls) h r s =
    let k = get-Hands vo h r s in
    let (r', s') = Hands-IsReady (get vo h) r s k in
    omega (
      arith,
      times-append v i (handed_to vo (get vo h).0) (get_each calls (get vo h).1).0,
      Hands-times v i (get vo h) k,
      times-get_each v i calls (get vo h).1 r' s',
    )

other_vo :
    (v w : String) (i : FileIndex) (l : List FileIndex)
    → (w == v) ≡ false
    → sum_of (at_vo v i w) l ≡ 0
other_vo v w i [] n = refl
other_vo v w i (j ∷ l) n = ground (arith, n, other_vo v w i l)

same_vo :
    (v : String) (i : FileIndex) (l : List FileIndex)
    → sum_of (at_vo v i v) l ≡ sum_of (at_index i v) l
same_vo v i [] = refl
same_vo v i (j ∷ l) = ground (arith, same_vo v i l, str_beq_iff v v)

-- An index that was not seen is fresh once if a file has it.
pub fresh_once :
    (v : String) (i : FileIndex) (seen : List FileIndex) (ts : List TransferFile)
    → sum_of (at_index i v) (fresh_indexes seen ts)
      ≡ (if contains_index i seen then 0 else if has_index i ts then 1 else 0)
unfolding has_index fresh_indexes contains_index
fresh_once v i seen [] = ground arith
fresh_once v i seen (t ∷ ts) = elim (Bool-cases (contains_index (index_of t) seen)) [
  | inl e ↦
      ap (sum_of (at_index i v)) (fresh_seen t seen ts e)
      ∙ fresh_once v i seen ts
      ∙ ground (arith, e, index_key.same_iff (index_of t) i)
  | inr e ↦
      ap (sum_of (at_index i v)) (fresh_new t seen ts e)
      ∙ ap (λ n. at_index i v (index_of t) + n) (fresh_once v i (index_of t ∷ seen) ts)
      ∙ ground (arith, e, index_key.same_iff (index_of t) i)
]

-- If no VO is given without files, then however the VOs take turns, of the files of a VO with the same
-- job and index, which are the replicas of one file, exactly one is handed out to the VO, or the index
-- still waits.
pub handed_once :
    (files : Dict String (List TransferFile)) (v : String) (ts : List TransferFile) (i : FileIndex)
    (calls : List String)
    → Each (λ e. is_empty e.1 ≡ false) files
    → HasDistinctKeys files
    → find v files ≡ some ts
    → times v i (get_each calls (new_handler files)).0
        + pending v i (get_each calls (new_handler files)).1
      ≡ (if has_index i ts then 1 else 0)
unfolding pending contains_index
handed_once files v ts i calls n d e =
    let a = new_handler-IsAdded (at_vo v i) files n in
    times-get_each v i calls (new_handler files) a.ready a.stocked
    ∙ a.added
    ∙ weigh_single (λ vo ts. sum_of (at_vo v i vo) (fresh_indexes [] ts)) v
        (λ w ts k. other_vo v w i (fresh_indexes [] ts) k) ts files d e
    ∙ same_vo v i (fresh_indexes [] ts)
    ∙ fresh_once v i [] ts
