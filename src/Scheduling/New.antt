-- ===== src/Scheduling/New.antt =====
-- The new handler is ready and stocked, and holds each index of each VO once.
use fts.Common.{
  Bool-cases, Dict, Each, Each-find, Each-put, HasDistinctKeys-put, List, String, [], ap, arith,
  false, find, find-put, inl, inr, is_empty, put, refl, some, subst, sym, true, weigh, weigh-put, ℕ,
  ◌+◌, ◌==◌, ◌∙◌, ◌∷◌, ◌≡◌, string_key, nat_key,
}
use fts.CommandLine.Types.{TransferFile}
use fts.Optimizer.Types.{Pair, pair_key}
use fts.Scheduling.Amounts.{amount, links_amount, sum_of}
use fts.Scheduling.Built.{amount-push_index}
use fts.Scheduling.Constructor.{all_added, with_vo, with_vo-IsBuilding}
use fts.Scheduling.Handler.{
  Handler, add_file, add_files, add_vo, add_vos, contains_index, first_link, new_handler, no_files,
  note_storages, push_file, push_index,
}
use fts.Scheduling.Ready.{Has, IsFilled, IsReady, first_link-Has, has_vo}
use fts.Scheduling.Stock.{IsStocked, at_index}
use fts.Scheduling.Types.{FileIndex, index_of, index_key}
use fts.Transfers.LinkMap.{LinkMap}
use fts.Scheduling.Building.{IsBuilding}

-- The iterator of the VO is set to the first link.
abbrev begun : String → LinkMap FileIndex → Handler → Handler
begun vo m h = record h {
  vo_to_file_indexes = put vo m h.vo_to_file_indexes;
  next_pair_for_vo = put vo (first_link m) h.next_pair_for_vo;
}

module _ (vo : String) (m : LinkMap FileIndex) (h h₁ : Handler) (r : IsReady h)
    (b : IsBuilding vo (with_vo vo h) h₁) (hm : find vo h₁.vo_to_file_indexes ≡ some m) where
  begun_turns :
      (w : String) (q : Pair) (n : LinkMap FileIndex)
      → find w (put vo m h₁.vo_to_file_indexes) ≡ some n
      → find w (put vo (first_link m) h₁.next_pair_for_vo) ≡ some (some q)
      → Has q n
  begun_turns w q n hn hq = elim (Bool-cases (vo == w)) [
    | inl k ↦ subst (Has q) (ground (arith, k, hn, find-put vo w m h₁.vo_to_file_indexes)) (
        first_link-Has q m
          (ground (arith, k, hq, find-put vo w (first_link m) h₁.next_pair_for_vo)))
    | inr k ↦
        r.turns w q n
          (sym (b.others w k) ∙ ground (arith, k, hn, find-put vo w m h₁.vo_to_file_indexes))
          (ap (find w) (sym b.same_turns)
            ∙ ground (arith, k, hq, find-put vo w (first_link m) h₁.next_pair_for_vo))
  ]

  begun-IsReady : IsReady (begun vo m h₁)
  begun-IsReady = record {
    distinct = HasDistinctKeys-put vo m h₁.vo_to_file_indexes b.distinct;
    listed = Each-put (λ e. has_vo e.0 h₁.vos ≡ true) vo m h₁.vo_to_file_indexes b.here b.listed;
    filled =
        Each-put (λ e. IsFilled e.1) vo m h₁.vo_to_file_indexes
          (Each-find (λ e. IsFilled e.1) vo m h₁.vo_to_file_indexes hm b.filled) b.filled;
    turns = begun_turns;
  }

  amount-begun : (u : String → FileIndex → ℕ) → amount u (begun vo m h₁) ≡ amount u h₁
  amount-begun u =
      let e = weigh-put (λ vo m. links_amount (u vo) m) vo m m h₁.vo_to_file_indexes hm in
      omega (arith, e)

  begun-IsStocked : IsStocked (begun vo m h₁)
  begun-IsStocked = record {
    enough = λ i. rw (amount-begun (at_index i)) (b.stocked.enough i);
    named = b.stocked.named;
  }

-- The indexes of the files, each once.
unfoldable pub fresh_indexes : List FileIndex → List TransferFile → List FileIndex
fresh_indexes seen [] = []
fresh_indexes seen (t ∷ ts) = elim (contains_index (index_of t) seen) [
  | true ↦ fresh_indexes seen ts
  | false ↦ index_of t ∷ fresh_indexes (index_of t ∷ seen) ts
]

module _ (t : TransferFile) (seen : List FileIndex) where
  add_file-seen :
      (vo : String) (h : Handler)
      → contains_index (index_of t) seen ≡ true
      → add_file vo t (seen, h) ≡ (seen, push_file t (note_storages t h))
  unfolding add_file
  add_file-seen vo h e = rw e refl

  add_file-new :
      (vo : String) (h : Handler)
      → contains_index (index_of t) seen ≡ false
      → add_file vo t (seen, h)
        ≡ (index_of t ∷ seen, push_index vo t (push_file t (note_storages t h)))
  unfolding add_file
  add_file-new vo h e = rw e refl

  pub fresh_seen :
      (ts : List TransferFile)
      → contains_index (index_of t) seen ≡ true
      → fresh_indexes seen (t ∷ ts) ≡ fresh_indexes seen ts
  unfolding fresh_indexes
  fresh_seen ts e = rw (e, fresh_indexes) refl

  pub fresh_new :
      (ts : List TransferFile)
      → contains_index (index_of t) seen ≡ false
      → fresh_indexes seen (t ∷ ts) ≡ index_of t ∷ fresh_indexes (index_of t ∷ seen) ts
  unfolding fresh_indexes
  fresh_new ts e = rw (e, fresh_indexes) refl

amount-add_files :
    (u : String → FileIndex → ℕ) (vo : String) (ts : List TransferFile) (seen : List FileIndex)
    (h : Handler)
    → amount u (add_files vo ts (seen, h)).1 ≡ amount u h + sum_of (u vo) (fresh_indexes seen ts)
unfolding add_files fresh_indexes
amount-add_files u vo [] seen h = omega arith
amount-add_files u vo (t ∷ ts) seen h = elim (Bool-cases (contains_index (index_of t) seen)) [
  | inl e ↦
      ap (λ s. amount u (add_files vo ts s).1) (add_file-seen t seen vo h e)
      ∙ amount-add_files u vo ts seen (push_file t (note_storages t h))
      ∙ ap (λ l. amount u h + sum_of (u vo) l) (sym (fresh_seen t seen ts e))
  | inr e ↦ omega (
    arith,
    ap (λ s. amount u (add_files vo ts s).1) (add_file-new t seen vo h e),
    amount-add_files u vo ts (index_of t ∷ seen)
        (push_index vo t (push_file t (note_storages t h))),
    amount-push_index u vo t (push_file t (note_storages t h)),
    ap (sum_of (u vo)) (fresh_new t seen ts e),
  )
]

-- The files of each VO, and a handler that is ready and stocked, after they are added.
pub record IsAdded (u : String → FileIndex → ℕ) (n : ℕ) (h : Handler) : Type 0 where
  pub ready : IsReady h
  pub stocked : IsStocked h
  pub added : amount u h ≡ n

add_vo-IsAdded :
    (u : String → FileIndex → ℕ) (vo : String) (ts : List TransferFile) (h : Handler)
    → is_empty ts ≡ false
    → IsReady h
    → IsStocked h
    → IsAdded u (amount u h + sum_of (u vo) (fresh_indexes [] ts)) (add_vo vo ts h)
unfolding add_vo
add_vo-IsAdded u vo ts h n r s =
    let (b, (m, hm)) = all_added vo ts (with_vo vo h) n (with_vo-IsBuilding vo h r s) in
    rw hm (record {
      ready = begun-IsReady vo m h _ r b hm;
      stocked = begun-IsStocked vo m h _ r b hm;
      added = amount-begun vo m h _ r b hm u ∙ amount-add_files u vo ts [] (with_vo vo h);
    })

add_vos-IsAdded :
    (u : String → FileIndex → ℕ) (files : Dict String (List TransferFile)) (h : Handler)
    → Each (λ e. is_empty e.1 ≡ false) files
    → IsReady h
    → IsStocked h
    → IsAdded u
        (amount u h + weigh (λ vo ts. sum_of (u vo) (fresh_indexes [] ts)) files)
        (add_vos files h)
unfolding add_vos weigh
add_vos-IsAdded u [] h n r s = record { ready = r; stocked = s; added = omega arith }
add_vos-IsAdded u ((vo, ts) ∷ files) h n r s =
    let a = add_vo-IsAdded u vo ts h n.0 r s in
    let a' = add_vos-IsAdded u files (add_vo vo ts h) n.1 a.ready a.stocked in
    record { ready = a'.ready; stocked = a'.stocked; added = omega (arith, a.added, a'.added) }

no_files-IsReady : IsReady no_files
unfolding find
no_files-IsReady = record {
  distinct = tt;
  listed = tt;
  filled = tt;
  turns = λ vo p m h. absurd (cc h);
}

no_files-IsStocked : IsStocked no_files
unfolding find weigh
no_files-IsStocked = record { enough = λ i. omega arith; named = λ i. tt }

-- The constructor makes a handler that is ready and stocked, with each index of each VO once.
pub new_handler-IsAdded :
    (u : String → FileIndex → ℕ) (files : Dict String (List TransferFile))
    → Each (λ e. is_empty e.1 ≡ false) files
    → IsAdded u (weigh (λ vo ts. sum_of (u vo) (fresh_indexes [] ts)) files) (new_handler files)
unfolding new_handler weigh
new_handler-IsAdded u files n =
    let a = add_vos-IsAdded u files no_files n no_files-IsReady no_files-IsStocked in
    record { ready = a.ready; stocked = a.stocked; added = omega (arith, a.added) }
