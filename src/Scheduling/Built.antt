-- ===== src/Scheduling/Built.antt =====
-- What the constructor of the handler builds, one file after the other.
use fts.Common.{
  Bool-cases, Each, List, Option, String, [], arith, false, find, inl, inr, is_empty, none, refl,
  some, weigh, weigh-put, weigh-put_new, ℕ, ◌++◌, ◌+◌, ◌==◌, ◌∷◌, ◌≡◌, string_key, nat_key,
}
use fts.CommandLine.Types.{TransferFile}
use fts.Optimizer.Run.{lt_pair}
use fts.Optimizer.Types.{Pair, pair_key}
use fts.Scheduling.Amounts.{amount, links_amount, no_amount, sum_of-append}
use fts.Scheduling.Handler.{Handler, link_of_file, push_index}
use fts.Scheduling.Ready.{IsFilled}
use fts.Scheduling.Types.{FileIndex, index_of, index_key}
use fts.Transfers.LinkMap.{LinkMap, push_link}

links_amount-push_link :
    (u : FileIndex → ℕ) (p : Pair) (i : FileIndex) (m : LinkMap FileIndex)
    → links_amount u (push_link p i m) ≡ links_amount u m + u i
unfolding links_amount weigh push_link
links_amount-push_link u p i [] = omega arith
links_amount-push_link u p i ((q, l) ∷ m) =
    ground (arith, links_amount-push_link u p i m, sum_of-append u l (i ∷ []))

is_empty-append : (l : List FileIndex) (i : FileIndex) → is_empty (l ++ i ∷ []) ≡ false
is_empty-append [] i = refl
is_empty-append (j ∷ l) i = refl

Each-push_link :
    (p : Pair) (i : FileIndex) (m : LinkMap FileIndex)
    → Each (λ e. is_empty e.1 ≡ false) m
    → Each (λ e. is_empty e.1 ≡ false) (push_link p i m)
unfolding push_link
Each-push_link p i [] h = (refl, tt)
Each-push_link p i ((q, l) ∷ m) h = elim (Bool-cases (p == q)) [
  | inl e ↦ rw e (is_empty-append l i, h.1)
  | inr e ↦ elim (Bool-cases (lt_pair p q)) [
    | inl e' ↦ rw (e, e') (refl, h)
    | inr e' ↦ rw (e, e') (h.0, Each-push_link p i m h.1)
  ]
]

pub push_link-IsFilled :
    (p : Pair) (i : FileIndex) (m : LinkMap FileIndex)
    → Each (λ e. is_empty e.1 ≡ false) m
    → IsFilled (push_link p i m)
unfolding push_link
push_link-IsFilled p i m h = (some_link m, Each-push_link p i m h)
  where
    some_link : (m : LinkMap FileIndex) → is_empty (push_link p i m) ≡ false
    some_link [] = refl
    some_link ((q, l) ∷ m) = ground arith

pub amount-push_index :
    (u : String → FileIndex → ℕ) (vo : String) (t : TransferFile) (h : Handler)
    → amount u (push_index vo t h) ≡ amount u h + u vo (index_of t)
amount-push_index u vo t h = by_entry (find vo h.vo_to_file_indexes) refl
  where
    f : String → LinkMap FileIndex → ℕ
    f = λ vo m. links_amount (u vo) m

    by_entry :
        (o : Option (LinkMap FileIndex))
        → find vo h.vo_to_file_indexes ≡ o
        → amount u (push_index vo t h) ≡ amount u h + u vo (index_of t)
    by_entry none e = rw e (
        omega (
          arith,
          weigh-put_new f vo (push_link (link_of_file t) (index_of t) []) h.vo_to_file_indexes e,
          links_amount-push_link (u vo) (link_of_file t) (index_of t) [],
          no_amount (u vo),
        ))
    by_entry (some m) e = rw e (
        omega (
          arith,
          weigh-put f vo m (push_link (link_of_file t) (index_of t) m) h.vo_to_file_indexes e,
          links_amount-push_link (u vo) (link_of_file t) (index_of t) m,
        ))
