-- ===== src/Scheduling/StaysReady.antt =====
-- A handler stays ready when files are taken from it.
use fts.Common.{
  Bool-cases, Each, Each-erase, Each-find, Each-put, HasDistinctKeys-erase, HasDistinctKeys-put,
  List, String, [], arith, false, find, find-erase, find-put, inl, inr, is_empty, put, refl, some,
  str_beq_iff, subst, sym, true, ◌==◌, ◌∷◌, ◌≡◌, ◌⊎◌, string_key, nat_key,
}
use fts.Optimizer.Types.{Pair, pair_key}
use fts.Scheduling.Handler.{Handler, link_after, store_links, without_front}
use fts.Scheduling.Ready.{Has, IsFilled, IsReady, has_vo, link_after-without}
use fts.Scheduling.Turns.{taken, turned}
use fts.Scheduling.Types.{FileIndex, index_key}
use fts.Transfers.LinkMap.{LinkMap}

-- The other VOs keep their links and their iterators.
module _ (vo : String) (p : Pair) (i : FileIndex) (rest : List FileIndex) (m : LinkMap FileIndex)
    (h : Handler) (r : IsReady h) (hm : find vo h.vo_to_file_indexes ≡ some m) where
  without_filled : Each (λ e. is_empty e.1 ≡ false) (without_front p rest m)
  without_filled = by_rest rest
    where
      all : Each (λ e. is_empty e.1 ≡ false) m
      all = (Each-find (λ e. IsFilled e.1) vo m h.vo_to_file_indexes hm r.filled).1

      by_rest : (rest : List FileIndex) → Each (λ e. is_empty e.1 ≡ false) (without_front p rest m)
      by_rest [] = Each-erase (λ e. is_empty e.1 ≡ false) p m all
      by_rest (i ∷ rest) = Each-put (λ e. is_empty e.1 ≡ false) p (i ∷ rest) m refl all

  vo_listed : has_vo vo h.vos ≡ true
  vo_listed = Each-find (λ e. has_vo e.0 h.vos ≡ true) vo m h.vo_to_file_indexes hm r.listed

  turn_of :
      (w : String) (q : Pair) (n n' : LinkMap FileIndex)
      → find w h.vo_to_file_indexes ≡ some n'
      → ((w == vo) ≡ true → n ≡ without_front p rest m)
      → ((w == vo) ≡ false → n ≡ n')
      → find w (put vo (link_after p m) h.next_pair_for_vo) ≡ some (some q)
      → Has q n
  turn_of w q n n' hn here there hq = elim (Bool-cases (w == vo)) [
    | inl e ↦ subst (Has q) (sym (here e)) (
        link_after-without p q rest m (
          ground (
            arith,
            e,
            hq,
            find-put vo w (link_after p m) h.next_pair_for_vo,
            str_beq_iff w vo,
            str_beq_iff vo w,
          )))
    | inr e ↦ subst (Has q) (sym (there e)) (
        r.turns w q n' hn (
          ground (
            arith,
            e,
            hq,
            find-put vo w (link_after p m) h.next_pair_for_vo,
            str_beq_iff w vo,
            str_beq_iff vo w,
          )))
  ]

  stored-IsReady :
      (m' : LinkMap FileIndex)
      → without_front p rest m ≡ m'
      → IsReady (store_links vo m' (turned vo p m h))
  stored-IsReady [] e = record {
    distinct = HasDistinctKeys-erase vo h.vo_to_file_indexes r.distinct;
    listed = Each-erase (λ e. has_vo e.0 h.vos ≡ true) vo h.vo_to_file_indexes r.listed;
    filled = Each-erase (λ e. IsFilled e.1) vo h.vo_to_file_indexes r.filled;
    turns = λ w q n hn hq.
        turn_of w q n n (ground (arith, hn, find-erase vo w h.vo_to_file_indexes r.distinct))
          (λ k. absurd (
            ground (
              arith,
              k,
              hn,
              find-erase vo w h.vo_to_file_indexes r.distinct,
              str_beq_iff w vo,
              str_beq_iff vo w,
            )))
          (λ k. refl) hq;
  }
  stored-IsReady (x ∷ m') e = record {
    distinct = HasDistinctKeys-put vo (x ∷ m') h.vo_to_file_indexes r.distinct;
    listed =
        Each-put (λ e. has_vo e.0 h.vos ≡ true) vo (x ∷ m') h.vo_to_file_indexes vo_listed r.listed;
    filled =
        Each-put (λ e. IsFilled e.1) vo (x ∷ m') h.vo_to_file_indexes
          (refl, subst (Each (λ e. is_empty e.1 ≡ false)) e without_filled) r.filled;
    turns = λ w q n hn hq. by_vo w q n hn hq (Bool-cases (w == vo));
  }
    where
      by_vo :
          (w : String) (q : Pair) (n : LinkMap FileIndex)
          → find w (put vo (x ∷ m') h.vo_to_file_indexes) ≡ some n
          → find w (put vo (link_after p m) h.next_pair_for_vo) ≡ some (some q)
          → ((w == vo) ≡ true) ⊎ ((w == vo) ≡ false)
          → Has q n
      by_vo w q n hn hq (inl k) =
          turn_of w q n m (ground (arith, k, hm, str_beq_iff w vo))
            (λ k. ground (
              arith,
              k,
              e,
              hn,
              find-put vo w (x ∷ m') h.vo_to_file_indexes,
              str_beq_iff w vo,
              str_beq_iff vo w,
            ))
            (λ k'. absurd (cc (k, k'))) hq
      by_vo w q n hn hq (inr k) =
          turn_of w q n n
            (ground (
              arith,
              k,
              hn,
              find-put vo w (x ∷ m') h.vo_to_file_indexes,
              str_beq_iff w vo,
              str_beq_iff vo w,
            ))
            (λ k'. absurd (cc (k, k'))) (λ k. refl) hq

  pub taken-IsReady : IsReady (taken vo p rest m h)
  taken-IsReady = stored-IsReady (without_front p rest m) refl
