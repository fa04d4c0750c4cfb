-- ===== src/Scheduling/Ready.antt =====
-- What holds of the handler whenever a file is asked for.
use fts.Common.{
  Bool, Bool-cases, Each, HasDistinctKeys, List, String, [], arith, erase, false, find, find-put,
  inl, inr, is_empty, put, refl, some, true, ◌==◌, ◌||◌, ◌∙◌, ◌∷◌, ◌≡◌, string_key, nat_key,
}
use fts.Optimizer.Types.{Pair, pair_beq_iff, pair_key}
use fts.Scheduling.Handler.{Handler, first_link, link_after, without_front}
use fts.Scheduling.Types.{FileIndex, index_key}
use fts.Transfers.LinkMap.{LinkMap}

unfoldable pub has_vo : String → List String → Bool
has_vo vo [] = false
has_vo vo (v ∷ vos) = (v == vo) || has_vo vo vos

abbrev pub Has : Pair → LinkMap FileIndex → Type 0
Has p m = (l : List FileIndex) × (find p m ≡ some l)

abbrev pub IsFilled : LinkMap FileIndex → Type 0
IsFilled m = (is_empty m ≡ false) × Each (λ e. is_empty e.1 ≡ false) m

-- The links of a VO with an entry are not empty, each has an index, and the iterator of the VO is at the
-- end or at one of them.
pub record IsReady (h : Handler) : Type 0 where
  pub distinct : HasDistinctKeys h.vo_to_file_indexes
  pub listed : Each (λ e. has_vo e.0 h.vos ≡ true) h.vo_to_file_indexes
  pub filled : Each (λ e. IsFilled e.1) h.vo_to_file_indexes
  pub turns :
      (vo : String) (p : Pair) (m : LinkMap FileIndex)
      → find vo h.vo_to_file_indexes ≡ some m
      → find vo h.next_pair_for_vo ≡ some (some p)
      → Has p m

pub first_link-Has : (p : Pair) (m : LinkMap FileIndex) → first_link m ≡ some p → Has p m
unfolding first_link find
first_link-Has p [] h = absurd (cc h)
first_link-Has p ((q, l) ∷ m) h = (l, ground (arith, h, pair_beq_iff q p))

-- The link that comes next is there when the one before it is taken away.
link_after-erase :
    (p q : Pair) (m : LinkMap FileIndex) → link_after p m ≡ some q → Has q (erase p m)
unfolding link_after erase find
link_after-erase p q [] h = absurd (cc h)
link_after-erase p q ((r, l) ∷ m) h = elim (Bool-cases (r == p)) [
  | inl e ↦ rw e (first_link-Has q m (ground (arith, e, h)))
  | inr e ↦ rw e (elim (Bool-cases (r == q)) [
    | inl e' ↦ rw e' (l, refl)
    | inr e' ↦ rw e' (link_after-erase p q m (ground (arith, e, h)))
  ])
]

link_after-Has : (p q : Pair) (m : LinkMap FileIndex) → link_after p m ≡ some q → Has q m
unfolding link_after find
link_after-Has p q [] h = absurd (cc h)
link_after-Has p q ((r, l) ∷ m) h = elim (Bool-cases (r == q)) [
  | inl e' ↦ rw e' (l, refl)
  | inr e' ↦ rw e' (elim (Bool-cases (r == p)) [
    | inl e ↦ first_link-Has q m (ground (arith, e, h))
    | inr e ↦ link_after-Has p q m (ground (arith, e, h))
  ])
]

Has-put : (p q : Pair) (l : List FileIndex) (m : LinkMap FileIndex) → Has q m → Has q (put p l m)
Has-put p q l m (k, h) = elim (Bool-cases (p == q)) [
  | inl e ↦ (l, find-put p q l m ∙ (rw e))
  | inr e ↦ (k, find-put p q l m ∙ (rw e h))
]

pub link_after-without :
    (p q : Pair) (rest : List FileIndex) (m : LinkMap FileIndex)
    → link_after p m ≡ some q
    → Has q (without_front p rest m)
link_after-without p q [] m h = link_after-erase p q m h
link_after-without p q (i ∷ rest) m h = Has-put p q (i ∷ rest) m (link_after-Has p q m h)
