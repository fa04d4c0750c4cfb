-- ===== src/Transfers/LinkMap.antt =====
-- `std::map` from the links to lists, which is sorted by `operator <`.
use fts.Common.{
  Bool-cases, Dict, Each, Each-map, List, [], arith, if◌then◌else◌, inl, inr, true, ◌++◌, ◌==◌, ◌∷◌,
  ◌≡◌, string_key, nat_key,
}
use fts.Optimizer.PairOrder.{lt_pair_total, lt_pair_trans}
use fts.Optimizer.Run.{lt_pair}
use fts.Optimizer.Types.{Pair, pair_beq_iff, pair_key}

abbrev pub LinkMap : Type 0 → Type 0
LinkMap A = Dict Pair (List A)

-- `map[link].push_back(v)`
unfoldable pub push_link : {A : Type 0} → Pair → A → LinkMap A → LinkMap A
push_link p v [] = (p, v ∷ []) ∷ []
push_link p v ((q, vs) ∷ m) =
    let rest = push_link p v m in
    if p == q
    then (q, vs ++ v ∷ []) ∷ m
    else if lt_pair p q
    then (p, v ∷ []) ∷ (q, vs) ∷ m
    else (q, vs) ∷ rest

module _ {A : Type 0} where
  -- Every link of the map comes after the pair.
  abbrev pub IsBefore : Pair → LinkMap A → Type 0
  IsBefore p = Each (λ e. lt_pair p e.0 ≡ true)

  abbrev pub IsSortedMap : LinkMap A → Type 0
  IsSortedMap [] = Unit
  IsSortedMap (e ∷ m) = IsBefore e.0 m × IsSortedMap m

  pub IsBefore-push_link :
      (b p : Pair) (v : A) (m : LinkMap A)
      → lt_pair b p ≡ true
      → IsBefore b m
      → IsBefore b (push_link p v m)
  unfolding push_link
  IsBefore-push_link b p v [] h hs = (h, tt)
  IsBefore-push_link b p v ((q, vs) ∷ m) h hs = elim (Bool-cases (p == q)) [
    | inl e ↦ rw e hs
    | inr e ↦ elim (Bool-cases (lt_pair p q)) [
      | inl e' ↦ rw (e, e') (h, hs)
      | inr e' ↦ rw (e, e') (hs.0, IsBefore-push_link b p v m h hs.1)
    ]
  ]

  IsBefore-trans : (a b : Pair) (m : LinkMap A) → lt_pair a b ≡ true → IsBefore b m → IsBefore a m
  IsBefore-trans a b m h = Each-map _ _ m (λ e k. lt_pair_trans a b e.0 h k)

  pub IsSortedMap-push_link :
      (p : Pair) (v : A) (m : LinkMap A) → IsSortedMap m → IsSortedMap (push_link p v m)
  unfolding push_link
  IsSortedMap-push_link p v [] s = (tt, tt)
  IsSortedMap-push_link p v ((q, vs) ∷ m) s = elim (Bool-cases (p == q)) [
    | inl e ↦ rw e s
    | inr e ↦ elim (Bool-cases (lt_pair p q)) [
      | inl e' ↦ rw (e, e') ((e', IsBefore-trans p q m e' s.0), s)
      | inr e' ↦
          rw (e, e')
            (
              IsBefore-push_link q p v m
                  (lt_pair_total p q (λ k. ground (arith, e, pair_beq_iff p q)) e') s.0,
              IsSortedMap-push_link p v m s.1,
            )
    ]
  ]
