-- ===== src/Transfers/Given.antt =====
-- `applyVoShares` chooses among the queues that it is given.
use fts.Common.{
  Bool, Bool-cases, Dict, Double, Each, Each-append, List, Option, String, [], arith, get_elem?,
  inl, inr, keep, length, map, nat_beq, none, refl, some, subst, suc, sym, zero, ℕ, ◌++◌, ◌==◌, ◌∷◌,
  ◌≡◌, string_key, nat_key,
}
use fts.Optimizer.Run.{lt_pair}
use fts.Optimizer.Types.{Pair, pair_beq_iff, pair_key}
use fts.Transfers.Selection.{draw-at}
use fts.Transfers.VoShares.{
  Generator, QueueId, apply_vo_shares, chosen_queues, draw, group_queues, is_unschedulable,
  queue_id, select_queue_for_pair, select_queues, weights_of,
}
use fts.Transfers.LinkMap.{push_link}

-- A condition on queues holds of a chosen one.
abbrev pub Chosen : (QueueId → Type 0) → Option QueueId → Type 0
Chosen P none = Unit
Chosen P (some q) = P q

-- Every queue of a link, by its pair and VO, satisfies the condition.
abbrev pub Grouped : (QueueId → Type 0) → Dict Pair (List (String × ℕ)) → Type 0
Grouped P = Each (λ e. Each (λ v. P (queue_id e.0 v)) e.1)

Grouped-push_link :
    (P : QueueId → Type 0) (p : Pair) (v : String × ℕ) (m : Dict Pair (List (String × ℕ)))
    → P (queue_id p v)
    → Grouped P m
    → Grouped P (push_link p v m)
unfolding push_link
Grouped-push_link P p v [] h hs = ((h, tt), tt)
Grouped-push_link P p v ((q, vos) ∷ m) h hs = elim (Bool-cases (p == q)) [
  | inl e ↦ rw e (
    Each-append (λ v. P (queue_id q v)) vos _ hs.0
        (subst (λ q. P (queue_id q v)) ((pair_beq_iff p q).0 e) h, tt),
    hs.1,
  )
  | inr e ↦ elim (Bool-cases (lt_pair p q)) [
    | inl e' ↦ rw (e, e') ((h, tt), hs)
    | inr e' ↦ rw (e, e') (hs.0, Grouped-push_link P p v m h hs.1)
  ]
]

Grouped-group_queues :
    (P : QueueId → Type 0) (queues : List QueueId) (m : Dict Pair (List (String × ℕ)))
    → Each P queues
    → Grouped P m
    → Grouped P (group_queues queues m)
unfolding group_queues
Grouped-group_queues P [] m h hs = hs
Grouped-group_queues P (q ∷ queues) m h hs =
    Grouped-group_queues P queues _ h.1 (Grouped-push_link P _ _ m h.0 hs)

Each-get_elem? :
    {A : Type 0} (P : A → Type 0) (xs : List A) (i : ℕ) (x : A)
    → Each P xs
    → get_elem? xs i ≡ some x
    → P x
Each-get_elem? P [] i x h e = absurd (cc e)
Each-get_elem? P (y ∷ xs) zero x h e = subst P (ground (arith, e)) h.0
Each-get_elem? P (y ∷ xs) (suc i) x h e = Each-get_elem? P xs i x h.1 e

Each-queues :
    (P : QueueId → Type 0) (p : String × ℕ → Bool) (pair : Pair) (vos : List (String × ℕ))
    → Each (λ v. P (queue_id pair v)) vos
    → Each P (map (queue_id pair) (keep p vos))
Each-queues P p pair [] h = tt
Each-queues P p pair (v ∷ vos) h = elim (Bool-cases (p v)) [
  | inl e ↦ rw e (h.0, Each-queues P p pair vos h.1)
  | inr e ↦ rw e (Each-queues P p pair vos h.1)
]

Each-Chosen :
    (P : QueueId → Type 0) (o : Option QueueId) (qs : List QueueId)
    → Chosen P o
    → Each P qs
    → Each P (chosen_queues o ++ qs)
Each-Chosen P none qs h hs = hs
Each-Chosen P (some q) qs h hs = (h, hs)

module _ {F G : Type 0} ⦃d : Double F⦄ ⦃r : Generator F G⦄ where
  draw-out_of_range :
      (pair : Pair) (vos : List (String × ℕ)) (ws : List F) (g : G)
      → get_elem? vos (r.discrete g ws).0 ≡ none
      → (draw pair vos ws g).0 ≡ none
  unfolding draw
  draw-out_of_range pair vos ws g e = ground (arith, e)

  Chosen-draw :
      (P : QueueId → Type 0) (pair : Pair) (vos : List (String × ℕ)) (ws : List F) (g : G)
      → Each (λ v. P (queue_id pair v)) vos
      → Chosen P (draw pair vos ws g).0
  Chosen-draw P pair vos ws g h = go (get_elem? vos (r.discrete g ws).0) refl
    where
      go :
          (o : Option (String × ℕ))
          → get_elem? vos (r.discrete g ws).0 ≡ o
          → Chosen P (draw pair vos ws g).0
      go none e = subst (Chosen P) (sym (draw-out_of_range pair vos ws g e)) tt
      go (some v) e =
          subst (Chosen P) (sym (draw-at pair vos ws g v e)) (Each-get_elem? _ vos _ v h e)

  pub Chosen-select :
      (P : QueueId → Type 0) (pair : Pair) (vos : List (String × ℕ)) (weights : Dict String F)
      (u : List QueueId) (g : G)
      → Each (λ v. P (queue_id pair v)) vos
      → Chosen P (select_queue_for_pair pair vos weights (u, g)).0
  unfolding select_queue_for_pair
  Chosen-select P pair vos weights u g h =
      let p = is_unschedulable weights vos in
      elim (Bool-cases (nat_beq (length (keep p vos)) (length vos))) [
        | inl e ↦ rw e tt
        | inr e ↦ rw e (Chosen-draw P pair vos _ g h)
      ]

  excluded-select :
      (P : QueueId → Type 0) (pair : Pair) (vos : List (String × ℕ)) (weights : Dict String F)
      (u : List QueueId) (g : G)
      → Each (λ v. P (queue_id pair v)) vos
      → Each P u
      → Each P (select_queue_for_pair pair vos weights (u, g)).1
  unfolding select_queue_for_pair
  excluded-select P pair vos weights u g h hu =
      let p = is_unschedulable weights vos in
      let hu' = Each-append P u _ hu (Each-queues P p pair vos h) in
      elim (Bool-cases (nat_beq (length (keep p vos)) (length vos))) [
        | inl e ↦ rw e hu'
        | inr e ↦ rw e hu'
      ]

  pub Each-select_queues :
      (P : QueueId → Type 0) (config : Pair → List (String × F)) (m : Dict Pair (List (String × ℕ)))
      (u : List QueueId) (g : G)
      → Grouped P m
      → Each P (select_queues config m (u, g)).0
  unfolding select_queues
  Each-select_queues P config [] u g h = tt
  Each-select_queues P config ((p, vos) ∷ m) u g h =
      Each-Chosen P _ _ (Chosen-select P p vos (weights_of (config p) []) u g h.0)
        (Each-select_queues P config m _ _ h.1)

  excluded-select_queues :
      (P : QueueId → Type 0) (config : Pair → List (String × F)) (m : Dict Pair (List (String × ℕ)))
      (u : List QueueId) (g : G)
      → Grouped P m
      → Each P u
      → Each P (select_queues config m (u, g)).1
  unfolding select_queues
  excluded-select_queues P config [] u g h hu = hu
  excluded-select_queues P config ((p, vos) ∷ m) u g h hu =
      excluded-select_queues P config m _ _ h.1
        (excluded-select P p vos (weights_of (config p) []) u g h.0 hu)

  -- Whatever holds of all the queues that are given holds of all that are chosen, and of all that are
  -- added to the ones that cannot be scheduled: no queue is made up.
  pub apply_vo_shares-given :
      (P : QueueId → Type 0) (config : Pair → List (String × F)) (queues u : List QueueId) (g : G)
      → Each P queues
      → Each P u
      → let (result, u', g') = apply_vo_shares config queues (u, g) in Each P result × Each P u'
  unfolding apply_vo_shares
  apply_vo_shares-given P config queues u g h hu =
      let grouped = Grouped-group_queues P queues [] h tt in
      (
        Each-select_queues P config (group_queues queues []) u g grouped,
        excluded-select_queues P config (group_queues queues []) u g grouped hu,
      )
