-- ===== src/Transfers/OnePerLink.antt =====
-- `applyVoShares` chooses at most one queue for each link.
use fts.Common.{
  Dict, Double, Each, Each-map, List, Option, String, [], none, refl, some, subst, sym, true, ℕ,
  ◌++◌, ◌∷◌, ◌≡◌, string_key, nat_key,
}
use fts.Optimizer.Run.{lt_pair}
use fts.Optimizer.Types.{Pair, pair_key}
use fts.Transfers.Given.{Chosen, Chosen-select, Each-select_queues, Grouped}
use fts.Transfers.VoShares.{
  Generator, QueueId, apply_vo_shares, chosen_queues, group_queues, queue_id, select_queues,
}
use fts.Transfers.LinkMap.{IsBefore, IsSortedMap, IsSortedMap-push_link}

abbrev Groups : Type 0
Groups = Dict Pair (List (String × ℕ))

abbrev pub link_of : QueueId → Pair
link_of q = record { source = q.source_se; destination = q.dest_se }

-- The links of the queues increase strictly, so that no two queues have the same.
abbrev pub HasOnePerLink : List QueueId → Type 0
HasOnePerLink [] = Unit
HasOnePerLink (q ∷ qs) = Each (λ r. lt_pair (link_of q) (link_of r) ≡ true) qs × HasOnePerLink qs

IsSortedMap-group_queues :
    (queues : List QueueId) (m : Groups) → IsSortedMap m → IsSortedMap (group_queues queues m)
unfolding group_queues
IsSortedMap-group_queues [] m s = s
IsSortedMap-group_queues (q ∷ queues) m s =
    IsSortedMap-group_queues queues _ (IsSortedMap-push_link _ _ m s)

all_vos :
    (P : QueueId → Type 0) (p : Pair) (vos : List (String × ℕ))
    → ((v : String × ℕ) → P (queue_id p v))
    → Each (λ v. P (queue_id p v)) vos
all_vos P p [] h = tt
all_vos P p (v ∷ vos) h = (h v, all_vos P p vos h)

-- The queues of the links that come after a pair have links that come after it.
Grouped-after :
    (p : Pair) (m : Groups) → IsBefore p m → Grouped (λ q. lt_pair p (link_of q) ≡ true) m
Grouped-after p m h =
    Each-map (λ e. lt_pair p e.0 ≡ true) _ m
      (λ e k. all_vos (λ q. lt_pair p (link_of q) ≡ true) e.0 e.1 (λ v. k)) h

HasOnePerLink-add :
    (p : Pair) (o : Option QueueId) (qs : List QueueId)
    → Chosen (λ q. link_of q ≡ p) o
    → Each (λ r. lt_pair p (link_of r) ≡ true) qs
    → HasOnePerLink qs
    → HasOnePerLink (chosen_queues o ++ qs)
HasOnePerLink-add p none qs c h k = k
HasOnePerLink-add p (some q) qs c h k =
    (subst (λ p. Each (λ r. lt_pair p (link_of r) ≡ true) qs) (sym c) h, k)

module _ {F G : Type 0} ⦃d : Double F⦄ ⦃r : Generator F G⦄ where
  HasOnePerLink-select_queues :
      (config : Pair → List (String × F)) (m : Groups) (u : List QueueId) (g : G)
      → IsSortedMap m
      → HasOnePerLink (select_queues config m (u, g)).0
  unfolding select_queues
  HasOnePerLink-select_queues config [] u g s = tt
  HasOnePerLink-select_queues config ((p, vos) ∷ m) u g s =
      HasOnePerLink-add p _ _
        (Chosen-select (λ q. link_of q ≡ p) p vos _ u g
          (all_vos (λ q. link_of q ≡ p) p vos (λ v. refl)))
        (Each-select_queues _ config m _ _ (Grouped-after p m s.0))
        (HasOnePerLink-select_queues config m _ _ s.1)

  -- At most one queue is chosen for each link, and the links come in increasing order.
  pub apply_vo_shares-HasOnePerLink :
      (config : Pair → List (String × F)) (queues u : List QueueId) (g : G)
      → HasOnePerLink (apply_vo_shares config queues (u, g)).0
  unfolding apply_vo_shares
  apply_vo_shares-HasOnePerLink config queues u g =
      HasOnePerLink-select_queues config (group_queues queues []) u g
        (IsSortedMap-group_queues queues [] tt)
