-- ===== src/Transfers/VoShares.antt =====
-- VoShares.cpp: one queue for each link, chosen at random by the weights of the VOs.
use fts.Common.{
  Bool, Dict, Double, List, Option, String, [], false, find, get_elem?, get_or, if◌then◌else◌,
  is_empty, keep, length, ltb, map, nat_beq, none, pos, put, some, true, ℕ, ◌++◌, ◌∷◌, string_key,
  nat_key,
}
use fts.Optimizer.Types.{Pair, pair_key}
use fts.Transfers.LinkMap.{push_link}

pub record QueueId : Type 0 where
  pub source_se : String
  pub dest_se : String
  pub vo_name : String
  pub active_count : ℕ

abbrev pub queue_id : Pair → String × ℕ → QueueId
queue_id pair (vo, active_count) = record {
  source_se = pair.source;
  dest_se = pair.destination;
  vo_name = vo;
  active_count = active_count;
}

-- The generator of random numbers, and a discrete distribution over a list of weights drawn from it.
pub record Generator (F G : Type 0) : Type 0 where
  pub discrete : G → List F → ℕ × G

abbrev is_none : {A : Type 0} → Option A → Bool
is_none none = true
is_none (some a) = false

module _ {F : Type 0} ⦃d : Double F⦄ where
  -- The catch-all weight, of which the VOs without a weight get equal parts.
  unfoldable pub public_weight : Dict String F → F
  public_weight weights =
      if is_empty weights
      then d.of_int (pos 1)
      else get_or (d.of_int (pos 0)) (find "public" weights)

  unfoldable pub public_count : Dict String F → List (String × ℕ) → ℕ
  public_count weights vos = length (keep (λ v. is_none (find v.0 weights)) vos)

  unfoldable pub public_share : Dict String F → List (String × ℕ) → F
  unfolding public_weight public_count
  public_share weights vos =
      if ltb 0 (public_count weights vos)
      then d.div (public_weight weights) (d.of_int (pos (public_count weights vos)))
      else public_weight weights

  unfoldable pub final_weight : Dict String F → List (String × ℕ) → String × ℕ → F
  unfolding public_share
  final_weight weights vos v = get_or (public_share weights vos) (find v.0 weights)

  unfoldable pub is_unschedulable : Dict String F → List (String × ℕ) → String × ℕ → Bool
  unfolding final_weight
  is_unschedulable weights vos v = d.le (final_weight weights vos v) (d.of_int (pos 0))

  unfoldable pub weights_of : List (String × F) → Dict String F → Dict String F
  weights_of [] weights = weights
  weights_of ((vo, weight) ∷ shares) weights = weights_of shares (put vo weight weights)

unfoldable pub group_queues :
    List QueueId → Dict Pair (List (String × ℕ)) → Dict Pair (List (String × ℕ))
group_queues [] m = m
group_queues (q ∷ queues) m = group_queues queues (
    push_link (record { source = q.source_se; destination = q.dest_se }) (q.vo_name, q.active_count)
      m)

abbrev pub chosen_queues : Option QueueId → List QueueId
chosen_queues none = []
chosen_queues (some q) = q ∷ []

module _ {F G : Type 0} ⦃d : Double F⦄ ⦃r : Generator F G⦄ where
  -- The queue at the index that was drawn. An index out of range would be undefined behaviour.
  unfoldable pub draw : Pair → List (String × ℕ) → List F → G → Option QueueId × G
  draw pair vos final_weights g =
      let (chosen, g') = r.discrete g final_weights in
      elim (get_elem? vos chosen) [ none ↦ (none, g') | some v ↦ (some (queue_id pair v), g') ]

  -- The choice, the queues that cannot be chosen, and the generator afterwards.
  unfoldable pub select_queue_for_pair :
      Pair
      → List (String × ℕ)
      → Dict String F
      → List QueueId × G
      → Option QueueId × List QueueId × G
  unfolding draw
  select_queue_for_pair pair vos weights (unschedulable, g) =
      let excluded = keep (is_unschedulable weights vos) vos in
      let unschedulable' = unschedulable ++ map (queue_id pair) excluded in
      if nat_beq (length excluded) (length vos)
      then (none, unschedulable', g)
      else (let (chosen, g') = draw pair vos (map (final_weight weights vos) vos) g in
          (chosen, unschedulable', g'))

  -- The loop over the links. `get_share_config` is the configuration that the database holds.
  unfoldable pub select_queues :
      (Pair → List (String × F))
      → Dict Pair (List (String × ℕ))
      → List QueueId × G
      → List QueueId × List QueueId × G
  unfolding weights_of
  select_queues get_share_config [] (unschedulable, g) = ([], unschedulable, g)
  select_queues get_share_config ((p, vos) ∷ m) s =
      let (chosen, u, g) = select_queue_for_pair p vos (weights_of (get_share_config p) []) s in
      let (result, u', g') = select_queues get_share_config m (u, g) in
      (chosen_queues chosen ++ result, u', g')

  unfoldable pub apply_vo_shares :
      (Pair → List (String × F)) → List QueueId → List QueueId × G → List QueueId × List QueueId × G
  unfolding group_queues
  apply_vo_shares get_share_config queues s =
      select_queues get_share_config (group_queues queues []) s
