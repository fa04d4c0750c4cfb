-- ===== src/Transfers/Selection.antt =====
-- Which queue `selectQueueForPair` chooses.
use fts.Common.{
  Bool, Bool-cases, Dict, Double, Each, List, String, [], any, ap, arith, false, get_elem?, inl,
  inr, keep, length, length-keep-le, map, nat_beq, nat_beq_iff, none, not, pos, refl, some, suc,
  true, zero, ℕ, ◌||◌, ◌∙◌, ◌∷◌, ◌≡◌, ◌≢◌, ◌⊎◌, string_key, nat_key,
}
use fts.Optimizer.Types.{Pair, pair_key}
use fts.Transfers.VoShares.{
  Generator, QueueId, draw, final_weight, is_unschedulable, queue_id, select_queue_for_pair,
}

module _ {A : Type 0} where
  keep-full :
      (p : A → Bool) (xs : List A) → length (keep p xs) ≡ length xs → Each (λ x. p x ≡ true) xs
  keep-full p [] e = tt
  keep-full p (x ∷ xs) e =
      let le = length-keep-le p xs in (ground (arith, le), keep-full p xs (ground (arith, le)))

  keep-not_full :
      (p : A → Bool) (xs : List A) → length (keep p xs) ≢ length xs → any (λ x. not (p x)) xs ≡ true
  keep-not_full p [] e = absurd (e refl)
  keep-not_full p (x ∷ xs) e = ground (arith, keep-not_full p xs)

  any-map :
      {B : Type 0} (f : A → B) (q : B → Bool) (xs : List A)
      → any q (map f xs) ≡ any (λ x. q (f x)) xs
  any-map f q [] = refl
  any-map f q (x ∷ xs) = ap (λ b. q (f x) || b) (any-map f q xs)

  get_elem?-map :
      {B : Type 0} (f : A → B) (xs : List A) (i : ℕ) (b : B)
      → get_elem? (map f xs) i ≡ some b
      → (a : A) × (get_elem? xs i ≡ some a) × (f a ≡ b)
  get_elem?-map f [] i b e = absurd (cc e)
  get_elem?-map f (x ∷ xs) zero b e = (x, refl, ground (arith, e))
  get_elem?-map f (x ∷ xs) (suc i) b e = get_elem?-map f xs i b e

-- A distribution never picks a weight that is not positive, if there is one that is.
abbrev pub PicksPositive : {F G : Type 0} → Double F → Generator F G → Type 0
PicksPositive {F} {G} d r =
    (g : G) (ws : List F)
    → any (λ w. not (d.le w (d.of_int (pos 0)))) ws ≡ true
    → (w : F) × (get_elem? ws (r.discrete g ws).0 ≡ some w) × (d.le w (d.of_int (pos 0)) ≡ false)

module _ {F G : Type 0} ⦃d : Double F⦄ ⦃r : Generator F G⦄ where
  pub draw-at :
      (pair : Pair) (vos : List (String × ℕ)) (ws : List F) (g : G) (v : String × ℕ)
      → get_elem? vos (r.discrete g ws).0 ≡ some v
      → (draw pair vos ws g).0 ≡ some (queue_id pair v)
  unfolding draw
  draw-at pair vos ws g v e = ground (arith, e)

  draw-schedulable :
      (picks : PicksPositive d r) (pair : Pair) (vos : List (String × ℕ)) (weights : Dict String F)
      (g : G)
      → any (λ v. not (is_unschedulable weights vos v)) vos ≡ true
      → (i : ℕ) × (v : String × ℕ) × (get_elem? vos i ≡ some v)
        × ((draw pair vos (map (final_weight weights vos) vos) g).0 ≡ some (queue_id pair v))
        × (is_unschedulable weights vos v ≡ false)
  unfolding is_unschedulable
  draw-schedulable picks pair vos weights g some_vo =
      let f = final_weight weights vos in
      let (w, at_w, positive) = picks g (map f vos) (any-map f _ vos ∙ some_vo) in
      let i = (r.discrete g (map f vos)).0 in
      let (v, at_v, e) = get_elem?-map f vos i w at_w in
      (
        i,
        v,
        at_v,
        draw-at pair vos (map f vos) g v at_v,
        ap (λ x. d.le x (d.of_int (pos 0))) e ∙ positive,
      )

  -- No queue is chosen only if no VO of the link has a positive weight; otherwise the queue of a VO with
  -- a positive weight is, for a distribution that picks only positive weights.
  pub select_queue-schedulable :
      (picks : PicksPositive d r) (pair : Pair) (vos : List (String × ℕ)) (weights : Dict String F)
      (unschedulable : List QueueId) (g : G)
      → (((select_queue_for_pair pair vos weights (unschedulable, g)).0 ≡ none)
          × Each (λ v. is_unschedulable weights vos v ≡ true) vos)
        ⊎ ((i : ℕ) × (v : String × ℕ) × (get_elem? vos i ≡ some v)
            × ((select_queue_for_pair pair vos weights (unschedulable, g)).0
                ≡ some (queue_id pair v))
            × (is_unschedulable weights vos v ≡ false))
  unfolding select_queue_for_pair
  select_queue-schedulable picks pair vos weights unschedulable g =
      let p = is_unschedulable weights vos in
      elim (Bool-cases (nat_beq (length (keep p vos)) (length vos))) [
        | inl e ↦
            inl (rw e refl, keep-full p vos ((nat_beq_iff (length (keep p vos)) (length vos)).0 e))
        | inr e ↦
            let (i, v, at_v, drawn, positive) =
              draw-schedulable picks pair vos weights g
                (keep-not_full p vos (λ q. ground (arith))) in
            inr (i, v, at_v, rw e drawn, positive)
      ]
