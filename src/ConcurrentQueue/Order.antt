-- ===== src/ConcurrentQueue/Order.antt =====
-- What holds in every state of the queue.
use mathlib.Core.List.{append_assoc}
use mathlib.Core.Option.{some-injective}
use fts.Common.{
  Bool, Bool-cases, List, Option, String, [], ap, arith, eq_ℤ, false, inl, inr, is_empty, length,
  length-append, ltb, none, pos, refl, some, subst, sym, true, ℤ, ◌++◌, ◌-◌, ◌∙◌, ◌∷◌, ◌≡◌, ◌≤◌,
}
use fts.ConcurrentQueue.Queue.{
  IsReachable, Outcome, Queue, created, max_elements, new_queue, pop, popped_by, push, pushed,
  take_front, value, wake, woken,
}

pub record IsOrdered (q : Queue) : Type 0 where
  pub order : q.popped ++ q.the_queue ≡ q.accepted
  pub bound : length q.the_queue ≤ max_elements

push-IsOrdered : (val : String) (q : Queue) → IsOrdered q → IsOrdered (push val q)
unfolding push
push-IsOrdered val q k = elim (Bool-cases (ltb (length q.the_queue) max_elements)) [
  | inl e ↦ rw e (record {
    order = sym (append_assoc q.popped q.the_queue (val ∷ [])) ∙ ap (λ l. l ++ val ∷ []) k.order;
    bound = ground (arith, length-append q.the_queue (val ∷ []));
  })
  | inr e ↦ rw e k
]

take_front-IsOrdered :
    (q q' : Queue) (o : Outcome) → IsOrdered q → take_front q ≡ some (o, q') → IsOrdered q'
unfolding take_front
take_front-IsOrdered q q' o k t = go q.the_queue refl (take_front q) refl t
  where
    go :
        (l : List String)
        → q.the_queue ≡ l
        → (r : Option (Outcome × Queue))
        → (elim l as (λ _. Option (Outcome × Queue)) [
          | [] ↦ none
          | ret ∷ rest ↦
              some (value ret, record q { the_queue = rest; popped = q.popped ++ ret ∷ [] })
        ])
          ≡ r
        → r ≡ some (o, q')
        → IsOrdered q'
    go [] e r f t = absurd (cc (f, t))
    go (x ∷ xs) e r f t = subst IsOrdered (ap (λ p. p.1) (some-injective _ _ (f ∙ t))) (record {
      order = append_assoc q.popped (x ∷ []) xs ∙ ap (λ l. q.popped ++ l) (sym e) ∙ k.order;
      bound = ground (arith, k.bound, e);
    })

pop-IsOrdered :
    (wait : ℤ) (q q' : Queue) (o : Outcome) → IsOrdered q → pop wait q ≡ some (o, q') → IsOrdered q'
unfolding pop
pop-IsOrdered wait q q' o k t = elim (Bool-cases (is_empty q.the_queue)) [
  | inl e ↦ elim (Bool-cases (eq_ℤ wait (pos 0))) [
    | inl e' ↦ subst IsOrdered (ap (λ p. p.1) (some-injective _ _ (rw (e, e') at t))) k
    | inr e' ↦
        subst IsOrdered (ap (λ p. p.1) (some-injective _ _ (rw (e, e') at t)))
          (record { order = k.order; bound = k.bound })
  ]
  | inr e ↦ take_front-IsOrdered q q' o k (rw e at t)
]

wake-IsOrdered :
    (notified : Bool) (q q' : Queue) (o : Outcome)
    → IsOrdered q
    → wake notified q ≡ some (o, q')
    → IsOrdered q'
unfolding wake
wake-IsOrdered true q q' o k t =
    take_front-IsOrdered (record q { waiting = q.waiting - 1 }) q' o
      (record { order = k.order; bound = k.bound }) t
wake-IsOrdered false q q' o k t =
    subst IsOrdered (ap (λ p. p.1) (some-injective _ _ t))
      (record { order = k.order; bound = k.bound })

new_queue-IsOrdered : IsOrdered new_queue
unfolding new_queue
new_queue-IsOrdered = record { order = refl; bound = omega arith }

-- In every interleaving, as long as no woken consumer reads the front of an empty queue, the texts come out
-- in the order in which they were accepted, each once, and the queue never holds more than the maximum.
pub IsReachable-IsOrdered :
    (q : Queue)
    → IsReachable q
    → (q.popped ++ q.the_queue ≡ q.accepted) × (length q.the_queue ≤ max_elements)
IsReachable-IsOrdered q r = let k = go r in (k.order, k.bound)
  where
    go : {q : Queue} → IsReachable q → IsOrdered q
    go created = new_queue-IsOrdered
    go (pushed val r) = push-IsOrdered val _ (go r)
    go (popped_by wait r t) = pop-IsOrdered wait _ _ _ (go r) t
    go (woken notified r w t) = wake-IsOrdered notified _ _ _ (go r) t
