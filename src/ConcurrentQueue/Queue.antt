-- ===== src/ConcurrentQueue/Queue.antt =====
-- ConcurrentQueue.cpp, with the consumers that wait on the condition variable.
use fts.Common.{
  Bool, List, Option, String, [], eq_ℤ, if◌then◌else◌, is_empty, length, ltb, none, pos, some, ℕ, ℤ,
  ◌++◌, ◌+◌, ◌-◌, ◌<◌, ◌∷◌, ◌≡◌,
}

abbrev pub max_elements : ℕ
max_elements = 20000

-- `accepted` and `popped` record the texts that went in and out.
pub record Queue : Type 0 where
  pub the_queue : List String
  pub waiting : ℕ
  pub accepted : List String
  pub popped : List String

-- What `pop` comes to: a text, the empty text for an empty queue, or the wait.
pub data Outcome : Type 0 where
  value : String → Outcome
  nothing : Outcome
  waits : Outcome

-- A full queue drops the value. `notify_one` wakes a consumer, which then competes for the lock.
unfoldable pub push : String → Queue → Queue
push val q =
    if ltb (length q.the_queue) max_elements
    then record q { the_queue = q.the_queue ++ val ∷ []; accepted = q.accepted ++ val ∷ [] }
    else q

-- `ret = theQueue.front(); theQueue.pop(); return ret;`. For an empty queue the behaviour is undefined, and
-- nothing is said of what follows.
unfoldable pub take_front : Queue → Option (Outcome × Queue)
take_front q = elim q.the_queue [
  | [] ↦ none
  | ret ∷ rest ↦ some (value ret, record q { the_queue = rest; popped = q.popped ++ ret ∷ [] })
]

-- `pop` up to the point where it returns or waits.
unfoldable pub pop : ℤ → Queue → Option (Outcome × Queue)
unfolding take_front
pop wait q =
    if is_empty q.the_queue
    then (if eq_ℤ wait (pos 0)
        then some (nothing, q)
        else some (waits, record q { waiting = q.waiting + 1 }))
    else take_front q

-- `pop` after `timed_wait`, which says whether the consumer was woken before the time was over. The queue
-- is not tested again.
unfoldable pub wake : Bool → Queue → Option (Outcome × Queue)
unfolding take_front
wake notified q =
    if notified
    then take_front (record q { waiting = q.waiting - 1 })
    else some (nothing, record q { waiting = q.waiting - 1 })

unfoldable pub size : Queue → ℕ
size q = length q.the_queue

unfoldable pub empty : Queue → Bool
empty q = is_empty q.the_queue

unfoldable pub new_queue : Queue
new_queue = record { the_queue = []; waiting = 0; accepted = []; popped = [] }

-- Any interleaving of the operations, each of which holds the lock, as long as the behaviour is defined. A
-- consumer can also wake up without a notification.
pub data IsReachable : Queue → Type 0 where
  created : IsReachable new_queue
  pushed : {q : Queue} (val : String) → IsReachable q → IsReachable (push val q)
  popped_by :
      {q q' : Queue} {o : Outcome} (wait : ℤ)
      → IsReachable q
      → pop wait q ≡ some (o, q')
      → IsReachable q'
  woken :
      {q q' : Queue} {o : Outcome} (notified : Bool)
      → IsReachable q
      → 0 < q.waiting
      → wake notified q ≡ some (o, q')
      → IsReachable q'
