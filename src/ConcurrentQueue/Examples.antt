-- ===== src/ConcurrentQueue/Examples.antt =====
-- Two consumers: one waits, and the other takes the text before the first has the lock again.
use fts.Common.{[], length, negsuc, none, pos, refl, true, ◌++◌, ◌∷◌, ◌≡◌, ◌≤◌}
use fts.ConcurrentQueue.Order.{IsReachable-IsOrdered}
use fts.ConcurrentQueue.Queue.{
  IsReachable, Queue, created, max_elements, new_queue, pop, popped_by, push, pushed, take_front,
  wake,
}

abbrev after_steal : Queue
after_steal = record {
  the_queue = [];
  waiting = 1;
  accepted = "message" ∷ [];
  popped = "message" ∷ [];
}

stolen : IsReachable after_steal
unfolding pop push take_front new_queue
stolen = popped_by (pos 0) (pushed "message" (popped_by (negsuc 0) created refl)) refl

IsReachable-IsOrdered_example :
    (after_steal.popped ++ after_steal.the_queue ≡ after_steal.accepted)
    × (length after_steal.the_queue ≤ max_elements)
IsReachable-IsOrdered_example = IsReachable-IsOrdered after_steal stolen

-- The consumer that is woken then reads the front of the empty queue: the behaviour is undefined.
woken_run : wake true after_steal ≡ none
unfolding wake take_front
woken_run = refl
