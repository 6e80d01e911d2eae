-- ===== src/PriorityQueue/Tests.antt =====
-- Runs of module2/4.2/priority_queue.c, and its theorems at concrete queues.
use practice2_eltex.Prelude.{◌≡◌, refl, none, some, List, [], ◌∷◌, option_map}
use practice2_eltex.Prelude.Int.{pos, negsuc}
use practice2_eltex.PriorityQueue.{
  Node, init_queue, enqueue, dequeue_highest, dequeue_by_priority, dequeue_at_least,
}
use practice2_eltex.PriorityQueue.Session.{
  Choice, add, take_max, take_priority, take_at_least, other, silent, node, empty, round, session,
}

abbrev low_node : Node
low_node = record { payload = pos 10; priority = 3 }

abbrev high_node : Node
high_node = record { payload = pos 20; priority = 200 }

abbrev choices : List Choice
choices =
    add (pos 10) (pos 3)
    ∷ add (pos 20) (pos 200)
    ∷ add (pos 30) (pos 3)
    ∷ take_max
    ∷ take_priority (pos 3)
    ∷ take_at_least (pos 4)
    ∷ other
    ∷ []

outputs :
    option_map (λ r. r.0) (session init_queue choices)
    ≡ some (silent ∷ silent ∷ silent ∷ node high_node ∷ node low_node ∷ empty ∷ silent ∷ [])
unfolding session round init_queue enqueue dequeue_highest dequeue_by_priority dequeue_at_least
outputs = refl

-- A negative lower bound on an empty queue reads in front of the array.
negative_bound : dequeue_at_least init_queue (negsuc 0) ≡ none
unfolding dequeue_at_least init_queue
negative_bound = refl
