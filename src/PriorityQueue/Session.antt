-- ===== src/PriorityQueue/Session.antt =====
-- main of module2/4.2/priority_queue.c: the menu loop. Its input is taken as numbers that scanf has
-- read; the text that it prints is left out, but for the node or the message of a removal.
use practice2_eltex.Prelude.{Option, none, some, List, [], ◌∷◌}
use practice2_eltex.Prelude.Int.{ℤ}
use practice2_eltex.PriorityQueue.{
  Node, PriorityQueue, enqueue, dequeue_highest, dequeue_by_priority, dequeue_at_least,
}

-- The menu's choices 1 to 4, with the numbers that are then read, and any other number but 0.
pub data Choice : Type 0 where
  add : ℤ → ℤ → Choice
  take_max : Choice
  take_priority : ℤ → Choice
  take_at_least : ℤ → Choice
  other : Choice

-- What a round prints: nothing, the node that was taken, or that there is none.
pub data Output : Type 0 where
  silent : Output
  node : Node → Output
  empty : Output

abbrev report : Option Node × PriorityQueue → Output × PriorityQueue
report (none, q) = (empty, q)
report (some n, q) = (node n, q)

abbrev option_map {ℓ κ} : {A : Type ℓ} {B : Type κ} → (A → B) → Option A → Option B
option_map f none = none
option_map f (some a) = some (f a)

unfoldable pub round : PriorityQueue → Choice → Option (Output × PriorityQueue)
round q (add d p) = option_map (λ q'. (silent, q')) (enqueue q d p)
round q take_max = some (report (dequeue_highest q))
round q (take_priority p) = option_map report (dequeue_by_priority q p)
round q (take_at_least p) = option_map report (dequeue_at_least q p)
round q other = some (silent, q)

abbrev more : Output → Option (List Output × PriorityQueue) → Option (List Output × PriorityQueue)
more o none = none
more o (some (os, q)) = some (o ∷ os, q)

-- The rounds until the choice 0, where the list ends.
unfoldable pub session : PriorityQueue → List Choice → Option (List Output × PriorityQueue)
session q [] = some ([], q)
session q (c ∷ cs) = elim (round q c) [ none ↦ none | some (o, q') ↦ more o (session q' cs) ]
