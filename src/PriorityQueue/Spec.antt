-- ===== src/PriorityQueue/Spec.antt =====
-- What the priority queue of module2/4.2/priority_queue.c promises: a line of waiting nodes in the
-- order of their arrival, and which of them a call takes out.
use practice2_eltex.Prelude.{
  ℕ, ◌≤◌, ◌<◌, ◌≡◌, Option, none, some, List, [], ◌∷◌, ◌==◌, if◌then◌else◌, length, get_or, All,
}
use practice2_eltex.PriorityQueue.{max_priority, Node, PriorityQueue}

-- The waiting nodes of one priority, in the order of their arrival.
unfoldable pub by_priority : ℕ → List Node → List Node
by_priority p [] = []
by_priority p (x ∷ xs) = if x.priority == p then x ∷ by_priority p xs else by_priority p xs

abbrev keep_front : Node → Option (Node × List Node) → Option (Node × List Node)
keep_front x none = none
keep_front x (some (n, xs)) = some (n, x ∷ xs)

-- The first arrival of a priority, and the line without it.
unfoldable pub take_first : ℕ → List Node → Option (Node × List Node)
take_first p [] = none
take_first p (x ∷ xs) = if x.priority == p then some (x, xs) else keep_front x (take_first p xs)

-- The queue holds exactly the waiting nodes.
pub record Refines (q : PriorityQueue) (xs : List Node) : Type 0 where
  pub sized : length q.heads ≡ max_priority
  pub in_range : All (λ n. n.priority < max_priority) xs
  pub buckets : (p : ℕ) → get_or q.heads p [] ≡ by_priority p xs

-- The right answer to "take out the best node of priority at least low".
abbrev pub IsBest : ℕ → List Node → PriorityQueue → Option Node × PriorityQueue → Type 0
IsBest low xs q (none, q') = (q' ≡ q) × All (λ m. m.priority < low) xs
IsBest low xs q (some n, q') =
    (xs' : List Node) × (take_first n.priority xs ≡ some (n, xs'))
    × (low ≤ n.priority)
    × All (λ m. m.priority ≤ n.priority) xs
    × Refines q' xs'
