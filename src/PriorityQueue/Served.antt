-- ===== src/PriorityQueue/Served.antt =====
-- main of module2/4.2/priority_queue.c: what the menu's rounds do to the line of waiting nodes.
use practice2_eltex.Prelude.{ℕ, ◌≤◌, ◌<◌, ◌≡◌, some, List, [], ◌∷◌, ◌++◌, All}
use practice2_eltex.Prelude.Int.{ℤ, pos, negsuc}
use practice2_eltex.PriorityQueue.{max_priority, Node, PriorityQueue}
use practice2_eltex.PriorityQueue.Spec.{by_priority, take_first, Refines}
use practice2_eltex.PriorityQueue.Session.{
  Choice, add, take_max, take_priority, take_at_least, other, Output, silent, node, empty, round,
  session,
}

-- The numbers of a choice stay inside the array; a lower bound needs only to be no negative number.
abbrev pub IsInRange : Choice → Type 0
IsInRange (add d (pos p)) = p < max_priority
IsInRange (add d (negsuc _)) = ⊥
IsInRange take_max = Unit
IsInRange (take_priority (pos p)) = p < max_priority
IsInRange (take_priority (negsuc _)) = ⊥
IsInRange (take_at_least (pos p)) = Unit
IsInRange (take_at_least (negsuc _)) = ⊥
IsInRange other = Unit

-- The line of waiting nodes before and after a round that prints the given output.
pub data Served (xs : List Node) : Choice → Output → List Node → Type 0 where
  added :
      (d : ℤ) (p : ℕ)
      → Served xs (add d (pos p)) silent (xs ++ record { payload = d; priority = p } ∷ [])
  ignored : Served xs other silent xs
  max_empty : xs ≡ [] → Served xs take_max empty xs
  max_taken :
      {n : Node} {xs' : List Node}
      → take_first n.priority xs ≡ some (n, xs')
      → All (λ m. m.priority ≤ n.priority) xs
      → Served xs take_max (node n) xs'
  level_empty : {p : ℕ} → by_priority p xs ≡ [] → Served xs (take_priority (pos p)) empty xs
  level_taken :
      {p : ℕ} {n : Node} {xs' : List Node}
      → take_first p xs ≡ some (n, xs')
      → Served xs (take_priority (pos p)) (node n) xs'
  bound_empty : {p : ℕ} → All (λ m. m.priority < p) xs → Served xs (take_at_least (pos p)) empty xs
  bound_taken :
      {p : ℕ} {n : Node} {xs' : List Node}
      → p ≤ n.priority
      → take_first n.priority xs ≡ some (n, xs')
      → All (λ m. m.priority ≤ n.priority) xs
      → Served xs (take_at_least (pos p)) (node n) xs'

-- The lines of waiting nodes over a session.
pub data Serves : List Node → List Choice → List Output → List Node → Type 0 where
  done : {xs : List Node} → Serves xs [] [] xs
  next :
      {c : Choice} {cs : List Choice} {o : Output} {os : List Output} {xs ys zs : List Node}
      → Served xs c o ys
      → Serves ys cs os zs
      → Serves xs (c ∷ cs) (o ∷ os) zs

abbrev pub RoundServes : PriorityQueue → List Node → Choice → Type 0
RoundServes q xs c =
    (o : Output) × (q' : PriorityQueue) × (xs' : List Node) × (round q c ≡ some (o, q'))
    × Served xs c o xs'
    × Refines q' xs'

abbrev pub SessionServes : PriorityQueue → List Node → List Choice → Type 0
SessionServes q xs cs =
    (os : List Output) × (q' : PriorityQueue) × (xs' : List Node) × (session q cs ≡ some (os, q'))
    × Serves xs cs os xs'
    × Refines q' xs'
