-- ===== src/PriorityQueue.antt =====
-- module2/4.2/priority_queue.c: a queue with 256 priority levels, each a linked list of nodes.
-- A chain of nodes is a list, and the array of heads a list of 256 chains. An index outside the
-- array is undefined behaviour in C: such a call is `none`.
pub mod Spec
pub mod Take
pub mod Refinement
pub mod Session
pub mod Served
mod Tests
use practice2_eltex.Prelude.{
  ℕ, zero, suc, true, false, Option, none, some, List, [], ◌∷◌, ltb, if◌then◌else◌, set, get_or,
  replicate,
}
use practice2_eltex.Prelude.Int.{ℤ, pos, negsuc}

abbrev pub max_priority : ℕ
max_priority = 256

pub record Node : Type 0 where
  pub payload : ℤ
  pub priority : ℕ

pub record PriorityQueue : Type 0 where
  pub heads : List (List Node)

-- Every head is NULL.
pub init_queue : PriorityQueue
init_queue = record { heads = replicate max_priority [] }

-- The walk to the last node of a chain, and the link of the new node behind it.
pub append_node : List Node → Node → List Node
append_node [] n = n ∷ []
append_node (t ∷ ts) n = t ∷ append_node ts n

pub enqueue : PriorityQueue → ℤ → ℤ → Option PriorityQueue
unfolding append_node
enqueue q d (pos p) =
    if ltb p max_priority
    then some (record q {
      heads =
          set q.heads p (append_node (get_or q.heads p []) (record { payload = d; priority = p }));
    })
    else none
enqueue q d (negsuc _) = none

-- The loop `for (i = n - 1; i >= low; i--)` that both scans share.
pub scan : PriorityQueue → ℕ → ℕ → Option Node × PriorityQueue
scan q zero low = (none, q)
scan q (suc i) low = elim (ltb i low) [
  | true ↦ (none, q)
  | false ↦ elim (get_or q.heads i []) [
    | [] ↦ scan q i low
    | n ∷ rest ↦ (some n, record q { heads = set q.heads i rest })
  ]
]

pub dequeue_highest : PriorityQueue → Option Node × PriorityQueue
unfolding scan
dequeue_highest q = scan q max_priority 0

pub dequeue_by_priority : PriorityQueue → ℤ → Option (Option Node × PriorityQueue)
dequeue_by_priority q (pos p) =
    if ltb p max_priority
    then some (elim (get_or q.heads p []) [
      | [] ↦ (none, q)
      | n ∷ rest ↦ (some n, record q { heads = set q.heads p rest })
    ])
    else none
dequeue_by_priority q (negsuc _) = none

-- With a negative bound the loop reads heads[-1] once the 256 levels are found empty.
fault_if_empty : Option Node × PriorityQueue → Option (Option Node × PriorityQueue)
fault_if_empty (none, q) = none
fault_if_empty (some n, q) = some (some n, q)

pub dequeue_at_least : PriorityQueue → ℤ → Option (Option Node × PriorityQueue)
unfolding scan fault_if_empty
dequeue_at_least q (pos p) = some (scan q max_priority p)
dequeue_at_least q (negsuc _) = fault_if_empty (scan q max_priority 0)
