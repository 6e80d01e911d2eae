-- ===== src/PriorityQueue/Take.antt =====
-- module2/4.2/priority_queue.c: the waiting nodes of one priority when a node comes or goes.
use practice2_eltex.Prelude.{
  ℕ, suc, ◌<◌, ◌≡◌, refl, ap, ◌≢◌, inl, inr, true, false, some, List, [], ◌∷◌, ◌++◌, arith, ◌==◌,
  if◌then◌else◌, Bool-cases, All,
}
use practice2_eltex.PriorityQueue.{max_priority, Node, append_node}
use practice2_eltex.PriorityQueue.Spec.{by_priority, take_first}

pub append_node-eq-append : (ts : List Node) (n : Node) → append_node ts n ≡ ts ++ n ∷ []
unfolding append_node
append_node-eq-append [] n = refl
append_node-eq-append (t ∷ ts) n = ap (λ l. t ∷ l) (append_node-eq-append ts n)

pub by_priority-append :
    (p : ℕ) (xs : List Node) (n : Node)
    → by_priority p (xs ++ n ∷ [])
      ≡ (if n.priority == p then by_priority p xs ++ n ∷ [] else by_priority p xs)
unfolding by_priority
by_priority-append p [] n = ground arith
by_priority-append p (x ∷ xs) n = ground (arith, by_priority-append p xs n)

pub by_priority_empty :
    (p : ℕ) (xs : List Node) → All (λ m. m.priority < p) xs → by_priority p xs ≡ []
unfolding by_priority
by_priority_empty p [] h = refl
by_priority_empty p (x ∷ xs) h = ground (arith, by_priority_empty p xs h.1)

-- No node of priority p waits: all are below p if all are at most p.
pub All-lt_of_empty :
    (p : ℕ) (xs : List Node)
    → by_priority p xs ≡ []
    → All (λ m. m.priority < suc p) xs
    → All (λ m. m.priority < p) xs
unfolding by_priority
All-lt_of_empty p [] e h = tt
All-lt_of_empty p (x ∷ xs) e h = ground (arith, All-lt_of_empty p xs)

-- The first of a priority goes, and what waits at every priority is what the heads then hold.
pub record Taken (p : ℕ) (n : Node) (rest xs xs' : List Node) : Type 0 where
  pub first : take_first p xs ≡ some (n, xs')
  pub level : n.priority ≡ p
  pub left : by_priority p xs' ≡ rest
  pub others : (j : ℕ) → j ≢ p → by_priority j xs' ≡ by_priority j xs
  pub kept : All (λ m. m.priority < max_priority) xs → All (λ m. m.priority < max_priority) xs'

Taken-here :
    (p : ℕ) (x n : Node) (rest xs : List Node)
    → (x.priority == p) ≡ true
    → x ∷ by_priority p xs ≡ n ∷ rest
    → Taken p n rest (x ∷ xs) xs
unfolding take_first by_priority
Taken-here p x n rest xs h e = record {
  first = ground arith;
  level = ground arith;
  left = ground arith;
  others = λ j ne. ground arith;
  kept = λ r. r.1;
}

Taken-later :
    (p : ℕ) (x n : Node) (rest xs xs' : List Node)
    → (x.priority == p) ≡ false
    → Taken p n rest xs xs'
    → Taken p n rest (x ∷ xs) (x ∷ xs')
unfolding take_first by_priority
Taken-later p x n rest xs xs' h t = record {
  first = ground (arith, t.first);
  level = t.level;
  left = ground (arith, t.left);
  others = λ j ne. ground (arith, t.others j ne);
  kept = λ r. (r.0, t.kept r.1);
}

pub take_first_lem :
    (p : ℕ) (xs : List Node) (n : Node) (rest : List Node)
    → by_priority p xs ≡ n ∷ rest
    → (xs' : List Node) × Taken p n rest xs xs'
unfolding by_priority
take_first_lem p [] n rest e = cc
take_first_lem p (x ∷ xs) n rest e = elim (Bool-cases (x.priority == p)) [
  | inl h ↦ (xs, Taken-here p x n rest xs h (ground arith))
  | inr h ↦
      let (xs', t) = take_first_lem p xs n rest (ground arith) in
      (x ∷ xs', Taken-later p x n rest xs xs' h t)
]
