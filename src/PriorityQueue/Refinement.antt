-- ===== src/PriorityQueue/Refinement.antt =====
-- module2/4.2/priority_queue.c: the operations against the line of waiting nodes.
use practice2_eltex.Prelude.{
  ℕ, zero, suc, ◌≤◌, ◌<◌, ◌≡◌, refl, sym, subst, ◌∙◌, ◌≢◌, inl, inr, false, Option, some, List, [],
  ◌∷◌, ◌++◌, arith, ltb, ◌==◌, lt→ltb, Bool-cases, length, set, length-set, get_or, replicate,
  get_or-set_self, get_or-set_ne, All, All-append, All-imp,
}
use practice2_eltex.Prelude.Int.{ℤ, pos}
use practice2_eltex.PriorityQueue.{
  max_priority, Node, PriorityQueue, init_queue, append_node, enqueue, scan, dequeue_highest,
  dequeue_at_least,
}
use practice2_eltex.PriorityQueue.Spec.{by_priority, take_first, Refines, IsBest}
use practice2_eltex.PriorityQueue.Take.{
  append_node-eq-append, by_priority-append, All-lt_of_empty, Taken, take_first_lem,
}

length-empty : length (init_queue.heads) ≡ max_priority
unfolding init_queue
length-empty = refl

get_or-replicate {ℓ} : {A : Type ℓ} (n i : ℕ) (d : A) → get_or (replicate n d) i d ≡ d
get_or-replicate zero i d = refl
get_or-replicate (suc n) zero d = refl
get_or-replicate (suc n) (suc i) d = get_or-replicate n i d

-- A queue that was just initialised holds no node.
pub init_queue-Refines : Refines init_queue []
unfolding init_queue by_priority
init_queue-Refines = record {
  sized = length-empty;
  in_range = tt;
  buckets = λ p. get_or-replicate max_priority p [];
}

-- The heads with the chain of one level changed.
abbrev with_chain : PriorityQueue → ℕ → List Node → PriorityQueue
with_chain q p chain = record { heads = set q.heads p chain }

module _ (q : PriorityQueue) (xs : List Node) (h : Refines q xs) where
  with_chain-buckets :
      (p : ℕ) (chain : List Node) (ys : List Node)
      → p < max_priority
      → by_priority p ys ≡ chain
      → ((j : ℕ) → j ≢ p → by_priority j ys ≡ by_priority j xs)
      → (j : ℕ) → get_or (set q.heads p chain) j [] ≡ by_priority j ys
  with_chain-buckets p chain ys lt own others j = elim (Bool-cases (p == j)) [
    | inl e ↦
        let e' : p ≡ j = ground arith in
        rw (← e') (get_or-set_self q.heads p chain [] (omega (arith, h.sized)) ∙ sym own)
    | inr e ↦
        let ne : p ≢ j = ground arith in
        get_or-set_ne q.heads p j chain [] ne ∙ h.buckets j ∙ sym (others j (λ f. ne (sym f)))
  ]

  own :
      {p : ℕ} (n : Node)
      → n.priority ≡ p
      → by_priority p (xs ++ n ∷ []) ≡ append_node (get_or q.heads p []) n
  own {p} n e =
      ground (
        arith,
        by_priority-append p xs n,
        append_node-eq-append (get_or q.heads p []) n,
        h.buckets p,
      )

  others :
      {p : ℕ} (n : Node)
      → n.priority ≡ p
      → (j : ℕ) → j ≢ p
      → by_priority j (xs ++ n ∷ []) ≡ by_priority j xs
  others n e j ne = ground (arith, by_priority-append j xs n)

  -- Enqueuing at a priority of the array puts the node at the end of the line.
  pub enqueue-Refines :
      (d : ℤ) (p : ℕ)
      → p < max_priority
      → (q' : PriorityQueue) × (enqueue q d (pos p) ≡ some q')
        × Refines q' (xs ++ record { payload = d; priority = p } ∷ [])
  unfolding enqueue
  enqueue-Refines d p lt =
      let n : Node = record { payload = d; priority = p } in
      (
        with_chain q p (append_node (get_or q.heads p []) n),
        rw (lt→ltb p max_priority lt),
        record {
          sized = length-set q.heads p _ ∙ h.sized;
          in_range = All-append (λ m. m.priority < max_priority) xs (n ∷ []) h.in_range (lt, tt);
          buckets = with_chain-buckets p _ (xs ++ n ∷ []) lt (own n refl) (others n refl);
        },
      )

  -- The head of a chain is the first arrival of its level.
  pub pop-Refines :
      (p : ℕ) (n : Node) (rest : List Node)
      → p < max_priority
      → get_or q.heads p [] ≡ n ∷ rest
      → (xs' : List Node) × Taken p n rest xs xs' × Refines (with_chain q p rest) xs'
  pop-Refines p n rest lt e =
      let (xs', t) = take_first_lem p xs n rest (sym (h.buckets p) ∙ e) in
      (
        xs',
        t,
        record {
          sized = length-set q.heads p _ ∙ h.sized;
          in_range = t.kept h.in_range;
          buckets = with_chain-buckets p rest xs' lt t.left t.others;
        },
      )

scan_empty :
    (q : PriorityQueue) (i low : ℕ)
    → ltb i low ≡ false
    → get_or q.heads i [] ≡ []
    → scan q (suc i) low ≡ scan q i low
unfolding scan
scan_empty q i low ge e = rw (ge, e, scan)

scan_hit :
    (q : PriorityQueue) (i low : ℕ) {n : Node} {rest : List Node}
    → ltb i low ≡ false
    → get_or q.heads i [] ≡ n ∷ rest
    → scan q (suc i) low ≡ (some n, with_chain q i rest)
unfolding scan
scan_hit q i low ge e = rw (ge, e, scan)

module _ (q : PriorityQueue) (xs : List Node) (h : Refines q xs) (low : ℕ) where
  hit-IsBest :
      (i : ℕ) (n : Node) (rest : List Node)
      → suc i ≤ max_priority
      → All (λ m. m.priority < suc i) xs
      → ltb i low ≡ false
      → get_or q.heads i [] ≡ n ∷ rest
      → IsBest low xs q (some n, with_chain q i rest)
  hit-IsBest i n rest le below ge e =
      let (xs', t, r) = pop-Refines q xs h i n rest le e in
      (
        xs',
        subst (λ j. take_first j xs ≡ some (n, xs')) (sym t.level) t.first,
        ground (arith, t.level),
        All-imp _ _ (λ m k. omega (arith, t.level)) xs below,
        r,
      )

  scan-IsBest :
      (i : ℕ) → i ≤ max_priority → All (λ m. m.priority < i) xs → IsBest low xs q (scan q i low)
  unfolding scan
  scan-IsBest zero le below = (refl, All-imp _ _ (λ m lt. elim lt [ ]) xs below)
  scan-IsBest (suc i) le below = elim (Bool-cases (ltb i low)) [
    | inl lt ↦ rw (lt, scan) (refl, All-imp _ _ (λ m k. ground arith) xs below)
    | inr ge ↦ level (get_or q.heads i []) refl ge (scan-IsBest i (omega arith))
  ]
    where
      level :
          (chain : List Node)
          → get_or q.heads i [] ≡ chain
          → ltb i low ≡ false
          → (All (λ m. m.priority < i) xs → IsBest low xs q (scan q i low))
          → IsBest low xs q (scan q (suc i) low)
      level [] e ge ih =
          rw (scan_empty q i low ge e) (ih (All-lt_of_empty i xs (sym (h.buckets i) ∙ e) below))
      level (n ∷ rest) e ge ih = rw (scan_hit q i low ge e) (hit-IsBest i n rest le below ge e)

  -- Taking the best node of priority at least low: of the waiting nodes of the highest priority it
  -- is the first to have arrived, its priority is at least low, and the rest stay in line. No node
  -- is returned exactly when all waiting nodes are below low.
  pub dequeue_at_least-IsBest :
      (r : Option Node × PriorityQueue) × (dequeue_at_least q (pos low) ≡ some r)
      × IsBest low xs q r
  unfolding dequeue_at_least
  dequeue_at_least-IsBest = (_, refl, scan-IsBest max_priority (omega arith) h.in_range)

-- Taking the node of the highest priority is taking the best node of priority at least 0.
pub dequeue_highest-IsBest :
    (q : PriorityQueue) (xs : List Node) → Refines q xs → IsBest 0 xs q (dequeue_highest q)
unfolding dequeue_highest
dequeue_highest-IsBest q xs h = scan-IsBest q xs h 0 max_priority (omega arith) h.in_range
