-- ===== src/SharedPool/Take.antt =====
-- module1/task4/task4.c: the first waiting block, and the blocks when it is taken.
use practice2_eltex.Prelude.{
  ℕ, ◌+◌, ◌≤◌, ◌<◌, ◌≡◌, refl, sym, ap, ◌∙◌, ◌⊎◌, inl, inr, true, false, Option, none, some, List,
  [], ◌∷◌, arith, if◌then◌else◌, Bool-cases, length,
}
use practice2_eltex.SharedPool.{block_header_size, Memory, write, read}
use practice2_eltex.SharedPool.Memory.{write_self, write_ne, read-Agree}
use practice2_eltex.SharedPool.Layout.{
  Block, size, Holds, Lies, Links, Lies-le, Lies-Agree, Links-Agree, last_offset,
}
use practice2_eltex.SharedPool.Search.{waiting_at, count_of_waiting, count_of_taken}

-- The numbers of the first waiting block.
unfoldable pub first_waiting : List Block → Option (List ℕ)
first_waiting [] = none
first_waiting (b ∷ bs) = let rest = first_waiting bs in if b.waiting then some b.numbers else rest

-- The blocks when the first that waits is taken.
unfoldable pub take_first : List Block → List Block
take_first [] = []
take_first (b ∷ bs) =
    let rest = take_first bs in
    record { numbers = b.numbers; waiting = false } ∷ (if b.waiting then bs else rest)

-- The first waiting block, at q, and the memory without its count.
abbrev pub Taken : Memory → ℕ → List Block → ℕ → ℕ → Type 0
Taken m p bs e q =
    (waiting_at p bs ≡ some q)
    × (first_waiting bs ≡ some (read m (q + block_header_size) (m q)))
    × (0 < m q)
    × (p ≤ q)
    × (q < e)
    × Lies (write m q 0) p (take_first bs) e
    × Links (write m q 0) p (take_first bs)

Lies-here :
    (m : Memory) (p : ℕ) (b : Block) (bs : List Block) (e : ℕ)
    → Lies m p (b ∷ bs) e
    → Lies (write m p 0) p (record { numbers = b.numbers; waiting = false } ∷ bs) e
Lies-here m p b bs e h = (
  (
    write_self m p 0,
    read-Agree m (write m p 0) (p + block_header_size) (length b.numbers)
          (λ x lo hi. write_ne m p 0 x (λ y. omega arith))
        ∙ h.0.1,
    h.0.2,
  ),
  Lies-Agree m (write m p 0) (p + size b) bs e (λ x lo hi. write_ne m p 0 x (λ y. omega arith)) h.1,
)

Links-here :
    (m : Memory) (p : ℕ) (b : Block) (bs : List Block) (e : ℕ)
    → Lies m p (b ∷ bs) e
    → Links m p (b ∷ bs)
    → Links (write m p 0) p (record { numbers = b.numbers; waiting = false } ∷ bs)
Links-here m p b [] e h l = write_ne m p 0 (p + 4) (λ y. omega arith) ∙ l
Links-here m p b (c ∷ bs) e h l = (
  write_ne m p 0 (p + 4) (λ y. omega arith) ∙ l.0,
  Links-Agree m (write m p 0) (p + size b) (c ∷ bs) e
      (λ x lo hi. write_ne m p 0 x (λ y. omega arith)) h.1 l.1,
)

take_here :
    (m : Memory) (p : ℕ) (b : Block) (bs : List Block) (e : ℕ)
    → Lies m p (b ∷ bs) e
    → Links m p (b ∷ bs)
    → b.waiting ≡ true
    → Taken m p (b ∷ bs) e p
unfolding waiting_at first_waiting take_first
take_here m p b bs e h l w =
    let count = count_of_waiting m p b h.0 w in
    let whole = Lies-le m p (b ∷ bs) e h in
    rw w (
      refl,
      ap some (sym (ap (read m (p + block_header_size)) count ∙ h.0.1)),
      omega (arith, count, h.0.2),
      omega arith,
      omega (arith, whole),
      Lies-here m p b bs e h,
      Links-here m p b bs e h l,
    )

-- A block that is already taken stays as it is.
take_on :
    (m : Memory) (p : ℕ) (b c : Block) (bs : List Block) (e q : ℕ)
    → Lies m p (b ∷ c ∷ bs) e
    → Links m p (b ∷ c ∷ bs)
    → b.waiting ≡ false
    → Taken m (p + size b) (c ∷ bs) e q
    → Taken m p (b ∷ c ∷ bs) e q
unfolding waiting_at first_waiting take_first
take_on m p b c bs e q h l w (at, first, some_left, le, lt, lies, links) =
    let away : (x : ℕ) → x < p + size b → write m q 0 x ≡ m x =
      λ x k. write_ne m q 0 x (λ y. omega arith) in
    let old : Holds (write m q 0) p (record { numbers = b.numbers; waiting = false }) = (
      away p (omega arith) ∙ count_of_taken m p b h.0 w,
      read-Agree m (write m q 0) (p + block_header_size) (length b.numbers)
            (λ x lo hi. away x (omega arith))
          ∙ h.0.1,
      h.0.2,
    ) in
    rw w (
      at,
      first,
      some_left,
      omega (arith, le),
      lt,
      (old, lies),
      (away (p + 4) (omega arith) ∙ l.0, links),
    )

pub take_cases :
    (m : Memory) (p : ℕ) (bs : List Block) (e : ℕ)
    → Lies m p bs e
    → Links m p bs
    → ((waiting_at p bs ≡ none) × (first_waiting bs ≡ none)) ⊎ ((q : ℕ) × Taken m p bs e q)
unfolding waiting_at first_waiting take_first
take_cases m p [] e h l = inl (refl, refl)
take_cases m p (b ∷ []) e h l = elim (Bool-cases b.waiting) [
  | inl w ↦ inr (p, take_here m p b [] e h l w)
  | inr w ↦ inl (rw w refl, rw w refl)
]
take_cases m p (b ∷ c ∷ bs) e h l = elim (Bool-cases b.waiting) [
  | inl w ↦ inr (p, take_here m p b (c ∷ bs) e h l w)
  | inr w ↦ elim (take_cases m (p + size b) (c ∷ bs) e h.1 l.1) [
    | inl (at, first) ↦ inl (rw w at, rw w first)
    | inr (q, taken) ↦ inr (q, take_on m p b c bs e q h l w taken)
  ]
]

pub last_offset-take_first :
    (p : ℕ) (bs : List Block) → last_offset p (take_first bs) ≡ last_offset p bs
unfolding last_offset take_first
last_offset-take_first p [] = refl
last_offset-take_first p (b ∷ []) = elim (Bool-cases b.waiting) [
  | inl w ↦ rw w refl
  | inr w ↦ rw w refl
]
last_offset-take_first p (b ∷ c ∷ bs) = elim (Bool-cases b.waiting) [
  | inl w ↦ rw w refl
  | inr w ↦ rw w (last_offset-take_first (p + size b) (c ∷ bs))
]
