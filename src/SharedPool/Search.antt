-- ===== src/SharedPool/Search.antt =====
-- module1/task4/task4.c: the walk along the blocks.
use practice2_eltex.Prelude.{
  ℕ, zero, suc, ◌+◌, ◌≤◌, ◌<◌, ◌≡◌, refl, sym, ap, ◌∙◌, inl, inr, true, false, Option, none, some,
  List, [], ◌∷◌, arith, ltb, ◌==◌, if◌then◌else◌, Bool-cases, length,
}
use practice2_eltex.SharedPool.{shm_size, header_size, Memory, search_fuel, search}
use practice2_eltex.SharedPool.Layout.{Block, size, Holds, Lies, Links, Lies-le}

search_end : (m : Memory) (fuel : ℕ) → search m (suc fuel) 0 ≡ some none
unfolding search
search_end m fuel = refl

search_here : (m : Memory) (fuel p : ℕ) → 0 < p → 0 < m p → search m (suc fuel) p ≡ some (some p)
unfolding search
search_here m fuel p h k =
    let there : (p == 0) ≡ false = ground arith in
    let waits : ltb 0 (m p) ≡ true = ground arith in rw (there, waits) refl

search_on :
    (m : Memory) (fuel p : ℕ) → 0 < p → m p ≡ 0 → search m (suc fuel) p ≡ search m fuel (m (p + 4))
unfolding search
search_on m fuel p h e =
    let there : (p == 0) ≡ false = ground arith in
    let taken : ltb 0 (m p) ≡ false = ground arith in rw (there, taken) refl

-- The offset of the first waiting block.
unfoldable pub waiting_at : ℕ → List Block → Option ℕ
waiting_at p [] = none
waiting_at p (b ∷ bs) = let rest = waiting_at (p + size b) bs in if b.waiting then some p else rest

waiting_here :
    (p : ℕ) (b : Block) (bs : List Block) → b.waiting ≡ true → waiting_at p (b ∷ bs) ≡ some p
unfolding waiting_at
waiting_here p b bs e = rw e refl

waiting_on :
    (p : ℕ) (b : Block) (bs : List Block)
    → b.waiting ≡ false
    → waiting_at p (b ∷ bs) ≡ waiting_at (p + size b) bs
unfolding waiting_at
waiting_on p b bs e = rw e refl

pub count_of_waiting :
    (m : Memory) (p : ℕ) (b : Block) → Holds m p b → b.waiting ≡ true → m p ≡ length b.numbers
count_of_waiting m p b h e = h.0 ∙ ap (λ w. if w then length b.numbers else 0) e

pub count_of_taken : (m : Memory) (p : ℕ) (b : Block) → Holds m p b → b.waiting ≡ false → m p ≡ 0
count_of_taken m p b h e = h.0 ∙ ap (λ w. if w then length b.numbers else 0) e

-- The walk from a block that is there finds the first that waits.
search_blocks :
    (m : Memory) (fuel p : ℕ) (b : Block) (bs : List Block) (e : ℕ)
    → 0 < p
    → length bs + 1 < fuel
    → Lies m p (b ∷ bs) e
    → Links m p (b ∷ bs)
    → search m fuel p ≡ some (waiting_at p (b ∷ bs))
unfolding waiting_at
search_blocks m zero p b bs e z f h l = absurd (omega arith)
search_blocks m (suc zero) p b bs e z f h l = absurd (omega arith)
search_blocks m (suc (suc fuel)) p b [] e z f h l = elim (Bool-cases b.waiting) [
  | inl w ↦
      search_here m (suc fuel) p z (omega (arith, count_of_waiting m p b h.0 w, h.0.2))
      ∙ ap some (sym (waiting_here p b [] w))
  | inr w ↦
      search_on m (suc fuel) p z (count_of_taken m p b h.0 w)
      ∙ ap (search m (suc fuel)) l
      ∙ search_end m fuel
      ∙ ap some (sym (waiting_on p b [] w))
]
search_blocks m (suc (suc fuel)) p b (c ∷ bs) e z f h l = elim (Bool-cases b.waiting) [
  | inl w ↦
      search_here m (suc fuel) p z (omega (arith, count_of_waiting m p b h.0 w, h.0.2))
      ∙ ap some (sym (waiting_here p b (c ∷ bs) w))
  | inr w ↦
      search_on m (suc fuel) p z (count_of_taken m p b h.0 w)
      ∙ ap (search m (suc fuel)) l.0
      ∙ search_blocks m (suc fuel) (p + size b) c bs e (omega arith) (omega arith) h.1 l.1
      ∙ ap some (sym (waiting_on p b (c ∷ bs) w))
]

pub search_lem :
    (m : Memory) (bs : List Block) (e : ℕ)
    → e ≤ shm_size
    → Lies m header_size bs e
    → Links m header_size bs
    → ((a : ℕ) → e ≤ a → m a ≡ 0)
    → search m search_fuel header_size ≡ some (waiting_at header_size bs)
unfolding waiting_at
search_lem m [] e f h l z =
    search_on m _ header_size (omega arith) (z header_size (omega (arith, h)))
    ∙ ap (search m _) (z (header_size + 4) (omega (arith, h)))
    ∙ search_end m _
search_lem m (b ∷ bs) e f h l z =
    let room = Lies-le m header_size (b ∷ bs) e h in
    search_blocks m search_fuel header_size b bs e (omega arith) (omega (arith, room, f)) h l
