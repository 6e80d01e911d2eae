-- ===== src/SharedPool/Queue.antt =====
-- module1/task4/task4.c: the producer and the consumers in any order of their critical sections.
use practice2_eltex.Prelude.{
  ℕ, ◌+◌, ◌%◌, ◌≤◌, ◌<◌, ◌≡◌, refl, sym, ap, subst, ◌∙◌, inl, inr, Bool, true, false, Option, none,
  some, List, [], ◌∷◌, ◌++◌, arith, if◌then◌else◌, Bool-cases, Option-cases, length, All,
  All-append, ◌>>=◌, option_map, some≢none, some_inj,
}
use practice2_eltex.SharedPool.{
  shm_size, max_numbers, Shared, start, produce, finish, Found, block, wait, stop, consume,
  all_done,
}
use practice2_eltex.SharedPool.Layout.{Block, Stands, start-Stands}
use practice2_eltex.SharedPool.Produce.{Produced, produce_lem}
use practice2_eltex.SharedPool.Consume.{Consumed, consume_lem, all_done_lem}
use practice2_eltex.Prelude.Slices.{append_assoc}
use practice2_eltex.SharedPool.Take.{first_waiting, take_first}

-- A critical section of one of the processes.
pub data Section : Type 0 where
  producing : (ℕ → ℕ) → Section
  finishing : Section
  consuming : Section

-- The producer's last_block_offset, the segment, and all numbers laid and taken so far.
pub record Run : Type 0 where
  pub last : ℕ
  pub segment : Shared
  pub laid : List (List ℕ)
  pub taken : List (List ℕ)

abbrev pub begin : Run
begin = record { last = 0; segment = start; laid = []; taken = [] }

abbrev pub after_produce : Run → Option (List ℕ × ℕ × Shared) → Run
after_produce r none = r
after_produce r (some (ns, last, s)) = record r {
  last = last;
  segment = s;
  laid = r.laid ++ ns ∷ [];
}

abbrev pub after_consume : Run → Found × Shared → Run
after_consume r (block ns bounds, s) = record r { segment = s; taken = r.taken ++ ns ∷ [] }
after_consume r (wait, s) = record r { segment = s }
after_consume r (stop, s) = record r { segment = s }

unfoldable pub section : Section → Run → Option Run
section (producing rand) r = some (after_produce r (produce rand r.last r.segment))
section finishing r = some (record r { segment = finish r.segment })
section consuming r = option_map (after_consume r) (consume r.segment)

unfoldable pub run : List Section → Run → Option Run
run [] r = some r
run (x ∷ xs) r = section x r >>= run xs

abbrev pub none_waiting : List (List ℕ) → Bool
none_waiting [] = true
none_waiting (ns ∷ rest) = false

-- The numbers of the blocks that wait.
unfoldable pub waiting_numbers : List Block → List (List ℕ)
waiting_numbers [] = []
waiting_numbers (b ∷ bs) =
    let rest = waiting_numbers bs in if b.waiting then b.numbers ∷ rest else rest

waiting_numbers-append :
    (bs : List Block) (ns : List ℕ)
    → waiting_numbers (bs ++ record { numbers = ns; waiting = true } ∷ [])
      ≡ waiting_numbers bs ++ ns ∷ []
unfolding waiting_numbers
waiting_numbers-append [] ns = refl
waiting_numbers-append (b ∷ bs) ns = elim (Bool-cases b.waiting) [
  | inl w ↦ rw w (ap (λ x. b.numbers ∷ x) (waiting_numbers-append bs ns))
  | inr w ↦ rw w (waiting_numbers-append bs ns)
]

first_waiting_here :
    (b : Block) (bs : List Block) → b.waiting ≡ true → first_waiting (b ∷ bs) ≡ some b.numbers
unfolding first_waiting
first_waiting_here b bs w = rw w refl

first_waiting_on :
    (b : Block) (bs : List Block) → b.waiting ≡ false → first_waiting (b ∷ bs) ≡ first_waiting bs
unfolding first_waiting
first_waiting_on b bs w = rw w refl

waiting_numbers-first :
    (bs : List Block) (ns : List ℕ)
    → first_waiting bs ≡ some ns
    → waiting_numbers bs ≡ ns ∷ waiting_numbers (take_first bs)
unfolding waiting_numbers take_first first_waiting
waiting_numbers-first [] ns e = absurd (some≢none (sym e))
waiting_numbers-first (b ∷ bs) ns e = elim (Bool-cases b.waiting) [
  | inl w ↦ rw w (ap (λ x. x ∷ waiting_numbers bs) (some_inj (sym (first_waiting_here b bs w) ∙ e)))
  | inr w ↦ rw w (waiting_numbers-first bs ns (sym (first_waiting_on b bs w) ∙ e))
]

waiting_numbers-none : (bs : List Block) → first_waiting bs ≡ none → waiting_numbers bs ≡ []
unfolding waiting_numbers first_waiting
waiting_numbers-none [] e = refl
waiting_numbers-none (b ∷ bs) e = elim (Bool-cases b.waiting) [
  | inl w ↦ absurd (some≢none (sym (first_waiting_here b bs w) ∙ e))
  | inr w ↦ rw w (waiting_numbers-none bs (sym (first_waiting_on b bs w) ∙ e))
]

first_waiting-none_waiting :
    (bs : List Block)
    → elim (first_waiting bs) [ none ↦ true | some ns ↦ false ] ≡ none_waiting (waiting_numbers bs)
first_waiting-none_waiting bs = elim (Option-cases (first_waiting bs)) [
  | inl e ↦ rw (e, waiting_numbers-none bs e) refl
  | inr (ns, e) ↦ rw (e, waiting_numbers-first bs ns e) refl
]

-- The lengths that a block may have.
abbrev pub IsSized : List ℕ → Type 0
IsSized ns = (0 < length ns) × (length ns ≤ max_numbers)

-- The run's segment stands for blocks; what was taken, and what waits, is what was laid, in order.
abbrev pub IsServing : Run → Type 0
IsServing r =
    (bs : List Block) × Stands r.last r.segment bs
    × (r.taken ++ waiting_numbers bs ≡ r.laid)
    × All IsSized r.laid

Produced-IsServing :
    (count : ℕ) (r : Run) (out : Option (List ℕ × ℕ × Shared)) (bs : List Block)
    → 0 < count
    → count ≤ max_numbers
    → (r.taken ++ waiting_numbers bs ≡ r.laid)
    → All IsSized r.laid
    → Stands r.last r.segment bs
    → Produced count r.last r.segment bs out
    → IsServing (after_produce r out)
Produced-IsServing count r none bs lo hi order sized stands p = (bs, stands, order, sized)
Produced-IsServing count r (some (ns, last, s)) bs lo hi order sized stands p = (
  bs ++ record { numbers = ns; waiting = true } ∷ [],
  p.0,
  ap (λ x. r.taken ++ x) (waiting_numbers-append bs ns)
      ∙ sym (append_assoc r.taken (waiting_numbers bs) (ns ∷ []))
      ∙ ap (λ x. x ++ ns ∷ []) order,
  All-append IsSized r.laid (ns ∷ []) sized ((omega (arith, lo, p.1), omega (arith, hi, p.1)), tt),
)

Consumed-IsServing :
    (r : Run) (out : Option (Found × Shared)) (bs : List Block)
    → (r.taken ++ waiting_numbers bs ≡ r.laid)
    → All IsSized r.laid
    → Stands r.last r.segment bs
    → Consumed r.last r.segment bs out
    → (r' : Run) × (option_map (after_consume r) out ≡ some r') × IsServing r'
Consumed-IsServing r none bs order sized stands p = absurd p
Consumed-IsServing r (some (block ns bounds, s)) bs order sized stands p = (
  after_consume r (block ns bounds, s),
  refl,
  (
    take_first bs,
    p.2,
    append_assoc r.taken (ns ∷ []) (waiting_numbers (take_first bs))
        ∙ ap (λ x. r.taken ++ x) (sym (waiting_numbers-first bs ns p.0))
        ∙ order,
    sized,
  ),
)
Consumed-IsServing r (some (wait, s)) bs order sized stands p = (
  after_consume r (wait, s),
  refl,
  (bs, subst (λ x. Stands r.last x bs) (sym p.2) stands, order, sized),
)
Consumed-IsServing r (some (stop, s)) bs order sized stands p = (
  after_consume r (stop, s),
  refl,
  (bs, subst (λ x. Stands r.last x bs) (sym p.2) stands, order, sized),
)

pub section-IsServing :
    (x : Section) (r : Run) → IsServing r → (r' : Run) × (section x r ≡ some r') × IsServing r'
unfolding section finish
section-IsServing (producing rand) r (bs, stands, order, sized) = (
  after_produce r (produce rand r.last r.segment),
  refl,
  Produced-IsServing (1 + rand 0 % max_numbers) r (produce rand r.last r.segment) bs (omega arith)
      (omega arith) order sized stands (produce_lem rand r.last r.segment bs stands),
)
section-IsServing finishing r (bs, stands, order, sized) = (
  record r { segment = finish r.segment },
  refl,
  (
    bs,
    record {
      first = stands.first;
      lies = stands.lies;
      links = stands.links;
      fits = stands.fits;
      last_is = stands.last_is;
      zeroed = stands.zeroed;
    },
    order,
    sized,
  ),
)
section-IsServing consuming r (bs, stands, order, sized) =
    Consumed-IsServing r (consume r.segment) bs order sized stands
      (consume_lem r.last r.segment bs stands)

run-IsServing :
    (xs : List Section) (r : Run) → IsServing r → (r' : Run) × (run xs r ≡ some r') × IsServing r'
unfolding run
run-IsServing [] r h = (r, refl, h)
run-IsServing (x ∷ xs) r h =
    let (r', e, h') = section-IsServing x r h in
    let (r'', e', h'') = run-IsServing xs r' h' in (r'', ap (λ o. o >>= run xs) e ∙ e', h'')

-- From the segment as the producer sets it up, every order of the critical sections of the producer
-- and of any number of consumers goes through: the blocks taken, and then those that wait, are the
-- blocks laid, each once and in order; each has between one and ten numbers; the blocks end within
-- the segment; and the producer's last loop finds that all is done exactly when no block waits.
pub run_serves :
    (xs : List Section)
    → (r : Run) × (waiting : List (List ℕ)) × (run xs begin ≡ some r)
      × (r.taken ++ waiting ≡ r.laid)
      × All IsSized r.laid
      × (r.segment.free_offset ≤ shm_size)
      × (all_done r.segment ≡ some (none_waiting waiting))
unfolding waiting_numbers
run_serves xs =
    let (r, e, (bs, stands, order, sized)) = run-IsServing xs begin ([], start-Stands, refl, tt) in
    (
      r,
      waiting_numbers bs,
      e,
      order,
      sized,
      stands.fits,
      all_done_lem r.last r.segment bs stands ∙ ap some (first_waiting-none_waiting bs),
    )
