-- ===== src/SharedPool/Consume.antt =====
-- module1/task4/task4.c: a consumer's round, and the producer's wait for the end.
use practice2_eltex.Prelude.{
  ℕ, zero, suc, ◌+◌, ◌<◌, ◌≡◌, refl, sym, ap, subst, ◌∙◌, inl, inr, true, false, Option, none, some,
  List, [], ◌∷◌, arith, Bool-cases, length, option_map,
}
use practice2_eltex.SharedPool.{
  header_size, block_header_size, Memory, write, Shared, search_fuel, search, read, Found, block,
  wait, stop, report, is_none, outcome, consume, all_done,
}
use practice2_eltex.SharedPool.Memory.{write_ne}
use practice2_eltex.SharedPool.Layout.{Block, Stands}
use practice2_eltex.SharedPool.Search.{waiting_at, search_lem}
use practice2_eltex.SharedPool.Take.{first_waiting, take_first, take_cases, last_offset-take_first}
use practice2_eltex.SharedPool.Extremes.{Bounds, extremes-Bounds}

-- What a consumer may find among the blocks.
abbrev pub Consumed : ℕ → Shared → List Block → Option (Found × Shared) → Type 0
Consumed last s bs none = ⊥
Consumed last s bs (some (block ns (least, most), s')) =
    (first_waiting bs ≡ some ns)
    × Bounds least most ns
    × Stands last s' (take_first bs)
    × (s'.free_offset ≡ s.free_offset)
    × (s'.producer_finished ≡ s.producer_finished)
Consumed last s bs (some (wait, s')) =
    (first_waiting bs ≡ none) × (s'.producer_finished ≡ false) × (s' ≡ s)
Consumed last s bs (some (stop, s')) =
    (first_waiting bs ≡ none) × (s'.producer_finished ≡ true) × (s' ≡ s)

-- What a round of a consumer does on blocks.
consume_eq :
    (last : ℕ) (s : Shared) (bs : List Block)
    → Stands last s bs
    → consume s ≡ some (outcome s (waiting_at header_size bs))
unfolding consume
consume_eq last s bs h = ap (option_map (outcome s)) (
    ap (search s.memory search_fuel) h.first
    ∙ search_lem s.memory bs s.free_offset h.fits h.lies h.links h.zeroed)

report-Consumed :
    (last : ℕ) (s s' : Shared) (bs : List Block) (ns : List ℕ)
    → first_waiting bs ≡ some ns
    → 0 < length ns
    → Stands last s' (take_first bs)
    → s'.free_offset ≡ s.free_offset
    → s'.producer_finished ≡ s.producer_finished
    → Consumed last s bs (some (report ns, s'))
report-Consumed last s s' bs [] f p h e k = absurd (omega arith)
report-Consumed last s s' bs (n ∷ ns) f p h e k = (f, extremes-Bounds n ns, h, e, k)

length-read : (m : Memory) (a n : ℕ) → length (read m a n) ≡ n
unfolding read
length-read m a zero = refl
length-read m a (suc n) = ap suc (length-read m (a + 4) n)

outcome-Consumed :
    (last : ℕ) (s : Shared) (bs : List Block)
    → Stands last s bs
    → Consumed last s bs (some (outcome s (waiting_at header_size bs)))
unfolding outcome
outcome-Consumed last s bs h =
    elim (take_cases s.memory header_size bs s.free_offset h.lies h.links) [
      | inl (at, first) ↦ rw at (elim (Bool-cases s.producer_finished) [
        | inl e ↦ rw e (first, refl, refl)
        | inr e ↦ rw e (first, refl, refl)
      ])
      | inr (q, (at, first, left, le, lt, lies, links)) ↦
          let stands : Stands last (record s { memory = write s.memory q 0 }) (take_first bs) =
            record {
              first = h.first;
              lies = lies;
              links = links;
              fits = h.fits;
              last_is = h.last_is ∙ sym (last_offset-take_first header_size bs);
              zeroed = λ a k. write_ne s.memory q 0 a (λ e. omega arith) ∙ h.zeroed a k;
            } in
          rw at (
            report-Consumed last s (record s { memory = write s.memory q 0 }) bs _ first
              (omega (arith, length-read s.memory (q + block_header_size) (s.memory q))) stands refl
              refl)
    ]

-- A consumer's round on a segment that stands for blocks: it ends, and takes the first block that
-- waits, whole and once, with its least and greatest number; without one it waits, or stops when the
-- producer has finished.
pub consume_lem :
    (last : ℕ) (s : Shared) (bs : List Block) → Stands last s bs → Consumed last s bs (consume s)
consume_lem last s bs h =
    subst (Consumed last s bs) (sym (consume_eq last s bs h)) (outcome-Consumed last s bs h)

-- The producer's last loop on a segment that stands for blocks: it ends when no block waits, and
-- not before.
pub all_done_lem :
    (last : ℕ) (s : Shared) (bs : List Block)
    → Stands last s bs
    → all_done s ≡ some (elim (first_waiting bs) [ none ↦ true | some ns ↦ false ])
unfolding all_done
all_done_lem last s bs h =
    ap (option_map is_none) (
      ap (search s.memory search_fuel) h.first
      ∙ search_lem s.memory bs s.free_offset h.fits h.lies h.links h.zeroed)
    ∙ elim (take_cases s.memory header_size bs s.free_offset h.lies h.links) [
      | inl (at, first) ↦ rw (at, first) refl
      | inr (q, taken) ↦ rw (taken.0, taken.1) refl
    ]
