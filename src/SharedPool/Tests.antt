-- ===== src/SharedPool/Tests.antt =====
-- Runs of the model of module1/task4/task4.c on concrete inputs.
use practice2_eltex.Prelude.{
  ℕ, ◌+◌, ◌*◌, ◌≤◌, ◌≡◌, refl, true, false, Option, some, List, [], ◌∷◌, ◌++◌, All, option_map,
}
use practice2_eltex.SharedPool.{
  shm_size, Shared, start, draw, lay, produce, finish, search, consume, all_done,
}
use practice2_eltex.SharedPool.Layout.{Block, Stands, start-Stands}
use practice2_eltex.SharedPool.Produce.{Produced, produce_lem}
use practice2_eltex.SharedPool.Consume.{Consumed, consume_lem}
use practice2_eltex.SharedPool.Queue.{
  Section, producing, finishing, consuming, Run, begin, section, run, none_waiting, IsSized,
  run_serves,
}

abbrev dice : ℕ → ℕ
dice i = 2 + i * 3

-- Two blocks laid, and both taken.
abbrev orders : List Section
orders = producing dice ∷ consuming ∷ producing dice ∷ finishing ∷ consuming ∷ consuming ∷ []

taken_of : List Section → Option (List (List ℕ))
unfolding run section produce consume finish start
taken_of xs = option_map (λ r. r.taken) (run xs begin)

abbrev expected : Option (List (List ℕ))
expected = some ((5 ∷ 8 ∷ 11 ∷ []) ∷ (5 ∷ 8 ∷ 11 ∷ []) ∷ [])

orders_run : taken_of orders ≡ expected
unfolding taken_of search
orders_run = refl

run_serves_example :
    (r : Run) × (waiting : List (List ℕ)) × (run orders begin ≡ some r)
    × (r.taken ++ waiting ≡ r.laid)
    × All IsSized r.laid
    × (r.segment.free_offset ≤ shm_size)
    × (all_done r.segment ≡ some (none_waiting waiting))
run_serves_example = run_serves orders

produce_lem_example : Produced 3 0 start [] (produce dice 0 start)
produce_lem_example = produce_lem dice 0 start [] start-Stands

abbrev one_block : List Block
one_block = record { numbers = 5 ∷ 8 ∷ 11 ∷ []; waiting = true } ∷ []

abbrev with_one : Shared
with_one = record {
  first_block_offset = 16;
  free_offset = 36;
  producer_finished = false;
  memory = lay (λ a. 0) 0 16 (5 ∷ 8 ∷ 11 ∷ []);
}

with_one-Stands : Stands 16 with_one one_block
unfolding produce draw start
with_one-Stands = (produce_lem dice 0 start [] start-Stands).0

consume_lem_example : Consumed 16 with_one one_block (consume with_one)
consume_lem_example = consume_lem 16 with_one one_block with_one-Stands
