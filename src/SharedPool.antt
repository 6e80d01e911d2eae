-- ===== src/SharedPool.antt =====
-- module1/task4/task4.c: a producer lays blocks of numbers in shared memory, and consumers take
-- them. Each critical section, between sem_wait and sem_signal, is one step. An address is an offset
-- in bytes from the begin of the segment, and the memory gives the int at an address; rand gives no
-- negative number, so that no int here is negative.
pub mod Memory
pub mod Layout
pub mod Append
pub mod Produce
pub mod Search
pub mod Take
pub mod Extremes
pub mod Consume
pub mod Queue
mod Tests
use practice2_eltex.Prelude.{
  ℕ, zero, suc, ◌+◌, ◌-◌, ◌*◌, ◌%◌, Bool, true, false, Option, none, some, List, [], ◌∷◌, ltb, ◌==◌,
  if◌then◌else◌, length, option_map,
}

abbrev pub shm_size : ℕ
shm_size = 4096

abbrev pub max_numbers : ℕ
max_numbers = 10

-- sizeof(shm_header)
abbrev pub header_size : ℕ
header_size = 16

abbrev pub block_header_size : ℕ
block_header_size = 8

abbrev pub block_size : ℕ → ℕ
block_size count = block_header_size + count * 4

abbrev pub Memory : Type 0
Memory = ℕ → ℕ

unfoldable pub write : Memory → ℕ → ℕ → Memory
write m a v b = if b == a then v else m b

-- shm_header, whose total_size nothing reads, and the ints behind it.
pub record Shared : Type 0 where
  pub first_block_offset : ℕ
  pub free_offset : ℕ
  pub producer_finished : Bool
  pub memory : Memory

-- The segment after the producer has set the header up. The kernel gives it zeroed.
unfoldable pub start : Shared
start = record {
  first_block_offset = header_size;
  free_offset = header_size;
  producer_finished = false;
  memory = λ a. 0;
}

-- What rand gives in turn, for the numbers of a block.
unfoldable pub draw : (ℕ → ℕ) → ℕ → ℕ → List ℕ
draw rand from zero = []
draw rand from (suc n) = rand from % 100 ∷ draw rand (from + 1) n

unfoldable pub fill : Memory → ℕ → List ℕ → Memory
unfolding write
fill m a [] = m
fill m a (n ∷ ns) = fill (write m a n) (a + 4) ns

-- The memory with a new block, and the link of the block before it, if there is one.
unfoldable pub lay : Memory → ℕ → ℕ → List ℕ → Memory
unfolding write fill
lay m last free ns =
    let m' = fill (write (write m free (length ns)) (free + 4) 0) (free + block_header_size) ns in
    if last == 0 then m' else write m' (last + 4) free

-- A round of the producer: the numbers it laid, last_block_offset and the segment; none when it
-- finds no room and leaves its loop. The first number that rand gives is the block's count.
unfoldable pub produce : (ℕ → ℕ) → ℕ → Shared → Option (List ℕ × ℕ × Shared)
unfolding draw lay
produce rand last s =
    let count = 1 + rand 0 % max_numbers in
    let ns = draw rand 1 count in
    if ltb (shm_size - s.free_offset) block_header_size
    then none
    else if ltb shm_size (s.free_offset + block_size count)
    then none
    else some (
      ns,
      s.free_offset,
      record s {
        first_block_offset = if last == 0 then s.free_offset else s.first_block_offset;
        free_offset = s.free_offset + block_size count;
        memory = lay s.memory last s.free_offset ns;
      },
    )

-- The end of the producer's loop.
unfoldable pub finish : Shared → Shared
finish s = record s { producer_finished = true }

-- The walk along the blocks to one whose count is above 0: its offset, or that there is none. The
-- outer none is the end of the fuel; the segment has room for at most 340 blocks.
abbrev pub search_fuel : ℕ
search_fuel = 342

unfoldable pub search : Memory → ℕ → ℕ → Option (Option ℕ)
search m zero offset = none
search m (suc fuel) offset =
    let rest = search m fuel (m (offset + 4)) in
    if offset == 0 then some none else if ltb 0 (m offset) then some (some offset) else rest

unfoldable pub read : Memory → ℕ → ℕ → List ℕ
read m a zero = []
read m a (suc n) = m a ∷ read m (a + 4) n

-- The loop for min and max over the numbers behind the first.
unfoldable pub extremes : ℕ → ℕ → List ℕ → ℕ × ℕ
extremes least most [] = (least, most)
extremes least most (n ∷ ns) =
    extremes (if ltb n least then n else least) (if ltb most n then n else most) ns

-- What a round of a consumer finds: a block, which it takes, none at present, or none for good.
pub data Found : Type 0 where
  block : List ℕ → ℕ × ℕ → Found
  wait : Found
  stop : Found

-- min and max of a block; the code reads nums[0] of a block that has at least one number.
abbrev pub report : List ℕ → Found
report [] = block [] (0, 0)
report (n ∷ ns) = block (n ∷ ns) (extremes n n ns)

abbrev pub is_none : Option ℕ → Bool
is_none none = true
is_none (some offset) = false

unfoldable pub outcome : Shared → Option ℕ → Found × Shared
unfolding read extremes
outcome s none = (if s.producer_finished then stop else wait, s)
outcome s (some offset) = (
  report (read s.memory (offset + block_header_size) (s.memory offset)),
  record s { memory = write s.memory offset 0 },
)

unfoldable pub consume : Shared → Option (Found × Shared)
unfolding outcome
consume s = option_map (outcome s) (search s.memory search_fuel s.first_block_offset)

-- The producer's last loop: whether no block has a count other than 0.
unfoldable pub all_done : Shared → Option Bool
all_done s = option_map is_none (search s.memory search_fuel s.first_block_offset)
