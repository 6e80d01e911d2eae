-- ===== src/SharedPool/Produce.antt =====
-- module1/task4/task4.c: the producer's round lays one more block behind the others.
use practice2_eltex.Prelude.{
  ℕ, ◌+◌, ◌-◌, ◌*◌, ◌%◌, ◌≤◌, ◌<◌, ◌≡◌, refl, sym, ap, subst, ◌∙◌, inl, inr, true, false, Option,
  none, some, List, [], ◌∷◌, ◌++◌, arith, ltb, ◌==◌, if◌then◌else◌, lt_or_le, length,
}
use practice2_eltex.SharedPool.{
  shm_size, max_numbers, header_size, block_header_size, block_size, Memory, write, Shared, draw,
  fill, lay, produce,
}
use practice2_eltex.SharedPool.Memory.{
  Agree, write_self, write_ne, fill_before, read-fill, length-draw,
}
use practice2_eltex.SharedPool.Layout.{
  Block, size, Holds, Lies, Links, Lies-Agree, Links-Agree, last_offset, Stands,
}
use practice2_eltex.SharedPool.Append.{
  last_offset_le, linked, linked_ne, append_lem, last_offset-append, last_offset_bound,
}

-- The memory with the new block, before it is linked.
laid : Memory → ℕ → List ℕ → Memory
laid m free ns = fill (write (write m free (length ns)) (free + 4) 0) (free + block_header_size) ns

laid_before : (m : Memory) (free : ℕ) (ns : List ℕ) (a : ℕ) → a < free → laid m free ns a ≡ m a
unfolding laid
laid_before m free ns a h =
    fill_before _ (free + block_header_size) ns a (omega arith)
    ∙ write_ne _ (free + 4) 0 a (λ e. omega arith)
    ∙ write_ne m free (length ns) a (λ e. omega arith)

laid-Holds :
    (m : Memory) (free : ℕ) (ns : List ℕ)
    → 0 < length ns
    → Holds (laid m free ns) free (record { numbers = ns; waiting = true })
unfolding laid
laid-Holds m free ns h = (
  fill_before _ (free + block_header_size) ns free (omega arith)
      ∙ write_ne _ (free + 4) 0 free (λ e. omega arith)
      ∙ write_self m free (length ns),
  read-fill _ (free + block_header_size) ns,
  h,
)

laid_link : (m : Memory) (free : ℕ) (ns : List ℕ) → laid m free ns (free + 4) ≡ 0
unfolding laid
laid_link m free ns =
    fill_before _ (free + block_header_size) ns (free + 4) (omega arith) ∙ write_self _ (free + 4) 0

fill_after :
    (m : Memory) (a : ℕ) (ns : List ℕ) (x : ℕ) → a + length ns * 4 ≤ x → fill m a ns x ≡ m x
unfolding fill
fill_after m a [] x h = refl
fill_after m a (n ∷ ns) x h =
    fill_after (write m a n) (a + 4) ns x (omega arith) ∙ write_ne m a n x (λ e. omega arith)

laid_after :
    (m : Memory) (free : ℕ) (ns : List ℕ) (a : ℕ)
    → free + block_size (length ns) ≤ a
    → laid m free ns a ≡ m a
unfolding laid
laid_after m free ns a h =
    fill_after _ (free + block_header_size) ns a (omega arith)
    ∙ write_ne _ (free + 4) 0 a (λ e. omega arith)
    ∙ write_ne m free (length ns) a (λ e. omega arith)

-- What a round of the producer may give, when the block is to have so many numbers.
abbrev pub Produced : (count last : ℕ) → Shared → List Block → Option (List ℕ × ℕ × Shared) → Type 0
Produced count last s bs none = shm_size < s.free_offset + block_size count
Produced count last s bs (some (ns, last', s')) =
    Stands last' s' (bs ++ record { numbers = ns; waiting = true } ∷ [])
    × (length ns ≡ count)
    × (s'.producer_finished ≡ s.producer_finished)

first_lem :
    (m : Memory) (bs : List Block) (first free : ℕ)
    → Lies m header_size bs free
    → first ≡ header_size
    → (if last_offset header_size bs == 0 then free else first) ≡ header_size
unfolding last_offset
first_lem m [] first free h e = sym h
first_lem m (b ∷ bs) first free h e =
    let ge = last_offset_le header_size b bs in
    let later : (last_offset header_size (b ∷ bs) == 0) ≡ false = ground (arith, ge) in rw later e

-- Where there is room, what the producer lays is one more block.
laid-Stands :
    (last : ℕ) (s : Shared) (bs : List Block) (ns : List ℕ)
    → Stands last s bs
    → 0 < length ns
    → s.free_offset + block_size (length ns) ≤ shm_size
    → Stands s.free_offset
        (record s {
          first_block_offset = if last == 0 then s.free_offset else s.first_block_offset;
          free_offset = s.free_offset + block_size (length ns);
          memory = lay s.memory last s.free_offset ns;
        })
        (bs ++ record { numbers = ns; waiting = true } ∷ [])
unfolding lay laid
laid-Stands last s bs ns h pos_len room =
    let m = laid s.memory s.free_offset ns in
    let new : Block = record { numbers = ns; waiting = true } in
    let agree : Agree s.memory m header_size s.free_offset =
      λ a lo hi. laid_before s.memory s.free_offset ns a hi in
    let bound = last_offset_bound s.memory header_size bs s.free_offset h.lies in
    let both =
      append_lem m header_size bs s.free_offset new (omega arith)
        (Lies-Agree s.memory m header_size bs s.free_offset agree h.lies)
        (Links-Agree s.memory m header_size bs s.free_offset agree h.lies h.links)
        (laid-Holds s.memory s.free_offset ns pos_len) (laid_link s.memory s.free_offset ns) in
    let same : linked m (last_offset header_size bs) s.free_offset ≡ linked m last s.free_offset =
      ap (λ l. linked m l s.free_offset) (sym h.last_is) in
    record {
      first =
          ap (λ l. if l == 0 then s.free_offset else s.first_block_offset) h.last_is
          ∙ first_lem s.memory bs s.first_block_offset s.free_offset h.lies h.first;
      lies =
          subst (λ f. Lies f header_size (bs ++ new ∷ []) (s.free_offset + size new)) same both.0;
      links = subst (λ f. Links f header_size (bs ++ new ∷ [])) same both.1;
      fits = room;
      last_is = sym (last_offset-append s.memory header_size bs s.free_offset new h.lies);
      zeroed = λ a le.
          linked_ne m last s.free_offset a (λ e. omega (arith, bound, h.last_is))
          ∙ laid_after s.memory s.free_offset ns a le
          ∙ h.zeroed a (omega arith);
    }

-- The producer's round on any segment that stands for blocks: without room for the whole block it
-- changes nothing, and with it the new block waits behind the others, linked to the one before.
pub produce_lem :
    (rand : ℕ → ℕ) (last : ℕ) (s : Shared) (bs : List Block)
    → Stands last s bs
    → Produced (1 + rand 0 % max_numbers) last s bs (produce rand last s)
unfolding produce
produce_lem rand last s bs h =
    let count = 1 + rand 0 % max_numbers in
    let ns = draw rand 1 count in
    let same : length ns ≡ count = length-draw rand 1 count in
    elim (lt_or_le (shm_size - s.free_offset) block_header_size) [
      | inl lt ↦
          let test : ltb (shm_size - s.free_offset) block_header_size ≡ true = ground arith in
          rw test (omega (arith, lt, h.fits))
      | inr ge ↦
          let test : ltb (shm_size - s.free_offset) block_header_size ≡ false = ground arith in
          elim (lt_or_le shm_size (s.free_offset + block_size count)) [
            | inl lt ↦
                let full : ltb shm_size (s.free_offset + block_size count) ≡ true = ground arith in
                rw (test, full) lt
            | inr room ↦
                let free : ltb shm_size (s.free_offset + block_size count) ≡ false = ground arith in
                let new : Block = record { numbers = ns; waiting = true } in
                let left : ℕ → Shared = λ c. record s {
                  first_block_offset = if last == 0 then s.free_offset else s.first_block_offset;
                  free_offset = s.free_offset + block_size c;
                  memory = lay s.memory last s.free_offset ns;
                } in
                let stands : Stands s.free_offset (left count) (bs ++ new ∷ []) =
                  subst (λ c. Stands s.free_offset (left c) (bs ++ new ∷ [])) same
                    (laid-Stands last s bs ns h (omega (arith, same))
                      (omega (arith, same, room))) in
                rw (test, free) (stands, same, refl)
          ]
    ]
