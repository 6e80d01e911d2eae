-- ===== src/SharedPool/Layout.antt =====
-- module1/task4/task4.c: the blocks that lie in the shared memory, one behind the other.
use practice2_eltex.Prelude.{
  ℕ, ◌+◌, ◌*◌, ◌≤◌, ◌<◌, ◌≡◌, refl, ◌∙◌, Bool, List, [], ◌∷◌, arith, if◌then◌else◌, length,
}
use practice2_eltex.SharedPool.{
  shm_size, header_size, block_header_size, block_size, Memory, Shared, start, read,
}
use practice2_eltex.SharedPool.Memory.{Agree, read-Agree}

-- The numbers of a block, and whether no consumer has taken it.
pub record Block : Type 0 where
  pub numbers : List ℕ
  pub waiting : Bool

abbrev pub size : Block → ℕ
size b = block_size (length b.numbers)

-- What a block's ints are; its link is in Links.
abbrev pub Holds : Memory → ℕ → Block → Type 0
Holds m p b =
    (m p ≡ (if b.waiting then length b.numbers else 0))
    × (read m (p + block_header_size) (length b.numbers) ≡ b.numbers)
    × (0 < length b.numbers)

-- The blocks lie from p on without gaps, and end at e.
abbrev pub Lies : Memory → ℕ → List Block → ℕ → Type 0
Lies m p [] e = p ≡ e
Lies m p (b ∷ bs) e = Holds m p b × Lies m (p + size b) bs e

-- The link of each block leads to the next, and that of the last is 0.
abbrev pub Links : Memory → ℕ → List Block → Type 0
Links m p [] = Unit
Links m p (b ∷ []) = m (p + 4) ≡ 0
Links m p (b ∷ c ∷ bs) = (m (p + 4) ≡ p + size b) × Links m (p + size b) (c ∷ bs)

pub Lies-le :
    (m : Memory) (p : ℕ) (bs : List Block) (e : ℕ) → Lies m p bs e → p + length bs * 12 ≤ e
Lies-le m p [] e h = omega (arith, h)
Lies-le m p (b ∷ bs) e h = omega (arith, Lies-le m (p + size b) bs e h.1, h.0.2)

pub Holds-Agree :
    (m m' : Memory) (p : ℕ) (b : Block)
    → m' p ≡ m p
    → Agree m m' (p + block_header_size) (p + size b)
    → Holds m p b
    → Holds m' p b
Holds-Agree m m' p b e a h = (
  e ∙ h.0,
  read-Agree m m' (p + block_header_size) (length b.numbers) (λ x lo hi. a x lo (omega arith))
      ∙ h.1,
  h.2,
)

-- Blocks do not see a change outside them.
pub Lies-Agree :
    (m m' : Memory) (p : ℕ) (bs : List Block) (e : ℕ)
    → Agree m m' p e
    → Lies m p bs e
    → Lies m' p bs e
Lies-Agree m m' p [] e a h = h
Lies-Agree m m' p (b ∷ bs) e a h =
    let end = Lies-le m (p + size b) bs e h.1 in
    (
      Holds-Agree m m' p b (a p (omega arith) (omega (arith, end, h.0.2)))
          (λ x lo hi. a x (omega arith) (omega (arith, end))) h.0,
      Lies-Agree m m' (p + size b) bs e (λ x lo hi. a x (omega arith) hi) h.1,
    )

pub Links-Agree :
    (m m' : Memory) (p : ℕ) (bs : List Block) (e : ℕ)
    → Agree m m' p e
    → Lies m p bs e
    → Links m p bs
    → Links m' p bs
Links-Agree m m' p [] e a h l = tt
Links-Agree m m' p (b ∷ []) e a h l = a (p + 4) (omega arith) (omega (arith, h.1, h.0.2)) ∙ l
Links-Agree m m' p (b ∷ c ∷ bs) e a h l =
    let end = Lies-le m (p + size b) (c ∷ bs) e h.1 in
    (
      a (p + 4) (omega arith) (omega (arith, end)) ∙ l.0,
      Links-Agree m m' (p + size b) (c ∷ bs) e (λ x lo hi. a x (omega arith) hi) h.1 l.1,
    )

-- The offset of the last block, 0 without one.
unfoldable pub last_offset : ℕ → List Block → ℕ
last_offset p [] = 0
last_offset p (b ∷ []) = p
last_offset p (b ∷ c ∷ bs) = last_offset (p + size b) (c ∷ bs)

-- The segment and the producer's last_block_offset stand for the blocks.
pub record Stands (last : ℕ) (s : Shared) (bs : List Block) : Type 0 where
  pub first : s.first_block_offset ≡ header_size
  pub lies : Lies s.memory header_size bs s.free_offset
  pub links : Links s.memory header_size bs
  pub fits : s.free_offset ≤ shm_size
  pub last_is : last ≡ last_offset header_size bs
  pub zeroed : (a : ℕ) → s.free_offset ≤ a → s.memory a ≡ 0

pub start-Stands : Stands 0 start []
unfolding start last_offset
start-Stands = record {
  first = refl;
  lies = refl;
  links = tt;
  fits = omega arith;
  last_is = refl;
  zeroed = λ a h. refl;
}
