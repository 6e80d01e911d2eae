-- ===== src/SharedPool/Memory.antt =====
-- module1/task4/task4.c: reads and writes of the shared memory that do not meet.
use practice2_eltex.Prelude.{
  ℕ, zero, suc, ◌+◌, ◌*◌, ◌≤◌, ◌<◌, ◌≡◌, refl, ap, ◌∙◌, ◌≢◌, List, [], ◌∷◌, arith, length,
}
use practice2_eltex.SharedPool.{Memory, write, draw, fill, read}

-- Two memories that agree on the addresses from a to, and without, b.
abbrev pub Agree : Memory → Memory → ℕ → ℕ → Type 0
Agree m m' a b = (x : ℕ) → a ≤ x → x < b → m' x ≡ m x

pub write_self : (m : Memory) (a v : ℕ) → write m a v a ≡ v
unfolding write
write_self m a v = ground arith

pub write_ne : (m : Memory) (a v b : ℕ) → b ≢ a → write m a v b ≡ m b
unfolding write
write_ne m a v b h = ground arith

pub fill_before : (m : Memory) (a : ℕ) (ns : List ℕ) (x : ℕ) → x < a → fill m a ns x ≡ m x
unfolding fill
fill_before m a [] x h = refl
fill_before m a (n ∷ ns) x h =
    fill_before (write m a n) (a + 4) ns x (omega arith) ∙ write_ne m a n x (λ e. omega arith)

pub read-Agree : (m m' : Memory) (a n : ℕ) → Agree m m' a (a + n * 4) → read m' a n ≡ read m a n
unfolding read
read-Agree m m' a zero h = refl
read-Agree m m' a (suc n) h =
    let first : m' a ≡ m a = h a (omega arith) (omega arith) in
    let rest = read-Agree m m' (a + 4) n (λ x lo hi. h x (omega arith) (omega arith)) in
    λ i. first i ∷ rest i

pub read-fill : (m : Memory) (a : ℕ) (ns : List ℕ) → read (fill m a ns) a (length ns) ≡ ns
unfolding read fill
read-fill m a [] = refl
read-fill m a (n ∷ ns) =
    let first : fill (write m a n) (a + 4) ns a ≡ n =
      fill_before (write m a n) (a + 4) ns a (omega arith) ∙ write_self m a n in
    let rest = read-fill (write m a n) (a + 4) ns in λ i. first i ∷ rest i

pub length-draw : (rand : ℕ → ℕ) (from n : ℕ) → length (draw rand from n) ≡ n
unfolding draw
length-draw rand from zero = refl
length-draw rand from (suc n) = ap suc (length-draw rand (from + 1) n)
