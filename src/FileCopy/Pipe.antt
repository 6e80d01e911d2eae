-- ===== src/FileCopy/Pipe.antt =====
-- module1/task1/filecopy.c: read_exact and write_all, whatever parts the kernel moves at a time.
use practice2_eltex.Prelude.{
  ℕ, zero, suc, ◌-◌, ◌≤◌, ◌<◌, ◌≡◌, refl, ◌∙◌, List, [], ◌∷◌, ◌++◌, arith, ◌==◌, if◌then◌else◌,
  length, length-append, take, drop, length-take, length-drop, All,
}
use Prim.Native.Nat.{min}
use practice2_eltex.Prelude.Slices.{
  take-seam, drop-seam, take-split, drop-split, take_all, drop_all,
}

-- How a call of read or write ends: with EINTR, with another error, or with a count, which is cut
-- at what was asked for.
pub data Answer : Type 0 where
  interrupted : Answer
  failed : Answer
  moved : ℕ → Answer

-- How the loop ends: with success, with -1, or not, where the answers end before it does.
pub data Ended : Type 0 where
  success : List ℕ → List ℕ → Ended
  error : Ended
  waiting : Ended

abbrev with_front : List ℕ → Ended → Ended
with_front bs (success got left) = success (bs ++ got) left
with_front bs error = error
with_front bs waiting = waiting

-- The bytes that are read from a pipe, and those left in it. A count of 0 is the pipe's end.
unfoldable pub read_exact : List Answer → List ℕ → ℕ → Ended
read_exact answers s zero = success [] s
read_exact [] s (suc count) = waiting
read_exact (interrupted ∷ rest) s (suc count) = read_exact rest s (suc count)
read_exact (failed ∷ rest) s (suc count) = error
read_exact (moved n ∷ rest) s (suc count) =
    let got = take (min n (suc count)) s in
    let later = read_exact rest (drop (length got) s) (suc count - length got) in
    if length got == 0 then error else with_front got later

-- The bytes that are written to a pipe, and those of the buffer behind them. A write of a count
-- above 0 that moves nothing is tried again.
unfoldable pub write_all : List Answer → List ℕ → ℕ → Ended
write_all answers p zero = success [] p
write_all [] p (suc count) = waiting
write_all (interrupted ∷ rest) p (suc count) = write_all rest p (suc count)
write_all (failed ∷ rest) p (suc count) = error
write_all (moved n ∷ rest) p (suc count) =
    let part = min n (suc count) in
    with_front (take part p) (write_all rest (drop part p) (suc count - part))

-- The calls that move something, when none fails.
unfoldable pub moves : List Answer → ℕ
moves [] = 0
moves (interrupted ∷ rest) = moves rest
moves (failed ∷ rest) = moves rest
moves (moved zero ∷ rest) = moves rest
moves (moved (suc n) ∷ rest) = suc (moves rest)

abbrev pub IsGood : Answer → Type 0
IsGood interrupted = Unit
IsGood failed = ⊥
IsGood (moved n) = 0 < n

-- Where no read fails and enough of them move something, read_exact gives the first bytes of the
-- pipe, however they were moved.
pub read_exact-good :
    (answers : List Answer) (s : List ℕ) (count : ℕ)
    → All IsGood answers
    → count ≤ length s
    → count ≤ moves answers
    → read_exact answers s count ≡ success (take count s) (drop count s)
unfolding read_exact moves
read_exact-good answers s zero g h k = refl
read_exact-good [] s (suc count) g h k = absurd (omega arith)
read_exact-good (interrupted ∷ rest) s (suc count) g h k =
    read_exact-good rest s (suc count) g.1 h k
read_exact-good (failed ∷ rest) s (suc count) g h k = elim g.0 [ ]
read_exact-good (moved zero ∷ rest) s (suc count) g h k = absurd (omega (arith, g.0))
read_exact-good (moved (suc n) ∷ rest) s (suc count) g h k =
    let m = min (suc n) (suc count) in
    let got : length (take m s) ≡ m = omega (arith, length-take m s) in
    let later =
      read_exact-good rest (drop m s) (suc count - m) g.1 (omega (arith, length-drop m s))
        (omega arith) in
    rw (got, read_exact)
      (rw (later, read_exact)
        (rw
          (
            take-split m (suc count - m) (suc count) s (omega arith),
            drop-split m (suc count - m) (suc count) s (omega arith),
          )
          (ground arith)))

-- The same of write_all.
pub write_all-good :
    (answers : List Answer) (p : List ℕ) (count : ℕ)
    → All IsGood answers
    → count ≤ moves answers
    → write_all answers p count ≡ success (take count p) (drop count p)
unfolding write_all moves
write_all-good answers p zero g k = refl
write_all-good [] p (suc count) g k = absurd (omega arith)
write_all-good (interrupted ∷ rest) p (suc count) g k = write_all-good rest p (suc count) g.1 k
write_all-good (failed ∷ rest) p (suc count) g k = elim g.0 [ ]
write_all-good (moved zero ∷ rest) p (suc count) g k = absurd (omega (arith, g.0))
write_all-good (moved (suc n) ∷ rest) p (suc count) g k =
    let m = min (suc n) (suc count) in
    rw (write_all-good rest (drop m p) (suc count - m) g.1 (omega arith), write_all)
      (rw
        (
          take-split m (suc count - m) (suc count) p (omega arith),
          drop-split m (suc count - m) (suc count) p (omega arith),
        )
        refl)

-- Where no call fails and enough of them move something, read_exact of the count that write_all
-- wrote gives the writer's bytes, however the two sides moved them, and leaves what was written
-- behind them.
pub write_all-read_exact :
    (writes reads : List Answer) (p behind : List ℕ)
    → All IsGood writes
    → All IsGood reads
    → length p ≤ moves writes
    → length p ≤ moves reads
    → (write_all writes p (length p) ≡ success p [])
      × (read_exact reads (p ++ behind) (length p) ≡ success p behind)
write_all-read_exact writes reads p behind gw gr hw hr =
    let shorter : length p ≤ length (p ++ behind) = omega (arith, length-append p behind) in
    (
      write_all-good writes p (length p) gw hw ∙ rw (take_all p, drop_all p) refl,
      read_exact-good reads (p ++ behind) (length p) gr shorter hr
          ∙ rw (take-seam p behind (length p) refl, drop-seam p behind (length p) refl) refl,
    )
