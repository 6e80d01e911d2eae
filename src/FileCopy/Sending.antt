-- ===== src/FileCopy/Sending.antt =====
-- module1/task1/filecopy.c: what parent_send_file sends of a file that it can read.
use Prim.Native.Nat.{min}
use practice2_eltex.Prelude.{
  ℕ, zero, suc, ◌-◌, ◌≤◌, ◌<◌, ◌≡◌, refl, true, List, [], ◌∷◌, arith, length, take, drop,
  length-take, length-drop, All,
}
use practice2_eltex.Prelude.Slices.{take-split}
use practice2_eltex.FileCopy.{chunk}
use practice2_eltex.FileCopy.Pipe.{Answer, interrupted, failed, moved, moves, IsGood}
use practice2_eltex.FileCopy.Parent.{send_data}

chunk_positive : (n : ℕ) → (0 < chunk (suc n)) × (chunk (suc n) ≤ suc n)
unfolding chunk
chunk_positive n = ground arith

pub send_data-good :
    (reads : List Answer) (content : List ℕ) (n : ℕ)
    → All IsGood reads
    → n ≤ length content
    → n ≤ moves reads
    → send_data reads content n ≡ (take n content, true)
unfolding send_data moves
send_data-good reads content zero g h k = refl
send_data-good [] content (suc n) g h k = absurd (omega arith)
send_data-good (interrupted ∷ reads) content (suc n) g h k =
    send_data-good reads content (suc n) g.1 h k
send_data-good (failed ∷ reads) content (suc n) g h k = elim g.0 [ ]
send_data-good (moved zero ∷ reads) content (suc n) g h k = absurd (omega (arith, g.0))
send_data-good (moved (suc j) ∷ reads) content (suc n) g h k =
    let m = min (suc j) (chunk (suc n)) in
    let b = chunk_positive n in
    let got : length (take m content) ≡ m = omega (arith, b, length-take m content) in
    let later =
      send_data-good reads (drop m content) (suc n - m) g.1
        (omega (arith, b, length-drop m content)) (omega (arith, b)) in
    let whole = take-split m (suc n - m) (suc n) content (omega (arith, b)) in
    ground (arith, got, later, b, whole)
