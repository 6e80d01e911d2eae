-- ===== src/FileCopy/Receiving.antt =====
-- module1/task1/filecopy.c: what child_loop writes for a file whose bytes are in the pipe.
use practice2_eltex.Prelude.{
  ℕ, zero, suc, ◌-◌, ◌≤◌, ◌<◌, ◌≡◌, refl, sym, ap, ◌∙◌, true, false, some, List, [], ◌++◌, arith,
  ltb, length, length-append, take, drop, length-drop,
}
use practice2_eltex.Prelude.Slices.{
  take-seam, drop-seam, take-split, drop-split, append_assoc, append_nil,
}
use practice2_eltex.Prelude.Strings.{CString, codes}
use practice2_eltex.FileCopy.{path_max, Message, chunk}
use practice2_eltex.FileCopy.Child.{copy_name_size, copy_name, Disk, receive, receive_file}

-- A disk on which nothing fails.
pub record IsSound (disk : Disk) : Type 0 where
  pub creates : (name : CString) → disk.creates name ≡ true
  pub writes : (name : CString) (n : ℕ) → disk.writes name n ≡ true
  pub closes : (name : CString) → disk.closes name ≡ true

chunk_bounds : (n : ℕ) → (0 < chunk (suc n)) × (chunk (suc n) ≤ suc n)
unfolding chunk
chunk_bounds n = ground arith

-- Block by block, the file's bytes are written in order, and the rest of the pipe is left.
pub receive_lem :
    (disk : Disk) (name : CString) (fuel n : ℕ) (s written : List ℕ)
    → IsSound disk
    → n ≤ fuel
    → n ≤ length s
    → receive disk name fuel n s true written
      ≡ record { written = written ++ take n s; open_still = true; left = some (drop n s) }
unfolding receive
receive_lem disk name zero zero s written d h k =
    λ i. record { written = sym (append_nil written) i; open_still = true; left = some s }
receive_lem disk name zero (suc n) s written d h k = absurd (omega arith)
receive_lem disk name (suc fuel) zero s written d h k =
    λ i. record { written = sym (append_nil written) i; open_still = true; left = some s }
receive_lem disk name (suc fuel) (suc n) s written d h k =
    let size = chunk (suc n) in
    let b = chunk_bounds n in
    let later =
      receive_lem disk name fuel (suc n - size) (drop size s) (written ++ take size s) d
        (omega (arith, b)) (omega (arith, b, length-drop size s)) in
    let whole : (written ++ take size s) ++ take (suc n - size) (drop size s)
        ≡ written ++ take (suc n) s =
      append_assoc written (take size s) (take (suc n - size) (drop size s))
      ∙ ap (λ l. written ++ l) (take-split size (suc n - size) (suc n) s (omega (arith, b))) in
    let rest = drop-split size (suc n - size) (suc n) s (omega (arith, b)) in
    let enough : ltb (length s) size ≡ false = ground (arith, b) in
    rw (enough, d.writes name (suc n), receive)
      (later ∙ λ i. record { written = whole i; open_still = true; left = some (rest i) })

-- The same for a whole round.
pub receive_file_lem :
    (disk : Disk) (m : Message) (content behind : List ℕ)
    → IsSound disk
    → length m.file_name < path_max
    → m.file_size ≡ length content
    → receive_file disk m (content ++ behind) ≡ record {
      created = true;
      copy = record { name = copy_name m.file_name; content = content; announced = true };
      fine = true;
      left = some behind;
    }
unfolding receive_file
receive_file_lem disk m content behind d short e =
    let name = copy_name m.file_name in
    let fits : ltb (length name) copy_name_size ≡ true =
      ground (arith, length-append m.file_name (codes ".copy")) in
    let all =
      receive_lem disk name m.file_size m.file_size (content ++ behind) [] d (omega arith)
        (omega (arith, e, length-append content behind)) in
    rw (fits, d.creates name, receive_file)
      (rw (all, receive_file)
        (rw
          (
            d.closes name,
            take-seam content behind m.file_size e,
            drop-seam content behind m.file_size e,
          )
          refl))
