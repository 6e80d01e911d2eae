-- ===== src/FileCopy/Layout.antt =====
-- module1/task1/filecopy.c: the struct Message as its bytes, and back.
use practice2_eltex.Prelude.{
  ℕ, zero, suc, ◌-◌, ◌^◌, ◌≤◌, ◌<◌, ◌≡◌, refl, ap, [], ◌∷◌, ◌++◌, arith, length, length-append,
  take, replicate, length-replicate, All,
}
use practice2_eltex.Prelude.Slices.{take_nil}
use practice2_eltex.Prelude.Strings.{CString}
use practice2_eltex.FileCopy.{path_max, message_size, Message, encode, decode}
use practice2_eltex.Prelude.Bytes.{c_string, of_bytes-to_bytes}

-- A name without a NUL in it, with at least one NUL behind it.
c_string-name :
    (name : CString) (n k : ℕ)
    → All (λ b. 0 < b) name
    → length name ≤ k
    → c_string (take k (name ++ replicate n 0)) ≡ name
unfolding c_string
c_string-name [] zero k p h = ap c_string (take_nil k)
c_string-name [] (suc n) zero p h = refl
c_string-name [] (suc n) (suc k) p h = refl
c_string-name (b ∷ name) n zero p h = absurd (omega arith)
c_string-name (b ∷ name) n (suc k) p h =
    let rest = c_string-name name n k p.1 (omega arith) in ground (arith, rest, p.0)

abbrev pub IsProper : Message → Type 0
IsProper m =
    (m.kind < 2 ^ 32)
    × (m.file_size < 2 ^ 64)
    × (length m.file_name < path_max)
    × All (λ b. 0 < b) m.file_name

pub length-encode : (m : Message) → length m.file_name < path_max → length (encode m) ≡ message_size
unfolding encode
length-encode m h = omega (
  arith,
  length-append m.file_name (replicate (path_max - length m.file_name) 0),
  length-replicate {A = ℕ} (path_max - length m.file_name) 0,
)

-- The child reads from the bytes of the struct what the parent put into it: a type and a size of
-- their widths, and a name without NUL that leaves room for one.
pub decode-encode : (m : Message) → IsProper m → decode (encode m) ≡ m
unfolding decode encode
decode-encode m (hk, hs, hn, hp) = λ i. record {
  kind = of_bytes-to_bytes 4 m.kind hk i;
  file_size = of_bytes-to_bytes 8 m.file_size hs i;
  file_name =
      c_string-name m.file_name (path_max - length m.file_name) (path_max - 1) hp (omega arith) i;
}
