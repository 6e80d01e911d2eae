-- ===== src/EpollServer/Receiving.antt =====
-- module3/task15/server_epoll.c: a file that comes in pieces.
use practice2_eltex.Prelude.{
  ℕ, zero, suc, ◌+◌, ◌*◌, ◌<◌, ◌≡◌, refl, ap, ◌∙◌, Bool, Option, none, some, List, [], ◌∷◌, ◌++◌,
  map, arith, length, All, option_map,
}
use practice2_eltex.Prelude.Int.{pos, ◌-ℤ◌, -ℤ_parts, eq_of_parts}
use practice2_eltex.Prelude.Slices.{take_beyond, drop_beyond, append_nil}
use practice2_eltex.Prelude.Strings.{CString}
use practice2_eltex.EpollServer.{
  idle, recv_file_data, opened, closed, Client, Effect, answer_ok, write_file, close_file,
  file_size, next, data_part, data_round, round, process_loop, process_client, on_data,
}

-- The pieces that recv gives, one after another.
unfoldable pub feed : (CString → Bool) → Client → List (List ℕ) → Option (Client × List Effect)
feed opens c [] = some (c, [])
feed opens c (p ∷ ps) = elim (on_data opens c p) [
  | none ↦ none
  | some (c', effects) ↦ option_map (λ r. (r.0, effects ++ r.1)) (feed opens c' ps)
]

difference : (n r m : ℕ) → n ≡ r + m → pos n -ℤ pos r ≡ pos m
difference n r m e = ground (arith, -ℤ_parts (pos n) (pos r), eq_of_parts (pos n -ℤ pos r) (pos m))

-- A client in the middle of a file, of which r bytes came.
abbrev pub receiving : Client → ℕ → List ℕ → Client
receiving c r buffer = record c {
  state = recv_file_data;
  received = r;
  buffer = buffer;
  output = opened;
}

file_size-receiving :
    (c : Client) (r : ℕ) (buffer : List ℕ) → file_size (receiving c r buffer) ≡ file_size c
unfolding file_size
file_size-receiving c r buffer = refl

data_round_lem :
    (c : Client) (r m : ℕ) (buffer s : List ℕ)
    → file_size c ≡ pos (r + suc m)
    → data_round (receiving c r buffer) s ≡ data_part (receiving c r buffer) (suc m) s
unfolding data_round
data_round_lem c r m buffer s e =
    let left : file_size (receiving c r buffer) -ℤ pos r ≡ pos (suc m) =
      ap (λ z. z -ℤ pos r) (file_size-receiving c r buffer ∙ e)
      ∙ difference (r + suc m) r (suc m) refl in
    rw (left, data_round) refl

-- Fewer bytes than are needed, and as many.
part_more :
    (c : Client) (need : ℕ) (s : List ℕ)
    → length s < need
    → data_part c need s
      ≡ next (record c { received = c.received + length s }) [] (write_file s ∷ [])
unfolding data_part
part_more c need s h =
    rw (take_beyond need s (omega arith), drop_beyond need s (omega arith)) (ground arith)

part_last :
    (c : Client) (need : ℕ) (s : List ℕ)
    → need ≡ length s
    → data_part c need s
      ≡ next
          (record c { received = c.received + length s; state = idle; output = closed })
          []
          (write_file s ∷ close_file ∷ answer_ok ∷ [])
unfolding data_part
part_last c need s h =
    rw (take_beyond need s (omega arith), drop_beyond need s (omega arith)) (ground arith)

-- One round of the loop that leaves nothing.
pub loop_once :
    (fuel : ℕ) (opens : CString → Bool) (c c' : Client) (b : ℕ) (bs : List ℕ)
    (effects : List Effect)
    → round opens c (b ∷ bs) ≡ next c' [] effects
    → process_loop (suc fuel) opens c (b ∷ bs) ≡ some (record c' { buffer = [] }, effects)
unfolding process_loop
loop_once zero opens c c' b bs effects e =
    rw (e, process_loop) (ap (λ l. some (record c' { buffer = [] }, l)) (append_nil effects))
loop_once (suc fuel) opens c c' b bs effects e =
    rw (e, process_loop) (ap (λ l. some (record c' { buffer = [] }, l)) (append_nil effects))

-- A piece of a file, whole or not, that comes into an empty buffer.
abbrev pub into : Client → ℕ → Client
into c r = receiving c r []

on_data_lem :
    (opens : CString → Bool) (c c' : Client) (r b : ℕ) (bs : List ℕ) (effects : List Effect)
    → data_round (receiving c r (b ∷ bs)) (b ∷ bs) ≡ next c' [] effects
    → on_data opens (into c r) (b ∷ bs) ≡ some (record c' { buffer = [] }, effects)
unfolding on_data process_client round
on_data_lem opens c c' r b bs effects e =
    let whole = receiving c r (b ∷ bs) in
    let fuel : 2 * length (b ∷ bs) + 1 ≡ suc (2 * length (b ∷ bs)) = omega arith in
    ap (λ k. process_loop k opens whole (b ∷ bs)) fuel
    ∙ loop_once (2 * length (b ∷ bs)) opens whole c' b bs effects e

on_data_more :
    (opens : CString → Bool) (c : Client) (r m b : ℕ) (bs : List ℕ)
    → file_size c ≡ pos (r + suc m)
    → length (b ∷ bs) < suc m
    → on_data opens (into c r) (b ∷ bs)
      ≡ some (into c (r + length (b ∷ bs)), write_file (b ∷ bs) ∷ [])
on_data_more opens c r m b bs e h =
    let whole = receiving c r (b ∷ bs) in
    on_data_lem opens c _ r b bs _
      (data_round_lem c r m (b ∷ bs) (b ∷ bs) e ∙ part_more whole (suc m) (b ∷ bs) h)

-- A client whose file is complete.
abbrev pub complete : Client → ℕ → Client
complete c n = record c { state = idle; received = n; buffer = []; output = closed }

on_data_last :
    (opens : CString → Bool) (c : Client) (r m b : ℕ) (bs : List ℕ)
    → file_size c ≡ pos (r + suc m)
    → suc m ≡ length (b ∷ bs)
    → on_data opens (into c r) (b ∷ bs)
      ≡ some (complete c (r + length (b ∷ bs)), write_file (b ∷ bs) ∷ close_file ∷ answer_ok ∷ [])
on_data_last opens c r m b bs e h =
    let whole = receiving c r (b ∷ bs) in
    on_data_lem opens c _ r b bs _
      (data_round_lem c r m (b ∷ bs) (b ∷ bs) e ∙ part_last whole (suc m) (b ∷ bs) h)

abbrev pub total : List (List ℕ) → ℕ
total [] = 0
total (p ∷ ps) = length p + total ps

-- A file of n bytes, of which r have come, that comes in pieces of at least a byte each: they are
-- written in order, each as it comes, and only the last one closes the file and is answered, with
-- one OK; the client is then idle with an empty buffer.
pub feed-file :
    (opens : CString → Bool) (c : Client) (r n : ℕ) (p : List ℕ) (ps : List (List ℕ))
    → file_size c ≡ pos n
    → All (λ l. 0 < length l) (p ∷ ps)
    → r + total (p ∷ ps) ≡ n
    → feed opens (into c r) (p ∷ ps)
      ≡ some (complete c n, map write_file (p ∷ ps) ++ close_file ∷ answer_ok ∷ [])
unfolding feed
feed-file opens c r n [] ps e h k = absurd (omega (arith, h.0))
feed-file opens c r n (b ∷ bs) [] e h k =
    let size : pos n ≡ pos (r + suc (length bs)) = ap (λ z. pos z) (omega arith) in
    rw (on_data_last opens c r (length bs) b bs (e ∙ size) refl, feed)
      (ap (λ z. some (complete c z, map write_file ((b ∷ bs) ∷ []) ++ close_file ∷ answer_ok ∷ []))
        (omega arith))
feed-file opens c r n (b ∷ bs) (q ∷ qs) e h k =
    let m = length bs + total (q ∷ qs) in
    let size : pos n ≡ pos (r + suc m) = ap (λ z. pos z) (omega arith) in
    let later = feed-file opens c (r + length (b ∷ bs)) n q qs e h.1 (omega arith) in
    rw (on_data_more opens c r m b bs (e ∙ size) (omega (arith, h.1.0)), feed)
      (rw (later, feed) refl)
