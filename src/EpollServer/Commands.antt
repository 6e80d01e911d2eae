-- ===== src/EpollServer/Commands.antt =====
-- module3/task15/server_epoll.c: the size of a file that comes in pieces, and the command exit.
use practice2_eltex.Prelude.{
  ℕ, suc, ◌+◌, ◌-◌, ◌*◌, ◌≤◌, ◌<◌, ◌≡◌, refl, sym, ap, ◌∙◌, inl, inr, Bool, true, false, Option,
  none, some, List, [], ◌∷◌, ◌++◌, arith, leb, ◌==◌, if◌then◌else◌, Bool-cases, length,
  length-append, All, option_map,
}
use practice2_eltex.Prelude.Slices.{take_beyond, drop_beyond, append_assoc, append_nil}
use practice2_eltex.Prelude.Strings.{CString, strcmp, str_eqb, codes}
use practice2_eltex.Prelude.Scan.{scan_literal}
use practice2_eltex.EpollServer.{
  idle, recv_file_size, recv_file_data, unopened, opened, Client, Effect, answer_error, open_file,
  split_line, parse_command, next, return, idle_round, full_path, size_round, round, process_loop,
  process_client, on_data, capacity, accepted, still_connected, disconnect, receive,
}
use practice2_eltex.EpollServer.Receiving.{feed, loop_once, into, total}
use practice2_eltex.Prelude.Bytes.{c_string}

unfoldable pub concat : List (List ℕ) → List ℕ
concat [] = []
concat (p ∷ ps) = p ++ concat ps

-- A client of which some bytes of the file's size came.
abbrev pub sizing : Client → List ℕ → List ℕ → Client
sizing c bytes buffer = record c {
  state = recv_file_size;
  size_bytes = bytes;
  received = length bytes;
  buffer = buffer;
}

loop_returns :
    (fuel : ℕ) (opens : CString → Bool) (c c' : Client) (b : ℕ) (bs : List ℕ)
    (effects : List Effect)
    → round opens c (b ∷ bs) ≡ return c' effects
    → process_loop (suc fuel) opens c (b ∷ bs) ≡ some (c', effects)
unfolding process_loop
loop_returns fuel opens c c' b bs effects e = rw (e, process_loop) refl

size_round_more :
    (opens : CString → Bool) (c : Client) (bytes buffer s : List ℕ)
    → length bytes + length s < 8
    → size_round opens (sizing c bytes buffer) s ≡ return (sizing c (bytes ++ s) []) []
unfolding size_round
size_round_more opens c bytes buffer s h =
    let short : leb (8 - length bytes) (length s) ≡ false = ground arith in
    rw short (
      ap (λ n. return (record (sizing c (bytes ++ s) []) { received = n }) [])
        (sym (length-append bytes s)))

-- What the last byte of the size leaves: the file was opened, or could not be.
abbrev pub sized : (CString → Bool) → Client → List ℕ → Client × List Effect
sized opens c bytes =
    if opens (full_path c)
    then (into (record c { size_bytes = bytes }) 0, open_file (full_path c) ∷ [])
    else (
      record c { state = idle; size_bytes = bytes; received = 0; buffer = []; output = unopened },
      answer_error ∷ [],
    )

size_round_last :
    (opens : CString → Bool) (c : Client) (bytes buffer s : List ℕ)
    → length bytes + length s ≡ 8
    → (c' : Client) × (size_round opens (sizing c bytes buffer) s
        ≡ next c' [] (sized opens c (bytes ++ s)).1)
      × (record c' { buffer = [] } ≡ (sized opens c (bytes ++ s)).0)
unfolding size_round
size_round_last opens c bytes buffer s h =
    let full : leb (8 - length bytes) (length s) ≡ true = ground arith in
    let all = take_beyond (8 - length bytes) s (omega arith) in
    let rest = drop_beyond (8 - length bytes) s (omega arith) in
    let c' = record c { size_bytes = bytes ++ s; received = 0; buffer = buffer } in
    elim (Bool-cases (opens (full_path c))) [
      | inl o ↦ (
        record c' { state = recv_file_data; output = opened },
        rw (full, o) (rw (all, rest) refl),
        rw o refl,
      )
      | inr o ↦ (
        record c' { state = idle; output = unopened },
        rw (full, o) (rw (all, rest) refl),
        rw o refl,
      )
    ]

on_data_size_more :
    (opens : CString → Bool) (c : Client) (bytes : List ℕ) (b : ℕ) (bs : List ℕ)
    → length bytes + length (b ∷ bs) < 8
    → on_data opens (sizing c bytes []) (b ∷ bs) ≡ some (sizing c (bytes ++ (b ∷ bs)) [], [])
unfolding on_data process_client round
on_data_size_more opens c bytes b bs h =
    let whole = sizing c bytes (b ∷ bs) in
    let fuel : 2 * length (b ∷ bs) + 1 ≡ suc (2 * length (b ∷ bs)) = omega arith in
    ap (λ k. process_loop k opens whole (b ∷ bs)) fuel
    ∙ loop_returns _ opens whole _ b bs [] (size_round_more opens c bytes (b ∷ bs) (b ∷ bs) h)

on_data_size_last :
    (opens : CString → Bool) (c : Client) (bytes : List ℕ) (b : ℕ) (bs : List ℕ)
    → length bytes + length (b ∷ bs) ≡ 8
    → on_data opens (sizing c bytes []) (b ∷ bs) ≡ some (sized opens c (bytes ++ (b ∷ bs)))
unfolding on_data process_client round
on_data_size_last opens c bytes b bs h =
    let (c', r, left) = size_round_last opens c bytes (b ∷ bs) (b ∷ bs) h in
    let whole = sizing c bytes (b ∷ bs) in
    let fuel : 2 * length (b ∷ bs) + 1 ≡ suc (2 * length (b ∷ bs)) = omega arith in
    ap (λ k. process_loop k opens whole (b ∷ bs)) fuel
    ∙ loop_once _ opens whole c' b bs _ r
    ∙ ap (λ x. some (x, (sized opens c (bytes ++ (b ∷ bs))).1)) left

-- The size of a file that comes in pieces of at least a byte each, the last of which ends with it:
-- the pieces are put together in order, and only the last one has an effect. If the file can be opened,
-- it is, and its bytes are then awaited; otherwise the answer is an error and the client is idle.
pub feed-size :
    (opens : CString → Bool) (c : Client) (bytes p : List ℕ) (ps : List (List ℕ))
    → All (λ l. 0 < length l) (p ∷ ps)
    → length bytes + total (p ∷ ps) ≡ 8
    → feed opens (sizing c bytes []) (p ∷ ps) ≡ some (sized opens c (bytes ++ concat (p ∷ ps)))
unfolding feed concat
feed-size opens c bytes [] ps h k = absurd (omega (arith, h.0))
feed-size opens c bytes (b ∷ bs) [] h k =
    rw (on_data_size_last opens c bytes b bs (omega arith), append_nil bs, feed)
      (ap (λ l. some ((sized opens c (bytes ++ (b ∷ bs))).0, l)) (append_nil _))
feed-size opens c bytes (b ∷ bs) (q ∷ qs) h k =
    let later =
      feed-size opens c (bytes ++ (b ∷ bs)) q qs h.1
        (omega (arith, length-append bytes (b ∷ bs))) in
    rw (on_data_size_more opens c bytes b bs (omega (arith, h.1.0)), feed)
      (rw (later, append_assoc bytes (b ∷ bs) (concat (q ∷ qs)), feed) refl)

-- A client whose buffer begins with the command exit.
abbrev pub left_over : Client → List ℕ → Client
left_over c rest = record c { state = idle; buffer = codes "exit\n" ++ rest }

on_data-left_over :
    (opens : CString → Bool) (c : Client) (rest p : List ℕ)
    → on_data opens (left_over c rest) p ≡ some (left_over c (rest ++ p), [])
unfolding on_data process_client round idle_round split_line parse_command c_string scan_literal
    str_eqb strcmp
on_data-left_over opens c rest p =
    let whole = left_over c (rest ++ p) in
    let n = length whole.buffer in
    let fuel : 2 * n + 1 ≡ suc (2 * n) = omega arith in
    ap (λ k. process_loop k opens whole whole.buffer) fuel
    ∙ loop_returns (2 * n) opens whole whole b'e' (codes "xit\n" ++ (rest ++ p)) [] refl

-- Events of the client's socket, one after another, until it is closed.
unfoldable pub receive_all :
    (CString → Bool) → Client → List (List ℕ) → Option (Option Client × List Effect)
receive_all opens c [] = some (some c, [])
receive_all opens c (p ∷ ps) = elim (receive opens c (some p)) [
  | none ↦ none
  | some (none, effects) ↦ some (none, effects)
  | some (some c', effects) ↦ option_map (λ r. (r.0, effects ++ r.1)) (receive_all opens c' ps)
]

receive-left_over :
    (opens : CString → Bool) (c : Client) (rest p : List ℕ)
    → let got = accepted (left_over c rest) p in
      receive opens (left_over c rest) (some p) ≡ (
        if length got == 0
        then disconnect c.output
        else some (some (left_over c (rest ++ got)), []))
unfolding receive
receive-left_over opens c rest p =
    let got = accepted (left_over c rest) p in
    elim (Bool-cases (length got == 0)) [
      | inl e ↦ rw e refl
      | inr e ↦ rw e (ap (option_map still_connected) (on_data-left_over opens c rest got))
    ]

receive_all-left_over :
    (opens : CString → Bool) (c : Client) (rest : List ℕ) (ps : List (List ℕ))
    → All (λ p. 0 < length p) ps
    → length (left_over c rest).buffer + length (concat ps) ≤ capacity
    → receive_all opens (left_over c rest) ps ≡ some (some (left_over c (rest ++ concat ps)), [])
unfolding receive_all concat
receive_all-left_over opens c rest [] h room =
    ap (λ l. some (some (left_over c l), [])) (sym (append_nil rest))
receive_all-left_over opens c rest (p ∷ ps) h room =
    let whole : accepted (left_over c rest) p ≡ p =
      take_beyond (capacity - length (left_over c rest).buffer) p
        (omega (arith, room, length-append p (concat ps))) in
    let some_read : (length p == 0) ≡ false = ground (arith, h.0) in
    let later =
      receive_all-left_over opens c (rest ++ p) ps h.1
        (omega (arith, room, length-append p (concat ps), length-append rest p)) in
    rw (receive-left_over opens c rest p, whole, some_read, receive_all)
      (rw (later, append_assoc rest p (concat ps), receive_all) refl)

-- A client whose buffer begins with the command exit is deaf: pieces of at least a byte each that
-- fit its buffer are only kept in it, without any effect, and so is a further one, as far as there
-- is room; when that one has no byte that fits, as when the buffer is full, the client is closed,
-- with its file if that is open, and with undefined behaviour if that was closed before.
pub receive_all_deaf :
    (opens : CString → Bool) (c : Client) (rest : List ℕ) (ps : List (List ℕ)) (bytes : List ℕ)
    → All (λ p. 0 < length p) ps
    → length (left_over c rest).buffer + length (concat ps) ≤ capacity
    → let kept = rest ++ concat ps in
      let got = accepted (left_over c kept) bytes in
      (receive_all opens (left_over c rest) ps ≡ some (some (left_over c kept), []))
      × (receive opens (left_over c kept) (some bytes) ≡ (
          if length got == 0
          then disconnect c.output
          else some (some (left_over c (kept ++ got)), [])))
receive_all_deaf opens c rest ps bytes h room = (
  receive_all-left_over opens c rest ps h room,
  receive-left_over opens c (rest ++ concat ps) bytes,
)
