-- ===== src/EpollServer.antt =====
-- module3/task15/server_epoll.c: process_client, which reads commands and files from what a client
-- has sent. The arithmetic on doubles is not modelled: that handle_arithmetic answers a line is an
-- effect. A long has 64 bits and the byte order is little-endian. Undefined behaviour is none: a
-- sendfile without a name or with a name that leaves its array, and a file that is closed twice.
pub mod Receiving
pub mod Commands
mod Tests
use practice2_eltex.Prelude.{
  ℕ, zero, suc, ◌+◌, ◌-◌, ◌*◌, ◌^◌, Bool, Option, none, some, List, [], ◌∷◌, ◌++◌, ltb, leb, ◌==◌,
  if◌then◌else◌, length, take, drop, option_map,
}
use practice2_eltex.Prelude.Int.{ℤ, pos, negsuc, sub_ℕ, ◌-ℤ◌}
use practice2_eltex.Prelude.Strings.{CString, str_eqb, codes}
use practice2_eltex.Prelude.Scan.{scan_literal, scan_word}
use practice2_eltex.Prelude.Bytes.{of_bytes, c_string}

pub data ClientState : Type 0 where
  idle : ClientState
  recv_file_size : ClientState
  recv_file_data : ClientState

-- output_file: NULL, an open file, or the address of a file that was closed.
pub data Output : Type 0 where
  unopened opened closed : Output

-- client_info without its socket: size_bytes are the bytes of file_size that have come, received
-- the count of file_size's or the file's bytes, and buffer its first buffer_len bytes.
pub record Client : Type 0 where
  pub state : ClientState
  pub filename : CString
  pub size_bytes : List ℕ
  pub received : ℕ
  pub buffer : List ℕ
  pub output : Output

-- What is asked of the kernel; the answers go to the client's socket.
pub data Effect : Type 0 where
  answer_arithmetic : CString → Effect
  answer_ok : Effect
  answer_error : Effect
  open_file : CString → Effect
  write_file : List ℕ → Effect
  close_file : Effect

-- The value of a long.
unfoldable pub file_size : Client → ℤ
unfolding of_bytes
file_size c =
    let bits = of_bytes c.size_bytes in if ltb bits (2 ^ 63) then pos bits else sub_ℕ bits (2 ^ 64)

unfoldable pub start_file_receive : Client → CString → Client
start_file_receive c filename = record c {
  filename = filename;
  state = recv_file_size;
  received = 0;
  size_bytes = [];
}

-- The bytes in front of the first newline, and those behind it: none without one.
unfoldable pub split_line : List ℕ → Option (List ℕ × List ℕ)
split_line [] = none
split_line (b ∷ bs) =
    let rest = split_line bs in
    if b == 10 then some ([], bs) else option_map (λ r. (b ∷ r.0, r.1)) rest

-- The commands that a line may hold, up to a NUL.
pub data Command : Type 0 where
  sendfile : Option CString → Command
  leave : Command
  arithmetic : Command

unfoldable pub parse_command : CString → Command
parse_command bytes =
    let line = c_string bytes in
    elim (scan_literal (codes "sendfile") line) [
      | some rest ↦ sendfile (option_map (λ r. r.0) (scan_word (length rest) rest))
      | none ↦ if str_eqb line (codes "exit") then leave else arithmetic
    ]

-- One round of the loop: the client, the bytes that remain and the effects, or that the function
-- returns, with the client as it is then.
pub data Round : Type 0 where
  next : Client → List ℕ → List Effect → Round
  return : Client → List Effect → Round
  undefined : Round

unfoldable pub idle_round : Client → List ℕ → Round
idle_round c s = elim (split_line s) [
  | none ↦ return (record c { buffer = s }) []
  | some (line, rest) ↦ elim (parse_command line) [
    | sendfile none ↦ undefined
    | sendfile (some name) ↦
        if ltb (length name) 256 then next (start_file_receive c name) rest [] else undefined
    | leave ↦ return c []
    | arithmetic ↦ next c rest (answer_arithmetic line ∷ [])
  ]
]

-- snprintf of "received_%s" into 256 bytes
abbrev pub full_path : Client → CString
full_path c = take 255 (codes "received_" ++ c.filename)

-- opens tells whether fopen succeeds.
unfoldable pub size_round : (CString → Bool) → Client → List ℕ → Round
size_round opens c s =
    let need = 8 - c.received in
    let full = record c { size_bytes = c.size_bytes ++ take need s; received = 0 } in
    if leb need (length s)
    then (if opens (full_path c)
        then next (record full { state = recv_file_data; output = opened }) (drop need s)
            (open_file (full_path c) ∷ [])
        else next (record full { state = idle; output = unopened }) (drop need s)
            (answer_error ∷ []))
    else return
        (record c { size_bytes = c.size_bytes ++ s; received = c.received + length s; buffer = [] })
        []

-- The bytes of a file of which more than 0 are needed.
unfoldable pub data_part : Client → ℕ → List ℕ → Round
data_part c need s =
    let part = take need s in
    let c' = record c { received = c.received + length part } in
    if ltb (length s) need
    then next c' (drop need s) (write_file part ∷ [])
    else next (record c' { state = idle; output = closed }) (drop need s)
        (write_file part ∷ close_file ∷ answer_ok ∷ [])

unfoldable pub data_round : Client → List ℕ → Round
unfolding data_part
data_round c s = elim (file_size c -ℤ pos c.received) [
  | negsuc _ ↦ next (record c { state = idle; output = closed }) s (close_file ∷ answer_ok ∷ [])
  | pos zero ↦ next (record c { state = idle; output = closed }) s (close_file ∷ answer_ok ∷ [])
  | pos (suc n) ↦ data_part c (suc n) s
]

unfoldable pub round : (CString → Bool) → Client → List ℕ → Round
round opens c s = elim c.state [
  | idle ↦ idle_round c s
  | recv_file_size ↦ size_round opens c s
  | recv_file_data ↦ data_round c s
]

-- The loop on the bytes that remain, and the end, where they become the buffer. Out of fuel is none.
unfoldable pub process_loop : ℕ → (CString → Bool) → Client → List ℕ → Option (Client × List Effect)
process_loop fuel opens c [] = some (record c { buffer = [] }, [])
process_loop zero opens c (b ∷ bs) = none
process_loop (suc fuel) opens c (b ∷ bs) = elim (round opens c (b ∷ bs)) [
  | undefined ↦ none
  | return c' effects ↦ some (c', effects)
  | next c' s effects ↦ option_map (λ r. (r.0, effects ++ r.1)) (process_loop fuel opens c' s)
]

-- A round takes a byte, or closes a file and becomes idle.
unfoldable pub process_client : (CString → Bool) → Client → Option (Client × List Effect)
process_client opens c = process_loop (2 * length c.buffer + 1) opens c c.buffer

-- What main does with the bytes that a recv gave: they go behind the buffer, which is processed.
unfoldable pub on_data : (CString → Bool) → Client → List ℕ → Option (Client × List Effect)
on_data opens c bytes = process_client opens (record c { buffer = c.buffer ++ bytes })

-- recv is asked for one byte less than the rest of the buffer's 1024.
abbrev pub capacity : ℕ
capacity = 1023

abbrev pub accepted : Client → List ℕ → List ℕ
accepted c bytes = take (capacity - length c.buffer) bytes

abbrev pub still_connected : Client × List Effect → Option Client × List Effect
still_connected (c, effects) = (some c, effects)

-- What is closed with the client's socket. output_file is not reset when its file is closed: to
-- close it again is undefined behaviour, none.
unfoldable pub disconnect : Output → Option (Option Client × List Effect)
disconnect unopened = some (none, [])
disconnect opened = some (none, close_file ∷ [])
disconnect closed = none

-- An event of a client's socket, with the bytes that wait there, or none for an error of recv. A
-- recv that gives no byte closes the client, which is then none.
unfoldable pub receive :
    (CString → Bool) → Client → Option (List ℕ) → Option (Option Client × List Effect)
unfolding on_data disconnect
receive opens c none = disconnect c.output
receive opens c (some bytes) =
    if length (accepted c bytes) == 0
    then disconnect c.output
    else option_map still_connected (on_data opens c (accepted c bytes))
