-- ===== src/ChatServer.antt =====
-- module1/task7/server.c: a chat over TCP. A client's buffer is the list of its buf_len bytes, as the
-- code reads no others. An array of clients is a list; a descriptor of -1 is none. none as a result
-- is an access outside an array.
pub mod Stream
pub mod Rounds
pub mod Transfer
pub mod Splitting
pub mod Understanding
pub mod Delivery
pub mod Reading
pub mod Transcript
pub mod EmptyFile
pub mod Loop
pub mod Polling
pub mod PollPass
pub mod Slots
pub mod Tracking
mod Tests
use practice2_eltex.Prelude.{
  ℕ, zero, suc, ◌+◌, ◌-◌, ◌^◌, Bool, true, false, not, ◌&&◌, Option, none, some, List, [], ◌∷◌,
  ◌++◌, ltb, leb, ◌==◌, if◌then◌else◌, length, set, get_or, take, drop, replicate, ◌>>=◌,
  option_map,
}
use practice2_eltex.Prelude.Int.{ℤ, pos, negsuc}
use practice2_eltex.Prelude.Bytes.{c_string}
use practice2_eltex.Prelude.Print.{digits}
use practice2_eltex.Prelude.Strings.{CString, codes}
use practice2_eltex.Prelude.Scan.{scan_literal, scan_int, scan_word}

abbrev pub max_clients : ℕ
max_clients = 100

abbrev pub buffer_size : ℕ
buffer_size = 4096

abbrev pub max_nick : ℕ
max_nick = 32

abbrev pub max_filename : ℕ
max_filename = 256

-- The part of client_t that its messages change; in_file is its state 1. file_received never exceeds
-- file_size.
pub record Talk : Type 0 where
  pub nick : CString
  pub in_file : Bool
  pub file_size : ℕ
  pub file_received : ℕ
  pub filename : CString

-- client_t
pub record Client : Type 0 where
  pub fd : Option ℕ
  pub talk : Talk
  pub buffer : List ℕ

-- What remove_client leaves.
abbrev pub no_talk : Talk
no_talk = record { nick = []; in_file = false; file_size = 0; file_received = 0; filename = [] }

abbrev pub no_client : Client
no_client = record { fd = none; talk = no_talk; buffer = [] }

-- What is asked of the kernel.
pub data Effect : Type 0 where
  close_fd : ℕ → Effect
  send_to : ℕ → List ℕ → Effect

-- The close of remove_client, which leaves out the descriptor 0.
abbrev pub close_of : Option ℕ → List Effect
close_of none = []
close_of (some fd) = if ltb 0 fd then close_fd fd ∷ [] else []

-- Whether a client is connected and is not the sender.
abbrev pub receives : ℕ → Option ℕ → Bool
receives sender none = false
receives sender (some fd) = not (fd == sender)

abbrev pub is_receiver : ℕ → Client → Bool
is_receiver sender c = receives sender c.fd

-- What snprintf leaves and the length it returns: a send of that length reads the NUL behind a text
-- that is cut by one byte, and goes past the array behind a longer one.
unfoldable pub printed : CString → Option (List ℕ)
printed text =
    if ltb (length text) buffer_size
    then some text
    else if length text == buffer_size
    then some (take (buffer_size - 1) text ++ 0 ∷ [])
    else none

-- memchr for the newline: the line, and what is behind it.
unfoldable pub split_line : List ℕ → Option (List ℕ × List ℕ)
split_line [] = none
split_line (b ∷ bs) =
    let rest = split_line bs in
    if b == b'\n' then some ([], bs) else option_map (λ (line, more). (b ∷ line, more)) rest

-- size_t from the number that %zu reads; one that does not fit is undefined in C.
abbrev pub size_of : ℤ → ℕ
size_of (pos n) = n
size_of (negsuc n) = 2 ^ 64 - 1 - n

-- sscanf of a name and a size; a name that is too long for the array gives none.
unfoldable pub scan_file : CString → Option (Option (CString × ℕ))
scan_file s = elim (scan_word (length s) s) [
  | none ↦ some none
  | some (name, more) ↦
      if leb max_filename (length name)
      then none
      else some (option_map (λ (size, end). (name, size_of size)) (scan_int more))
]

-- FILE: the transfer begins, and its header goes out.
unfoldable pub open_file : Talk → Option (CString × ℕ) → Option (Talk × List (List ℕ))
open_file c none = some (c, [])
open_file c (some (name, size)) =
    option_map
      (λ header. (
        record c { filename = name; file_size = size; file_received = 0; in_file = true },
        header ∷ [],
      ))
      (printed (codes "FILE " ++ c.nick ++ b' ' ∷ name ++ b' ' ∷ digits 20 size ++ b'\n' ∷ []))

-- A command: the client after it, and what it broadcasts. scan_literal is strncmp with a prefix, and
-- what stands behind the prefix.
unfoldable pub handle_line : Talk → CString → Option (Talk × List (List ℕ))
handle_line c cmd = elim (scan_literal (codes "NICK ") cmd) [
  | some name ↦ some (record c { nick = take (max_nick - 1) name }, [])
  | none ↦ elim (scan_literal (codes "MSG ") cmd) [
    | some text ↦
        option_map (λ msg. (c, msg ∷ []))
          (printed (codes "MSG " ++ c.nick ++ b' ' ∷ text ++ b'\n' ∷ []))
    | none ↦ elim (scan_literal (codes "FILE ") cmd) [
      | some more ↦ scan_file more >>= open_file c
      | none ↦ some (c, [])
    ]
  ]
]

-- A round of the loop in state 1; none is its break.
unfoldable pub pass_file : Client → Option (Client × List (List ℕ))
pass_file c =
    let t = c.talk in
    let left = t.file_size - t.file_received in
    let to_read = if ltb (length c.buffer) left then length c.buffer else left in
    let done = t.file_received + to_read == t.file_size in
    if to_read == 0
    then none
    else some (
      record c {
        talk = record t {
          in_file = not done;
          file_size = if done then 0 else t.file_size;
          file_received = if done then 0 else t.file_received + to_read;
        };
        buffer = drop to_read c.buffer;
      },
      take to_read c.buffer ∷ [],
    )

-- A round of the loop in state 0, when the line is cut off.
unfoldable pub pass_line :
    Client → Option (List ℕ × List ℕ) → Option (Option (Client × List (List ℕ)))
pass_line c none = some none
pass_line c (some (line, more)) =
    option_map (λ (t, out). some (record c { talk = t; buffer = more }, out))
      (handle_line c.talk (c_string line))

-- A round of the loop of process_client; some none is its end.
unfoldable pub round : Client → Option (Option (Client × List (List ℕ)))
round c =
    if length c.buffer == 0
    then some none
    else if c.talk.in_file
    then some (pass_file c)
    else pass_line c (split_line c.buffer)

-- clients, and whether the sends to come succeed, in turn.
pub record Server : Type 0 where
  pub clients : List Client
  pub sends : ℕ → Bool

abbrev pub handed : Option ℕ → List ℕ → List Effect
handed none msg = []
handed (some fd) msg = send_to fd msg ∷ []

-- broadcast_message from the entries on.
unfoldable pub broadcast_message :
    List ℕ → ℕ → List Client → (ℕ → Bool) → List Client × (ℕ → Bool) × List Effect
broadcast_message msg sender [] sends = ([], sends, [])
broadcast_message msg sender (c ∷ cs) sends =
    let asked = is_receiver sender c in
    let fails = asked && not (sends 0) in
    let (cs', sends', effects) =
      broadcast_message msg sender cs (if asked then (λ n. sends (suc n)) else sends) in
    (
      (if fails then no_client else c) ∷ cs',
      sends',
      (if asked then handed c.fd msg else []) ++ (if fails then close_of c.fd else []) ++ effects,
    )

-- The broadcasts of a round.
unfoldable pub broadcast_all : List (List ℕ) → ℕ → Server → Server × List Effect
broadcast_all [] sender s = (s, [])
broadcast_all (msg ∷ msgs) sender s =
    let (cs, sends, effects) = broadcast_message msg sender s.clients s.sends in
    let (s', more) = broadcast_all msgs sender (record { clients = cs; sends = sends }) in
    (s', effects ++ more)

abbrev pub descriptor : Option ℕ → ℕ
descriptor none = 0
descriptor (some fd) = fd

-- The loop of process_client. A round takes a byte at least, so that one more round than the bytes
-- is enough fuel.
unfoldable pub process_loop : ℕ → ℕ → Server → Option (Server × List Effect)
process_loop zero index s = none
process_loop (suc fuel) index s = elim (round (get_or s.clients index no_client)) [
  | none ↦ none
  | some none ↦ some (s, [])
  | some (some (c, out)) ↦
      let (s', effects) = broadcast_all out (descriptor c.fd) s in
      option_map (λ (s'', more). (s'', effects ++ more))
        (process_loop fuel index (record s' { clients = set s'.clients index c }))
]

unfoldable pub remove_client : ℕ → Server → Server × List Effect
remove_client index s = (
  record s { clients = set s.clients index no_client },
  close_of (get_or s.clients index no_client).fd,
)

-- process_client: read gives none for an error, and otherwise what fits of the bytes that came in;
-- without one it returns 0.
unfoldable pub process_client : ℕ → Option (List ℕ) → Server → Option (Server × List Effect)
process_client index none s = some (remove_client index s)
process_client index (some bytes) s =
    let c = get_or s.clients index no_client in
    let got = take (buffer_size - length c.buffer) bytes in
    let buffer = c.buffer ++ got in
    if length got == 0
    then some (remove_client index s)
    else process_loop (suc (length buffer)) index
        (record s { clients = set s.clients index (record c { buffer = buffer }) })

abbrev pub is_free : Client → Bool
is_free c = elim c.fd [ none ↦ true | some fd ↦ false ]

abbrev pub is_fd : ℕ → Option ℕ → Bool
is_fd fd none = false
is_fd fd (some fd') = fd' == fd

abbrev pub has_fd : ℕ → Client → Bool
has_fd fd c = is_fd fd c.fd

unfoldable pub start : (ℕ → Bool) → Server
start sends = record { clients = replicate max_clients no_client; sends = sends }
