-- ===== src/ChatServer/EmptyFile.antt =====
-- module1/task7/server.c: a transfer of a file of 0 bytes never ends.
use practice2_eltex.Prelude.{
  ℕ, ◌-◌, ◌≡◌, sym, ap, true, Option, none, some, List, [], ◌∷◌, length, set, take, option_map,
  option_map-eq-some,
}
use practice2_eltex.ChatServer.{
  buffer_size, Talk, Client, Effect, printed, open_file, Server, process_client,
}
use practice2_eltex.ChatServer.Rounds.{left}
use practice2_eltex.ChatServer.Delivery.{followed}
use practice2_eltex.Prelude.Strings.{CString}

-- The client waits for the bytes of a file that has none left.
abbrev pub IsStuck : Client → Type 0
IsStuck c = (c.talk.in_file ≡ true) × (left c ≡ 0)

-- The bytes that a read gives: no more than the buffer has room for.
abbrev pub taken : Client → List ℕ → List ℕ
taken c bytes = take (buffer_size - length c.buffer) bytes

abbrev pub with_client : ℕ → Server → Client → Server
with_client index s c = record s { clients = set s.clients index c }

-- Reads of the client at index, one after another.
unfoldable pub read_all : ℕ → List (List ℕ) → Server → Option (Server × List Effect)
read_all index [] s = some (s, [])
read_all index (r ∷ rs) s = elim (process_client index (some r) s) [
  | none ↦ none
  | some (s', effects) ↦ option_map (followed effects) (read_all index rs s')
]

-- The command that announces an empty file leaves the client stuck.
pub open_file-IsStuck :
    (c : Client) (name : CString) (t : Talk) (out : List (List ℕ))
    → open_file c.talk (some (name, 0)) ≡ some (t, out)
    → IsStuck (record c { talk = t })
unfolding open_file
open_file-IsStuck c name t out e =
    let (header, printed_header, same) = option_map-eq-some _ (printed _) e in
    (sym (ap (λ q. q.0.in_file) same), sym (ap (λ q. q.0.file_size - q.0.file_received) same))
