-- ===== src/ChatServer/Loop.antt =====
-- module1/task7/server.c, main: the admission of a connection, and the pass over what poll answers.
use practice2_eltex.Prelude.{
  ℕ, Bool, true, false, Option, none, some, List, [], ◌∷◌, ◌++◌, ltb, if◌then◌else◌, length, get_or,
  ◌>>=◌, option_map,
}
use practice2_eltex.Prelude.Arrays.{find_index, modify_at}
use practice2_eltex.ChatServer.{
  max_clients, no_client, Effect, close_fd, Server, process_client, is_free, has_fd,
}

-- A connection in the slot that was found, or its close.
unfoldable pub accept_at : ℕ → Server → Option ℕ → Server × Bool × List Effect
accept_at fd s none = (s, false, close_fd fd ∷ [])
accept_at fd s (some i) = (
  record s {
    clients = modify_at s.clients i (λ c. record c {
      fd = some fd;
      talk = record c.talk { in_file = false; nick = [] };
      buffer = [];
    });
  },
  true,
  [],
)

-- A new connection; true where its descriptor goes to the poll.
unfoldable pub accept_client : ℕ → Server → Server × Bool × List Effect
accept_client fd s = accept_at fd s (find_index is_free s.clients)

-- What poll and read give for a descriptor: whether it is ready, and what a read gives.
abbrev pub Ready : Type 0
Ready = Bool × Option (List ℕ)

-- process_client for the client of a descriptor, if there is one; the descriptor becomes -1 when its
-- client is gone.
unfoldable pub serve_at :
    ℕ → Option (List ℕ) → Option ℕ → Server → Option (Option ℕ × Server × List Effect)
serve_at fd reading none s = some (some fd, s, [])
serve_at fd reading (some index) s =
    option_map
      (λ (s', effects).
        (if is_free (get_or s'.clients index no_client) then none else some fd, s', effects))
      (process_client index reading s)

-- A descriptor of the poll.
unfoldable pub poll_client : ℕ → Ready → Server → Option (Option ℕ × Server × List Effect)
poll_client fd (ready, reading) s =
    serve_at fd reading (if ready then find_index (has_fd fd) s.clients else none) s

abbrev pub keeping : Option ℕ → List ℕ → List ℕ
keeping none fds = fds
keeping (some fd) fds = fd ∷ fds

-- The pass over the descriptors of the poll, and what it leaves of them.
unfoldable pub poll_clients : List ℕ → List Ready → Server → Option (List ℕ × Server × List Effect)
poll_clients [] readies s = some ([], s, [])
poll_clients (fd ∷ fds) [] s = some (fd ∷ fds, s, [])
poll_clients (fd ∷ fds) (r ∷ rs) s = poll_client fd r s >>= λ (kept, s', effects).
    option_map (λ (fds', s'', more). (keeping kept fds', s'', effects ++ more))
      (poll_clients fds rs s')

-- The clients, and pollfds without the entry of the listening socket.
pub record Main : Type 0 where
  pub server : Server
  pub polled : List ℕ

-- A new descriptor goes behind the others in pollfds, which has room for max_clients of them.
unfoldable pub admitted : ℕ → Main → Server × Bool × List Effect → Option (Main × List Effect)
admitted fd m (s, false, effects) = some (record m { server = s }, effects)
admitted fd m (s, true, effects) =
    if ltb (length m.polled) max_clients
    then some (record { server = s; polled = m.polled ++ fd ∷ [] }, effects)
    else none

-- accept, if a connection is there.
unfoldable pub admit : Option ℕ → Main → Option (Main × List Effect)
admit none m = some (m, [])
admit (some fd) m = admitted fd m (accept_client fd m.server)

-- A round of main's loop, whose poll did not fail.
unfoldable pub poll_round : Option ℕ → List Ready → Main → Option (Main × List Effect)
poll_round connection readies m = admit connection m >>= λ (m', effects).
    option_map (λ (fds, s, more). (record { server = s; polled = fds }, effects ++ more))
      (poll_clients m'.polled readies m'.server)
