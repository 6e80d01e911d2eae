-- ===== src/EpollServer/Tests.antt =====
-- Runs of module3/task15/server_epoll.c, and its theorems at concrete input.
use practice2_eltex.Prelude.{◌≡◌, refl, true, none, some, [], ◌∷◌, ◌++◌, arith, option_map}
use practice2_eltex.Prelude.Int.{pos}
use practice2_eltex.Prelude.Bytes.{of_bytes, c_string}
use practice2_eltex.Prelude.Strings.{strcmp, str_eqb, codes}
use practice2_eltex.Prelude.Scan.{scan_literal, scan_word}
use practice2_eltex.EpollServer.{
  idle, unopened, Client, answer_arithmetic, answer_ok, open_file, write_file, close_file,
  file_size, start_file_receive, split_line, parse_command, idle_round, size_round, round,
  process_loop, process_client, on_data, disconnect, receive,
}
use practice2_eltex.EpollServer.Receiving.{feed, into, complete, feed-file}
use practice2_eltex.EpollServer.Commands.{
  concat, sizing, feed-size, left_over, receive_all, receive_all_deaf,
}

abbrev connected : Client
connected = record {
  state = idle;
  filename = [];
  size_bytes = [];
  received = 0;
  buffer = [];
  output = unopened;
}

two_lines :
    option_map (λ r. r.1) (on_data (λ name. true) connected (codes "prod 2 3\nsendfile a\n"))
    ≡ some (answer_arithmetic (codes "prod 2 3") ∷ [])
unfolding on_data process_client process_loop round idle_round split_line parse_command c_string
    scan_literal scan_word str_eqb strcmp start_file_receive
two_lines = refl

-- An empty file is opened, and neither closed nor answered.
empty_file :
    option_map
      (λ r. r.1)
      (on_data
        (λ name. true)
        connected
        (codes "sendfile a\n" ++ (0 ∷ 0 ∷ 0 ∷ 0 ∷ 0 ∷ 0 ∷ 0 ∷ 0 ∷ [])))
    ≡ some (open_file (codes "received_a") ∷ [])
unfolding on_data process_client process_loop round idle_round split_line parse_command c_string
    scan_literal scan_word str_eqb strcmp start_file_receive size_round
empty_file = refl

abbrev three_bytes : Client
three_bytes = record connected {
  filename = codes "a";
  size_bytes = 3 ∷ 0 ∷ 0 ∷ 0 ∷ 0 ∷ 0 ∷ 0 ∷ 0 ∷ [];
}

three_bytes_size : file_size three_bytes ≡ pos 3
unfolding file_size of_bytes
three_bytes_size = refl

feed-file_example :
    feed (λ name. true) (into three_bytes 0) ((7 ∷ 8 ∷ []) ∷ (9 ∷ []) ∷ [])
    ≡ some (
      complete three_bytes 3,
      write_file (7 ∷ 8 ∷ []) ∷ write_file (9 ∷ []) ∷ close_file ∷ answer_ok ∷ [],
    )
feed-file_example =
    feed-file (λ name. true) three_bytes 0 3 (7 ∷ 8 ∷ []) ((9 ∷ []) ∷ []) three_bytes_size
      (omega arith, (omega arith, tt)) refl

feed-size_example :
    feed (λ name. true) (sizing connected [] []) ((3 ∷ []) ∷ (0 ∷ 0 ∷ 0 ∷ 0 ∷ 0 ∷ 0 ∷ 0 ∷ []) ∷ [])
    ≡ some (
      into (record connected { size_bytes = 3 ∷ 0 ∷ 0 ∷ 0 ∷ 0 ∷ 0 ∷ 0 ∷ 0 ∷ [] }) 0,
      open_file (codes "received_") ∷ [],
    )
unfolding concat
feed-size_example =
    feed-size (λ name. true) connected [] (3 ∷ []) ((0 ∷ 0 ∷ 0 ∷ 0 ∷ 0 ∷ 0 ∷ 0 ∷ []) ∷ [])
      (omega arith, (omega arith, tt)) refl

-- A client that leaves after its file was received: the file is closed twice.
closed_twice : receive (λ name. true) (complete three_bytes 3) (some []) ≡ none
unfolding receive disconnect
closed_twice = refl

receive_all_deaf_example :
    (receive_all (λ name. true) (left_over connected []) (codes "prod 2 3\n" ∷ [])
      ≡ some (some (left_over connected (codes "prod 2 3\n")), []))
    × (receive (λ name. true) (left_over connected (codes "prod 2 3\n")) (some [])
        ≡ some (none, []))
unfolding concat disconnect
receive_all_deaf_example =
    receive_all_deaf (λ name. true) connected [] (codes "prod 2 3\n" ∷ []) [] (omega arith, tt)
      (omega arith)
