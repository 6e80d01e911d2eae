-- ===== src/ChatServer/Tests.antt =====
-- Runs of the model of module1/task7/server.c on concrete inputs.
use practice2_eltex.Prelude.{
  ℕ, ◌≡◌, refl, ◌≢◌, Bool, true, false, Option, none, some, List, [], ◌∷◌, ◌++◌, arith, replicate,
  All, option_map,
}
use practice2_eltex.Prelude.Strings.{CString, codes}
use practice2_eltex.Prelude.Print.{digits}
use practice2_eltex.Prelude.Bytes.{c_string}
use practice2_eltex.Prelude.Scan.{scan_literal, scan_int, scan_word}
use practice2_eltex.ChatServer.{
  Client, no_talk, no_client, Effect, printed, split_line, scan_file, open_file, handle_line,
  pass_file, pass_line, round, Server, remove_client, process_client, start,
}
use practice2_eltex.ChatServer.Stream.{flat, decode, extend}
use practice2_eltex.ChatServer.Delivery.{sent_to, listeners}
use practice2_eltex.ChatServer.Reading.{Delivered, IsConnected, two_reads}
use practice2_eltex.ChatServer.Tracking.{IsTracked, rounds, empty_main, next_connection_fits}
use practice2_eltex.ChatServer.Loop.{
  accept_at, accept_client, Ready, serve_at, poll_client, poll_clients, Main, admitted, admit,
  poll_round,
}
use practice2_eltex.ChatServer.Understanding.{understand}
use practice2_eltex.ChatServer.Transcript.{
  Item, rename, say, wire, transcript, IsPlain, items_are_told,
}

abbrev connected : ℕ → Client
connected fd = record { fd = some fd; talk = record no_talk { nick = codes "ann" }; buffer = [] }

abbrev room : Server
room = record { clients = connected 5 ∷ connected 6 ∷ connected 7 ∷ []; sends = λ n. true }

-- A command of each kind, and the bytes of a file.
abbrev script : List ℕ
script = codes "NICK bob\nMSG hi\nFILE x.c 3\nabcMSG bye\n"

abbrev broadcasts : CString
broadcasts = codes "MSG bob hi\nFILE bob x.c 3\nabcMSG bob bye\n"

understood : option_map (λ r. r.1) (understand (extend (connected 5) script)) ≡ some broadcasts
unfolding understand decode round pass_line pass_file split_line handle_line c_string scan_literal
    printed scan_file scan_word scan_int open_file flat digits
understood = refl

abbrev begins : CString
begins = codes "MSG h"

abbrev ends : CString
ends = codes "i\n"

abbrev said : CString
said = codes "MSG ann hi\n"

begins_understood :
    understand (extend (connected 5) begins) ≡ some (extend (connected 5) begins, [])
unfolding understand decode round pass_line split_line
begins_understood = refl

ends_understood : understand (extend (extend (connected 5) begins) ends) ≡ some (connected 5, said)
unfolding understand decode round pass_line split_line handle_line c_string scan_literal printed
    flat
ends_understood = refl

five_IsConnected : IsConnected 0 5 room (connected 5)
five_IsConnected = (omega arith, refl, refl)

two_reads_example :
    (s1 : Server) × (e1 : List Effect) × (s2 : Server) × (e2 : List Effect) × (s' : Server)
    × (e : List Effect) × (process_client 0 (some begins) room ≡ some (s1, e1))
    × (process_client 0 (some ends) s1 ≡ some (s2, e2))
    × (process_client 0 (some (begins ++ ends)) room ≡ some (s', e))
    × (s2.clients ≡ s'.clients)
    × ((fd : ℕ) → fd ≢ 5 → listeners fd room.clients ≡ 1 → sent_to fd (e1 ++ e2) ≡ sent_to fd e)
two_reads_example =
    two_reads 0 5 room (connected 5) (extend (connected 5) begins) (connected 5) begins ends [] said
      (λ n. refl) five_IsConnected (omega arith) (omega arith) (omega arith) begins_understood
      ends_understood

abbrev spoken : List Item
spoken = say (codes "hi") ∷ rename (codes "bob") ∷ say (codes "yo") ∷ []

spoken_told : transcript (codes "ann") spoken ≡ codes "MSG ann hi\nMSG bob yo\n"
unfolding transcript
spoken_told = refl

spoken-IsPlain : All IsPlain spoken
spoken-IsPlain = (
  (((λ e. omega arith, λ e. omega arith), ((λ e. omega arith, λ e. omega arith), tt)), omega arith),
  (
    (
      (
        (λ e. omega arith, λ e. omega arith),
        ((λ e. omega arith, λ e. omega arith), ((λ e. omega arith, λ e. omega arith), tt)),
      ),
      omega arith,
    ),
    (
      (
        ((λ e. omega arith, λ e. omega arith), ((λ e. omega arith, λ e. omega arith), tt)),
        omega arith,
      ),
      tt,
    ),
  ),
)

items_are_told_example :
    let c = connected 5 in
    let c' = record c { talk = record c.talk { nick = codes "bob" } } in
    (s' : Server) × (effects : List Effect) × (process_client 0 (some (wire spoken)) room
      ≡ some (s', effects))
    × Delivered 0 5 room c' (transcript (codes "ann") spoken) s' effects
unfolding wire
items_are_told_example =
    items_are_told 0 5 room (connected 5) (say (codes "hi"))
      (rename (codes "bob") ∷ say (codes "yo") ∷ []) (λ n. refl) five_IsConnected refl refl
      (omega arith) spoken-IsPlain (omega arith)

-- Fed "FILE e 0", and then a message.
abbrev stuck : Client
stuck = record {
  fd = some 5;
  talk = record no_talk { nick = codes "ann"; in_file = true; filename = codes "e" };
  buffer = [];
}

announced :
    understand (extend (connected 5) (codes "FILE e 0\n")) ≡ some (stuck, codes "FILE ann e 0\n")
unfolding understand decode round pass_line split_line handle_line c_string scan_literal printed
    flat scan_file scan_word scan_int open_file digits
announced = refl

abbrev stuck_room : Server
stuck_room = record { clients = stuck ∷ connected 6 ∷ []; sends = λ n. true }

-- Two connect, and one of them leaves.
abbrev comings : List (Option ℕ × List Ready)
comings =
    (some 5, (false, none) ∷ [])
    ∷ (some 6, (false, none) ∷ (false, none) ∷ [])
    ∷ (none, (true, some []) ∷ (false, none) ∷ [])
    ∷ []

abbrev answers : ℕ → Bool
answers n = true

polled_after : option_map (λ m. m.polled) (rounds comings (empty_main answers)) ≡ some (6 ∷ [])
unfolding rounds poll_round admit admitted accept_client accept_at poll_clients poll_client serve_at
    process_client remove_client start
polled_after = refl

abbrev after_comings : Main
after_comings = record {
  server = record {
    clients =
        no_client ∷ record { fd = some 6; talk = no_talk; buffer = [] } ∷ replicate 98 no_client;
    sends = answers;
  };
  polled = 6 ∷ [];
}

after_comings_reached : rounds comings (empty_main answers) ≡ some after_comings
unfolding rounds poll_round admit admitted accept_client accept_at poll_clients poll_client serve_at
    process_client remove_client start
after_comings_reached = refl

next_connection_fits_example :
    IsTracked after_comings
    × ((m' : Main) × (effects : List Effect) × (admit (some 7) after_comings ≡ some (m', effects))
        × IsTracked m')
next_connection_fits_example =
    next_connection_fits comings answers after_comings (some 7) (λ n. refl) after_comings_reached
