-- ===== src/Broker/Peers.antt =====
-- module1/task2/broker_pubsub.c: the publisher and the subscriber, and the messages they write to the
-- broker's queue. What fgets, msgsnd and msgrcv answer is an argument; a line is a C string.
use practice2_eltex.Prelude.{
  ℕ, ◌-◌, Bool, Option, none, some, List, [], ◌∷◌, ◌++◌, map, ◌==◌, if◌then◌else◌, take, option_map,
}
use practice2_eltex.Prelude.Bytes.{c_string}
use practice2_eltex.Prelude.Strings.{CString, str_eqb, codes}
use practice2_eltex.Prelude.Print.{print_int}
use practice2_eltex.Broker.{max_text}

-- A line up to its newline.
unfoldable pub cut_line : CString → CString
cut_line [] = []
cut_line (c ∷ s) = let rest = cut_line s in if c == b'\n' then [] else c ∷ rest

-- What snprintf writes to mtext.
abbrev pub fitted : CString → CString
fitted text = take (max_text - 1) text

unfoldable pub publication : ℕ → CString → CString → CString
publication pid topic input =
    fitted (codes "send," ++ (print_int pid ++ (b',' ∷ topic ++ (b',' ∷ input))))

-- name is subscribe or unsubscribe.
unfoldable pub topic_request : CString → ℕ → CString → CString
topic_request name pid topic = fitted (name ++ (b',' ∷ print_int pid ++ (b',' ∷ topic)))

-- The loop of publisher_mode: the messages that it writes for the lines that come in, each with
-- whether its msgsnd succeeds.
unfoldable pub publisher_mode : ℕ → CString → List (CString × Bool) → List CString
publisher_mode pid topic [] = []
publisher_mode pid topic ((line, sent) ∷ more) =
    let rest = publisher_mode pid topic more in
    let input = cut_line line in
    if str_eqb input (codes "exit")
    then []
    else publication pid topic input ∷ (if sent then rest else [])

-- What msgrcv gives a subscriber: bytes, EINTR, or an end.
pub data Receipt : Type 0 where
  got : List ℕ → Receipt
  interrupted : Receipt
  ended : Receipt

-- The loop of subscriber_mode: the texts that it prints.
unfoldable pub receive_all : List Receipt → List CString
receive_all [] = []
receive_all (got bytes ∷ more) = c_string bytes ∷ receive_all more
receive_all (interrupted ∷ more) = receive_all more
receive_all (ended ∷ more) = []

-- The subscriptions; a msgsnd that fails ends the program, which none stands for.
unfoldable pub subscribe_all : ℕ → List (CString × Bool) → Option (List CString)
subscribe_all pid [] = some []
subscribe_all pid ((topic, sent) ∷ more) =
    let rest = subscribe_all pid more in
    if sent then option_map (λ ms. topic_request (codes "subscribe") pid topic ∷ ms) rest else none

-- What subscriber_mode prints, and the messages that it wrote; its topics come with whether their
-- first msgsnd succeeds.
unfoldable pub subscriber_mode :
    ℕ → List (CString × Bool) → List Receipt → Option (List CString × List CString)
subscriber_mode pid topics receipts =
    option_map
      (λ ms.
        (receive_all receipts, ms ++ map (λ t. topic_request (codes "unsubscribe") pid t.0) topics))
      (subscribe_all pid topics)
