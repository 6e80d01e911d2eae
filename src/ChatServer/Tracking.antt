-- ===== src/ChatServer/Tracking.antt =====
-- module1/task7/server.c: pollfds follows the connections when every send succeeds.
use practice2_eltex.Prelude.{
  ℕ, ◌≡◌, refl, sym, ap, subst, ◌∙◌, inl, inr, Bool, true, false, Option, none, some, List, [], ◌∷◌,
  ◌++◌, arith, ltb, Option-cases, length, length-append, ◌>>=◌, option_map, >>=-eq-some, some_inj,
  option_map-eq-some,
}
use practice2_eltex.Prelude.Arrays.{find_index, modify_at, length-modify_at}
use practice2_eltex.ChatServer.{max_clients, Client, Effect, close_fd, is_free, start}
use practice2_eltex.ChatServer.Delivery.{Succeeds}
use practice2_eltex.ChatServer.Slots.{
  taken_slots, taken_slots-modify, taken_slots_lt, find_index_holds,
}
use practice2_eltex.ChatServer.Loop.{
  accept_at, accept_client, Ready, poll_clients, Main, admitted, admit, poll_round,
}
use practice2_eltex.ChatServer.PollPass.{poll_clients_lem}

-- There are as many descriptors in pollfds as connections, and no more than slots.
abbrev pub IsTracked : Main → Type 0
IsTracked m =
    (length m.polled ≡ taken_slots m.server.clients)
    × (length m.server.clients ≡ max_clients)
    × Succeeds m.server.sends

-- A connection is admitted within pollfds, or refused.
admit-IsTracked :
    (connection : Option ℕ) (m : Main)
    → IsTracked m
    → (m' : Main) × (effects : List Effect) × (admit connection m ≡ some (m', effects))
      × IsTracked m'
unfolding admit admitted accept_client accept_at
admit-IsTracked none m h = (m, [], refl, h)
admit-IsTracked (some fd) m (count, slots, ok) =
    let s = m.server in
    elim (Option-cases (find_index is_free s.clients)) [
      | inl e ↦
          (m, close_fd fd ∷ [], ap (λ o. admitted fd m (accept_at fd s o)) e, (count, slots, ok))
      | inr (i, e) ↦
          let (lt, free) = find_index_holds is_free s.clients i e in
          let enter : Client → Client = λ c. record c {
            fd = some fd;
            talk = record c.talk { in_file = false; nick = [] };
            buffer = [];
          } in
          let room : ltb (length m.polled) max_clients ≡ true =
            ground (arith, count, slots, taken_slots_lt s.clients i lt free) in
          let more = taken_slots-modify s.clients i enter lt free (λ c. refl) in
          (
            record {
              server = record s { clients = modify_at s.clients i enter };
              polled = m.polled ++ fd ∷ [];
            },
            [],
            ap (λ o. admitted fd m (accept_at fd s o)) e ∙ rw room refl,
            (
              omega (arith, more, count, length-append m.polled (fd ∷ [])),
              length-modify_at s.clients i enter ∙ slots,
              ok,
            ),
          )
    ]

poll_round-IsTracked :
    (connection : Option ℕ) (readies : List Ready) (m m' : Main) (effects : List Effect)
    → IsTracked m
    → poll_round connection readies m ≡ some (m', effects)
    → IsTracked m'
unfolding poll_round
poll_round-IsTracked connection readies m m' effects h e =
    let ((m1, e1), run, rest) = >>=-eq-some (admit connection m) _ e in
    let (m2, e2, run2, (count, slots, ok)) = admit-IsTracked connection m h in
    let same1 : m2 ≡ m1 = ap (λ q. q.0) (some_inj (sym run2 ∙ run)) in
    let (count1, slots1, ok1) = subst IsTracked same1 (count, slots, ok) in
    let ((fds, s, more), run3, same) =
      option_map-eq-some _ (poll_clients m1.polled readies m1.server) rest in
    let (balance, lengths, ok3) =
      poll_clients_lem m1.polled fds readies m1.server s more ok1 run3 in
    subst (λ q. IsTracked q.0) same (omega (arith, balance, count1), lengths ∙ slots1, ok3)

-- Rounds of main's loop.
unfoldable pub rounds : List (Option ℕ × List Ready) → Main → Option Main
rounds [] m = some m
rounds ((connection, readies) ∷ more) m =
    option_map (λ r. r.0) (poll_round connection readies m) >>= rounds more

abbrev pub empty_main : (ℕ → Bool) → Main
empty_main sends = record { server = start sends; polled = [] }

rounds-IsTracked :
    (events : List (Option ℕ × List Ready)) (m m' : Main)
    → IsTracked m
    → rounds events m ≡ some m'
    → IsTracked m'
unfolding rounds
rounds-IsTracked [] m m' h e = subst IsTracked (some_inj e) h
rounds-IsTracked ((connection, readies) ∷ more) m m' h e =
    let (m1, first, rest) =
      >>=-eq-some (option_map (λ r. r.0) (poll_round connection readies m)) (rounds more) e in
    let ((m2, effects), run, same) =
      option_map-eq-some (λ r. r.0) (poll_round connection readies m) first in
    rounds-IsTracked more m1 m'
      (subst IsTracked same (poll_round-IsTracked connection readies m m2 effects h run)) rest

empty_main-IsTracked : (sends : ℕ → Bool) → Succeeds sends → IsTracked (empty_main sends)
unfolding start taken_slots
empty_main-IsTracked sends ok = (refl, refl, ok)

-- While every send succeeds, after any rounds of main that go through from the start, pollfds has
-- as many descriptors as there are connections, and the next connection is admitted inside pollfds,
-- or refused.
pub next_connection_fits :
    (events : List (Option ℕ × List Ready)) (sends : ℕ → Bool) (m : Main) (connection : Option ℕ)
    → Succeeds sends
    → rounds events (empty_main sends) ≡ some m
    → IsTracked m
      × ((m' : Main) × (effects : List Effect) × (admit connection m ≡ some (m', effects))
          × IsTracked m')
next_connection_fits events sends m connection ok e =
    let h = rounds-IsTracked events (empty_main sends) m (empty_main-IsTracked sends ok) e in
    (h, admit-IsTracked connection m h)
