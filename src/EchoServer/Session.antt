-- ===== src/EchoServer/Session.antt =====
-- module2/cross1/server.c: the server on the datagrams of its clients.
use practice2_eltex.Prelude.{
  ℕ, zero, suc, ◌+◌, ◌%◌, ◌^◌, ◌≡◌, refl, ap, ◌∙◌, inl, inr, not, some, List, [], ◌∷◌, ◌++◌, map,
  arith, ltb, ◌==◌, if◌then◌else◌, Bool-cases, length, length-append, take, drop, length-drop, All,
}
use practice2_eltex.Prelude.Bytes.{to_bytes}
use practice2_eltex.Prelude.Slices.{take_beyond}
use practice2_eltex.Prelude.Print.{print_int}
use practice2_eltex.Prelude.Strings.{str_eqb}
use practice2_eltex.EchoServer.{
  buffer_size, ClientEntry, find_client, remove_client, count_message, counter_of, reply, Effect,
  say_received, say_new, say_removed, send_to, htons, received, close_text, say_change, is_known,
  answer, process_packet, Server, Event, arrived, fill_buffer, receive, serve,
}
use practice2_eltex.EchoServer.Clients.{IsDistinct, remove_client-IsDistinct}
use practice2_eltex.EchoServer.Datagram.{
  Message, datagram, IsSendable, length-datagram, parse_packet-datagram,
}
use practice2_eltex.EchoServer.Counts.{
  Counts, counts_after, entry, Matches, close_lem, find_client-count_message,
  count_message-IsDistinct, count_lem,
}
use practice2_eltex.EchoServer.Sending.{send_reply_lem}

-- What the server does for a message of a sender that it counted n messages of.
unfoldable pub expected : Message → ℕ → List Effect
unfolding reply
expected m n =
    say_received m.ip m.port m.text
    ∷ (if str_eqb m.text close_text
        then say_change say_removed m.ip m.port (ltb 0 n)
        else say_change say_new m.ip m.port (n == 0)
          ++ send_to m.ip
              (reply m.id (to_bytes 4 m.ip) m.port (m.text ++ b' ' ∷ print_int (suc n % 2 ^ 32)))
            ∷ [])

known_lem : (ip port n : ℕ) → is_known (entry ip port n) ≡ ltb 0 n
known_lem ip port zero = refl
known_lem ip port (suc n) = ground arith

-- process_packet on what a message reads as.
answer_lem :
    (m : Message) (f : Counts) (cs : List ClientEntry)
    → IsSendable m
    → IsDistinct cs
    → Matches cs f
    → (cs' : List ClientEntry) × (answer m.id (received m.ip m.port m.text) cs
        ≡ some (cs', expected m (f m.ip (htons m.port))))
      × IsDistinct cs'
      × Matches cs' (counts_after m f)
unfolding answer expected
answer_lem m f cs w d h =
    let port = htons m.port in
    let n = f m.ip port in
    let known : is_known (find_client m.ip port cs) ≡ ltb 0 n =
      ap is_known (h m.ip port) ∙ known_lem m.ip port n in
    elim (Bool-cases (str_eqb m.text close_text)) [
      | inl e ↦ (
        remove_client m.ip port cs,
        rw (e, known) refl,
        remove_client-IsDistinct m.ip port cs d,
        close_lem m f cs e d h,
      )
      | inr e ↦
          let counter : counter_of (find_client m.ip port (count_message m.ip port cs))
              ≡ suc n % 2 ^ 32 =
            ap counter_of (find_client-count_message m.ip port n cs (h m.ip port)) in
          let sent =
            send_reply_lem m.id m.ip m.port _ m.text (count_message m.ip port cs) counter w.4 in
          let new : not (ltb 0 n) ≡ (n == 0) = ground arith in
          (
            count_message m.ip port cs,
            rw (e, known, sent, new) refl,
            count_message-IsDistinct m.ip port cs d,
            count_lem m f cs e h,
          )
    ]

-- The arrival of a message at the socket.
abbrev pub arrival : Message → Event
arrival m = arrived m.id (datagram m)

unfoldable pub counts_of : List Message → Counts → Counts
counts_of [] f = f
counts_of (m ∷ ms) f = counts_of ms (counts_after m f)

unfoldable pub all_expected : List Message → Counts → List Effect
unfolding expected
all_expected [] f = []
all_expected (m ∷ ms) f = expected m (f m.ip (htons m.port)) ++ all_expected ms (counts_after m f)

-- main's buffer has its size, and its clients are what the counts say.
abbrev pub IsCounting : Server → Counts → Type 0
IsCounting s f = (length s.buffer ≡ buffer_size) × IsDistinct s.clients × Matches s.clients f

receive_lem :
    (m : Message) (f : Counts) (s : Server)
    → IsSendable m
    → IsCounting s f
    → (s' : Server) × (receive m.id (datagram m) s ≡ some (s', expected m (f m.ip (htons m.port))))
      × IsCounting s' (counts_after m f)
unfolding receive process_packet
receive_lem m f s w h =
    let packet = datagram m in
    let size : length packet ≡ 28 + length m.text = length-datagram m in
    let rest = drop (28 + length m.text) s.buffer in
    let cut : take buffer_size packet ≡ packet =
      take_beyond buffer_size packet (omega (arith, size, w)) in
    let len : length (take buffer_size packet) ≡ 28 + length m.text = ap length cut ∙ size in
    let filled : fill_buffer s.buffer packet ≡ packet ++ rest =
      λ i. cut i ++ drop (len i) s.buffer in
    let whole : length (packet ++ rest) ≡ buffer_size =
      omega (
        arith,
        length-append packet rest,
        length-drop (28 + length m.text) s.buffer,
        h.0,
        size,
        w,
      ) in
    let parsed = parse_packet-datagram m rest w (omega (arith, whole, w)) in
    let (clients, e, d, k) = answer_lem m f s.clients w h.1 h.2 in
    (
      record { buffer = packet ++ rest; clients = clients },
      rw (filled, len, parsed, e) refl,
      (whole, d, k),
    )

-- Whatever the buffer holds, datagrams whose texts are not empty, without NUL and no longer than
-- 65495 bytes are all answered: each text but CLOSE is echoed to its sender, whole, with the number
-- of texts that the sender sent since it last closed, as an int; and the list of clients holds those
-- numbers.
pub serve_counts :
    (ms : List Message) (f : Counts) (s : Server)
    → All IsSendable ms
    → IsCounting s f
    → (s' : Server) × (serve (map arrival ms) s ≡ some (s', all_expected ms f))
      × IsCounting s' (counts_of ms f)
unfolding serve all_expected counts_of
serve_counts [] f s w h = (s, refl, h)
serve_counts (m ∷ ms) f s w h =
    let (s', e, h') = receive_lem m f s w.0 h in
    let (s'', e', h'') = serve_counts ms (counts_after m f) s' w.1 h' in (s'', rw (e, e') refl, h'')
