-- ===== src/ChatServer/Reading.antt =====
-- module1/task7/server.c: the reads of a client, and what they bring the others.
use practice2_eltex.Prelude.{
  ℕ, zero, suc, ◌+◌, ◌-◌, ◌≤◌, ◌<◌, ◌≡◌, refl, sym, ap, ◌∙◌, ◌≢◌, inl, inr, false, some, List, [],
  ◌∷◌, ◌++◌, arith, ◌==◌, length, set, length-append, length-set, get_or, take, get_or-set_self,
  option_map, some≢none, some_inj, option_map-eq-some,
}
use practice2_eltex.Prelude.Slices.{take_beyond, append_assoc}
use practice2_eltex.ChatServer.{
  buffer_size, Client, no_client, Effect, Server, broadcast_all, descriptor, process_loop,
  process_client,
}
use practice2_eltex.ChatServer.Stream.{
  flat, prefixed, decode, decode_never, decode_fault, decode_end, decode_on, Round-cases, extend,
}
use practice2_eltex.ChatServer.Rounds.{left}
use practice2_eltex.ChatServer.Splitting.{understand_more, understand_keeps}
use practice2_eltex.ChatServer.Delivery.{
  Succeeds, sent_to, sent_to-append, listeners, broadcast_all_lem, listeners-set, loop_end,
  followed, loop_on,
}
use practice2_eltex.ChatServer.Understanding.{understand}
use practice2_eltex.ChatServer.Transfer.{round-fd}

pub set_twice : (cs : List Client) (i : ℕ) (c d : Client) → set (set cs i c) i d ≡ set cs i d
set_twice [] i c d = refl
set_twice (x ∷ cs) zero c d = refl
set_twice (x ∷ cs) (suc i) c d = ap (λ l. x ∷ l) (set_twice cs i c d)

pub set_same : (cs : List Client) (i : ℕ) → set cs i (get_or cs i no_client) ≡ cs
set_same [] i = refl
set_same (x ∷ cs) zero = refl
set_same (x ∷ cs) (suc i) = ap (λ l. x ∷ l) (set_same cs i)

-- What the reads of the client at index leave: its entry, the others untouched, and the bytes that
-- each other descriptor of one client was handed.
abbrev pub Delivered : ℕ → ℕ → Server → Client → List ℕ → Server → List Effect → Type 0
Delivered index sender s c' out s' effects =
    (s'.clients ≡ set s.clients index c')
    × Succeeds s'.sends
    × ((fd : ℕ) → fd ≢ sender → listeners fd s.clients ≡ 1 → sent_to fd effects ≡ out)

loop_delivers :
    (fuel index sender : ℕ) (s : Server) (c c' : Client) (out : List ℕ)
    → Succeeds s.sends
    → index < length s.clients
    → get_or s.clients index no_client ≡ c
    → c.fd ≡ some sender
    → decode fuel c ≡ some (c', out)
    → (s' : Server) × (effects : List Effect) × (process_loop fuel index s ≡ some (s', effects))
      × Delivered index sender s c' out s' effects
unfolding sent_to
loop_delivers zero index sender s c c' out ok lt g f e = absurd (some≢none (sym e ∙ decode_never c))
loop_delivers (suc fuel) index sender s c c' out ok lt g f e = elim (Round-cases c) [
  | inl r ↦ absurd (some≢none (sym e ∙ decode_fault fuel c r))
  | inr (inl r) ↦
      let same = some_inj (sym (decode_end fuel c r) ∙ e) in
      (
        s,
        [],
        loop_end fuel index s c g r,
        (
          sym (set_same s.clients index) ∙ ap (set s.clients index) (g ∙ ap (λ q. q.0) same),
          ok,
          λ fd n l. ap (λ q. q.1) same,
        ),
      )
  | inr (inr (c1, o, r)) ↦
      let ((c2, more), e1, same) =
        option_map-eq-some (prefixed (flat o)) (decode fuel c1)
          (sym (decode_on fuel c c1 o r) ∙ e) in
      let fd1 : c1.fd ≡ some sender = round-fd c c1 o r ∙ f in
      let (same_clients, still, heard) = broadcast_all_lem o (descriptor c1.fd) s ok in
      let (sb, effects) = broadcast_all o (descriptor c1.fd) s in
      let s1 : Server = record sb { clients = set sb.clients index c1 } in
      let lt1 : index < length sb.clients = omega (arith, lt, ap length same_clients) in
      let (s2, effects2, run, (left_clients, left_sends, delivered)) =
        loop_delivers fuel index sender s1 c1 c2 more still
          (omega (arith, lt1, length-set sb.clients index c1))
          (get_or-set_self sb.clients index c1 no_client lt1) fd1 e1 in
      (
        s2,
        effects ++ effects2,
        loop_on fuel index s c c1 o g r ∙ ap (option_map (followed effects)) run,
        (
          left_clients
              ∙ set_twice sb.clients index c1 c2
              ∙ (λ i. set (same_clients i) index (same i).0),
          left_sends,
          λ fd n l.
              sent_to-append fd effects effects2
              ∙ (λ i.
                  heard fd (λ d. n (d ∙ ap descriptor fd1)) l i
                  ++ delivered fd n
                      (listeners-set fd sb.clients index c1 (
                          fd1
                          ∙ sym f
                          ∙ ap (λ x. x.fd) (sym g)
                          ∙ sym (ap (λ cs. (get_or cs index no_client).fd) same_clients))
                        ∙ ap (listeners fd) same_clients
                        ∙ l)
                      i)
              ∙ ap (λ q. q.1) same,
        ),
      )
]

-- A client at index, connected as sender.
abbrev pub IsConnected : ℕ → ℕ → Server → Client → Type 0
IsConnected index sender s c =
    (index < length s.clients) × (get_or s.clients index no_client ≡ c) × (c.fd ≡ some sender)

read_lem :
    (index : ℕ) (s : Server) (c : Client) (bytes : List ℕ)
    → get_or s.clients index no_client ≡ c
    → 0 < length bytes
    → length c.buffer + length bytes ≤ buffer_size
    → process_client index (some bytes) s
      ≡ process_loop
          (suc (length (c.buffer ++ bytes)))
          index
          (record s { clients = set s.clients index (extend c bytes) })
unfolding process_client
read_lem index s c bytes g h l =
    let got : take (buffer_size - length c.buffer) bytes ≡ bytes =
      take_beyond (buffer_size - length c.buffer) bytes (omega (arith, l)) in
    let some_read : (length bytes == 0) ≡ false = ground (arith, h) in rw (g, got, some_read) refl

-- While every send succeeds, a read that fits the client's buffer and is understood without fault
-- hands every other connection what understand gives for it, and leaves the client that it gives.
pub process_client_delivers :
    (index sender : ℕ) (s : Server) (c c' : Client) (bytes out : List ℕ)
    → Succeeds s.sends
    → IsConnected index sender s c
    → 0 < length bytes
    → length c.buffer + length bytes ≤ buffer_size
    → understand (extend c bytes) ≡ some (c', out)
    → (s' : Server) × (effects : List Effect) × (process_client index (some bytes) s
        ≡ some (s', effects))
      × Delivered index sender s c' out s' effects
unfolding understand
process_client_delivers index sender s c c' bytes out ok (lt, g, f) h l e =
    let s1 : Server = record s { clients = set s.clients index (extend c bytes) } in
    let (s', effects, run, (clients, sends, heard)) =
      loop_delivers _ index sender s1 (extend c bytes) c' out ok
        (omega (arith, lt, length-set s.clients index (extend c bytes)))
        (get_or-set_self s.clients index (extend c bytes) no_client lt) f e in
    (
      s',
      effects,
      read_lem index s c bytes g h l ∙ run,
      (
        clients ∙ set_twice s.clients index (extend c bytes) c',
        sends,
        λ fd n one.
            heard fd n
              (listeners-set fd s.clients index (extend c bytes) (ap (λ x. x.fd) (sym g)) ∙ one),
      ),
    )

-- While every send succeeds, what a client sends comes to the same in two reads as in one, if all of
-- it fits the buffer and is understood without fault: the clients are left the same, and every other
-- connection is handed the same bytes in the same order.
pub two_reads :
    (index sender : ℕ) (s : Server) (c c1 c2 : Client) (a b out1 out2 : List ℕ)
    → Succeeds s.sends
    → IsConnected index sender s c
    → 0 < length a
    → 0 < length b
    → length c.buffer + length a + length b ≤ buffer_size
    → understand (extend c a) ≡ some (c1, out1)
    → understand (extend c1 b) ≡ some (c2, out2)
    → (s1 : Server) × (e1 : List Effect) × (s2 : Server) × (e2 : List Effect) × (s' : Server)
      × (e : List Effect) × (process_client index (some a) s ≡ some (s1, e1))
      × (process_client index (some b) s1 ≡ some (s2, e2))
      × (process_client index (some (a ++ b)) s ≡ some (s', e))
      × (s2.clients ≡ s'.clients)
      × ((fd : ℕ) → fd ≢ sender → listeners fd s.clients ≡ 1 → sent_to fd (e1 ++ e2) ≡ sent_to fd e)
two_reads index sender s c c1 c2 a b out1 out2 ok w ha hb room u1 u2 =
    let (lt, g, f) = w in
    let (keeps, shorter) = understand_keeps (extend c a) c1 out1 u1 in
    let (s1, e1, run1, (left1, ok1, heard1)) =
      process_client_delivers index sender s c c1 a out1 ok w ha (omega (arith, room)) u1 in
    let lt1 : index < length s1.clients =
      omega (arith, lt, ap length left1, length-set s.clients index c1) in
    let at1 : get_or s1.clients index no_client ≡ c1 =
      ap (λ cs. get_or cs index no_client) left1
      ∙ get_or-set_self s.clients index c1 no_client lt in
    let (s2, e2, run2, (left2, ok2, heard2)) =
      process_client_delivers index sender s1 c1 c2 b out2 ok1 (lt1, at1, keeps ∙ f) hb
        (omega (arith, room, shorter, length-append c.buffer a)) u2 in
    let whole : understand (extend c (a ++ b)) ≡ some (c2, out1 ++ out2) =
      (λ i. understand (record c { buffer = sym (append_assoc c.buffer a b) i }))
      ∙ understand_more (extend c a) c1 out1 b u1
      ∙ ap (option_map (prefixed out1)) u2 in
    let (s', e, run, (left, still, heard)) =
      process_client_delivers index sender s c c2 (a ++ b) (out1 ++ out2) ok w
        (omega (arith, ha, length-append a b)) (omega (arith, room, length-append a b)) whole in
    (
      s1,
      e1,
      s2,
      e2,
      s',
      e,
      run1,
      run2,
      run,
      left2 ∙ ap (λ cs. set cs index c2) left1 ∙ set_twice s.clients index c1 c2 ∙ sym left,
      λ fd n one.
          sent_to-append fd e1 e2
          ∙ (λ i.
              heard1 fd n one i
              ++ heard2 fd n
                  (ap (listeners fd) left1
                    ∙ listeners-set fd s.clients index c1 (keeps ∙ ap (λ x. x.fd) (sym g))
                    ∙ one)
                  i)
          ∙ sym (heard fd n one),
    )
