-- ===== src/EchoServer/Datagram.antt =====
-- module2/cross1/server.c: what process_packet reads from a datagram, whatever the buffer held.
use practice2_eltex.Prelude.{
  ℕ, ◌+◌, ◌-◌, ◌^◌, ◌≤◌, ◌<◌, ◌≡◌, refl, ap, ◌∙◌, false, some, List, [], ◌∷◌, ◌++◌, arith, ltb, leb,
  ◌==◌, length, take, drop, All,
}
use practice2_eltex.Prelude.Bytes.{to_bytes, of_bytes, c_string, of_bytes-to_bytes}
use practice2_eltex.Prelude.Slices.{take-seam}
use practice2_eltex.EchoServer.{
  server_port, buffer_size, ipproto_udp, udp_header_size, network16, byte, ntohs_at, received,
  parse_packet,
}
use practice2_eltex.Prelude.Strings.{CString}

-- A message of a client: its address, its port, the text, and the bytes that the server does not
-- read: those of the headers, and the id that rand gives for the reply.
pub record Message : Type 0 where
  pub ip : ℕ
  pub port : ℕ
  pub text : CString
  pub other : ℕ → ℕ
  pub id : ℕ

-- An IP header without options, a UDP header and the text.
unfoldable pub datagram : Message → List ℕ
unfolding to_bytes
datagram m =
    0x45
      ∷ m.other 1
      ∷ m.other 2
      ∷ m.other 3
      ∷ m.other 4
      ∷ m.other 5
      ∷ m.other 6
      ∷ m.other 7
      ∷ m.other 8
      ∷ ipproto_udp
      ∷ m.other 10
      ∷ m.other 11
      ∷ to_bytes 4 m.ip
    ++ m.other 16 ∷ m.other 17 ∷ m.other 18 ∷ m.other 19 ∷ network16 m.port
    ++ network16 server_port
    ++ network16 (udp_header_size + length m.text)
    ++ m.other 26 ∷ m.other 27 ∷ m.text

-- The text is not empty, and with a space, the digits of an int and the headers it fits a datagram.
abbrev pub IsSendable : Message → Type 0
IsSendable m =
    (m.ip < 2 ^ 32)
    × (m.port < 2 ^ 16)
    × All (λ c. 0 < c) m.text
    × (0 < length m.text)
    × (length m.text ≤ 65495)

c_string_lem : (s : CString) → All (λ c. 0 < c) s → c_string s ≡ s
unfolding c_string
c_string_lem [] h = refl
c_string_lem (c ∷ s) h =
    let test : (c == 0) ≡ false = ground (arith, h.0) in
    rw test (ap (λ t. c ∷ t) (c_string_lem s h.1))

pub length-datagram : (m : Message) → length (datagram m) ≡ 28 + length m.text
unfolding datagram to_bytes
length-datagram m = omega arith

-- The tests of parse_packet on a packet whose fields are known.
parse_packet_lem :
    (packet : List ℕ) (len n ip port : ℕ) (text : CString)
    → byte packet 0 ≡ 0x45
    → byte packet 9 ≡ ipproto_udp
    → ntohs_at packet 20 ≡ port
    → ntohs_at packet 22 ≡ server_port
    → ntohs_at packet 24 ≡ udp_header_size + n
    → 0 < n
    → n < 65528
    → 28 + n ≤ len
    → 28 + n ≤ length packet
    → of_bytes (take 4 (drop 12 packet)) ≡ ip
    → c_string (take n (drop 28 packet)) ≡ text
    → parse_packet packet len ≡ some (received ip port text)
unfolding parse_packet
parse_packet_lem packet len n ip port text version protocol from to size lo hi l e addr body =
    let enough : ltb len 28 ≡ false = ground (arith, l) in
    let some_text : leb (udp_header_size + n) udp_header_size ≡ false = ground (arith, lo) in
    let given : udp_header_size + n - udp_header_size ≡ n = omega arith in
    let short : leb buffer_size n ≡ false = ground (arith, hi) in
    let inside : ltb (length packet) (28 + n) ≡ false = ground (arith, e) in
    rw (version, protocol, to, size, enough, some_text, given, short, inside, addr, body, from) refl

pub parse_packet-datagram :
    (m : Message) (rest : List ℕ)
    → IsSendable m
    → 28 + length m.text ≤ length (datagram m ++ rest)
    → parse_packet (datagram m ++ rest) (28 + length m.text) ≡ some (received m.ip m.port m.text)
unfolding datagram to_bytes
parse_packet-datagram m rest h e =
    let n = length m.text in
    let body : c_string (take n (m.text ++ rest)) ≡ m.text =
      ap c_string (take-seam m.text rest n refl) ∙ c_string_lem m.text h.2 in
    parse_packet_lem (datagram m ++ rest) (28 + n) n m.ip m.port m.text refl refl (omega (arith, h))
      refl (omega (arith, h)) h.3 (omega (arith, h)) (omega arith) e (of_bytes-to_bytes 4 m.ip h.0)
      body
