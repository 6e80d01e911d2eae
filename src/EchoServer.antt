-- ===== src/EchoServer.antt =====
-- module2/cross1/server.c: a server on a raw socket that echoes UDP messages with a count for each
-- client. A packet is the list of its bytes, the host is little-endian, and the buffer of main stands
-- with all its bytes, those of earlier packets included. none is an access outside an array. The int
-- counter is kept as its bits, and wraps around.
pub mod Checksum
pub mod Reply
pub mod Clients
pub mod Datagram
pub mod Counts
pub mod Sending
pub mod Session
mod Tests
use practice2_eltex.Prelude.{
  ℕ, ◌+◌, ◌-◌, ◌*◌, ◌/◌, ◌%◌, ◌^◌, Bool, true, false, not, ◌&&◌, Option, none, some, List, [], ◌∷◌,
  ◌++◌, ltb, leb, ◌==◌, if◌then◌else◌, length, get_or, take, drop, ◌>>=◌, option_map,
}
use practice2_eltex.Prelude.Bytes.{to_bytes, of_bytes, c_string}
use practice2_eltex.Prelude.Print.{print_int}
use practice2_eltex.Prelude.Strings.{CString, str_eqb, codes}

abbrev pub server_port : ℕ
server_port = 8888

abbrev pub buffer_size : ℕ
buffer_size = 65536

-- IPPROTO_UDP
abbrev pub ipproto_udp : ℕ
ipproto_udp = 17

-- sizeof(struct udphdr)
abbrev pub udp_header_size : ℕ
udp_header_size = 8

-- The sum of two uint32_t.
abbrev pub add32 : ℕ → ℕ → ℕ
add32 a b = (a + b) % 2 ^ 32

-- The loop of checksum, and the odd byte behind it.
unfoldable pub sum_words : ℕ → List ℕ → ℕ
sum_words sum [] = sum
sum_words sum (b ∷ []) = add32 sum b
sum_words sum (b ∷ c ∷ rest) = sum_words (add32 sum (b + 256 * c)) rest

-- The carries of the sum, and its complement in 16 bits.
unfoldable pub fold : ℕ → ℕ
fold sum =
    let once = add32 (sum / 2 ^ 16) (sum % 2 ^ 16) in
    let twice = add32 once (once / 2 ^ 16) in 2 ^ 16 - 1 - twice % 2 ^ 16

unfoldable pub checksum : List ℕ → ℕ
unfolding sum_words fold
checksum bytes = fold (sum_words 0 bytes)

-- The address and the port stand as they do in a packet.
pub record ClientEntry : Type 0 where
  pub ip : ℕ
  pub port : ℕ
  pub counter : ℕ

abbrev pub is_client : ℕ → ℕ → ClientEntry → Bool
is_client ip port c = c.ip == ip && (c.port == port)

unfoldable pub add_client : ℕ → ℕ → List ClientEntry → List ClientEntry
add_client ip port clients = record { ip = ip; port = port; counter = 1 } ∷ clients

unfoldable pub find_client : ℕ → ℕ → List ClientEntry → Option ClientEntry
find_client ip port [] = none
find_client ip port (c ∷ cs) =
    let rest = find_client ip port cs in if is_client ip port c then some c else rest

unfoldable pub remove_client : ℕ → ℕ → List ClientEntry → List ClientEntry
remove_client ip port [] = []
remove_client ip port (c ∷ cs) =
    let rest = remove_client ip port cs in if is_client ip port c then cs else c ∷ rest

-- client->counter++ on the client that find_client gives.
unfoldable pub count_up : ℕ → ℕ → List ClientEntry → List ClientEntry
count_up ip port [] = []
count_up ip port (c ∷ cs) =
    let rest = count_up ip port cs in
    if is_client ip port c then record c { counter = add32 c.counter 1 } ∷ cs else c ∷ rest

-- The clients after a message that is not CLOSE, and the count of its sender.
unfoldable pub count_message : ℕ → ℕ → List ClientEntry → List ClientEntry
count_message ip port clients = elim (find_client ip port clients) [
  | none ↦ add_client ip port clients
  | some c ↦ count_up ip port clients
]

abbrev pub counter_of : Option ClientEntry → ℕ
counter_of none = 0
counter_of (some c) = c.counter

-- The bytes of htons of a number.
abbrev pub network16 : ℕ → List ℕ
network16 n = n / 256 % 256 ∷ n % 256 ∷ []

-- struct iphdr, as process_packet fills it, and with a check.
unfoldable pub ip_header : ℕ → ℕ → List ℕ → ℕ → List ℕ
unfolding to_bytes
ip_header id resp_len daddr check =
    0x45 ∷ 0 ∷ network16 (20 + udp_header_size + resp_len)
    ++ network16 id
    ++ 0 ∷ 0 ∷ 64 ∷ ipproto_udp ∷ to_bytes 2 check
    ++ 0 ∷ 0 ∷ 0 ∷ 0 ∷ daddr

-- struct udphdr
unfoldable pub udp_header : ℕ → ℕ → ℕ → List ℕ
unfolding to_bytes
udp_header src_port resp_len check =
    network16 server_port
    ++ network16 src_port
    ++ network16 (udp_header_size + resp_len)
    ++ to_bytes 2 check

-- struct pseudo_header
unfoldable pub pseudo_header : List ℕ → ℕ → List ℕ
pseudo_header daddr resp_len =
    0 ∷ 0 ∷ 0 ∷ 0 ∷ daddr ++ 0 ∷ ipproto_udp ∷ network16 (udp_header_size + resp_len)

-- What snprintf leaves in response, without its NUL.
unfoldable pub response : CString → ℕ → CString
response message counter = take (buffer_size - 1) (message ++ b' ' ∷ print_int counter)

-- resp_len
abbrev pub response_length : CString → ℕ → ℕ
response_length message counter =
    let printed = length message + 1 + length (print_int counter) in
    if leb buffer_size printed then buffer_size - 1 else printed

-- The datagram that process_packet builds in packet_buf.
unfoldable pub reply : ℕ → List ℕ → ℕ → CString → List ℕ
unfolding checksum ip_header udp_header pseudo_header
reply id daddr src_port text =
    let n = length text in
    let ip_check = checksum (ip_header id n daddr 0) in
    let udp_check = checksum (pseudo_header daddr n ++ (udp_header src_port n 0 ++ text)) in
    ip_header id n daddr ip_check ++ (udp_header src_port n udp_check ++ text)

-- What the code prints, and what it hands to sendto.
pub data Effect : Type 0 where
  say_received : ℕ → ℕ → CString → Effect
  say_new : ℕ → ℕ → Effect
  say_removed : ℕ → ℕ → Effect
  send_to : ℕ → List ℕ → Effect

-- htons and ntohs
abbrev pub htons : ℕ → ℕ
htons n = n % 256 * 256 + n / 256 % 256

abbrev pub byte : List ℕ → ℕ → ℕ
byte packet i = get_or packet i 0

-- ntohs of the two bytes at i.
abbrev pub ntohs_at : List ℕ → ℕ → ℕ
ntohs_at packet i = 256 * byte packet i + byte packet (i + 1)

-- What process_packet takes from a packet: its sender's address and port, and the message.
pub data Request : Type 0 where
  ignored : Request
  received : ℕ → ℕ → CString → Request

-- data_len
abbrev pub data_length : List ℕ → ℕ → ℕ
data_length packet header_len =
    let given = ntohs_at packet (header_len + 4) - udp_header_size in
    if leb buffer_size given then buffer_size - 1 else given

-- process_packet to the printf of the message. The packet is the whole buffer, len what came in.
unfoldable pub parse_packet : List ℕ → ℕ → Option Request
unfolding of_bytes c_string
parse_packet packet len =
    let header_len = byte packet 0 % 16 * 4 in
    let from = header_len + udp_header_size in
    let data_len = data_length packet header_len in
    if not (byte packet 9 == ipproto_udp)
    then some ignored
    else if ltb len from
    then some ignored
    else if not (ntohs_at packet (header_len + 2) == server_port)
    then some ignored
    else if leb (ntohs_at packet (header_len + 4)) udp_header_size
    then some ignored
    else if ltb (length packet) (from + data_len)
    then none
    else some (
        received (of_bytes (take 4 (drop 12 packet))) (ntohs_at packet header_len)
          (c_string (take data_len (drop from packet))))

-- The reply to a client that is now in the list, sent with the length that tot_len holds.
unfoldable pub send_reply : ℕ → ℕ → ℕ → CString → List ClientEntry → Option (List Effect)
send_reply id ip src_port message clients =
    let counter = counter_of (find_client ip (htons src_port) clients) in
    let total = 20 + udp_header_size + response_length message counter in
    if ltb buffer_size total
    then none
    else some (
        send_to ip
          (take (total % 2 ^ 16) (reply id (to_bytes 4 ip) src_port (response message counter)))
        ∷ [])

abbrev pub close_text : CString
close_text = codes "CLOSE"

-- What add_client and remove_client print.
abbrev pub say_change : (ℕ → ℕ → Effect) → ℕ → ℕ → Bool → List Effect
say_change say ip port happens = if happens then say ip port ∷ [] else []

abbrev pub is_known : Option ClientEntry → Bool
is_known none = false
is_known (some c) = true

-- The rest of process_packet.
unfoldable pub answer : ℕ → Request → List ClientEntry → Option (List ClientEntry × List Effect)
answer id ignored clients = some (clients, [])
answer id (received ip src_port message) clients =
    let port = htons src_port in
    let known = is_known (find_client ip port clients) in
    let counted = count_message ip port clients in
    if str_eqb message close_text
    then some (
      remove_client ip port clients,
      say_received ip src_port message ∷ say_change say_removed ip src_port known,
    )
    else option_map
        (λ sent. (
          counted,
          say_received ip src_port message ∷ say_change say_new ip src_port (not known) ++ sent,
        ))
        (send_reply id ip src_port message counted)

unfoldable pub process_packet :
    ℕ → List ℕ → ℕ → List ClientEntry → Option (List ClientEntry × List Effect)
process_packet id packet len clients =
    parse_packet packet len >>= λ request. answer id request clients

-- The buffer of main, and clients.
pub record Server : Type 0 where
  pub buffer : List ℕ
  pub clients : List ClientEntry

-- What recvfrom gives to main: a packet (with what rand gives for its reply), EINTR, or an error.
pub data Event : Type 0 where
  arrived : ℕ → List ℕ → Event
  interrupted : Event
  failed : Event

-- recvfrom into the buffer, which keeps what stands behind the packet.
abbrev pub fill_buffer : List ℕ → List ℕ → List ℕ
fill_buffer buffer packet =
    take buffer_size packet ++ drop (length (take buffer_size packet)) buffer

-- The clients are freed.
unfoldable pub cleanup : Server → Server
cleanup s = record s { clients = [] }

abbrev pub after_packet : List ℕ → List ClientEntry × List Effect → Server × List Effect
after_packet buffer (clients, effects) = (record { buffer = buffer; clients = clients }, effects)

unfoldable pub receive : ℕ → List ℕ → Server → Option (Server × List Effect)
receive id packet s =
    let buffer = fill_buffer s.buffer packet in
    option_map (after_packet buffer)
      (process_packet id buffer (length (take buffer_size packet)) s.clients)

-- main's loop: a signal ends the list of events, and an error ends the loop.
unfoldable pub serve : List Event → Server → Option (Server × List Effect)
serve [] s = some (s, [])
serve (arrived id packet ∷ events) s = receive id packet s >>= λ (s', effects).
    option_map (λ (s'', more). (s'', effects ++ more)) (serve events s')
serve (interrupted ∷ events) s = serve events s
serve (failed ∷ events) s = some (s, [])
