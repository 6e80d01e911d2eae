-- ===== src/EchoServer/Sending.antt =====
-- module2/cross1/server.c: a reply that fits a datagram is sent whole.
use practice2_eltex.Prelude.{
  ℕ, ◌+◌, ◌-◌, ◌%◌, ◌^◌, ◌≤◌, ◌≡◌, refl, false, some, List, [], ◌∷◌, ◌++◌, arith, ltb, length,
  length-append,
}
use practice2_eltex.Prelude.Bytes.{to_bytes}
use practice2_eltex.Prelude.Slices.{take_all, take_beyond}
use practice2_eltex.Prelude.Print.{print_int, length-print_int}
use practice2_eltex.Prelude.Strings.{CString}
use practice2_eltex.EchoServer.{
  buffer_size, ClientEntry, find_client, counter_of, ip_header, udp_header, response,
  response_length, reply, send_to, htons, send_reply,
}

pub length-reply :
    (id ip port : ℕ) (text : List ℕ)
    → length (reply id (to_bytes 4 ip) port text) ≡ 28 + length text
unfolding reply ip_header udp_header to_bytes
length-reply id ip port text = omega arith

response_lem :
    (text : CString) (n : ℕ) → length text ≤ 65495 → response text n ≡ text ++ b' ' ∷ print_int n
unfolding response
response_lem text n h =
    take_beyond (buffer_size - 1) (text ++ b' ' ∷ print_int n)
      (omega (arith, h, length-append text (b' ' ∷ print_int n), length-print_int n))

response_length_lem :
    (text : CString) (n : ℕ)
    → length text ≤ 65495
    → response_length text n ≡ length (text ++ b' ' ∷ print_int n)
response_length_lem text n h =
    ground (arith, h, length-append text (b' ' ∷ print_int n), length-print_int n)

-- A reply that fits a datagram is sent whole.
pub send_reply_lem :
    (id ip port n : ℕ) (text : CString) (cs : List ClientEntry)
    → counter_of (find_client ip (htons port) cs) ≡ n
    → length text ≤ 65495
    → send_reply id ip port text cs
      ≡ some (send_to ip (reply id (to_bytes 4 ip) port (text ++ b' ' ∷ print_int n)) ∷ [])
unfolding send_reply
send_reply_lem id ip port n text cs e h =
    let whole = text ++ b' ' ∷ print_int n in
    let bound : length whole ≤ 65507 =
      omega (arith, h, length-append text (b' ' ∷ print_int n), length-print_int n) in
    let fits : ltb buffer_size (28 + length whole) ≡ false = ground (arith, bound) in
    let total : (28 + length whole) % 2 ^ 16 ≡ length (reply id (to_bytes 4 ip) port whole) =
      omega (arith, bound, length-reply id ip port whole) in
    rw
      (
        e,
        response_length_lem text n h,
        response_lem text n h,
        fits,
        total,
        take_all (reply id (to_bytes 4 ip) port whole),
      )
      refl
