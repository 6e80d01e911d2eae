-- ===== src/EchoServer/Reply.antt =====
-- module2/cross1/server.c: the checks that a reply carries.
use practice2_eltex.Prelude.{
  ℕ, ◌+◌, ◌≤◌, ◌<◌, ◌≡◌, refl, List, [], ◌∷◌, ◌++◌, arith, length, take, drop, All,
}
use practice2_eltex.Prelude.Bytes.{to_bytes}
use practice2_eltex.EchoServer.{
  server_port, ipproto_udp, udp_header_size, checksum, network16, ip_header, udp_header,
  pseudo_header, reply, ntohs_at,
}
use practice2_eltex.EchoServer.Checksum.{IsByte, checksum_verifies}

ip_check_holds :
    (id n ip : ℕ)
    → let header = ip_header id n (to_bytes 4 ip) in checksum (header (checksum (header 0))) ≡ 0
unfolding ip_header to_bytes
ip_check_holds id n ip =
    checksum_verifies
      (0x45 ∷ 0 ∷ network16 (20 + udp_header_size + n)
        ++ network16 id
        ++ 0 ∷ 0 ∷ 64 ∷ ipproto_udp ∷ [])
      (0 ∷ 0 ∷ 0 ∷ 0 ∷ to_bytes 4 ip) refl (ground arith) (ground arith) (omega arith)

udp_check_holds :
    (n ip port : ℕ) (text : List ℕ)
    → All IsByte text
    → length text < 129000
    → let daddr = to_bytes 4 ip in
      let part : ℕ → List ℕ = λ check. pseudo_header daddr n ++ (udp_header port n check ++ text) in
      checksum (part (checksum (part 0))) ≡ 0
unfolding pseudo_header udp_header to_bytes
udp_check_holds n ip port text bytes h =
    checksum_verifies
      (0 ∷ 0 ∷ 0 ∷ 0 ∷ to_bytes 4 ip
        ++ 0 ∷ ipproto_udp ∷ network16 (udp_header_size + n)
        ++ network16 server_port
        ++ network16 port
        ++ network16 (udp_header_size + n))
      text refl (ground arith) bytes (omega (arith, h))

-- The IP header of every reply has the checksum 0, and so has its UDP part behind the pseudo header
-- with the addresses and the length that the reply holds, when the text is no longer than 65507
-- bytes; its length is what the IP header holds.
pub reply_checks :
    (id ip port : ℕ) (text : List ℕ)
    → All IsByte text
    → length text ≤ 65507
    → let packet = reply id (to_bytes 4 ip) port text in
      (checksum (take 20 packet) ≡ 0)
      × (checksum (pseudo_header (to_bytes 4 ip) (length text) ++ drop 20 packet) ≡ 0)
      × (length packet ≡ ntohs_at packet 2)
unfolding reply ip_header udp_header to_bytes
reply_checks id ip port text bytes h = (
  ip_check_holds id (length text) ip,
  udp_check_holds (length text) ip port text bytes (omega (arith, h)),
  omega (arith, h),
)
