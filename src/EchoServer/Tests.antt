-- ===== src/EchoServer/Tests.antt =====
-- Runs of the model of module2/cross1/server.c on concrete inputs.
use practice2_eltex.Prelude.{
  ℕ, zero, suc, ◌≡◌, refl, ap, some, List, [], ◌∷◌, ◌++◌, map, arith, length, take, drop, All,
}
use practice2_eltex.Prelude.Bytes.{to_bytes}
use practice2_eltex.Prelude.Strings.{CString, codes}
use practice2_eltex.EchoServer.{
  buffer_size, checksum, find_client, pseudo_header, reply, ntohs_at, Server, serve,
}
use practice2_eltex.EchoServer.Checksum.{checksum_verifies}
use practice2_eltex.EchoServer.Reply.{reply_checks}
use practice2_eltex.EchoServer.Clients.{IsDistinct}
use practice2_eltex.EchoServer.Datagram.{Message, IsSendable}
use practice2_eltex.EchoServer.Session.{arrival, counts_of, all_expected, IsCounting, serve_counts}

-- The header of RFC 1071's example, and its check.
known_checksum : checksum (0x00 ∷ 0x01 ∷ 0xf2 ∷ 0x03 ∷ 0xf4 ∷ 0xf5 ∷ 0xf6 ∷ 0xf7 ∷ []) ≡ 0x0d22
unfolding checksum
known_checksum = refl

checksum_verifies_example :
    checksum ((1 ∷ 2 ∷ []) ++ (to_bytes 2 (checksum (1 ∷ 2 ∷ 0 ∷ 0 ∷ 3 ∷ [])) ++ (3 ∷ []))) ≡ 0
checksum_verifies_example =
    checksum_verifies (1 ∷ 2 ∷ []) (3 ∷ []) refl (ground arith) (ground arith) (omega arith)

reply_checks_example :
    let packet = reply 7 (to_bytes 4 0x0100007f) 4000 (104 ∷ 105 ∷ []) in
    (checksum (take 20 packet) ≡ 0)
    × (checksum (pseudo_header (to_bytes 4 0x0100007f) 2 ++ drop 20 packet) ≡ 0)
    × (length packet ≡ ntohs_at packet 2)
reply_checks_example = reply_checks 7 0x0100007f 4000 (104 ∷ 105 ∷ []) (ground arith) (omega arith)

abbrev says : CString → Message
says text = record { ip = 0x0100007f; port = 4000; text = text; other = λ i. 0; id = 7 }

abbrev talk : List Message
talk = says (codes "hi") ∷ says (codes "CLOSE") ∷ says (codes "hi") ∷ []

abbrev buffer_of : ℕ → List ℕ
buffer_of zero = []
buffer_of (suc n) = 0 ∷ buffer_of n

length-buffer_of : (n : ℕ) → length (buffer_of n) ≡ n
length-buffer_of zero = refl
length-buffer_of (suc n) = ap suc (length-buffer_of n)

abbrev idle : Server
idle = record { buffer = buffer_of buffer_size; clients = [] }

idle-IsCounting : IsCounting idle (λ ip port. 0)
unfolding IsDistinct find_client
idle-IsCounting = (length-buffer_of buffer_size, tt, λ ip port. refl)

talk-IsSendable : All IsSendable talk
talk-IsSendable = ground arith

serve_counts_example :
    (s' : Server) × (serve (map arrival talk) idle ≡ some (s', all_expected talk (λ ip port. 0)))
    × IsCounting s' (counts_of talk (λ ip port. 0))
serve_counts_example = serve_counts talk (λ ip port. 0) idle talk-IsSendable idle-IsCounting
