-- ===== src/ChatServer/Polling.antt =====
-- module1/task7/server.c: the descriptors that main polls, when every send succeeds.
use practice2_eltex.Prelude.{
  ℕ, zero, suc, ◌-◌, ◌<◌, ◌≡◌, refl, sym, ap, subst, ◌∙◌, ◌⊎◌, inl, inr, Bool, Option, none, some,
  List, ◌++◌, arith, ◌==◌, if◌then◌else◌, Bool-cases, length, set, length-set, get_or, take,
  get_or-set_self, some≢none, some_inj, option_map-eq-some,
}
use practice2_eltex.ChatServer.{
  buffer_size, Client, no_client, Effect, round, Server, broadcast_all, descriptor, process_loop,
  remove_client, process_client,
}
use practice2_eltex.ChatServer.Stream.{Round-cases}
use practice2_eltex.ChatServer.Rounds.{left}
use practice2_eltex.ChatServer.Delivery.{Succeeds, broadcast_all_lem, loop_end, followed, loop_on}
use practice2_eltex.ChatServer.Reading.{set_twice, set_same}
use practice2_eltex.ChatServer.Transfer.{round-fd}

-- What process_client leaves at its index: the connection, or no client.
abbrev pub Kept : ℕ → Server → Server → Type 0
Kept index s s' =
    (c : Client) × (s'.clients ≡ set s.clients index c)
    × (c.fd ≡ (get_or s.clients index no_client).fd)
    × Succeeds s'.sends

loop_fault :
    (fuel index : ℕ) (s : Server)
    → round (get_or s.clients index no_client) ≡ none
    → process_loop (suc fuel) index s ≡ none
unfolding process_loop
loop_fault fuel index s e = rw (e, process_loop) refl

loop_keeps :
    (fuel index : ℕ) (s s' : Server) (effects : List Effect)
    → Succeeds s.sends
    → index < length s.clients
    → process_loop fuel index s ≡ some (s', effects)
    → Kept index s s'
unfolding process_loop
loop_keeps zero index s s' effects ok lt e = absurd (some≢none (sym e))
loop_keeps (suc fuel) index s s' effects ok lt e =
    let c = get_or s.clients index no_client in
    elim (Round-cases c) [
      | inl r ↦ absurd (some≢none (sym e ∙ loop_fault fuel index s r))
      | inr (inl r) ↦
          let same : s ≡ s' = ap (λ q. q.0) (some_inj (sym (loop_end fuel index s c refl r) ∙ e)) in
          (
            c,
            ap (λ x. x.clients) (sym same) ∙ sym (set_same s.clients index),
            refl,
            subst (λ x. Succeeds x.sends) same ok,
          )
      | inr (inr (c1, o, r)) ↦
          let (same_clients, still, heard) = broadcast_all_lem o (descriptor c1.fd) s ok in
          let (sb, first) = broadcast_all o (descriptor c1.fd) s in
          let lt1 : index < length sb.clients = omega (arith, lt, ap length same_clients) in
          let s1 : Server = record sb { clients = set sb.clients index c1 } in
          let ((s2, more), run, same) =
            option_map-eq-some (followed first) (process_loop fuel index s1)
              (sym (loop_on fuel index s c c1 o refl r) ∙ e) in
          let (c2, left2, fd2, ok2) =
            loop_keeps fuel index s1 s2 more still
              (omega (arith, lt1, length-set sb.clients index c1)) run in
          (
            c2,
            ap (λ q. q.0.clients) (sym same)
                ∙ left2
                ∙ set_twice sb.clients index c1 c2
                ∙ ap (λ cs. set cs index c2) same_clients,
            fd2
                ∙ ap (λ x. x.fd) (get_or-set_self sb.clients index c1 no_client lt1)
                ∙ round-fd c c1 o r,
            subst (λ x. Succeeds x.0.sends) same ok2,
          )
    ]

-- What process_client leaves: the connection, or a free slot.
pub client_keeps :
    (index : ℕ) (reading : Option (List ℕ)) (s s' : Server) (effects : List Effect)
    → Succeeds s.sends
    → index < length s.clients
    → process_client index reading s ≡ some (s', effects)
    → Kept index s s' ⊎ ((s'.clients ≡ set s.clients index no_client) × Succeeds s'.sends)
unfolding process_client remove_client
client_keeps index none s s' effects ok lt e =
    let same = some_inj e in
    inr (ap (λ q. q.0.clients) (sym same), subst (λ q. Succeeds q.0.sends) same ok)
client_keeps index (some bytes) s s' effects ok lt e =
    let c = get_or s.clients index no_client in
    let got = take (buffer_size - length c.buffer) bytes in
    let c' : Client = record c { buffer = c.buffer ++ got } in
    let s1 : Server = record s { clients = set s.clients index c' } in
    let fuel = suc (length (c.buffer ++ got)) in
    let pick : Bool → Option (Server × List Effect) =
      λ b. if b then some (remove_client index s) else process_loop fuel index s1 in
    elim (Bool-cases (length got == 0)) [
      | inl b ↦
          let same = some_inj (sym (ap pick b) ∙ e) in
          inr (ap (λ q. q.0.clients) (sym same), subst (λ q. Succeeds q.0.sends) same ok)
      | inr b ↦
          let (c2, left, fd, ok2) =
            loop_keeps fuel index s1 s' effects ok
              (omega (arith, lt, length-set s.clients index c')) (sym (ap pick b) ∙ e) in
          inl (
            c2,
            left ∙ set_twice s.clients index c' c2,
            fd ∙ ap (λ x. x.fd) (get_or-set_self s.clients index c' no_client lt),
            ok2,
          )
    ]
