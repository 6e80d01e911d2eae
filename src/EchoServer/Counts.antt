-- ===== src/EchoServer/Counts.antt =====
-- module2/cross1/server.c: the clients as a count of messages for each sender.
use practice2_eltex.Prelude.{
  ℕ, zero, suc, ◌%◌, ◌^◌, ◌≡◌, refl, sym, ap, ◌∙◌, ◌⊎◌, inl, inr, Bool, true, false, ◌&&◌, Option,
  none, some, List, arith, ◌==◌, if◌then◌else◌, Option-cases, option_map,
}
use practice2_eltex.Prelude.Strings.{str_eqb}
use practice2_eltex.EchoServer.{
  add32, ClientEntry, find_client, remove_client, count_message, htons, close_text,
}
use practice2_eltex.EchoServer.Clients.{
  Key-cases, Differ, IsDistinct, find_client-add_client, find_client-add_other, counted,
  find_client-count_up, find_client-count_other, find_client-remove_client,
  find_client-remove_other, add_client-IsDistinct, count_up-IsDistinct,
}
use practice2_eltex.EchoServer.Datagram.{Message}

-- The messages of each sender since it last closed; a port stands as it does in a packet.
abbrev pub Counts : Type 0
Counts = ℕ → ℕ → ℕ

abbrev pub is_from : Message → ℕ → ℕ → Bool
is_from m ip port = ip == m.ip && (port == htons m.port)

abbrev pub counts_after : Message → Counts → Counts
counts_after m f ip port =
    if is_from m ip port
    then (if str_eqb m.text close_text then 0 else suc (f ip port))
    else f ip port

abbrev pub entry : ℕ → ℕ → ℕ → Option ClientEntry
entry ip port zero = none
entry ip port (suc n) = some (record { ip = ip; port = port; counter = suc n % 2 ^ 32 })

-- The list of clients is what the counts say.
abbrev pub Matches : List ClientEntry → Counts → Type 0
Matches cs f = (ip port : ℕ) → find_client ip port cs ≡ entry ip port (f ip port)

-- The counts after a message, for its sender and for every other.
counts_cases :
    (m : Message) (f : Counts) (ip port : ℕ)
    → ((ip ≡ m.ip)
        × (port ≡ htons m.port)
        × (counts_after m f ip port ≡ (if str_eqb m.text close_text then 0 else suc (f ip port))))
      ⊎ (Differ m.ip (htons m.port) ip port × (counts_after m f ip port ≡ f ip port))
counts_cases m f ip port =
    elim (Key-cases m.ip (htons m.port) (record { ip = ip; port = port; counter = 0 })) [
      | inl (e, a, b) ↦ inl (a, b, rw e refl)
      | inr (e, k) ↦ inr ((λ h. k (sym h.0, sym h.1)), rw e refl)
    ]

-- A message that closes.
pub close_lem :
    (m : Message) (f : Counts) (cs : List ClientEntry)
    → str_eqb m.text close_text ≡ true
    → IsDistinct cs
    → Matches cs f
    → Matches (remove_client m.ip (htons m.port) cs) (counts_after m f)
close_lem m f cs e d h ip port = elim (counts_cases m f ip port) [
  | inl (a, b, v) ↦
      let here : remove_client m.ip (htons m.port) cs ≡ remove_client ip port cs =
        λ i. remove_client (sym a i) (sym b i) cs in
      ap (find_client ip port) here
      ∙ find_client-remove_client ip port cs d
      ∙ ap (entry ip port) (sym (v ∙ ap (λ t. if t then 0 else suc (f ip port)) e))
  | inr (k, v) ↦
      find_client-remove_other m.ip (htons m.port) ip port cs k
      ∙ h ip port
      ∙ ap (entry ip port) (sym v)
]

counted-entry :
    (ip port n : ℕ) → option_map counted (entry ip port (suc n)) ≡ entry ip port (suc (suc n))
counted-entry ip port n =
    let next : add32 (suc n % 2 ^ 32) 1 ≡ suc (suc n) % 2 ^ 32 = omega arith in
    let with : ℕ → Option ClientEntry = λ k. some (record { ip = ip; port = port; counter = k }) in
    ap with next

-- What count_message does to the entry of the sender.
pub find_client-count_message :
    (ip port n : ℕ) (cs : List ClientEntry)
    → find_client ip port cs ≡ entry ip port n
    → find_client ip port (count_message ip port cs) ≡ entry ip port (suc n)
unfolding count_message
find_client-count_message ip port zero cs h =
    rw (h, count_message) (find_client-add_client ip port cs)
find_client-count_message ip port (suc n) cs h =
    rw (h, count_message)
      (find_client-count_up ip port cs ∙ ap (option_map counted) h ∙ counted-entry ip port n)

count_message-other :
    (ip port ip' port' : ℕ) (cs : List ClientEntry)
    → Differ ip port ip' port'
    → find_client ip' port' (count_message ip port cs) ≡ find_client ip' port' cs
unfolding count_message
count_message-other ip port ip' port' cs k = elim (Option-cases (find_client ip port cs)) [
  | inl e ↦ rw (e, count_message) (find_client-add_other ip port ip' port' cs k)
  | inr (c, e) ↦ rw (e, count_message) (find_client-count_other ip port ip' port' cs k)
]

pub count_message-IsDistinct :
    (ip port : ℕ) (cs : List ClientEntry) → IsDistinct cs → IsDistinct (count_message ip port cs)
unfolding count_message
count_message-IsDistinct ip port cs d = elim (Option-cases (find_client ip port cs)) [
  | inl e ↦ rw (e, count_message) (add_client-IsDistinct ip port cs e d)
  | inr (c, e) ↦ rw (e, count_message) (count_up-IsDistinct ip port cs d)
]

-- A message that is counted.
pub count_lem :
    (m : Message) (f : Counts) (cs : List ClientEntry)
    → str_eqb m.text close_text ≡ false
    → Matches cs f
    → Matches (count_message m.ip (htons m.port) cs) (counts_after m f)
count_lem m f cs e h ip port = elim (counts_cases m f ip port) [
  | inl (a, b, v) ↦
      let here : count_message m.ip (htons m.port) cs ≡ count_message ip port cs =
        λ i. count_message (sym a i) (sym b i) cs in
      ap (find_client ip port) here
      ∙ find_client-count_message ip port (f ip port) cs (h ip port)
      ∙ ap (entry ip port) (sym (v ∙ ap (λ t. if t then 0 else suc (f ip port)) e))
  | inr (k, v) ↦
      count_message-other m.ip (htons m.port) ip port cs k ∙ h ip port ∙ ap (entry ip port) (sym v)
]
