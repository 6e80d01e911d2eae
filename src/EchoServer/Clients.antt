-- ===== src/EchoServer/Clients.antt =====
-- module2/cross1/server.c: the list of clients as a map from senders to counts.
use practice2_eltex.Prelude.{
  ℕ, ◌≡◌, refl, sym, ap, ◌∙◌, ◌⊎◌, inl, inr, true, false, none, some, List, [], ◌∷◌, ◌==◌,
  if◌then◌else◌, ==_iff, Bool-cases, option_map, some≢none,
}
use practice2_eltex.EchoServer.{
  add32, ClientEntry, is_client, add_client, find_client, remove_client, count_up,
}

-- The sender that an entry is for, and no other.
pub Key-cases :
    (ip port : ℕ) (c : ClientEntry)
    → ((is_client ip port c ≡ true) × (c.ip ≡ ip) × (c.port ≡ port))
      ⊎ ((is_client ip port c ≡ false) × ¬ ((c.ip ≡ ip) × (c.port ≡ port)))
Key-cases ip port c = elim (Bool-cases (c.ip == ip)) [
  | inl a ↦ elim (Bool-cases (c.port == port)) [
    | inl b ↦ inl (rw (a, b) refl, (==_iff c.ip ip).0 a, (==_iff c.port port).0 b)
    | inr b ↦ inr (rw (a, b) refl, λ h. true≢false (sym ((==_iff c.port port).1 h.1) ∙ b))
  ]
  | inr a ↦ inr (rw a refl, λ h. true≢false (sym ((==_iff c.ip ip).1 h.0) ∙ a))
]
  where
    true≢false : true ≡ false → ⊥
    true≢false e = cc

-- Whether two senders differ.
abbrev pub Differ : ℕ → ℕ → ℕ → ℕ → Type 0
Differ ip port ip' port' = ¬ ((ip ≡ ip') × (port ≡ port'))

-- No sender has two entries.
unfoldable pub IsDistinct : List ClientEntry → Type 0
IsDistinct [] = Unit
IsDistinct (c ∷ cs) = (find_client c.ip c.port cs ≡ none) × IsDistinct cs

find_here :
    (ip port : ℕ) (c : ClientEntry) (cs : List ClientEntry)
    → is_client ip port c ≡ true
    → find_client ip port (c ∷ cs) ≡ some c
unfolding find_client
find_here ip port c cs e = rw e refl

find_on :
    (ip port : ℕ) (c : ClientEntry) (cs : List ClientEntry)
    → is_client ip port c ≡ false
    → find_client ip port (c ∷ cs) ≡ find_client ip port cs
unfolding find_client
find_on ip port c cs e = rw e refl

-- A list that is found in as another is, behind one more entry.
find_congr :
    (ip port : ℕ) (c : ClientEntry) (cs ds : List ClientEntry)
    → find_client ip port cs ≡ find_client ip port ds
    → find_client ip port (c ∷ cs) ≡ find_client ip port (c ∷ ds)
unfolding find_client
find_congr ip port c cs ds e = ap (λ r. if is_client ip port c then some c else r) e

find_nowhere :
    (ip port : ℕ) (c : ClientEntry) (cs : List ClientEntry)
    → find_client ip port (c ∷ cs) ≡ none
    → (is_client ip port c ≡ false) × (find_client ip port cs ≡ none)
find_nowhere ip port c cs e = elim (Bool-cases (is_client ip port c)) [
  | inl t ↦ absurd (some≢none (sym (find_here ip port c cs t) ∙ e))
  | inr f ↦ (f, sym (find_on ip port c cs f) ∙ e)
]

client_self : (c : ClientEntry) → is_client c.ip c.port c ≡ true
client_self c = rw ((==_iff c.ip c.ip).1 refl, (==_iff c.port c.port).1 refl) refl

-- The entry of a sender is for no other.
client_other :
    (ip port ip' port' : ℕ) (c : ClientEntry)
    → Differ ip port ip' port'
    → c.ip ≡ ip
    → c.port ≡ port
    → is_client ip' port' c ≡ false
client_other ip port ip' port' c d a b = elim (Key-cases ip' port' c) [
  | inl (e, a', b') ↦ absurd (d (sym a ∙ a', sym b ∙ b'))
  | inr (e, k) ↦ e
]

pub find_client-add_client :
    (ip port : ℕ) (cs : List ClientEntry)
    → find_client ip port (add_client ip port cs)
      ≡ some (record { ip = ip; port = port; counter = 1 })
unfolding add_client
find_client-add_client ip port cs =
    let c : ClientEntry = record { ip = ip; port = port; counter = 1 } in
    find_here ip port c cs (client_self c)

pub find_client-add_other :
    (ip port ip' port' : ℕ) (cs : List ClientEntry)
    → Differ ip port ip' port'
    → find_client ip' port' (add_client ip port cs) ≡ find_client ip' port' cs
unfolding add_client
find_client-add_other ip port ip' port' cs d =
    let c : ClientEntry = record { ip = ip; port = port; counter = 1 } in
    find_on ip' port' c cs (client_other ip port ip' port' c d refl refl)

-- The entry with one more message.
abbrev pub counted : ClientEntry → ClientEntry
counted c = record c { counter = add32 c.counter 1 }

pub find_client-count_up :
    (ip port : ℕ) (cs : List ClientEntry)
    → find_client ip port (count_up ip port cs) ≡ option_map counted (find_client ip port cs)
unfolding count_up find_client
find_client-count_up ip port [] = refl
find_client-count_up ip port (c ∷ cs) = elim (Bool-cases (is_client ip port c)) [
  | inl e ↦ rw e (rw e refl)
  | inr e ↦ rw e (rw e (find_client-count_up ip port cs))
]

pub find_client-count_other :
    (ip port ip' port' : ℕ) (cs : List ClientEntry)
    → Differ ip port ip' port'
    → find_client ip' port' (count_up ip port cs) ≡ find_client ip' port' cs
unfolding count_up
find_client-count_other ip port ip' port' [] d = refl
find_client-count_other ip port ip' port' (c ∷ cs) d = elim (Key-cases ip port c) [
  | inl (e, a, b) ↦
      let other = client_other ip port ip' port' c d a b in
      rw e (find_on ip' port' (counted c) cs other ∙ sym (find_on ip' port' c cs other))
  | inr (e, k) ↦ rw e (find_congr ip' port' c _ cs (find_client-count_other ip port ip' port' cs d))
]

pub find_client-remove_client :
    (ip port : ℕ) (cs : List ClientEntry)
    → IsDistinct cs
    → find_client ip port (remove_client ip port cs) ≡ none
unfolding remove_client IsDistinct find_client
find_client-remove_client ip port [] d = refl
find_client-remove_client ip port (c ∷ cs) d = elim (Key-cases ip port c) [
  | inl (e, a, b) ↦ rw e (sym (λ i. find_client (a i) (b i) cs) ∙ d.0)
  | inr (e, k) ↦
      rw e
        (find_on ip port c (remove_client ip port cs) e ∙ find_client-remove_client ip port cs d.1)
]

pub find_client-remove_other :
    (ip port ip' port' : ℕ) (cs : List ClientEntry)
    → Differ ip port ip' port'
    → find_client ip' port' (remove_client ip port cs) ≡ find_client ip' port' cs
unfolding remove_client
find_client-remove_other ip port ip' port' [] d = refl
find_client-remove_other ip port ip' port' (c ∷ cs) d = elim (Key-cases ip port c) [
  | inl (e, a, b) ↦ rw e (sym (find_on ip' port' c cs (client_other ip port ip' port' c d a b)))
  | inr (e, k) ↦
      rw e (find_congr ip' port' c _ cs (find_client-remove_other ip port ip' port' cs d))
]

absent-count_up :
    (ip port ip' port' : ℕ) (cs : List ClientEntry)
    → find_client ip' port' cs ≡ none
    → find_client ip' port' (count_up ip port cs) ≡ none
unfolding count_up
absent-count_up ip port ip' port' [] h = h
absent-count_up ip port ip' port' (c ∷ cs) h =
    let (f, tail) = find_nowhere ip' port' c cs h in
    elim (Bool-cases (is_client ip port c)) [
      | inl e ↦ rw e (find_on ip' port' (counted c) cs f ∙ tail)
      | inr e ↦
          rw e (
            find_on ip' port' c (count_up ip port cs) f ∙ absent-count_up ip port ip' port' cs tail)
    ]

absent-remove_client :
    (ip port ip' port' : ℕ) (cs : List ClientEntry)
    → find_client ip' port' cs ≡ none
    → find_client ip' port' (remove_client ip port cs) ≡ none
unfolding remove_client
absent-remove_client ip port ip' port' [] h = h
absent-remove_client ip port ip' port' (c ∷ cs) h =
    let (f, tail) = find_nowhere ip' port' c cs h in
    elim (Bool-cases (is_client ip port c)) [
      | inl e ↦ rw e tail
      | inr e ↦ rw e (
          find_on ip' port' c (remove_client ip port cs) f
          ∙ absent-remove_client ip port ip' port' cs tail)
    ]

pub add_client-IsDistinct :
    (ip port : ℕ) (cs : List ClientEntry)
    → find_client ip port cs ≡ none
    → IsDistinct cs
    → IsDistinct (add_client ip port cs)
unfolding add_client IsDistinct
add_client-IsDistinct ip port cs h d = (h, d)

pub count_up-IsDistinct :
    (ip port : ℕ) (cs : List ClientEntry) → IsDistinct cs → IsDistinct (count_up ip port cs)
unfolding count_up IsDistinct
count_up-IsDistinct ip port [] d = tt
count_up-IsDistinct ip port (c ∷ cs) d = elim (Bool-cases (is_client ip port c)) [
  | inl e ↦ rw e d
  | inr e ↦ rw e (absent-count_up ip port c.ip c.port cs d.0, count_up-IsDistinct ip port cs d.1)
]

pub remove_client-IsDistinct :
    (ip port : ℕ) (cs : List ClientEntry) → IsDistinct cs → IsDistinct (remove_client ip port cs)
unfolding remove_client IsDistinct
remove_client-IsDistinct ip port [] d = tt
remove_client-IsDistinct ip port (c ∷ cs) d = elim (Bool-cases (is_client ip port c)) [
  | inl e ↦ rw e d.1
  | inr e ↦
      rw e
        (absent-remove_client ip port c.ip c.port cs d.0, remove_client-IsDistinct ip port cs d.1)
]
