-- ===== src/ChatServer/PollPass.antt =====
-- module1/task7/server.c: the pass over pollfds, when every send succeeds.
use practice2_eltex.Prelude.{
  ℕ, suc, ◌+◌, ◌<◌, ◌≡◌, refl, sym, ap, subst, ◌∙◌, inl, inr, Bool, true, false, Option, none, some,
  List, [], ◌∷◌, arith, if◌then◌else◌, length, length-set, get_or, get_or-set_self, >>=-eq-some,
  some≢none, some_inj, option_map-eq-some,
}
use practice2_eltex.Prelude.Arrays.{find_index}
use practice2_eltex.ChatServer.{
  Client, no_client, Effect, Server, process_client, is_free, is_fd, has_fd,
}
use practice2_eltex.ChatServer.Loop.{Ready, serve_at, poll_client, keeping, poll_clients}
use practice2_eltex.ChatServer.Delivery.{Succeeds}
use practice2_eltex.ChatServer.Slots.{
  taken_slots, taken_slots-set, taken_slots-free, find_index_holds,
}
use practice2_eltex.ChatServer.Polling.{client_keeps}

abbrev gone : Option ℕ → ℕ
gone none = 1
gone (some fd) = 0

-- A step on the clients that frees as many slots as it says.
abbrev Frees : ℕ → Server → Server → Type 0
Frees n s s' =
    (taken_slots s'.clients + n ≡ taken_slots s.clients)
    × (length s'.clients ≡ length s.clients)
    × Succeeds s'.sends

not_free :
    (fd : ℕ) (o : Option ℕ) → is_fd fd o ≡ true → elim o [ none ↦ true | some fd' ↦ false ] ≡ false
not_free fd none e = cc
not_free fd (some fd') e = refl

abbrev slot_of : Bool → ℕ → Option ℕ
slot_of b fd = if b then none else some fd

-- The step of poll_client for a descriptor whose client stands at index.
served-Frees :
    (fd index : ℕ) (reading : Option (List ℕ)) (s s' : Server) (effects : List Effect)
    → Succeeds s.sends
    → index < length s.clients
    → is_free (get_or s.clients index no_client) ≡ false
    → process_client index reading s ≡ some (s', effects)
    → Frees (gone (slot_of (is_free (get_or s'.clients index no_client)) fd)) s s'
served-Frees fd index reading s s' effects ok lt busy e =
    elim (client_keeps index reading s s' effects ok lt e) [
      | inl (c, left, same_fd, ok') ↦
          let kind : is_free c ≡ is_free (get_or s.clients index no_client) =
            ap (λ o. elim o [ none ↦ true | some fd' ↦ false ]) same_fd in
          let still : is_free (get_or s'.clients index no_client) ≡ false =
            ap (λ cs. is_free (get_or cs index no_client)) left
            ∙ ap is_free (get_or-set_self s.clients index c no_client lt)
            ∙ kind
            ∙ busy in
          (
            rw still (omega (arith, ap taken_slots left, taken_slots-set s.clients index c kind)),
            ap length left ∙ length-set s.clients index c,
            ok',
          )
      | inr (left, ok') ↦
          let free : is_free (get_or s'.clients index no_client) ≡ true =
            ap (λ cs. is_free (get_or cs index no_client)) left
            ∙ ap is_free (get_or-set_self s.clients index no_client no_client lt) in
          (
            rw free (omega (arith, ap taken_slots left, taken_slots-free s.clients index busy)),
            ap length left ∙ length-set s.clients index no_client,
            ok',
          )
    ]

serve_at-Frees :
    (fd : ℕ) (reading : Option (List ℕ)) (o : Option ℕ) (s s' : Server) (kept : Option ℕ)
    (effects : List Effect)
    → Succeeds s.sends
    → ((i : ℕ)
        → o ≡ some i
        → (i < length s.clients) × (is_free (get_or s.clients i no_client) ≡ false))
    → serve_at fd reading o s ≡ some (kept, s', effects)
    → Frees (gone kept) s s'
unfolding serve_at
serve_at-Frees fd reading none s s' kept effects ok there e =
    subst (λ q. Frees (gone q.0) s q.1) (some_inj e) (omega arith, refl, ok)
serve_at-Frees fd reading (some index) s s' kept effects ok there e =
    let (lt, busy) = there index refl in
    let ((s1, e1), run, same) = option_map-eq-some _ (process_client index reading s) e in
    subst (λ q. Frees (gone q.0) s q.1) same (served-Frees fd index reading s s1 e1 ok lt busy run)

-- What find_index gives is a connection.
found_busy :
    (fd : ℕ) (ready : Bool) (cs : List Client) (i : ℕ)
    → (if ready then find_index (has_fd fd) cs else none) ≡ some i
    → (i < length cs) × (is_free (get_or cs i no_client) ≡ false)
found_busy fd true cs i e =
    let (lt, holds) = find_index_holds (has_fd fd) cs i e in
    (lt, not_free fd (get_or cs i no_client).fd holds)
found_busy fd false cs i e = absurd (some≢none (sym e))

poll_client-Frees :
    (fd : ℕ) (r : Ready) (s s' : Server) (kept : Option ℕ) (effects : List Effect)
    → Succeeds s.sends
    → poll_client fd r s ≡ some (kept, s', effects)
    → Frees (gone kept) s s'
unfolding poll_client
poll_client-Frees fd (ready, reading) s s' kept effects ok e =
    serve_at-Frees fd reading (if ready then find_index (has_fd fd) s.clients else none) s s' kept
      effects ok (found_busy fd ready s.clients) e

length-keeping :
    (kept : Option ℕ) (fds : List ℕ) → length (keeping kept fds) + gone kept ≡ suc (length fds)
length-keeping none fds = omega arith
length-keeping (some fd) fds = omega arith

-- The pass over pollfds drops as many descriptors as it frees slots.
pub poll_clients_lem :
    (fds fds' : List ℕ) (rs : List Ready) (s s' : Server) (effects : List Effect)
    → Succeeds s.sends
    → poll_clients fds rs s ≡ some (fds', s', effects)
    → (length fds' + taken_slots s.clients ≡ length fds + taken_slots s'.clients)
      × (length s'.clients ≡ length s.clients)
      × Succeeds s'.sends
unfolding poll_clients
poll_clients_lem [] fds' rs s s' effects ok e =
    subst
      (λ q.
        (length q.0 + taken_slots s.clients ≡ 0 + taken_slots q.1.clients)
        × (length q.1.clients ≡ length s.clients)
        × Succeeds q.1.sends)
      (some_inj e) (refl, refl, ok)
poll_clients_lem (fd ∷ fds) fds' [] s s' effects ok e =
    subst
      (λ q.
        (length q.0 + taken_slots s.clients ≡ length (fd ∷ fds) + taken_slots q.1.clients)
        × (length q.1.clients ≡ length s.clients)
        × Succeeds q.1.sends)
      (some_inj e) (refl, refl, ok)
poll_clients_lem (fd ∷ fds) fds' (r ∷ rs) s s' effects ok e =
    let ((kept, s1, e1), run, rest) = >>=-eq-some (poll_client fd r s) _ e in
    let ((fds2, s2, more), run2, same) = option_map-eq-some _ (poll_clients fds rs s1) rest in
    let (slots1, length1, ok1) = poll_client-Frees fd r s s1 kept e1 ok run in
    let (slots2, length2, ok2) = poll_clients_lem fds fds2 rs s1 s2 more ok1 run2 in
    subst
      (λ q.
        (length q.0 + taken_slots s.clients ≡ length (fd ∷ fds) + taken_slots q.1.clients)
        × (length q.1.clients ≡ length s.clients)
        × Succeeds q.1.sends)
      same (omega (arith, slots1, slots2, length-keeping kept fds2), length2 ∙ length1, ok2)
