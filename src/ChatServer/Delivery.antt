-- ===== src/ChatServer/Delivery.antt =====
-- module1/task7/server.c: what reaches the other clients when every send succeeds.
use practice2_eltex.Prelude.{
  ℕ, zero, suc, ◌≡◌, refl, sym, ap, ◌∙◌, ◌≢◌, inl, inr, Bool, true, false, Option, none, some, List,
  [], ◌∷◌, ◌++◌, arith, ◌==◌, if◌then◌else◌, Bool-cases, set, get_or, option_map,
}
use practice2_eltex.Prelude.Slices.{append_assoc, append_nil}
use practice2_eltex.ChatServer.{
  Client, no_client, Effect, close_fd, send_to, receives, is_receiver, round, Server, handed,
  broadcast_message, broadcast_all, descriptor, process_loop, is_fd, has_fd,
}
use practice2_eltex.ChatServer.Stream.{flat}

abbrev pub Succeeds : (ℕ → Bool) → Type 0
Succeeds sends = (n : ℕ) → sends n ≡ true

abbrev pub sent_in : ℕ → Effect → List ℕ
sent_in fd (close_fd fd') = []
sent_in fd (send_to fd' msg) = if fd' == fd then msg else []

-- The bytes that are handed to a descriptor, in order.
unfoldable pub sent_to : ℕ → List Effect → List ℕ
sent_to fd [] = []
sent_to fd (e ∷ es) = sent_in fd e ++ sent_to fd es

pub sent_to-append :
    (fd : ℕ) (es es' : List Effect) → sent_to fd (es ++ es') ≡ sent_to fd es ++ sent_to fd es'
unfolding sent_to
sent_to-append fd [] es' = refl
sent_to-append fd (e ∷ es) es' =
    ap (λ l. sent_in fd e ++ l) (sent_to-append fd es es')
    ∙ sym (append_assoc (sent_in fd e) (sent_to fd es) (sent_to fd es'))

-- The clients of a descriptor.
unfoldable pub listeners : ℕ → List Client → ℕ
listeners fd [] = 0
listeners fd (c ∷ cs) = let rest = listeners fd cs in if has_fd fd c then suc rest else rest

abbrev copies : ℕ → List ℕ → List ℕ
copies zero msg = []
copies (suc n) msg = msg ++ copies n msg

unheard :
    (sender fd : ℕ) (o : Option ℕ) → receives sender o ≡ false → fd ≢ sender → is_fd fd o ≡ false
unheard sender fd none r n = refl
unheard sender fd (some fd') r n = ground (arith, r, n)

heard :
    (sender fd : ℕ) (o : Option ℕ) (msg : List ℕ) (n : ℕ)
    → receives sender o ≡ true
    → sent_to fd (handed o msg) ++ copies n msg ≡ copies (if is_fd fd o then suc n else n) msg
unfolding sent_to
heard sender fd none msg n r = absurd (false≢true r)
  where
    false≢true : false ≡ true → ⊥
    false≢true e = cc
heard sender fd (some fd') msg n r = elim (Bool-cases (fd' == fd)) [
  | inl e ↦ rw e (ap (λ l. l ++ copies n msg) (append_nil msg))
  | inr e ↦ rw e refl
]

-- A broadcast leaves the clients as they are, and reaches each listener but the sender.
broadcast_lem :
    (msg : List ℕ) (sender : ℕ) (cs : List Client) (sends : ℕ → Bool)
    → Succeeds sends
    → let (cs', sends', effects) = broadcast_message msg sender cs sends in
      (cs' ≡ cs)
      × Succeeds sends'
      × ((fd : ℕ) → fd ≢ sender → sent_to fd effects ≡ copies (listeners fd cs) msg)
unfolding broadcast_message sent_to listeners
broadcast_lem msg sender [] sends h = (refl, h, λ fd n. refl)
broadcast_lem msg sender (c ∷ cs) sends h = elim (Bool-cases (is_receiver sender c)) [
  | inl r ↦
      let (same, still, out) = broadcast_lem msg sender cs (λ n. sends (suc n)) (λ n. h (suc n)) in
      rw (r, h 0)
        (
          ap (λ l. c ∷ l) same,
          still,
          λ fd n.
              ap (λ l. sent_to fd (l ++ (broadcast_message msg sender cs (λ n. sends (suc n))).2))
                (append_nil (handed c.fd msg))
              ∙ sent_to-append fd (handed c.fd msg)
                  (broadcast_message msg sender cs (λ n. sends (suc n))).2
              ∙ ap (λ l. sent_to fd (handed c.fd msg) ++ l) (out fd n)
              ∙ heard sender fd c.fd msg (listeners fd cs) r,
        )
  | inr r ↦
      let (same, still, out) = broadcast_lem msg sender cs sends h in
      rw r (ap (λ l. c ∷ l) same, still, λ fd n. rw (unheard sender fd c.fd r n) (out fd n))
]

one_copy : (msg : List ℕ) (n : ℕ) → n ≡ 1 → copies n msg ≡ msg
one_copy msg n e = ap (λ k. copies k msg) e ∙ append_nil msg

-- The broadcasts of a round, to one listener.
pub broadcast_all_lem :
    (msgs : List (List ℕ)) (sender : ℕ) (s : Server)
    → Succeeds s.sends
    → let (s', effects) = broadcast_all msgs sender s in
      (s'.clients ≡ s.clients)
      × Succeeds s'.sends
      × ((fd : ℕ) → fd ≢ sender → listeners fd s.clients ≡ 1 → sent_to fd effects ≡ flat msgs)
unfolding broadcast_all flat sent_to
broadcast_all_lem [] sender s h = (refl, h, λ fd n l. refl)
broadcast_all_lem (msg ∷ msgs) sender s h =
    let (same, still, out) = broadcast_lem msg sender s.clients s.sends h in
    let (cs, sends, effects) = broadcast_message msg sender s.clients s.sends in
    let (same', still', out') =
      broadcast_all_lem msgs sender (record { clients = cs; sends = sends }) still in
    (
      same' ∙ same,
      still',
      λ fd n l.
          sent_to-append fd effects _
          ∙ (λ i. (out fd n ∙ one_copy msg _ l) i ++ out' fd n (ap (listeners fd) same ∙ l) i),
    )

pub listeners-set :
    (fd : ℕ) (cs : List Client) (i : ℕ) (c : Client)
    → c.fd ≡ (get_or cs i no_client).fd
    → listeners fd (set cs i c) ≡ listeners fd cs
unfolding listeners
listeners-set fd [] i c e = refl
listeners-set fd (d ∷ cs) zero c e =
    ap (λ o. if is_fd fd o then suc (listeners fd cs) else listeners fd cs) e
listeners-set fd (d ∷ cs) (suc i) c e =
    ap (λ n. if has_fd fd d then suc n else n) (listeners-set fd cs i c e)

pub loop_end :
    (fuel index : ℕ) (s : Server) (c : Client)
    → get_or s.clients index no_client ≡ c
    → round c ≡ some none
    → process_loop (suc fuel) index s ≡ some (s, [])
unfolding process_loop
loop_end fuel index s c g e = rw (g, e, process_loop) refl

-- A round of the loop, and the rounds behind it.
abbrev pub followed : List Effect → Server × List Effect → Server × List Effect
followed effects (s, more) = (s, effects ++ more)

pub loop_on :
    (fuel index : ℕ) (s : Server) (c c' : Client) (out : List (List ℕ))
    → get_or s.clients index no_client ≡ c
    → round c ≡ some (some (c', out))
    → let (s', effects) = broadcast_all out (descriptor c'.fd) s in
      process_loop (suc fuel) index s
      ≡ option_map
          (followed effects)
          (process_loop fuel index (record s' { clients = set s'.clients index c' }))
unfolding process_loop
loop_on fuel index s c c' out g e = rw (g, e, process_loop) refl
