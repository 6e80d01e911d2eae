-- ===== src/Broker/Messages.antt =====
-- module1/task2/broker_pubsub.c: the broker reads what publishers and subscribers write.
use practice2_eltex.Prelude.{
  ℕ, zero, suc, ◌+◌, ◌-◌, ◌*◌, ◌/◌, ◌%◌, ◌^◌, ◌≤◌, ◌<◌, ◌≡◌, refl, sym, ap, subst, ◌∙◌, ◌≢◌, inl,
  inr, Bool, true, false, not, ◌||◌, Option, none, some, [], ◌∷◌, ◌++◌, arith, ltb, ◌==◌,
  if◌then◌else◌, Bool-cases, length, length-append, All, All-append, All-imp, List-cases, ◌>>=◌,
}
use practice2_eltex.Prelude.Strings.{CString, codes}
use practice2_eltex.Prelude.Print.{digits, print_int, value, value-digits, length-print_int}
use practice2_eltex.Prelude.Scan.{
  is_space, is_digit, scan_literal, scan_digits, scan_number, scan_int, take_while, non_empty,
  scan_set,
}
use practice2_eltex.Prelude.Int.{ℤ, pos}
use practice2_eltex.Broker.{subscribe, unsubscribe, send, scan_topic_command, scan_send, parse}
use practice2_eltex.Broker.Peers.{publication, topic_request}
use practice2_eltex.Prelude.Slices.{take_beyond, append_nil}

abbrev IsDigit : ℕ → Type 0
IsDigit c = is_digit c ≡ true

-- A text that does not begin with a digit.
abbrev Stops : CString → Type 0
Stops [] = Unit
Stops (c ∷ s) = is_digit c ≡ false

scan_digits_lem :
    (acc : ℕ) (s rest : CString)
    → All IsDigit s
    → Stops rest
    → scan_digits acc (s ++ rest) ≡ (value acc s, rest)
unfolding scan_digits value
scan_digits_lem acc [] [] h k = refl
scan_digits_lem acc [] (c ∷ rest) h k = rw k refl
scan_digits_lem acc (c ∷ s) rest h k = rw h.0 (scan_digits_lem (acc * 10 + (c - b'0')) s rest h.1 k)

digits-IsDigit : (fuel n : ℕ) → All IsDigit (digits fuel n)
unfolding digits
digits-IsDigit zero n = tt
digits-IsDigit (suc fuel) n =
    let last : is_digit (b'0' + n % 10) ≡ true = ground arith in
    elim (Bool-cases (ltb n 10)) [
      | inl e ↦ rw e (last, tt)
      | inr e ↦ rw e (
          All-append IsDigit (digits fuel (n / 10)) ((b'0' + n % 10) ∷ [])
            (digits-IsDigit fuel (n / 10)) (last, tt))
    ]

scan_int_lem :
    (c : ℕ) (s rest : CString)
    → All IsDigit (c ∷ s)
    → Stops rest
    → scan_int (c ∷ (s ++ rest)) ≡ some (pos (value 0 (c ∷ s)), rest)
unfolding scan_int scan_number value
scan_int_lem c s rest h k =
    let no_space : is_space c ≡ false = ground (arith, h.0) in
    let no_minus : (c == b'-') ≡ false = ground (arith, h.0) in
    let no_plus : (c == b'+') ≡ false = ground (arith, h.0) in
    rw (no_space, no_minus, no_plus, h.0)
      (ap (λ r. some (pos r.0, r.1)) (scan_digits_lem (0 * 10 + (c - b'0')) s rest h.1 k))

digits-cons : (fuel n : ℕ) → (c : ℕ) × (s : CString) × (digits (suc fuel) n ≡ c ∷ s)
unfolding digits
digits-cons fuel n = elim (List-cases (if ltb n 10 then [] else digits fuel (n / 10))) [
  | inl e ↦ (b'0' + n % 10, [], ap (λ l. l ++ (b'0' + n % 10) ∷ []) e)
  | inr (c, s, e) ↦ (c, s ++ (b'0' + n % 10) ∷ [], ap (λ l. l ++ (b'0' + n % 10) ∷ []) e)
]

-- The number that %d prints is the number that %d scans.
scan_int-print_int :
    (pid : ℕ) (rest : CString)
    → pid < 2 ^ 31
    → Stops rest
    → scan_int (print_int pid ++ rest) ≡ some (pos pid, rest)
unfolding print_int
scan_int-print_int pid rest h k =
    let small : ltb pid (2 ^ 31) ≡ true = ground (arith, h) in
    let (c, s, e) = digits-cons 9 pid in
    let all = subst (All IsDigit) e (digits-IsDigit 10 pid) in
    let read : value 0 (c ∷ s) ≡ pid =
      ap (value 0) (sym e) ∙ value-digits 10 pid (omega (arith, h)) in
    rw small (
      ap (λ l. scan_int (l ++ rest)) e
      ∙ scan_int_lem c s rest all k
      ∙ ap (λ n. some (pos n, rest)) read)

-- A text where a run of bytes that satisfy p ends.
abbrev Halts : (ℕ → Bool) → CString → Type 0
Halts p [] = Unit
Halts p (c ∷ s) = p c ≡ false

take_while_lem :
    (n : ℕ) (p : ℕ → Bool) (s rest : CString)
    → All (λ c. p c ≡ true) s
    → length s ≤ n
    → Halts p rest
    → take_while n p (s ++ rest) ≡ (s, rest)
unfolding take_while
take_while_lem zero p [] rest h l k = refl
take_while_lem zero p (c ∷ s) rest h l k = absurd (omega (arith, l))
take_while_lem (suc n) p [] [] h l k = refl
take_while_lem (suc n) p [] (c ∷ rest) h l k = rw k refl
take_while_lem (suc n) p (c ∷ s) rest h l k =
    rw h.0 (ap (λ r. (c ∷ r.0, r.1)) (take_while_lem n p s rest h.1 (omega (arith, l)) k))

scan_set_lem :
    (n : ℕ) (p : ℕ → Bool) (s rest : CString)
    → All (λ c. p c ≡ true) s
    → 0 < length s
    → length s ≤ n
    → Halts p rest
    → scan_set n p (s ++ rest) ≡ some (s, rest)
unfolding scan_set
scan_set_lem n p [] rest h z l k = absurd (omega (arith, z))
scan_set_lem n p (c ∷ s) rest h z l k = ap non_empty (take_while_lem n p (c ∷ s) rest h l k)

-- A topic that the formats of the broker take whole.
abbrev pub IsTopic : CString → Type 0
IsTopic topic = All (λ c. (c ≢ b',') × (c ≢ b'\n')) topic × (0 < length topic) × (length topic ≤ 63)

abbrev pub IsLine : CString → Type 0
IsLine input = All (λ c. c ≢ b'\n') input × (0 < length input)

other_than : (c d : ℕ) → c ≢ d → not (c == d) ≡ true
other_than c d h = ground (arith, h)

neither : (c d e : ℕ) → c ≢ d → c ≢ e → not (c == d || c == e) ≡ true
neither c d e h k = ground (arith, h, k)

parse_send :
    (text : CString) (r : ℤ × CString × CString)
    → scan_topic_command (codes "subscribe,") text ≡ none
    → scan_topic_command (codes "unsubscribe,") text ≡ none
    → scan_send text ≡ some r
    → parse text ≡ send r.0 r.1 r.2
unfolding parse
parse_send text r a b e = rw (a, b, e, parse) refl

bind_some :
    {A : Type 0} {B : Type 0} (m : Option A) (a : A) (f : A → Option B) (r : Option B)
    → m ≡ some a
    → f a ≡ r
    → (m >>= f) ≡ r
bind_some m a f r e h = ap (λ o. o >>= f) e ∙ h

scan_send_lem :
    (pid : ℕ) (topic input : CString)
    → pid < 2 ^ 31
    → IsTopic topic
    → IsLine input
    → scan_send (codes "send," ++ (print_int pid ++ (b',' ∷ topic ++ (b',' ∷ input))))
      ≡ some (pos pid, topic, input)
unfolding scan_send scan_literal
scan_send_lem pid topic input h t l =
    let number = scan_int-print_int pid (b',' ∷ topic ++ (b',' ∷ input)) h refl in
    let name =
      scan_set_lem 63 (λ c. not (c == b',')) topic (b',' ∷ input)
        (All-imp _ _ (λ c k. other_than c b',' k.0) topic t.0) t.1 t.2 refl in
    let text =
      ap (scan_set (length input) (λ c. not (c == b'\n'))) (sym (append_nil input))
      ∙ scan_set_lem (length input) (λ c. not (c == b'\n')) input []
          (All-imp _ _ (λ c k. other_than c b'\n' k) input l.0) l.1 (omega arith) tt in
    bind_some _ _ _ _ number (bind_some _ _ _ _ name (bind_some _ _ _ _ text refl))

parse-publication :
    (pid : ℕ) (topic input : CString)
    → pid < 2 ^ 31
    → IsTopic topic
    → IsLine input
    → length topic + length input ≤ 1000
    → parse (publication pid topic input) ≡ send (pos pid) topic input
unfolding publication scan_topic_command scan_literal
parse-publication pid topic input h t l room =
    let whole : CString = codes "send," ++ (print_int pid ++ (b',' ∷ topic ++ (b',' ∷ input))) in
    let size : length whole ≤ 1023 = omega (
      arith,
      room,
      length-print_int pid,
      length-append (print_int pid) (b',' ∷ topic ++ (b',' ∷ input)),
      length-append topic (b',' ∷ input),
    ) in
    ap parse (take_beyond 1023 whole size)
    ∙ parse_send whole (pos pid, topic, input) refl refl (scan_send_lem pid topic input h t l)

scan_literal_lem : (name s : CString) → scan_literal name (name ++ s) ≡ some s
unfolding scan_literal
scan_literal_lem [] s = refl
scan_literal_lem (c ∷ name) s =
    let same : (c == c) ≡ true = ground arith in rw same (scan_literal_lem name s)

scan_topic_lem :
    (name : CString) (pid : ℕ) (topic : CString)
    → pid < 2 ^ 31
    → IsTopic topic
    → scan_topic_command name (name ++ (print_int pid ++ (b',' ∷ topic))) ≡ some (pos pid, topic)
unfolding scan_topic_command scan_literal
scan_topic_lem name pid topic h t =
    let number = scan_int-print_int pid (b',' ∷ topic) h refl in
    let taken =
      ap (scan_set 63 (λ c. not (c == b',' || c == 10))) (sym (append_nil topic))
      ∙ scan_set_lem 63 (λ c. not (c == b',' || c == 10)) topic []
          (All-imp _ _ (λ c k. neither c b',' 10 k.0 k.1) topic t.0) t.1 t.2 tt in
    bind_some _ _ _ _ (scan_literal_lem name (print_int pid ++ (b',' ∷ topic)))
      (bind_some _ _ _ _ number (bind_some _ _ _ _ taken refl))

parse_subscribe :
    (text : CString) (r : ℤ × CString)
    → scan_topic_command (codes "subscribe,") text ≡ some r
    → parse text ≡ subscribe r.0 r.1
unfolding parse
parse_subscribe text r a = rw (a, parse) refl

parse_unsubscribe :
    (text : CString) (r : ℤ × CString)
    → scan_topic_command (codes "subscribe,") text ≡ none
    → scan_topic_command (codes "unsubscribe,") text ≡ some r
    → parse text ≡ unsubscribe r.0 r.1
unfolding parse
parse_unsubscribe text r a b = rw (a, b, parse) refl

request_fits :
    (name : CString) (pid : ℕ) (topic : CString)
    → length name ≤ 20
    → length topic ≤ 63
    → topic_request name pid topic ≡ name ++ (b',' ∷ print_int pid ++ (b',' ∷ topic))
unfolding topic_request
request_fits name pid topic h t =
    take_beyond 1023 (name ++ (b',' ∷ print_int pid ++ (b',' ∷ topic))) (
      omega (
        arith,
        h,
        t,
        length-print_int pid,
        length-append name (b',' ∷ print_int pid ++ (b',' ∷ topic)),
        length-append (print_int pid) (b',' ∷ topic),
      ))

parse-topic_request :
    (pid : ℕ) (topic : CString)
    → pid < 2 ^ 31
    → IsTopic topic
    → (parse (topic_request (codes "subscribe") pid topic) ≡ subscribe (pos pid) topic)
      × (parse (topic_request (codes "unsubscribe") pid topic) ≡ unsubscribe (pos pid) topic)
unfolding scan_topic_command scan_literal
parse-topic_request pid topic h t = (
  ap parse (request_fits (codes "subscribe") pid topic (omega arith) t.2)
      ∙ parse_subscribe _ (pos pid, topic) (scan_topic_lem (codes "subscribe,") pid topic h t),
  ap parse (request_fits (codes "unsubscribe") pid topic (omega arith) t.2)
      ∙ parse_unsubscribe _ (pos pid, topic) refl
          (scan_topic_lem (codes "unsubscribe,") pid topic h t),
)

-- The broker reads what a publisher and a subscriber write as what they mean: the process, the topic
-- and the whole text. The topic has 1 to 63 bytes and neither comma nor newline, the text is one
-- line that is not empty, and both together are no longer than 1000 bytes.
pub broker_reads_peers :
    (pid : ℕ) (topic input : CString)
    → pid < 2 ^ 31
    → IsTopic topic
    → IsLine input
    → length topic + length input ≤ 1000
    → (parse (publication pid topic input) ≡ send (pos pid) topic input)
      × (parse (topic_request (codes "subscribe") pid topic) ≡ subscribe (pos pid) topic)
      × (parse (topic_request (codes "unsubscribe") pid topic) ≡ unsubscribe (pos pid) topic)
broker_reads_peers pid topic input h t l room =
    let (first, second) = parse-topic_request pid topic h t in
    (parse-publication pid topic input h t l room, first, second)
