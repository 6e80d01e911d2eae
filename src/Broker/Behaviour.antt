-- ===== src/Broker/Behaviour.antt =====
-- module1/task2/broker_pubsub.c: process_message, and the broker over all that it reads.
use mathlib.Core.Path.{fun_ext}
use practice2_eltex.Prelude.{
  ◌≡◌, refl, ap, ◌∙◌, inl, inr, Bool, false, ◌&&◌, ◌||◌, List, [], ◌∷◌, ◌++◌, arith, if◌then◌else◌,
  Bool-cases,
}
use practice2_eltex.Prelude.Arrays.{any, any-append}
use practice2_eltex.Prelude.Int.{ℤ, eqb_ℤ, eqb_ℤ_iff}
use practice2_eltex.Prelude.Strings.{CString, str_eqb}
use practice2_eltex.Broker.{
  Broker, start, add_publisher, add_subscription, remove_subscription, Command, subscribe,
  unsubscribe, send, unknown, parse, execute, process_message,
}
use practice2_eltex.Broker.Subscriptions.{
  AreValid, subscribed, subscribers-add_subscription, subscribers-remove_subscription,
}
use practice2_eltex.Broker.Validity.{
  subscribe_in-AreValid, unsubscribe_in-AreValid, subscribed-subscribe_in,
  subscribed-unsubscribe_in,
}

-- No publisher stands twice.
abbrev pub AreDifferent : List ℤ → Type 0
AreDifferent [] = Unit
AreDifferent (p ∷ ps) = (any (λ q. eqb_ℤ q p) ps ≡ false) × AreDifferent ps

pub record IsValid (b : Broker) : Type 0 where
  pub subscribers_valid : AreValid b.subscribers
  pub publishers_different : AreDifferent b.publishers

append-AreDifferent :
    (ps : List ℤ) (p : ℤ)
    → any (λ q. eqb_ℤ q p) ps ≡ false
    → AreDifferent ps
    → AreDifferent (ps ++ p ∷ [])
append-AreDifferent [] p n d = (refl, tt)
append-AreDifferent (x ∷ ps) p n d = (
  ground (arith, any-append (λ q. eqb_ℤ q x) ps (p ∷ []), eqb_ℤ_iff x p, eqb_ℤ_iff p x),
  append-AreDifferent ps p (ground arith) d.1,
)

add_publisher-IsValid : (b : Broker) (pid : ℤ) → IsValid b → IsValid (add_publisher b pid)
unfolding add_publisher
add_publisher-IsValid b pid v = elim (Bool-cases (any (λ p. eqb_ℤ p pid) b.publishers)) [
  | inl e ↦ rw (e, add_publisher) v
  | inr e ↦
      rw (e, add_publisher)
        (record {
          subscribers_valid = v.subscribers_valid;
          publishers_different = append-AreDifferent b.publishers pid e v.publishers_different;
        })
]

subscribers-add_publisher :
    (b : Broker) (pid : ℤ) → (add_publisher b pid).subscribers ≡ b.subscribers
unfolding add_publisher
subscribers-add_publisher b pid = ground arith

publishers-add_subscription :
    (b : Broker) (pid : ℤ) (topic : CString)
    → (add_subscription b pid topic).publishers ≡ b.publishers
unfolding add_subscription
publishers-add_subscription b pid topic = ground arith

publishers-remove_subscription :
    (b : Broker) (pid : ℤ) (topic : CString)
    → (remove_subscription b pid topic).publishers ≡ b.publishers
unfolding remove_subscription
publishers-remove_subscription b pid topic = ground arith

execute-IsValid :
    (b : Broker) (text : CString) (c : Command) → IsValid b → IsValid (execute b text c).0
unfolding execute
execute-IsValid b text (subscribe pid topic) v = record {
  subscribers_valid =
      rw (subscribers-add_subscription b pid topic)
        (subscribe_in-AreValid b.subscribers pid topic v.subscribers_valid);
  publishers_different = rw (publishers-add_subscription b pid topic) v.publishers_different;
}
execute-IsValid b text (unsubscribe pid topic) v = record {
  subscribers_valid =
      rw (subscribers-remove_subscription b pid topic)
        (unsubscribe_in-AreValid b.subscribers pid topic v.subscribers_valid);
  publishers_different = rw (publishers-remove_subscription b pid topic) v.publishers_different;
}
execute-IsValid b text (send pid topic payload) v = add_publisher-IsValid b pid v
execute-IsValid b text unknown v = v

-- Every message keeps the broker valid: no process is listed twice as a publisher or as a
-- subscriber, and a listed subscriber has at least one topic and none of them twice.
pub process_message-IsValid :
    (b : Broker) (text : CString) → IsValid b → IsValid (process_message b text).0
unfolding process_message
process_message-IsValid b text v = execute-IsValid b text (parse text) v

-- What a command does to the relation "p is subscribed to t".
abbrev pub change : Command → (ℤ → CString → Bool) → ℤ → CString → Bool
change (subscribe pid topic) f p t = (eqb_ℤ pid p && str_eqb topic t) || f p t
change (unsubscribe pid topic) f p t = if eqb_ℤ pid p && str_eqb topic t then false else f p t
change (send pid topic payload) f p t = f p t
change unknown f p t = f p t

execute_refines :
    (b : Broker) (text : CString) (c : Command) (p : ℤ) (t : CString)
    → IsValid b
    → subscribed (execute b text c).0.subscribers p t ≡ change c (subscribed b.subscribers) p t
unfolding execute
execute_refines b text (subscribe pid topic) p t v =
    rw (subscribers-add_subscription b pid topic)
      (subscribed-subscribe_in b.subscribers pid p topic t)
execute_refines b text (unsubscribe pid topic) p t v =
    rw (subscribers-remove_subscription b pid topic)
      (subscribed-unsubscribe_in b.subscribers pid p topic t v.subscribers_valid)
execute_refines b text (send pid topic payload) p t v = rw (subscribers-add_publisher b pid)
execute_refines b text unknown p t v = refl

-- The broker's loop over the messages that it reads, with all that it sends.
unfoldable pub run : Broker → List CString → Broker × List (ℤ × CString)
run b [] = (b, [])
run b (m ∷ ms) =
    let (b', sent) = process_message b m in let (b'', later) = run b' ms in (b'', sent ++ later)

-- The commands on the relation alone.
pub replay : List CString → (ℤ → CString → Bool) → ℤ → CString → Bool
replay [] f = f
replay (m ∷ ms) f = replay ms (change (parse m) f)

run_refines_from :
    (ms : List CString) (b : Broker)
    → IsValid b
    → IsValid (run b ms).0
      × (subscribed (run b ms).0.subscribers ≡ replay ms (subscribed b.subscribers))
unfolding run replay process_message
run_refines_from [] b v = (v, refl)
run_refines_from (m ∷ ms) b v =
    let b' = (execute b m (parse m)).0 in
    let (w, e) = run_refines_from ms b' (execute-IsValid b m (parse m) v) in
    (w, e ∙ ap (replay ms) (fun_ext λ p. fun_ext λ t. execute_refines b m (parse m) p t v))

-- After any messages at all from the start the broker is valid, and a process is subscribed to a
-- topic exactly when the subscribe and unsubscribe messages, read in their order, say so.
pub run_refines :
    (ms : List CString)
    → IsValid (run start ms).0
      × (subscribed (run start ms).0.subscribers ≡ replay ms (λ p t. false))
unfolding start
run_refines ms =
    run_refines_from ms start (record { subscribers_valid = tt; publishers_different = tt })
