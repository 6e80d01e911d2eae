-- ===== src/Broker/Delivery.antt =====
-- module1/task2/broker_pubsub.c: whom forward_message sends a message to.
use practice2_eltex.Prelude.{ℕ, ◌+◌, ◌-◌, ◌≡◌, refl, List, [], ◌∷◌, arith, if◌then◌else◌, take, All}
use practice2_eltex.Prelude.Int.{ℤ, eqb_ℤ, eqb_ℤ_iff}
use practice2_eltex.Prelude.Strings.{CString}
use practice2_eltex.Broker.{
  max_text, Subscriber, Broker, add_publisher, forward_message, send, parse, execute,
  process_message,
}
use practice2_eltex.Broker.Subscriptions.{AreValid, subscribed}
use practice2_eltex.Broker.Validity.{subscribed_absent}

-- How many messages go to a process.
abbrev pub sent_to : ℤ → List (ℤ × CString) → ℕ
sent_to p [] = 0
sent_to p ((q, text) ∷ ms) = (if eqb_ℤ q p then 1 else 0) + sent_to p ms

sent_to-forward_message :
    (ss : List Subscriber) (text topic : CString) (p : ℤ)
    → AreValid ss
    → sent_to p (forward_message ss text topic) ≡ (if subscribed ss p topic then 1 else 0)
unfolding forward_message
sent_to-forward_message [] text topic p v = refl
sent_to-forward_message (s ∷ ss) text topic p v = ground (
  arith,
  sent_to-forward_message ss text topic p v.3,
  eqb_ℤ_iff s.pid p,
  v.0,
  subscribed_absent ss p topic,
)

text-forward_message :
    (ss : List Subscriber) (text topic : CString)
    → All (λ m. m.1 ≡ take (max_text - 1) text) (forward_message ss text topic)
unfolding forward_message
text-forward_message [] text topic = tt
text-forward_message (s ∷ ss) text topic = ground (arith, text-forward_message ss text topic)

subscribers-publishing : (b : Broker) (pid : ℤ) → (add_publisher b pid).subscribers ≡ b.subscribers
unfolding add_publisher
subscribers-publishing b pid = ground arith

-- With a valid list of subscribers, a message send,pid,topic,payload makes the broker send to each
-- process that is subscribed to the topic exactly once and to no other, and what it sends is the
-- text that was read, cut to 1023 bytes.
pub process_message_delivers :
    (b : Broker) (text : CString) (pid : ℤ) (topic payload : CString) (p : ℤ)
    → AreValid b.subscribers
    → parse text ≡ send pid topic payload
    → (sent_to p (process_message b text).1 ≡ (if subscribed b.subscribers p topic then 1 else 0))
      × All (λ m. m.1 ≡ take 1023 text) (process_message b text).1
unfolding process_message execute
process_message_delivers b text pid topic payload p v e =
    rw (e, process_message, execute)
      (rw (subscribers-publishing b pid) (
        sent_to-forward_message b.subscribers text topic p v,
        text-forward_message b.subscribers text topic,
      ))
