-- ===== src/Broker/Tests.antt =====
-- Runs of module1/task2/broker_pubsub.c, and its theorems at concrete messages.
use practice2_eltex.Prelude.{◌≡◌, refl, false, List, [], ◌∷◌, arith, if◌then◌else◌, take, All}
use practice2_eltex.Prelude.Int.{pos}
use practice2_eltex.Prelude.Strings.{CString, strcmp, str_eqb, codes}
use practice2_eltex.Broker.{
  Broker, start, add_publisher, add_subscription, remove_subscription, forward_message, subscribe,
  unsubscribe, send, parse, process_message,
}
use practice2_eltex.Broker.Subscriptions.{AreValid, subscribed}
use practice2_eltex.Broker.Behaviour.{IsValid, process_message-IsValid, run, replay, run_refines}
use practice2_eltex.Broker.Delivery.{sent_to, process_message_delivers}
use practice2_eltex.Prelude.Scan.{scan_literal, scan_int, scan_set}
use practice2_eltex.Broker.Peers.{publication, topic_request}
use practice2_eltex.Broker.Messages.{IsTopic, IsLine, broker_reads_peers}

abbrev news : CString
news = codes "news"

parse_send : parse (codes "send,7,news,hello") ≡ send (pos 7) news (codes "hello")
unfolding parse scan_literal scan_int scan_set str_eqb strcmp
parse_send = refl

parse_subscribe : parse (codes "subscribe,12,news") ≡ subscribe (pos 12) news
unfolding parse scan_literal scan_int scan_set str_eqb strcmp
parse_subscribe = refl

abbrev messages : List CString
messages =
    codes "subscribe,12,news"
    ∷ codes "subscribe,13,news"
    ∷ codes "unsubscribe,13,news"
    ∷ codes "send,7,news,hello"
    ∷ []

sent : (run start messages).1 ≡ (pos 12, codes "send,7,news,hello") ∷ []
unfolding run start process_message add_subscription remove_subscription add_publisher
    forward_message str_eqb strcmp parse scan_literal scan_int scan_set
sent = refl

run_refines_example :
    IsValid (run start messages).0
    × (subscribed (run start messages).0.subscribers ≡ replay messages (λ p t. false))
run_refines_example = run_refines messages

abbrev busy_broker : Broker
busy_broker = record {
  publishers = [];
  subscribers = record { pid = pos 12; topics = news ∷ [] } ∷ [];
}

busy_broker-AreValid : AreValid busy_broker.subscribers
busy_broker-AreValid = (refl, (refl, tt), λ e. ground arith, tt)

process_message-IsValid_example :
    IsValid (process_message busy_broker (codes "unsubscribe,12,news")).0
process_message-IsValid_example =
    process_message-IsValid busy_broker (codes "unsubscribe,12,news")
      (record { subscribers_valid = busy_broker-AreValid; publishers_different = tt })

process_message_delivers_example :
    let r = process_message busy_broker (codes "send,7,news,hello") in
    (sent_to (pos 12) r.1 ≡ (if subscribed busy_broker.subscribers (pos 12) news then 1 else 0))
    × All (λ m. m.1 ≡ take 1023 (codes "send,7,news,hello")) r.1
process_message_delivers_example =
    process_message_delivers busy_broker (codes "send,7,news,hello") (pos 7) news (codes "hello")
      (pos 12) busy_broker-AreValid parse_send

broker_reads_peers_example :
    (parse (publication 77 (codes "news") (codes "hi, all"))
      ≡ send (pos 77) (codes "news") (codes "hi, all"))
    × (parse (topic_request (codes "subscribe") 77 (codes "news"))
        ≡ subscribe (pos 77) (codes "news"))
    × (parse (topic_request (codes "unsubscribe") 77 (codes "news"))
        ≡ unsubscribe (pos 77) (codes "news"))
broker_reads_peers_example =
    broker_reads_peers 77 (codes "news") (codes "hi, all") (omega arith) news-IsTopic hi-IsLine
      (omega arith)
  where
    news-IsTopic : IsTopic (codes "news")
    news-IsTopic = ground arith

    hi-IsLine : IsLine (codes "hi, all")
    hi-IsLine = ground arith
