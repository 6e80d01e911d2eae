-- ===== src/Broker.antt =====
-- module1/task2/broker_pubsub.c: the broker between publishers and subscribers. Its arrays are
-- lists, process ids integers, and topics C strings. Allocation is taken to succeed. What a message
-- makes the broker send is returned as a list of (mtype, text), in the order of the msgsnd calls;
-- the broker goes on whether or not a call succeeds.
pub mod Topics
pub mod Subscriptions
pub mod Validity
pub mod Behaviour
pub mod Delivery
pub mod Peers
pub mod Messages
mod Tests
use practice2_eltex.Prelude.{
  ℕ, ◌-◌, Bool, true, false, not, ◌||◌, Option, none, some, List, [], ◌∷◌, ◌++◌, map, ◌==◌,
  if◌then◌else◌, length, get_elem?, take, ◌>>=◌,
}
use practice2_eltex.Prelude.Arrays.{find_index, modify_at, remove_at, any}
use practice2_eltex.Prelude.Int.{ℤ, eqb_ℤ}
use practice2_eltex.Prelude.Strings.{CString, str_eqb, codes}
use practice2_eltex.Prelude.Scan.{scan_literal, scan_int, scan_set}

abbrev pub max_text : ℕ
max_text = 1024

pub record Subscriber : Type 0 where
  pub pid : ℤ
  pub topics : List CString

pub record Broker : Type 0 where
  pub publishers : List ℤ
  pub subscribers : List Subscriber

pub start : Broker
start = record { publishers = []; subscribers = [] }

abbrev pub has_pid : ℤ → Subscriber → Bool
has_pid pid s = eqb_ℤ s.pid pid

abbrev pub is_topic : CString → CString → Bool
is_topic topic t = str_eqb t topic

pub add_publisher : Broker → ℤ → Broker
add_publisher b pid =
    if any (λ p. eqb_ℤ p pid) b.publishers
    then b
    else record b { publishers = b.publishers ++ pid ∷ [] }

pub find_subscriber : Broker → ℤ → Option ℕ
find_subscriber b pid = find_index (has_pid pid) b.subscribers

-- The end of add_subscription, on the topics of the subscriber.
pub add_topic : List CString → CString → List CString
add_topic ts topic = if any (is_topic topic) ts then ts else ts ++ topic ∷ []

pub add_subscription : Broker → ℤ → CString → Broker
unfolding find_subscriber add_topic
add_subscription b pid topic = elim (find_subscriber b pid) [
  | none ↦ record b {
    subscribers = b.subscribers ++ record { pid = pid; topics = add_topic [] topic } ∷ [];
  }
  | some idx ↦ record b {
    subscribers = modify_at b.subscribers idx (λ s. record s { topics = add_topic s.topics topic });
  }
]

-- The first equal topic goes and the later ones move down.
pub remove_topic : List CString → CString → List CString
remove_topic ts topic = elim (find_index (is_topic topic) ts) [
  | none ↦ ts
  | some i ↦ remove_at ts i
]

abbrev pub no_topics : Option Subscriber → Bool
no_topics none = false
no_topics (some s) = elim s.topics [ [] ↦ true | _ ∷ _ ↦ false ]

pub remove_subscription : Broker → ℤ → CString → Broker
unfolding find_subscriber remove_topic
remove_subscription b pid topic = elim (find_subscriber b pid) [
  | none ↦ b
  | some idx ↦
      let subs =
        modify_at b.subscribers idx (λ s. record s { topics = remove_topic s.topics topic }) in
      record b { subscribers = if no_topics (get_elem? subs idx) then remove_at subs idx else subs }
]

-- strncpy(mtext, full_msg, MAX_TEXT - 1), and one msgsnd for each subscriber of the topic.
pub forward_message : List Subscriber → CString → CString → List (ℤ × CString)
forward_message [] full_msg topic = []
forward_message (s ∷ ss) full_msg topic =
    let rest = forward_message ss full_msg topic in
    if any (is_topic topic) s.topics then (s.pid, take (max_text - 1) full_msg) ∷ rest else rest

-- The messages that the broker reads.
pub data Command : Type 0 where
  subscribe : ℤ → CString → Command
  unsubscribe : ℤ → CString → Command
  send : ℤ → CString → CString → Command
  unknown : Command

-- "NAME,%d,%63[^,\n]"
pub scan_topic_command : CString → CString → Option (ℤ × CString)
scan_topic_command name text = do
  s ← scan_literal name text
  (pid, s) ← scan_int s
  s ← scan_literal (b',' ∷ []) s
  (topic, s) ← scan_set 63 (λ c. not (c == b',' || c == 10)) s
  some (pid, topic)

-- "send,%d,%63[^,],%[^\n]"
pub scan_send : CString → Option (ℤ × CString × CString)
scan_send text = do
  s ← scan_literal (codes "send,") text
  (pid, s) ← scan_int s
  s ← scan_literal (b',' ∷ []) s
  (topic, s) ← scan_set 63 (λ c. not (c == b',')) s
  s ← scan_literal (b',' ∷ []) s
  (payload, s) ← scan_set (length s) (λ c. not (c == 10)) s
  some (pid, topic, payload)

pub parse : CString → Command
unfolding scan_topic_command scan_send
parse text = elim (scan_topic_command (codes "subscribe,") text) [
  | some (pid, topic) ↦ subscribe pid topic
  | none ↦ elim (scan_topic_command (codes "unsubscribe,") text) [
    | some (pid, topic) ↦ unsubscribe pid topic
    | none ↦ elim (scan_send text) [
      | some (pid, topic, payload) ↦ send pid topic payload
      | none ↦ unknown
    ]
  ]
]

pub execute : Broker → CString → Command → Broker × List (ℤ × CString)
execute b text (subscribe pid topic) = (add_subscription b pid topic, [])
execute b text (unsubscribe pid topic) = (remove_subscription b pid topic, [])
execute b text (send pid topic payload) =
    let b' = add_publisher b pid in (b', forward_message b'.subscribers text topic)
execute b text unknown = (b, [])

pub process_message : Broker → CString → Broker × List (ℤ × CString)
unfolding execute parse
process_message b text = execute b text (parse text)

-- What cleanup_broker asks for before it frees its memory: a SIGINT for a process, and the removal
-- of the queue, if there is one.
pub data Ending : Type 0 where
  interrupt : ℤ → Ending
  remove_queue : Ending

unfoldable pub cleanup_broker : Broker → Bool → List Ending
cleanup_broker b has_queue =
    map interrupt b.publishers
    ++ (map (λ s. interrupt s.pid) b.subscribers ++ (if has_queue then remove_queue ∷ [] else []))
