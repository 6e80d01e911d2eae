-- ===== src/Broker/Subscriptions.antt =====
-- module1/task2/broker_pubsub.c: who is subscribed to what, before and after a command.
use practice2_eltex.Prelude.{
  ℕ, zero, suc, ◌≡◌, refl, sym, ◌≢◌, inl, inr, Bool, false, ◌&&◌, ◌||◌, none, some, List, [], ◌∷◌,
  ◌++◌, arith, if◌then◌else◌, Option-cases, get_elem?,
}
use practice2_eltex.Prelude.Arrays.{find_index, modify_at, remove_at, any, remove_first}
use practice2_eltex.Prelude.Int.{ℤ}
use practice2_eltex.Prelude.Strings.{CString}
use practice2_eltex.Broker.{
  Subscriber, Broker, has_pid, is_topic, add_topic, add_subscription, remove_topic, no_topics,
  remove_subscription,
}
use practice2_eltex.Broker.Topics.{AreDistinct, remove_topic_lem}

-- No process id stands twice, and every subscriber has topics, each of them once.
abbrev pub AreValid : List Subscriber → Type 0
AreValid [] = Unit
AreValid (s ∷ ss) =
    (any (has_pid s.pid) ss ≡ false) × AreDistinct s.topics × (s.topics ≢ []) × AreValid ss

-- The process is subscribed to the topic.
abbrev pub subscribed : List Subscriber → ℤ → CString → Bool
subscribed [] pid topic = false
subscribed (s ∷ ss) pid topic =
    (has_pid pid s && any (is_topic topic) s.topics) || subscribed ss pid topic

abbrev pub subscribe_to : CString → Subscriber → Subscriber
subscribe_to topic s = record s { topics = add_topic s.topics topic }

-- add_subscription on the array, without the index.
unfoldable pub subscribe_in : List Subscriber → ℤ → CString → List Subscriber
subscribe_in [] pid topic = record { pid = pid; topics = add_topic [] topic } ∷ []
subscribe_in (s ∷ ss) pid topic =
    if has_pid pid s then subscribe_to topic s ∷ ss else s ∷ subscribe_in ss pid topic

subscribe_in-none :
    (ss : List Subscriber) (pid : ℤ) (topic : CString)
    → find_index (has_pid pid) ss ≡ none
    → subscribe_in ss pid topic ≡ ss ++ record { pid = pid; topics = add_topic [] topic } ∷ []
unfolding subscribe_in
subscribe_in-none [] pid topic e = refl
subscribe_in-none (s ∷ ss) pid topic e = ground (arith, subscribe_in-none ss pid topic)

subscribe_in-some :
    (ss : List Subscriber) (pid : ℤ) (topic : CString) (i : ℕ)
    → find_index (has_pid pid) ss ≡ some i
    → subscribe_in ss pid topic ≡ modify_at ss i (subscribe_to topic)
unfolding subscribe_in
subscribe_in-some [] pid topic i e = cc
subscribe_in-some (s ∷ ss) pid topic zero e = ground arith
subscribe_in-some (s ∷ ss) pid topic (suc i) e = ground (arith, subscribe_in-some ss pid topic i)

pub subscribers-add_subscription :
    (b : Broker) (pid : ℤ) (topic : CString)
    → (add_subscription b pid topic).subscribers ≡ subscribe_in b.subscribers pid topic
unfolding add_subscription
subscribers-add_subscription b pid topic =
    elim (Option-cases (find_index (has_pid pid) b.subscribers)) [
      | inl e ↦ rw (e, add_subscription) (sym (subscribe_in-none b.subscribers pid topic e))
      | inr (i, e) ↦ rw (e, add_subscription) (sym (subscribe_in-some b.subscribers pid topic i e))
    ]

-- remove_subscription on the array, without the index.
unfoldable pub unsubscribe_in : List Subscriber → ℤ → CString → List Subscriber
unsubscribe_in [] pid topic = []
unsubscribe_in (s ∷ ss) pid topic =
    if has_pid pid s
    then (let s' : Subscriber = record s { topics = remove_first (is_topic topic) s.topics } in
        if no_topics (some s') then ss else s' ∷ ss)
    else s ∷ unsubscribe_in ss pid topic

unsubscribe_at :
    (ss : List Subscriber) (pid : ℤ) (topic : CString) (i : ℕ)
    → find_index (has_pid pid) ss ≡ some i
    → (let subs = modify_at ss i (λ s. record s { topics = remove_topic s.topics topic }) in
        (if no_topics (get_elem? subs i) then remove_at subs i else subs)
        ≡ unsubscribe_in ss pid topic)
unfolding unsubscribe_in
unsubscribe_at [] pid topic i e = cc
unsubscribe_at (s ∷ ss) pid topic zero e = ground (arith, remove_topic_lem s.topics topic)
unsubscribe_at (s ∷ ss) pid topic (suc i) e = ground (arith, unsubscribe_at ss pid topic i)

unsubscribe_none :
    (ss : List Subscriber) (pid : ℤ) (topic : CString)
    → find_index (has_pid pid) ss ≡ none
    → unsubscribe_in ss pid topic ≡ ss
unfolding unsubscribe_in
unsubscribe_none [] pid topic e = refl
unsubscribe_none (s ∷ ss) pid topic e = ground (arith, unsubscribe_none ss pid topic)

pub subscribers-remove_subscription :
    (b : Broker) (pid : ℤ) (topic : CString)
    → (remove_subscription b pid topic).subscribers ≡ unsubscribe_in b.subscribers pid topic
unfolding remove_subscription
subscribers-remove_subscription b pid topic =
    elim (Option-cases (find_index (has_pid pid) b.subscribers)) [
      | inl e ↦ rw (e, remove_subscription) (sym (unsubscribe_none b.subscribers pid topic e))
      | inr (i, e) ↦ rw (e, remove_subscription) (unsubscribe_at b.subscribers pid topic i e)
    ]
