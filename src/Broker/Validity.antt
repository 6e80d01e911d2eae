-- ===== src/Broker/Validity.antt =====
-- module1/task2/broker_pubsub.c: the commands keep the arrays valid and do to the subscriptions
-- what their names say.
use practice2_eltex.Prelude.{◌≡◌, refl, false, ◌&&◌, ◌||◌, List, [], ◌∷◌, arith, if◌then◌else◌}
use practice2_eltex.Prelude.Arrays.{any}
use practice2_eltex.Prelude.Int.{ℤ, eqb_ℤ, eqb_ℤ_iff}
use practice2_eltex.Prelude.Strings.{CString, str_eqb}
use practice2_eltex.Broker.{Subscriber, has_pid}
use practice2_eltex.Broker.Topics.{
  any-add_topic, add_topic-AreDistinct, add_topic_nonempty, remove_first-AreDistinct,
  any-remove_first,
}
use practice2_eltex.Broker.Subscriptions.{AreValid, subscribed, subscribe_in, unsubscribe_in}

any-subscribe_in :
    (ss : List Subscriber) (pid p : ℤ) (topic : CString)
    → any (has_pid p) (subscribe_in ss pid topic) ≡ (any (has_pid p) ss || eqb_ℤ pid p)
unfolding subscribe_in
any-subscribe_in [] pid p topic = ground arith
any-subscribe_in (s ∷ ss) pid p topic =
    ground (arith, any-subscribe_in ss pid p topic, eqb_ℤ_iff s.pid pid)

pub subscribe_in-AreValid :
    (ss : List Subscriber) (pid : ℤ) (topic : CString)
    → AreValid ss
    → AreValid (subscribe_in ss pid topic)
unfolding subscribe_in
subscribe_in-AreValid [] pid topic v =
    (refl, add_topic-AreDistinct [] topic tt, add_topic_nonempty [] topic, tt)
subscribe_in-AreValid (s ∷ ss) pid topic v = ground (
  arith,
  subscribe_in-AreValid ss pid topic v.3,
  add_topic-AreDistinct s.topics topic v.1,
  add_topic_nonempty s.topics topic,
  any-subscribe_in ss pid s.pid topic,
  eqb_ℤ_iff s.pid pid,
  eqb_ℤ_iff pid s.pid,
)

any-unsubscribe_in :
    (ss : List Subscriber) (pid p : ℤ) (topic : CString)
    → any (has_pid p) ss ≡ false
    → any (has_pid p) (unsubscribe_in ss pid topic) ≡ false
unfolding unsubscribe_in
any-unsubscribe_in [] pid p topic e = refl
any-unsubscribe_in (s ∷ ss) pid p topic e = ground (arith, any-unsubscribe_in ss pid p topic)

pub unsubscribe_in-AreValid :
    (ss : List Subscriber) (pid : ℤ) (topic : CString)
    → AreValid ss
    → AreValid (unsubscribe_in ss pid topic)
unfolding unsubscribe_in
unsubscribe_in-AreValid [] pid topic v = tt
unsubscribe_in-AreValid (s ∷ ss) pid topic v = ground (
  arith,
  unsubscribe_in-AreValid ss pid topic v.3,
  remove_first-AreDistinct s.topics topic v.1,
  any-unsubscribe_in ss pid s.pid topic v.0,
)

pub subscribed-subscribe_in :
    (ss : List Subscriber) (pid p : ℤ) (topic t : CString)
    → subscribed (subscribe_in ss pid topic) p t
      ≡ ((eqb_ℤ pid p && str_eqb topic t) || subscribed ss p t)
unfolding subscribe_in
subscribed-subscribe_in [] pid p topic t = ground (arith, any-add_topic [] topic t)
subscribed-subscribe_in (s ∷ ss) pid p topic t = ground (
  arith,
  subscribed-subscribe_in ss pid p topic t,
  any-add_topic s.topics topic t,
  eqb_ℤ_iff s.pid pid,
)

pub subscribed_absent :
    (ss : List Subscriber) (p : ℤ) (t : CString)
    → any (has_pid p) ss ≡ false
    → subscribed ss p t ≡ false
subscribed_absent [] p t e = refl
subscribed_absent (s ∷ ss) p t e = ground (arith, subscribed_absent ss p t)

pub subscribed-unsubscribe_in :
    (ss : List Subscriber) (pid p : ℤ) (topic t : CString)
    → AreValid ss
    → subscribed (unsubscribe_in ss pid topic) p t
      ≡ (if eqb_ℤ pid p && str_eqb topic t then false else subscribed ss p t)
unfolding unsubscribe_in
subscribed-unsubscribe_in [] pid p topic t v = ground arith
subscribed-unsubscribe_in (s ∷ ss) pid p topic t v = ground (
  arith,
  subscribed-unsubscribe_in ss pid p topic t v.3,
  any-remove_first s.topics topic t v.1,
  subscribed_absent ss p t,
  eqb_ℤ_iff s.pid pid,
  eqb_ℤ_iff pid p,
  eqb_ℤ_iff s.pid p,
  v.0,
)
