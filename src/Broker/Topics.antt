-- ===== src/Broker/Topics.antt =====
-- module1/task2/broker_pubsub.c: the topics of one subscriber.
use practice2_eltex.Prelude.{
  ◌≡◌, refl, sym, ◌≢◌, inl, inr, false, ◌||◌, List, [], ◌∷◌, ◌++◌, arith, if◌then◌else◌, Bool-cases,
  bool_eq,
}
use practice2_eltex.Prelude.Arrays.{any, remove_first, any-append}
use practice2_eltex.Prelude.Strings.{CString, str_eqb, str_eqb_iff}
use practice2_eltex.Broker.{is_topic, add_topic, remove_topic}

-- No topic stands twice.
abbrev pub AreDistinct : List CString → Type 0
AreDistinct [] = Unit
AreDistinct (t ∷ ts) = (any (is_topic t) ts ≡ false) × AreDistinct ts

pub str_eqb_comm : (s t : CString) → str_eqb s t ≡ str_eqb t s
str_eqb_comm s t =
    bool_eq (str_eqb s t) (str_eqb t s) (λ e. (str_eqb_iff t s).1 (sym ((str_eqb_iff s t).0 e)))
      (λ e. (str_eqb_iff s t).1 (sym ((str_eqb_iff t s).0 e)))

pub any-add_topic :
    (ts : List CString) (topic t : CString)
    → any (is_topic t) (add_topic ts topic) ≡ (str_eqb topic t || any (is_topic t) ts)
unfolding add_topic
any-add_topic ts topic t =
    ground (arith, any-append (is_topic t) ts (topic ∷ []), str_eqb_iff topic t)

append-AreDistinct :
    (ts : List CString) (topic : CString)
    → any (is_topic topic) ts ≡ false
    → AreDistinct ts
    → AreDistinct (ts ++ topic ∷ [])
append-AreDistinct [] topic n d = (refl, tt)
append-AreDistinct (x ∷ ts) topic n d = (
  ground (arith, any-append (is_topic x) ts (topic ∷ []), str_eqb_comm x topic),
  append-AreDistinct ts topic (ground arith) d.1,
)

pub add_topic-AreDistinct :
    (ts : List CString) (topic : CString) → AreDistinct ts → AreDistinct (add_topic ts topic)
unfolding add_topic
add_topic-AreDistinct ts topic d = elim (Bool-cases (any (is_topic topic) ts)) [
  | inl e ↦ rw e d
  | inr e ↦ rw e (append-AreDistinct ts topic e d)
]

pub add_topic_nonempty : (ts : List CString) (topic : CString) → add_topic ts topic ≢ []
unfolding add_topic
add_topic_nonempty [] topic e = cc
add_topic_nonempty (t ∷ ts) topic e = ground arith

pub remove_topic_lem :
    (ts : List CString) (topic : CString) → remove_topic ts topic ≡ remove_first (is_topic topic) ts
unfolding remove_topic
remove_topic_lem [] topic = refl
remove_topic_lem (x ∷ ts) topic = ground (arith, remove_topic_lem ts topic)

any-remove_first_le :
    (ts : List CString) (topic t : CString)
    → any (is_topic t) ts ≡ false
    → any (is_topic t) (remove_first (is_topic topic) ts) ≡ false
any-remove_first_le [] topic t e = refl
any-remove_first_le (x ∷ ts) topic t e = ground (arith, any-remove_first_le ts topic t)

pub remove_first-AreDistinct :
    (ts : List CString) (topic : CString)
    → AreDistinct ts
    → AreDistinct (remove_first (is_topic topic) ts)
remove_first-AreDistinct [] topic d = tt
remove_first-AreDistinct (x ∷ ts) topic d =
    ground (arith, remove_first-AreDistinct ts topic d.1, any-remove_first_le ts topic x d.0)

-- Of distinct topics the removed one is gone, and the others stay.
pub any-remove_first :
    (ts : List CString) (topic t : CString)
    → AreDistinct ts
    → any (is_topic t) (remove_first (is_topic topic) ts)
      ≡ (if str_eqb topic t then false else any (is_topic t) ts)
any-remove_first [] topic t d = ground arith
any-remove_first (x ∷ ts) topic t d = ground (
  arith,
  any-remove_first ts topic t d.1,
  str_eqb_iff topic t,
  str_eqb_iff x t,
  str_eqb_iff x topic,
  d.0,
)
