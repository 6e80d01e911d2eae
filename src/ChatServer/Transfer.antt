-- ===== src/ChatServer/Transfer.antt =====
-- module1/task7/server.c: the rounds of a transfer; every round takes a byte.
use practice2_eltex.Prelude.{
  ℕ, ◌≤◌, ◌<◌, ◌≡◌, refl, sym, ap, ◌∙◌, inl, inr, true, some, List, [], ◌∷◌, arith, Bool-cases,
  lt_or_le, length, take, drop, length-drop, some≢none, some_inj,
}
use practice2_eltex.ChatServer.{Client, round}
use practice2_eltex.ChatServer.Stream.{round_empty}
use practice2_eltex.ChatServer.Rounds.{line_round, passed, left, pass_some, pass_none}

-- A round of a transfer that takes k bytes, and what it broadcasts.
abbrev pub taking : Client → ℕ → Client × List (List ℕ)
taking c k = (passed c k, take k c.buffer ∷ [])

-- A round of a transfer, by what is left of the file.
pub data Transfer (c : Client) (r : Client × List (List ℕ)) : Type 0 where
  ending : 0 < left c → left c ≤ length c.buffer → taking c (left c) ≡ r → Transfer c r
  going : length c.buffer < left c → taking c (length c.buffer) ≡ r → Transfer c r

pub Transfer-round :
    (c c' : Client) (out : List (List ℕ))
    → 0 < length c.buffer
    → c.talk.in_file ≡ true
    → round c ≡ some (some (c', out))
    → Transfer c (c', out)
Transfer-round c c' out h m e = elim (lt_or_le (length c.buffer) (left c)) [
  | inl lt ↦ going lt (some_inj (some_inj (sym (pass_some c _ h m h (inl (lt, refl))) ∙ e)))
  | inr le ↦ elim (lt_or_le 0 (left c)) [
    | inl pos_left ↦
        ending pos_left le
          (some_inj (some_inj (sym (pass_some c _ h m pos_left (inr (le, refl))) ∙ e)))
    | inr zero_left ↦
        absurd (some≢none (some_inj (sym e ∙ pass_none c h m (omega (arith, zero_left)))))
  ]
]

length-drop_le : (k : ℕ) (bs : List ℕ) → 0 < k → k ≤ length bs → length (drop k bs) < length bs
length-drop_le k bs h l = omega (arith, h, l, length-drop k bs)

-- Every round takes a byte.
pub round_shrinks :
    (c c' : Client) (out : List (List ℕ))
    → round c ≡ some (some (c', out))
    → length c'.buffer < length c.buffer
round_shrinks c c' out e = elim (lt_or_le 0 (length c.buffer)) [
  | inr none_left ↦ absurd (some≢none (some_inj (sym e ∙ round_empty c (omega (arith, none_left)))))
  | inl h ↦ elim (Bool-cases c.talk.in_file) [
    | inr m ↦ (line_round c c' out h m e).1
    | inl m ↦ elim (Transfer-round c c' out h m e) [
      | ending p l same ↦
          let len : length (drop (left c) c.buffer) ≡ length c'.buffer =
            ap (λ q. length q.0.buffer) same in
          omega (arith, len, length-drop_le (left c) c.buffer p l)
      | going l same ↦
          let len : length (drop (length c.buffer) c.buffer) ≡ length c'.buffer =
            ap (λ q. length q.0.buffer) same in
          omega (arith, len, h, length-drop (length c.buffer) c.buffer)
    ]
  ]
]

pub round-fd :
    (c c' : Client) (out : List (List ℕ)) → round c ≡ some (some (c', out)) → c'.fd ≡ c.fd
round-fd c c' out e = elim (lt_or_le 0 (length c.buffer)) [
  | inr none_left ↦ absurd (some≢none (some_inj (sym e ∙ round_empty c (omega (arith, none_left)))))
  | inl h ↦ elim (Bool-cases c.talk.in_file) [
    | inr m ↦ (line_round c c' out h m e).0
    | inl m ↦ elim (Transfer-round c c' out h m e) [
      | ending p l same ↦ sym (ap (λ q. q.0.fd) same)
      | going l same ↦ sym (ap (λ q. q.0.fd) same)
    ]
  ]
]
