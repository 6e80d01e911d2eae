-- ===== src/ChatServer/Stream.antt =====
-- module1/task7/server.c: what a client sends is understood alike however it is cut into reads.
use practice2_eltex.Prelude.{
  ℕ, zero, suc, ◌<◌, ◌≡◌, refl, sym, ap, ◌∙◌, ◌⊎◌, inl, inr, true, false, Option, none, some, List,
  [], ◌∷◌, ◌++◌, arith, ◌==◌, Bool-cases, Option-cases, length, option_map, some≢none, some_inj,
  option_map-eq-some,
}
use practice2_eltex.ChatServer.{Client, split_line, pass_file, pass_line, round}

unfoldable pub flat : List (List ℕ) → List ℕ
flat [] = []
flat (x ∷ xs) = x ++ flat xs

abbrev pub prefixed : List ℕ → Client × List ℕ → Client × List ℕ
prefixed out (c, more) = (c, out ++ more)

-- The rounds of process_loop without the other clients: the client after them, and the bytes that
-- they broadcast.
unfoldable pub decode : ℕ → Client → Option (Client × List ℕ)
decode zero c = none
decode (suc fuel) c = elim (round c) [
  | none ↦ none
  | some none ↦ some (c, [])
  | some (some (c', out)) ↦ option_map (prefixed (flat out)) (decode fuel c')
]

pub decode_never : (c : Client) → decode zero c ≡ none
unfolding decode
decode_never c = refl

pub decode_fault : (fuel : ℕ) (c : Client) → round c ≡ none → decode (suc fuel) c ≡ none
unfolding decode
decode_fault fuel c e = rw (e, decode) refl

pub decode_end : (fuel : ℕ) (c : Client) → round c ≡ some none → decode (suc fuel) c ≡ some (c, [])
unfolding decode
decode_end fuel c e = rw (e, decode) refl

pub decode_on :
    (fuel : ℕ) (c c' : Client) (out : List (List ℕ))
    → round c ≡ some (some (c', out))
    → decode (suc fuel) c ≡ option_map (prefixed (flat out)) (decode fuel c')
unfolding decode
decode_on fuel c c' out e = rw (e, decode) refl

split_line_here : (b : ℕ) (bs : List ℕ) → (b == b'\n') ≡ true → split_line (b ∷ bs) ≡ some ([], bs)
unfolding split_line
split_line_here b bs t = rw t refl

split_line_on :
    (b : ℕ) (bs : List ℕ)
    → (b == b'\n') ≡ false
    → split_line (b ∷ bs) ≡ option_map (λ (line, more). (b ∷ line, more)) (split_line bs)
unfolding split_line
split_line_on b bs f = rw f refl

pub split_line-length :
    (bs : List ℕ) (r : List ℕ × List ℕ) → split_line bs ≡ some r → length r.1 < length bs
unfolding split_line
split_line-length [] r e = absurd (some≢none (sym e))
split_line-length (b ∷ bs) r e = elim (Bool-cases (b == b'\n')) [
  | inl t ↦
      let same : length bs ≡ length r.1 =
        ap (λ q. length q.1) (some_inj (sym (split_line_here b bs t) ∙ e)) in
      omega (arith, same)
  | inr f ↦
      let (q, e', same) = option_map-eq-some _ (split_line bs) (sym (split_line_on b bs f) ∙ e) in
      let len : length q.1 ≡ length r.1 = ap (λ x. length x.1) same in
      omega (arith, len, split_line-length bs q e')
]

pub split_line-append :
    (bs : List ℕ) (r : List ℕ × List ℕ) (rest : List ℕ)
    → split_line bs ≡ some r
    → split_line (bs ++ rest) ≡ some (r.0, r.1 ++ rest)
unfolding split_line
split_line-append [] r rest e = absurd (some≢none (sym e ∙ nothing))
  where
    nothing : split_line [] ≡ none
    nothing = refl
split_line-append (b ∷ bs) r rest e = elim (Bool-cases (b == b'\n')) [
  | inl t ↦
      split_line_here b (bs ++ rest) t
      ∙ ap (λ q. some (q.0, q.1 ++ rest)) (some_inj (sym (split_line_here b bs t) ∙ e))
  | inr f ↦
      let (q, e', same) = option_map-eq-some _ (split_line bs) (sym (split_line_on b bs f) ∙ e) in
      split_line_on b (bs ++ rest) f
      ∙ ap (option_map (λ (line, more). (b ∷ line, more))) (split_line-append bs q rest e')
      ∙ ap (λ x. some (x.0, x.1 ++ rest)) same
]

-- What a round may be.
pub Round-cases :
    (c : Client)
    → (round c ≡ none)
      ⊎ (round c ≡ some none)
      ⊎ ((c' : Client) × (out : List (List ℕ)) × (round c ≡ some (some (c', out))))
Round-cases c = elim (Option-cases (round c)) [
  | inl e ↦ inl e
  | inr (o, e) ↦ elim (Option-cases o) [
    | inl e' ↦ inr (inl (e ∙ ap some e'))
    | inr ((c', out), e') ↦ inr (inr (c', out, e ∙ ap some e'))
  ]
]

-- More bytes behind those that a client holds.
abbrev pub extend : Client → List ℕ → Client
extend c rest = record c { buffer = c.buffer ++ rest }

pub round_line :
    (c : Client)
    → 0 < length c.buffer
    → c.talk.in_file ≡ false
    → round c ≡ pass_line c (split_line c.buffer)
unfolding round
round_line c h e =
    let there : (length c.buffer == 0) ≡ false = ground (arith, h) in rw (there, e) refl

pub round_file :
    (c : Client) → 0 < length c.buffer → c.talk.in_file ≡ true → round c ≡ some (pass_file c)
unfolding round
round_file c h e =
    let there : (length c.buffer == 0) ≡ false = ground (arith, h) in rw (there, e) refl

pub round_empty : (c : Client) → length c.buffer ≡ 0 → round c ≡ some none
unfolding round
round_empty c e = rw e refl
