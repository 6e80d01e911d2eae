-- ===== src/ChatServer/Splitting.antt =====
-- module1/task7/server.c: two reads are understood like one.
use practice2_eltex.Prelude.{
  ℕ, zero, suc, ◌≤◌, ◌≡◌, refl, sym, ap, ◌∙◌, inl, inr, Option, none, some, List, [], arith, length,
  option_map, some≢none, some_inj, option_map-eq-some,
}
use practice2_eltex.ChatServer.{Client}
use practice2_eltex.ChatServer.Stream.{
  flat, prefixed, decode, decode_never, decode_fault, decode_end, decode_on, Round-cases, extend,
}
use practice2_eltex.ChatServer.Transfer.{round_shrinks, round-fd}
use practice2_eltex.ChatServer.Understanding.{understand, prefixed_twice, round_on}

prefixed_nil : (o : Option (Client × List ℕ)) → option_map (prefixed []) o ≡ o
prefixed_nil none = refl
prefixed_nil (some (c, more)) = refl

decode_more :
    (fuel : ℕ) (c c' : Client) (out rest : List ℕ)
    → decode fuel c ≡ some (c', out)
    → understand (extend c rest) ≡ option_map (prefixed out) (understand (extend c' rest))
decode_more zero c c' out rest e = absurd (some≢none (sym e ∙ decode_never c))
decode_more (suc fuel) c c' out rest e = elim (Round-cases c) [
  | inl r ↦ absurd (some≢none (sym e ∙ decode_fault fuel c r))
  | inr (inl r) ↦
      let same = some_inj (sym (decode_end fuel c r) ∙ e) in
      sym (prefixed_nil (understand (extend c rest)))
      ∙ ap (λ q. option_map (prefixed q.1) (understand (extend q.0 rest))) same
  | inr (inr (c1, o, r)) ↦
      let ((c2, more), e1, same) =
        option_map-eq-some (prefixed (flat o)) (decode fuel c1)
          (sym (decode_on fuel c c1 o r) ∙ e) in
      round_on c c1 o rest r
      ∙ ap (option_map (prefixed (flat o))) (decode_more fuel c1 c2 more rest e1)
      ∙ prefixed_twice (flat o) more (understand (extend c2 rest))
      ∙ ap (λ q. option_map (prefixed q.1) (understand (extend q.0 rest))) same
]

-- Where the bytes that a client holds are understood, more bytes are understood behind them as if
-- all had come at once: the client is left the same, and the bytes that it broadcasts are those of
-- the first part and then those of the second.
pub understand_more :
    (c c' : Client) (out rest : List ℕ)
    → understand c ≡ some (c', out)
    → understand (extend c rest) ≡ option_map (prefixed out) (understand (extend c' rest))
unfolding understand
understand_more c c' out rest e = decode_more (suc (length c.buffer)) c c' out rest e

decode_keeps :
    (fuel : ℕ) (c c' : Client) (out : List ℕ)
    → decode fuel c ≡ some (c', out)
    → (c'.fd ≡ c.fd) × (length c'.buffer ≤ length c.buffer)
decode_keeps zero c c' out e = absurd (some≢none (sym e ∙ decode_never c))
decode_keeps (suc fuel) c c' out e = elim (Round-cases c) [
  | inl r ↦ absurd (some≢none (sym e ∙ decode_fault fuel c r))
  | inr (inl r) ↦
      let same = some_inj (sym (decode_end fuel c r) ∙ e) in
      let len : length c.buffer ≡ length c'.buffer = ap (λ q. length q.0.buffer) same in
      (sym (ap (λ q. q.0.fd) same), omega (arith, len))
  | inr (inr (c1, o, r)) ↦
      let ((c2, more), e1, same) =
        option_map-eq-some (prefixed (flat o)) (decode fuel c1)
          (sym (decode_on fuel c c1 o r) ∙ e) in
      let (fd, le) = decode_keeps fuel c1 c2 more e1 in
      let len : length c2.buffer ≡ length c'.buffer = ap (λ q. length q.0.buffer) same in
      (
        sym (ap (λ q. q.0.fd) same) ∙ fd ∙ round-fd c c1 o r,
        omega (arith, len, le, round_shrinks c c1 o r),
      )
]

-- Understanding what came in keeps the connection, and holds no more bytes than before.
pub understand_keeps :
    (c c' : Client) (out : List ℕ)
    → understand c ≡ some (c', out)
    → (c'.fd ≡ c.fd) × (length c'.buffer ≤ length c.buffer)
unfolding understand
understand_keeps c c' out e = decode_keeps (suc (length c.buffer)) c c' out e
