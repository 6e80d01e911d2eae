-- ===== src/ChatServer/Understanding.antt =====
-- module1/task7/server.c: the bytes behind those that a round takes are left for the next rounds.
use practice2_eltex.Prelude.{
  ℕ, zero, suc, ◌+◌, ◌-◌, ◌<◌, ◌≡◌, refl, sym, ap, subst, ◌∙◌, inl, inr, true, false, not, Option,
  none, some, List, [], ◌∷◌, ◌++◌, arith, ◌==◌, if◌then◌else◌, Bool-cases, lt_or_le, length,
  length-append, take, drop, option_map, some≢none, some_inj,
}
use practice2_eltex.Prelude.Slices.{
  drop-seam, take-split, drop-split, drop_all, append_assoc, append_nil, take-front, drop-front,
}
use practice2_eltex.ChatServer.{Client, round}
use practice2_eltex.ChatServer.Stream.{
  flat, prefixed, decode, decode_fault, decode_end, decode_on, Round-cases, extend, round_empty,
}
use practice2_eltex.ChatServer.Rounds.{line_round, passed, left, pass_some}
use practice2_eltex.ChatServer.Transfer.{taking, ending, going, Transfer-round, round_shrinks}

-- With more fuel than bytes, the fuel does not matter.
decode_any :
    (f g : ℕ) (c : Client) → length c.buffer < f → length c.buffer < g → decode f c ≡ decode g c
decode_any zero g c h k = absurd (omega arith)
decode_any (suc f) zero c h k = absurd (omega arith)
decode_any (suc f) (suc g) c h k = elim (Round-cases c) [
  | inl e ↦ decode_fault f c e ∙ sym (decode_fault g c e)
  | inr (inl e) ↦ decode_end f c e ∙ sym (decode_end g c e)
  | inr (inr (c', out, e)) ↦
      let less = round_shrinks c c' out e in
      decode_on f c c' out e
      ∙ ap (option_map (prefixed (flat out)))
          (decode_any f g c' (omega (arith, h, less)) (omega (arith, k, less)))
      ∙ sym (decode_on g c c' out e)
]

-- The rounds of a client to their end.
unfoldable pub understand : Client → Option (Client × List ℕ)
unfolding decode
understand c = decode (suc (length c.buffer)) c

pub understand_on :
    (c c' : Client) (out : List (List ℕ))
    → round c ≡ some (some (c', out))
    → understand c ≡ option_map (prefixed (flat out)) (understand c')
unfolding understand
understand_on c c' out e =
    let less = round_shrinks c c' out e in
    decode_on (length c.buffer) c c' out e
    ∙ ap (option_map (prefixed (flat out)))
        (decode_any (length c.buffer) (suc (length c'.buffer)) c' less (omega arith))

pub prefixed_twice :
    (x y : List ℕ) (o : Option (Client × List ℕ))
    → option_map (prefixed x) (option_map (prefixed y) o) ≡ option_map (prefixed (x ++ y)) o
prefixed_twice x y none = refl
prefixed_twice x y (some (c, more)) = ap (λ l. some (c, l)) (sym (append_assoc x y more))

-- A client whose transfer took all that it held, and goes on.
abbrev begun : Client → Client
begun c = record c {
  talk = record c.talk { in_file = true; file_received = c.talk.file_received + length c.buffer };
  buffer = [];
}

passed-eq-begun : (c : Client) → length c.buffer < left c → passed c (length c.buffer) ≡ begun c
passed-eq-begun c lt =
    let t = c.talk in
    let n = length c.buffer in
    let done : (t.file_received + n == t.file_size) ≡ false = ground (arith, lt) in
    λ i. record c {
      talk = record t {
        in_file = not (done i);
        file_size = if done i then 0 else t.file_size;
        file_received = if done i then 0 else t.file_received + n;
      };
      buffer = drop_all c.buffer i;
    }

-- A round of a transfer takes what two take one after the other.
passed-begun :
    (c : Client) (rest : List ℕ) (k : ℕ)
    → passed (extend c rest) (length c.buffer + k) ≡ passed (extend (begun c) rest) k
passed-begun c rest k =
    let t = c.talk in
    let n = length c.buffer in
    let whole : ℕ → List ℕ → Client = λ total bytes. record c {
      talk = record t {
        in_file = not (total == t.file_size);
        file_size = if total == t.file_size then 0 else t.file_size;
        file_received = if total == t.file_size then 0 else total;
      };
      buffer = bytes;
    } in
    let sum : t.file_received + (n + k) ≡ t.file_received + n + k = omega arith in
    let behind : drop (n + k) (c.buffer ++ rest) ≡ drop k rest =
      sym (drop-split n k (n + k) (c.buffer ++ rest) refl)
      ∙ ap (drop k) (drop-seam c.buffer rest n refl) in
    λ i. whole (sum i) (behind i)

taken-begun :
    (c : Client) (rest : List ℕ) (k : ℕ)
    → take (length c.buffer + k) (c.buffer ++ rest) ++ []
      ≡ (take (length c.buffer) c.buffer ++ []) ++ (take k rest ++ [])
taken-begun c rest k =
    let n = length c.buffer in
    let first : take n (c.buffer ++ rest) ≡ take n c.buffer ++ [] =
      take-front n c.buffer rest (omega arith) ∙ sym (append_nil (take n c.buffer)) in
    let second : take k (drop n (c.buffer ++ rest)) ≡ take k rest ++ [] =
      ap (take k) (drop-seam c.buffer rest n refl) ∙ sym (append_nil (take k rest)) in
    append_nil _ ∙ sym (take-split n k (n + k) (c.buffer ++ rest) refl) ∙ (λ i. first i ++ second i)

both_taken :
    (c : Client) (rest : List ℕ) (k : ℕ)
    → round (extend c rest) ≡ some (some (taking (extend c rest) (length c.buffer + k)))
    → round (extend (begun c) rest) ≡ some (some (taking (extend (begun c) rest) k))
    → understand (extend c rest)
      ≡ option_map
          (prefixed (take (length c.buffer) c.buffer ++ []))
          (understand (extend (begun c) rest))
unfolding flat
both_taken c rest k e e1 =
    let n = length c.buffer in
    let front = take n c.buffer ++ [] in
    understand_on (extend c rest) _ _ e
    ∙ (λ i. option_map (prefixed (taken-begun c rest k i)) (understand (passed-begun c rest k i)))
    ∙ sym (prefixed_twice front (take k rest ++ []) (understand (passed (extend (begun c) rest) k)))
    ∙ ap (option_map (prefixed front)) (sym (understand_on (extend (begun c) rest) _ _ e1))

extend_nil : (c : Client) → extend c [] ≡ c
extend_nil c = λ i. record c { buffer = append_nil c.buffer i }

-- A transfer that goes on takes what one that begins behind it takes.
going_lem :
    (c : Client) (rest : List ℕ)
    → 0 < length c.buffer
    → c.talk.in_file ≡ true
    → length c.buffer < left c
    → understand (extend c rest)
      ≡ option_map
          (prefixed (take (length c.buffer) c.buffer ++ []))
          (understand (extend (passed c (length c.buffer)) rest))
unfolding flat
going_lem c [] h m lt =
    ap understand (extend_nil c)
    ∙ understand_on c _ _ (pass_some c (length c.buffer) h m h (inl (lt, refl)))
    ∙ ap (λ x. option_map (prefixed (take (length c.buffer) c.buffer ++ [])) (understand x))
        (sym (extend_nil (passed c (length c.buffer))))
going_lem c (r ∷ rs) h m lt =
    let n = length c.buffer in
    let rest = r ∷ rs in
    let longer = length-append c.buffer rest in
    let goal : understand (extend c rest)
        ≡ option_map (prefixed (take n c.buffer ++ [])) (understand (extend (begun c) rest)) =
      elim (lt_or_le (length rest) (left c - n)) [
        | inl less ↦
            both_taken c rest (length rest)
              (pass_some (extend c rest) (n + length rest) (omega (arith, longer)) m (omega arith)
                (inl (omega (arith, longer, less), sym longer)))
              (pass_some (extend (begun c) rest) (length rest) (omega arith) refl (omega arith)
                (inl (omega (arith, less), refl)))
        | inr more ↦
            both_taken c rest (left c - n)
              (pass_some (extend c rest) (n + (left c - n)) (omega (arith, longer)) m
                (omega (arith, h)) (inr (omega (arith, longer, more, lt), omega (arith, lt))))
              (pass_some (extend (begun c) rest) (left c - n) (omega arith) refl (omega (arith, lt))
                (inr (omega (arith, more), omega arith)))
      ] in
    goal
    ∙ ap (λ x. option_map (prefixed (take n c.buffer ++ [])) (understand (extend x rest)))
        (sym (passed-eq-begun c lt))

-- The bytes behind those of a round are left for the rounds to come.
pub round_on :
    (c c' : Client) (out : List (List ℕ)) (rest : List ℕ)
    → round c ≡ some (some (c', out))
    → understand (extend c rest) ≡ option_map (prefixed (flat out)) (understand (extend c' rest))
unfolding flat
round_on c c' out rest e = elim (lt_or_le 0 (length c.buffer)) [
  | inr none_left ↦ absurd (some≢none (some_inj (sym e ∙ round_empty c (omega (arith, none_left)))))
  | inl h ↦ elim (Bool-cases c.talk.in_file) [
    | inr m ↦
        understand_on (extend c rest) (extend c' rest) out ((line_round c c' out h m e).2 rest)
    | inl m ↦
        let Goal : Client × List (List ℕ) → Type 0 = λ q.
          understand (extend c rest)
          ≡ option_map (prefixed (flat q.1)) (understand (extend q.0 rest)) in
        elim (Transfer-round c c' out h m e) [
          | ending p l same ↦
              let k = left c in
              let next : taking (extend c rest) k
                  ≡ (extend (passed c k) rest, take k c.buffer ∷ []) =
                λ i. (
                  record (passed c k) { buffer = drop-front k c.buffer rest l i },
                  take-front k c.buffer rest l i ∷ [],
                ) in
              let longer = length-append c.buffer rest in
              subst Goal same (
                understand_on (extend c rest) (extend (passed c k) rest) (take k c.buffer ∷ []) (
                  pass_some (extend c rest) k (omega (arith, h, longer)) m p
                    (inr (omega (arith, l, longer), refl))
                  ∙ ap (λ q. some (some q)) next))
          | going l same ↦ subst Goal same (going_lem c rest h m l)
        ]
  ]
]
