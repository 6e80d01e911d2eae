-- ===== src/ChatServer/Rounds.antt =====
-- module1/task7/server.c: a round when more bytes stand behind those that it takes.
use practice2_eltex.Prelude.{
  ℕ, ◌+◌, ◌-◌, ◌≤◌, ◌<◌, ◌≡◌, refl, sym, ap, ◌∙◌, ◌⊎◌, inl, inr, true, false, not, Option, none,
  some, List, [], ◌∷◌, ◌++◌, arith, ltb, ◌==◌, if◌then◌else◌, Option-cases, length, length-append,
  take, drop, option_map, some≢none, some_inj, option_map-eq-some,
}
use practice2_eltex.ChatServer.{Talk, Client, split_line, handle_line, pass_file, pass_line, round}
use practice2_eltex.ChatServer.Stream.{
  split_line-length, split_line-append, extend, round_line, round_file,
}
use practice2_eltex.Prelude.Bytes.{c_string}

-- A line is taken alike, whatever stands behind it.
pub line_round :
    (c c' : Client) (out : List (List ℕ))
    → 0 < length c.buffer
    → c.talk.in_file ≡ false
    → round c ≡ some (some (c', out))
    → (c'.fd ≡ c.fd)
      × (length c'.buffer < length c.buffer)
      × ((rest : List ℕ) → round (extend c rest) ≡ some (some (extend c' rest, out)))
unfolding pass_line
line_round c c' out h m e =
    let here = sym (round_line c h m) ∙ e in
    elim (Option-cases (split_line c.buffer)) [
      | inl s ↦
          let wrong : some none ≡ some (some (c', out)) = sym (ap (pass_line c) s) ∙ here in
          absurd (some≢none (sym (some_inj wrong)))
      | inr ((line, more), s) ↦
          let taken : Talk × List (List ℕ) → Option (Client × List (List ℕ)) =
            λ (t, o). some (record c { talk = t; buffer = more }, o) in
          let ((t, o), handled, same) =
            option_map-eq-some taken (handle_line c.talk (c_string line))
              (sym (ap (pass_line c) s) ∙ here) in
          let both = some_inj same in
          let len : length more ≡ length c'.buffer = ap (λ q. length q.0.buffer) both in
          (
            sym (ap (λ q. q.0.fd) both),
            omega (arith, len, split_line-length c.buffer (line, more) s),
            λ rest.
                round_line (extend c rest) (omega (arith, h, length-append c.buffer rest)) m
                ∙ ap (pass_line (extend c rest)) (split_line-append c.buffer (line, more) rest s)
                ∙ ap (option_map (λ (t, o). some (record c { talk = t; buffer = more ++ rest }, o)))
                    handled
                ∙ ap (λ q. some (some (extend q.0 rest, q.1))) both,
          )
    ]

-- What a round of a transfer leaves when it takes k bytes.
abbrev pub passed : Client → ℕ → Client
passed c k =
    let t = c.talk in
    let done = t.file_received + k == t.file_size in
    record c {
      talk = record t {
        in_file = not done;
        file_size = if done then 0 else t.file_size;
        file_received = if done then 0 else t.file_received + k;
      };
      buffer = drop k c.buffer;
    }

-- The bytes that a round of a transfer may take.
abbrev pub left : Client → ℕ
left c = c.talk.file_size - c.talk.file_received

pub pass_some :
    (c : Client) (k : ℕ)
    → 0 < length c.buffer
    → c.talk.in_file ≡ true
    → 0 < k
    → ((length c.buffer < left c) × (k ≡ length c.buffer))
      ⊎ ((left c ≤ length c.buffer) × (k ≡ left c))
    → round c ≡ some (some (passed c k, take k c.buffer ∷ []))
unfolding pass_file
pass_some c k h m pos_k cases =
    let chosen : (if ltb (length c.buffer) (left c) then length c.buffer else left c) ≡ k =
      ground (arith, cases) in
    let more : (k == 0) ≡ false = ground (arith, pos_k) in round_file c h m ∙ rw (chosen, more) refl

pub pass_none :
    (c : Client) → 0 < length c.buffer → c.talk.in_file ≡ true → left c ≡ 0 → round c ≡ some none
unfolding pass_file
pass_none c h m e =
    let chosen : ltb (length c.buffer) (left c) ≡ false = ground (arith, e) in
    let none_left : (left c == 0) ≡ true = ground (arith, e) in
    round_file c h m ∙ rw (chosen, none_left) refl
