-- ===== src/ChatServer/Transcript.antt =====
-- module1/task7/server.c: what the others read when a client changes its name and speaks.
use practice2_eltex.Prelude.{
  ℕ, ◌≤◌, ◌<◌, ◌≡◌, refl, sym, ap, ◌∙◌, ◌≢◌, true, false, some, List, [], ◌∷◌, ◌++◌, arith, ltb,
  ◌==◌, length, length-append, take, length-take, All, option_map,
}
use practice2_eltex.Prelude.Slices.{append_assoc, append_nil}
use practice2_eltex.Prelude.Strings.{CString, codes}
use practice2_eltex.Prelude.Bytes.{c_string}
use practice2_eltex.Prelude.Scan.{scan_literal}
use practice2_eltex.ChatServer.{
  buffer_size, Client, Effect, printed, split_line, handle_line, pass_line, round, Server,
  process_client,
}
use practice2_eltex.ChatServer.Stream.{flat, prefixed, decode_end, extend, round_line, round_empty}
use practice2_eltex.ChatServer.Understanding.{understand, understand_on}
use practice2_eltex.ChatServer.Delivery.{Succeeds}
use practice2_eltex.ChatServer.Reading.{Delivered, IsConnected, process_client_delivers}

-- What a client may do with a line of text.
pub data Item : Type 0 where
  rename : CString → Item
  say : CString → Item

-- The lines that it sends for it.
unfoldable pub wire : List Item → List ℕ
wire [] = []
wire (rename name ∷ is) = codes "NICK " ++ (name ++ b'\n' ∷ wire is)
wire (say text ∷ is) = codes "MSG " ++ (text ++ b'\n' ∷ wire is)

-- The name that it has then, of at most 31 bytes, and what every other client is to read.
abbrev pub last_nick : CString → List Item → CString
last_nick nick [] = nick
last_nick nick (rename name ∷ is) = last_nick (take 31 name) is
last_nick nick (say text ∷ is) = last_nick nick is

unfoldable pub transcript : CString → List Item → List ℕ
transcript nick [] = []
transcript nick (rename name ∷ is) = transcript (take 31 name) is
transcript nick (say text ∷ is) =
    codes "MSG " ++ (nick ++ b' ' ∷ (text ++ b'\n' ∷ transcript nick is))

-- A text has no newline and no NUL, and leaves room for the name in a message.
abbrev IsText : CString → Type 0
IsText s = All (λ b. (b ≢ b'\n') × (b ≢ 0)) s × (length s ≤ 4000)

abbrev pub IsPlain : Item → Type 0
IsPlain (rename name) = IsText name
IsPlain (say text) = IsText text

split_line-line :
    (line rest : List ℕ)
    → All (λ b. (b ≢ b'\n') × (b ≢ 0)) line
    → split_line (line ++ b'\n' ∷ rest) ≡ some (line, rest)
unfolding split_line
split_line-line [] rest h = refl
split_line-line (b ∷ line) rest h =
    let here : (b == b'\n') ≡ false = ground (arith, h.0.0) in
    rw (here, split_line-line line rest h.1) refl

c_string-line : (s : List ℕ) → All (λ b. (b ≢ b'\n') × (b ≢ 0)) s → c_string s ≡ s
unfolding c_string
c_string-line [] h = refl
c_string-line (b ∷ s) h =
    let here : (b == 0) ≡ false = ground (arith, h.0.1) in rw (here, c_string-line s h.1) refl

abbrev holding : Client → CString → List ℕ → Client
holding c nick buffer = record c { talk = record c.talk { nick = nick }; buffer = buffer }

pass_rename :
    (c : Client) (name rest : List ℕ)
    → IsText name
    → pass_line c (split_line (codes "NICK " ++ (name ++ b'\n' ∷ rest)))
      ≡ some (some (holding c (take 31 name) rest, []))
unfolding pass_line split_line handle_line scan_literal c_string
pass_rename c name rest h = rw (split_line-line name rest h.0) (rw (c_string-line name h.0) refl)

-- The message as the code puts it together.
abbrev spoken_line : CString → CString → List ℕ
spoken_line nick text = codes "MSG " ++ (nick ++ (b' ' ∷ text) ++ b'\n' ∷ [])

printed-spoken_line :
    (nick text : CString)
    → length nick < 32
    → length text ≤ 4000
    → printed (spoken_line nick text) ≡ some (spoken_line nick text)
unfolding printed
printed-spoken_line nick text n h =
    let fits : ltb (length (spoken_line nick text)) buffer_size ≡ true = ground (
      arith,
      length-append nick (b' ' ∷ text),
      length-append (nick ++ (b' ' ∷ text)) (b'\n' ∷ []),
    ) in
    rw fits refl

pass_say :
    (c : Client) (text rest : List ℕ)
    → length c.talk.nick < 32
    → IsText text
    → pass_line c (split_line (codes "MSG " ++ (text ++ b'\n' ∷ rest)))
      ≡ some (some (record c { buffer = rest }, spoken_line c.talk.nick text ∷ []))
unfolding pass_line split_line handle_line scan_literal c_string
pass_say c text rest n h =
    rw (split_line-line text rest h.0)
      (rw (c_string-line text h.0) (rw (printed-spoken_line c.talk.nick text n h.1) refl))

said :
    (nick text more : List ℕ)
    → flat (spoken_line nick text ∷ []) ++ more
      ≡ codes "MSG " ++ (nick ++ b' ' ∷ (text ++ b'\n' ∷ more))
unfolding flat
said nick text more =
    ap (λ l. l ++ more) (append_nil (spoken_line nick text))
    ∙ ap (λ l. codes "MSG " ++ l)
        (append_assoc (nick ++ (b' ' ∷ text)) (b'\n' ∷ []) more
          ∙ append_assoc nick (b' ' ∷ text) (b'\n' ∷ more))

length-wire : (i : Item) (is : List Item) → 0 < length (wire (i ∷ is))
unfolding wire
length-wire (rename name) is = omega arith
length-wire (say text) is = omega arith

understand_items :
    (is : List Item) (c : Client)
    → c.talk.in_file ≡ false
    → length c.talk.nick < 32
    → All IsPlain is
    → understand (record c { buffer = wire is })
      ≡ some (holding c (last_nick c.talk.nick is) [], transcript c.talk.nick is)
unfolding wire transcript flat
understand_items [] c f n h =
    unfold understand in decode_end 0 (record c { buffer = [] }) (round_empty _ refl)
understand_items (rename name ∷ is) c f n h =
    let whole = record c { buffer = wire (rename name ∷ is) } in
    let c' = holding c (take 31 name) (wire is) in
    let r : round whole ≡ some (some (c', [])) =
      round_line whole (omega arith) f ∙ pass_rename whole name (wire is) h.0 in
    understand_on whole c' [] r
    ∙ ap (option_map (prefixed (flat [])))
        (understand_items is c' f (omega (arith, length-take 31 name)) h.1)
understand_items (say text ∷ is) c f n h =
    let whole = record c { buffer = wire (say text ∷ is) } in
    let c' = record c { buffer = wire is } in
    let msg = spoken_line c.talk.nick text in
    let r : round whole ≡ some (some (c', msg ∷ [])) =
      round_line whole (omega arith) f ∙ pass_say whole text (wire is) n h.0 in
    understand_on whole c' (msg ∷ []) r
    ∙ ap (option_map (prefixed (flat (msg ∷ [])))) (understand_items is c f n h.1)
    ∙ ap (λ l. some (holding c (last_nick c.talk.nick is) [], l))
        (said c.talk.nick text (transcript c.talk.nick is))

-- While every send succeeds, a client with a name of at most 31 bytes and nothing left over that
-- sends lines of renaming and of speaking, in one read that fits its buffer and with texts of at
-- most 4000 bytes without newline or NUL, is left with its last name, of at most 31 bytes, and
-- every other connection is handed just the transcript: each text that was spoken, in order, behind
-- the name that the client had then.
pub items_are_told :
    (index sender : ℕ) (s : Server) (c : Client) (i : Item) (is : List Item)
    → Succeeds s.sends
    → IsConnected index sender s c
    → c.buffer ≡ []
    → c.talk.in_file ≡ false
    → length c.talk.nick < 32
    → All IsPlain (i ∷ is)
    → length (wire (i ∷ is)) ≤ buffer_size
    → let c' = record c { talk = record c.talk { nick = last_nick c.talk.nick (i ∷ is) } } in
      (s' : Server) × (effects : List Effect) × (process_client index (some (wire (i ∷ is))) s
        ≡ some (s', effects))
      × Delivered index sender s c' (transcript c.talk.nick (i ∷ is)) s' effects
items_are_told index sender s c i is ok w e f n h room =
    let bytes = wire (i ∷ is) in
    let nick = last_nick c.talk.nick (i ∷ is) in
    let c' = record c { talk = record c.talk { nick = nick } } in
    let empty : holding c nick [] ≡ c' = λ j. record c' { buffer = sym e j } in
    let joined : extend c bytes ≡ record c { buffer = bytes } =
      λ j. record c { buffer = e j ++ bytes } in
    process_client_delivers index sender s c c' bytes (transcript c.talk.nick (i ∷ is)) ok w
      (length-wire i is) (omega (arith, room, ap (λ b. length b) e))
      (ap understand joined
        ∙ understand_items (i ∷ is) c f n h
        ∙ ap (λ x. some (x, transcript c.talk.nick (i ∷ is))) empty)
