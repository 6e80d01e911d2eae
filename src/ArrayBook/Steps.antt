-- ===== src/ArrayBook/Steps.antt =====
-- module2/2.1/phonebook.c: each choice of the menu against the list of contacts.
use practice2_eltex.Prelude.{
  ℕ, zero, suc, ◌+◌, ◌-◌, ◌≤◌, ◌<◌, ◌≡◌, refl, sym, ap, ◌∙◌, inl, inr, Bool, true, false, Option,
  none, some, List, [], ◌∷◌, ◌++◌, arith, leb, lt_or_le, length, get_elem?, set, length-set, get_or,
  take, length-take, length-replicate, All,
}
use practice2_eltex.Prelude.Arrays.{remove_at}
use practice2_eltex.Prelude.Int.{pos, negsuc}
use practice2_eltex.Prelude.Strings.{CString, str_eqb, codes}
use practice2_eltex.ArrayBook.{
  max_contacts, Contact, blank, Book, start, Entry, typed, fits, is_empty, named, filled,
  read_entry, add_contact, show_contacts, replace_name, renamed, edit_slot, edit_contact,
  delete_contact, Choice, add, edit, delete, other, step, run,
}
use practice2_eltex.ArrayBook.Shift.{
  shifted, store_lem, load_lem, shift_lem, take-shifted, length-shifted, take-set_next, take-set,
  get_elem?-take, get_elem?_beyond,
}
use practice2_eltex.ArrayBook.Entries.{
  IsValid, IsTyped, IsName, IsFull, IsProper, change, replay, Steps,
}

length-show : (b : Book) → IsValid b → length (show_contacts b) ≡ b.count
unfolding show_contacts
length-show b v = omega (arith, length-take b.count b.contacts)

typed_same : (o : Option CString) (a b : CString) → IsTyped o → typed o a ≡ typed o b
typed_same none a b h = elim h [ ]
typed_same (some s) a b h = refl

name_same : (o : Option CString) (a b : CString) → IsName o → typed o a ≡ typed o b
name_same none a b h = elim h [ ]
name_same (some s) a b h = refl

filled_full : (e : Entry) (c : Contact) → IsFull e → filled e c ≡ filled e blank
unfolding filled named
filled_full e c (last, first, work, position, phones, emails, social, messengers) = λ i. record {
  last_name = name_same e.last_name c.last_name [] last i;
  first_name = name_same e.first_name c.first_name [] first i;
  work = typed_same e.work c.work [] work i;
  position = typed_same e.position c.position [] position i;
  phones = typed_same e.phones c.phones [] phones i;
  emails = typed_same e.emails c.emails [] emails i;
  social = typed_same e.social c.social [] social i;
  messengers = typed_same e.messengers c.messengers [] messengers i;
}

name_fits : (o : Option CString) → IsName o → fits 50 o ≡ true
name_fits none h = elim h [ ]
name_fits (some s) h = ground arith

name_not_empty : (o : Option CString) (a : CString) → IsName o → is_empty (typed o a) ≡ false
name_not_empty none a h = elim h [ ]
name_not_empty (some []) a h = absurd (omega (arith, h.0))
name_not_empty (some (c ∷ s)) a h = refl

remove_at_beyond : (xs : List Contact) (i : ℕ) → length xs ≤ i → remove_at xs i ≡ xs
remove_at_beyond [] i h = refl
remove_at_beyond (x ∷ xs) zero h = absurd (omega arith)
remove_at_beyond (x ∷ xs) (suc i) h = ap (λ l. x ∷ l) (remove_at_beyond xs i (omega arith))

step_delete : (b : Book) (i : ℕ) → IsValid b → Steps b (delete (pos i))
unfolding step delete_contact change show_contacts
step_delete b i v = elim (lt_or_le i b.count) [
  | inl lt ↦
      let inside : leb b.count i ≡ false = ground arith in
      let last : suc (b.count - 1) ≡ b.count = omega arith in
      (
        record { contacts = shifted (b.count - 1 - i) i b.contacts; count = b.count - 1 },
        rw (inside, shift_lem (b.count - 1 - i) i b.contacts (omega (arith, v.0, v.1))) refl,
        (length-shifted (b.count - 1 - i) i b.contacts ∙ v.0, omega arith),
        take-shifted i (b.count - 1 - i) (b.count - 1) b.contacts (omega arith) (omega (arith, v.0))
            ∙ ap (λ n. remove_at (take n b.contacts) i) last,
      )
  | inr ge ↦
      let outside : leb b.count i ≡ true = ground arith in
      (
        b,
        rw outside refl,
        v,
        sym (remove_at_beyond (show_contacts b) i (omega (arith, length-show b v))),
      )
]

read_full :
    (b : Book) (e : Entry) (c : Contact)
    → IsFull e
    → b.count < length b.contacts
    → read_entry b e c
      ≡ some (record { contacts = set b.contacts b.count (filled e c); count = b.count + 1 })
unfolding read_entry named
read_full b e c f h =
    rw
      (
        name_fits e.last_name f.0,
        name_fits e.first_name f.1,
        name_not_empty e.last_name c.last_name f.0,
        name_not_empty e.first_name c.first_name f.1,
        store_lem b.contacts b.count (filled e c) h,
      )
      refl

step_add : (b : Book) (e : Entry) → IsValid b → IsFull e → Steps b (add e)
unfolding step add_contact change show_contacts named
step_add b e v f = elim (lt_or_le b.count max_contacts) [
  | inl lt ↦
      let c = get_or b.contacts b.count blank in
      let room : leb max_contacts b.count ≡ false = ground arith in
      let room' : leb max_contacts (length (show_contacts b)) ≡ false =
        ground (arith, length-show b v) in
      (
        record { contacts = set b.contacts b.count (filled e c); count = b.count + 1 },
        rw (room, load_lem b.contacts b.count (omega (arith, v.0)), add_contact)
            (read_full b e c f (omega (arith, v.0))),
        (length-set b.contacts b.count (filled e c) ∙ v.0, omega arith),
        rw room' (
            take-set_next b.count (b.count + 1) b.contacts (filled e c) refl (omega (arith, v.0))
            ∙ ap (λ x. take b.count b.contacts ++ x ∷ []) (filled_full e c f)),
      )
  | inr ge ↦
      let full : leb max_contacts b.count ≡ true = ground arith in
      let full' : leb max_contacts (length (show_contacts b)) ≡ true =
        ground (arith, length-show b v) in
      (b, rw full refl, v, rw full' refl)
]

replace_short :
    (word old : CString) → length word < 50 → (s : CString) × (replace_name word old ≡ some s)
unfolding replace_name
replace_short word old h = go (str_eqb word (codes ".")) refl
  where
    go :
        (t : Bool) → str_eqb word (codes ".") ≡ t → (s : CString) × (replace_name word old ≡ some s)
    go true e = (old, ground arith)
    go false e = (word, ground arith)

renamed_short :
    (first last : CString) (c : Contact)
    → length first < 50
    → length last < 50
    → (c' : Contact) × (renamed first last c ≡ some c')
unfolding renamed
renamed_short first last c h k =
    let (f, ef) = replace_short first c.first_name h in
    let (l, el) = replace_short last c.last_name k in
    (record c { first_name = f; last_name = l }, rw (ef, el) refl)

step_edit :
    (b : Book) (i : ℕ) (first last : CString)
    → IsValid b
    → length first < 50
    → length last < 50
    → Steps b (edit (pos i) first last)
unfolding step edit_contact edit_slot change show_contacts
step_edit b i first last v h k = elim (lt_or_le i b.count) [
  | inl lt ↦
      let inside : leb b.count i ≡ false = ground arith in
      let (c, e) = renamed_short first last (get_or b.contacts i blank) h k in
      let there : get_elem? (show_contacts b) i ≡ some (get_or b.contacts i blank) =
        get_elem?-take b.count i b.contacts lt (omega (arith, v.0, v.1)) in
      (
        record b { contacts = set b.contacts i c },
        rw (inside, load_lem b.contacts i (omega (arith, v.0, v.1)), edit_contact)
            (rw (e, edit_slot)
              (rw (store_lem b.contacts i c (omega (arith, v.0, v.1)), edit_slot) refl)),
        (length-set b.contacts i c ∙ v.0, v.1),
        rw there (rw e (take-set b.count i b.contacts c lt)),
      )
  | inr ge ↦
      let outside : leb b.count i ≡ true = ground arith in
      let absent : get_elem? (show_contacts b) i ≡ none =
        get_elem?_beyond (show_contacts b) i (omega (arith, length-show b v)) in
      (b, rw outside refl, v, rw absent refl)
]

step-change : (b : Book) (c : Choice) → IsValid b → IsProper c → Steps b c
unfolding step change
step-change b (add e) v p = step_add b e v p
step-change b (edit (pos i) first last) v (h, k) = step_edit b i first last v h k
step-change b (edit (negsuc i) first last) v p = unfold edit_contact in (b, refl, v, refl)
step-change b (delete (pos i)) v p = step_delete b i v
step-change b (delete (negsuc i)) v p = unfold delete_contact in (b, refl, v, refl)
step-change b other v p = (b, refl, v, refl)

run_from :
    (cs : List Choice) (b : Book)
    → IsValid b
    → All IsProper cs
    → (b' : Book) × (run b cs ≡ some b')
      × IsValid b'
      × (show_contacts b' ≡ replay (show_contacts b) cs)
unfolding run replay
run_from [] b v p = (b, refl, v, refl)
run_from (c ∷ cs) b v p =
    let (b', e, v', s) = step-change b c v p.0 in
    let (b'', e', v'', s') = run_from cs b' v' p.1 in
    (b'', rw (e, run) e', v'', s' ∙ ap (λ xs. replay xs cs) s)

-- From the empty book, choices whose new contacts are typed in full, with names of 1..49 bytes, and
-- whose edits have words of fewer than 50 bytes, stay inside the arrays, keep the book valid, and
-- show the list that adding at the end, replacing and removing leave, with indices out of range
-- and the 101st contact ignored.
pub run-replay :
    (cs : List Choice)
    → All IsProper cs
    → (b : Book) × (run start cs ≡ some b) × IsValid b × (show_contacts b ≡ replay [] cs)
unfolding start show_contacts
run-replay cs p = run_from cs start (length-replicate max_contacts blank, omega arith) p
