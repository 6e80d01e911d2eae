-- ===== src/ArrayBook.antt =====
-- module2/2.1/phonebook.c: a phone book in an array of 100 contacts with a count. What the user
-- types is an argument: a word or a line, and none at the end of the input, which leaves the field
-- as it is. A word that does not fit its array, and an index outside the array of contacts, is
-- undefined behaviour: such a call is none.
pub mod Shift
pub mod Entries
pub mod Steps
mod Tests
use practice2_eltex.Prelude.{
  ℕ, zero, suc, ◌+◌, ◌-◌, Bool, true, false, not, ◌&&◌, ◌||◌, Option, none, some, List, [], ◌∷◌,
  ltb, leb, if◌then◌else◌, length, get_elem?, set, take, replicate, ◌>>=◌, option_map,
}
use practice2_eltex.Prelude.Int.{ℤ, pos, negsuc}
use practice2_eltex.Prelude.Strings.{CString, str_eqb, codes}

abbrev pub max_contacts : ℕ
max_contacts = 100

pub record Contact : Type 0 where
  pub last_name : CString
  pub first_name : CString
  pub work : CString
  pub position : CString
  pub phones : CString
  pub emails : CString
  pub social : CString
  pub messengers : CString

-- The static array is zeroed.
abbrev pub blank : Contact
blank = record {
  last_name = [];
  first_name = [];
  work = [];
  position = [];
  phones = [];
  emails = [];
  social = [];
  messengers = [];
}

pub record Book : Type 0 where
  pub contacts : List Contact
  pub count : ℕ

unfoldable pub start : Book
start = record { contacts = replicate max_contacts blank; count = 0 }

-- What is read for a new contact.
pub record Entry : Type 0 where
  pub last_name : Option CString
  pub first_name : Option CString
  pub work : Option CString
  pub position : Option CString
  pub phones : Option CString
  pub emails : Option CString
  pub social : Option CString
  pub messengers : Option CString

abbrev pub typed : Option CString → CString → CString
typed none old = old
typed (some s) old = s

abbrev pub fits : ℕ → Option CString → Bool
fits size none = true
fits size (some s) = ltb (length s) size

abbrev pub is_empty : CString → Bool
is_empty [] = true
is_empty (_ ∷ _) = false

-- The slot after the names were read, and after the rest was.
unfoldable pub named : Entry → Contact → Contact
named e c = record c {
  last_name = typed e.last_name c.last_name;
  first_name = typed e.first_name c.first_name;
}

unfoldable pub filled : Entry → Contact → Contact
unfolding named
filled e c = record (named e c) {
  work = typed e.work c.work;
  position = typed e.position c.position;
  phones = typed e.phones c.phones;
  emails = typed e.emails c.emails;
  social = typed e.social c.social;
  messengers = typed e.messengers c.messengers;
}

-- An assignment to contacts[i]; get_elem? is its value.
unfoldable pub store : List Contact → ℕ → Contact → Option (List Contact)
store cs i c = if ltb i (length cs) then some (set cs i c) else none

-- What is read into the slot c behind the last contact.
unfoldable pub read_entry : Book → Entry → Contact → Option Book
unfolding named filled store
read_entry b e c =
    if not (fits 50 e.last_name && fits 50 e.first_name)
    then none
    else if is_empty (named e c).last_name || is_empty (named e c).first_name
    then option_map (λ cs. record b { contacts = cs }) (store b.contacts b.count (named e c))
    else option_map (λ cs. record { contacts = cs; count = b.count + 1 })
        (store b.contacts b.count (filled e c))

unfoldable pub add_contact : Book → Entry → Option Book
unfolding read_entry
add_contact b e =
    if leb max_contacts b.count
    then some b
    else elim (get_elem? b.contacts b.count) [ none ↦ none | some c ↦ read_entry b e c ]

-- The lines of showContacts, without their numbers.
unfoldable pub show_contacts : Book → List Contact
show_contacts b = take b.count b.contacts

-- A word is read into 100 bytes, and copied into 50 unless it is a single dot.
unfoldable pub replace_name : CString → CString → Option CString
replace_name word old =
    if not (ltb (length word) 100)
    then none
    else if str_eqb word (codes ".")
    then some old
    else if ltb (length word) 50
    then some word
    else none

unfoldable pub renamed : CString → CString → Contact → Option Contact
unfolding replace_name
renamed first last c = do
  first' ← replace_name first c.first_name
  last' ← replace_name last c.last_name
  some (record c { first_name = first'; last_name = last' })

unfoldable pub edit_slot : Book → ℕ → CString → CString → Contact → Option Book
unfolding renamed store
edit_slot b index first last c = elim (renamed first last c) [
  | none ↦ none
  | some c' ↦ option_map (λ cs. record b { contacts = cs }) (store b.contacts index c')
]

unfoldable pub edit_contact : Book → ℤ → CString → CString → Option Book
unfolding edit_slot
edit_contact b (negsuc _) first last = some b
edit_contact b (pos index) first last =
    if leb b.count index
    then some b
    else elim (get_elem? b.contacts index) [ none ↦ none | some c ↦ edit_slot b index first last c ]

-- The loop `contacts[i] = contacts[i + 1]`, for a count of steps from an index on.
unfoldable pub shift : ℕ → ℕ → List Contact → Option (List Contact)
unfolding store
shift zero i cs = some cs
shift (suc steps) i cs = elim (get_elem? cs (suc i)) [
  | none ↦ none
  | some c ↦ elim (store cs i c) [ none ↦ none | some cs' ↦ shift steps (suc i) cs' ]
]

unfoldable pub delete_contact : Book → ℤ → Option Book
unfolding shift
delete_contact b (negsuc _) = some b
delete_contact b (pos index) =
    if leb b.count index
    then some b
    else option_map (λ cs. record { contacts = cs; count = b.count - 1 })
        (shift (b.count - 1 - index) index b.contacts)

-- The menu's choices that change the book, and the others.
pub data Choice : Type 0 where
  add : Entry → Choice
  edit : ℤ → CString → CString → Choice
  delete : ℤ → Choice
  other : Choice

unfoldable pub step : Book → Choice → Option Book
step b (add e) = add_contact b e
step b (edit index first last) = edit_contact b index first last
step b (delete index) = delete_contact b index
step b other = some b

unfoldable pub run : Book → List Choice → Option Book
run b [] = some b
run b (c ∷ cs) = elim (step b c) [ none ↦ none | some b' ↦ run b' cs ]
