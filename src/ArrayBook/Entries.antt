-- ===== src/ArrayBook/Entries.antt =====
-- module2/2.1/phonebook.c: the book as the list of its contacts.
use practice2_eltex.Prelude.{
  ◌≤◌, ◌<◌, ◌≡◌, Option, none, some, List, [], ◌∷◌, ◌++◌, leb, if◌then◌else◌, length, get_elem?,
  set, ◌>>=◌, option_map,
}
use practice2_eltex.Prelude.Arrays.{remove_at}
use practice2_eltex.Prelude.Int.{pos, negsuc}
use practice2_eltex.Prelude.Strings.{CString}
use practice2_eltex.ArrayBook.{
  max_contacts, Contact, blank, Book, Entry, filled, show_contacts, renamed, Choice, add, edit,
  delete, other, step,
}

abbrev pub IsValid : Book → Type 0
IsValid b = (length b.contacts ≡ max_contacts) × (b.count ≤ max_contacts)

-- All of a contact is typed, its names are not empty, and they fit.
abbrev pub IsTyped : Option CString → Type 0
IsTyped none = ⊥
IsTyped (some s) = Unit

abbrev pub IsName : Option CString → Type 0
IsName none = ⊥
IsName (some s) = (0 < length s) × (length s < 50)

abbrev pub IsFull : Entry → Type 0
IsFull e =
    IsName e.last_name
    × IsName e.first_name
    × IsTyped e.work
    × IsTyped e.position
    × IsTyped e.phones
    × IsTyped e.emails
    × IsTyped e.social
    × IsTyped e.messengers

abbrev pub IsProper : Choice → Type 0
IsProper (add e) = IsFull e
IsProper (edit index first last) = (length first < 50) × (length last < 50)
IsProper (delete index) = Unit
IsProper other = Unit

-- The choices on a list of contacts.
abbrev or_same : List Contact → Option (List Contact) → List Contact
or_same xs none = xs
or_same xs (some ys) = ys

unfoldable pub change : List Contact → Choice → List Contact
change xs (add e) = if leb max_contacts (length xs) then xs else xs ++ filled e blank ∷ []
change xs (edit (negsuc _) first last) = xs
change xs (edit (pos i) first last) =
    or_same xs (get_elem? xs i >>= λ c. option_map (set xs i) (renamed first last c))
change xs (delete (negsuc _)) = xs
change xs (delete (pos i)) = remove_at xs i
change xs other = xs

unfoldable pub replay : List Contact → List Choice → List Contact
replay xs [] = xs
replay xs (c ∷ cs) = replay (change xs c) cs

abbrev pub Steps : Book → Choice → Type 0
Steps b c =
    (b' : Book) × (step b c ≡ some b')
    × IsValid b'
    × (show_contacts b' ≡ change (show_contacts b) c)
