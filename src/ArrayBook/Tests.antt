-- ===== src/ArrayBook/Tests.antt =====
-- Runs of module2/2.1/phonebook.c, and its theorem at a concrete session.
use practice2_eltex.Prelude.{◌≡◌, refl, some, List, [], ◌∷◌, arith, get_elem?, All, option_map}
use practice2_eltex.Prelude.Int.{pos}
use practice2_eltex.Prelude.Strings.{CString, strcmp, str_eqb, codes}
use practice2_eltex.ArrayBook.{
  Book, start, Entry, named, filled, show_contacts, replace_name, renamed, Choice, add, edit,
  delete, run,
}
use practice2_eltex.ArrayBook.Entries.{IsValid, IsProper, change, replay}
use practice2_eltex.ArrayBook.Steps.{run-replay}

abbrev entry : CString → CString → Entry
entry last first = record {
  last_name = some last;
  first_name = some first;
  work = some [];
  position = some [];
  phones = some [];
  emails = some [];
  social = some [];
  messengers = some [];
}

abbrev session : List Choice
session =
    add (entry (codes "Li") (codes "Bo"))
    ∷ add (entry (codes "Ng") (codes "An"))
    ∷ edit (pos 1) (codes "Al") (codes ".")
    ∷ delete (pos 0)
    ∷ delete (pos 7)
    ∷ []

session-IsProper : All IsProper session
session-IsProper = (
  ((omega arith, omega arith), (omega arith, omega arith), tt, tt, tt, tt, tt, tt),
  (
    ((omega arith, omega arith), (omega arith, omega arith), tt, tt, tt, tt, tt, tt),
    ((omega arith, omega arith), (tt, (tt, tt))),
  ),
)

what_is_left : option_map (λ c. c.first_name) (get_elem? (replay [] session) 0) ≡ some (codes "Al")
unfolding replay change filled named renamed replace_name str_eqb strcmp
what_is_left = refl

run-replay_example :
    (b : Book) × (run start session ≡ some b) × IsValid b × (show_contacts b ≡ replay [] session)
run-replay_example = run-replay session session-IsProper
