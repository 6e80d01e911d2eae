-- ===== src/ContactTree/Tests.antt =====
-- Runs of module2/4.3/main.c, and its theorems at concrete trees.
use practice2_eltex.Prelude.{◌+◌, ◌≤◌, ◌≡◌, refl, ◌≢◌, none, some, List, [], ◌∷◌, arith, All}
use practice2_eltex.Prelude.Strings.{strcmp, codes}
use practice2_eltex.ContactTree.{
  Contact, Tree, leaf, node, height, create_node, compare_contacts, measured, rotate_left,
  get_balance, leans, case_rl, case_lr, case_rr, rebalance, insert, search_name,
}
use practice2_eltex.ContactTree.Listing.{in_order, insert_sorted, IsSorted, in_order-insert}
use practice2_eltex.ContactTree.Avl.{IsAvl, IsFresh}
use practice2_eltex.ContactTree.Balance.{insert-IsAvl}
use practice2_eltex.ContactTree.Search.{In, search_name_sound, search_name_complete}
use practice2_eltex.ContactTree.Duplicates.{insert_copies, chain, insert_copies-chain}
use practice2_eltex.ContactTree.Menu.{Choice, add, show, find, IsShort, AreNew, Runs, run-listed}

abbrev ann : Contact
ann = record { last_name = codes "Ann"; first_name = codes "A" }

abbrev bob : Contact
bob = record { last_name = codes "Bob"; first_name = codes "B" }

abbrev cat : Contact
cat = record { last_name = codes "Cat"; first_name = codes "C" }

-- The tree of two contacts that grows on its right side.
abbrev two : Tree
two = node leaf ann (node leaf bob leaf 1) 2

-- The third contact turns it to the left.
abbrev three : Tree
three = node (node leaf ann leaf 1) bob (node leaf cat leaf 1) 2

insert_third : insert two cat ≡ some three
unfolding insert rebalance case_lr case_rl case_rr leans get_balance measured height rotate_left
    create_node compare_contacts strcmp
insert_third = refl

two-IsSorted : IsSorted (in_order two)
unfolding in_order compare_contacts strcmp
two-IsSorted = ((λ e. ground arith, tt), (tt, tt))

in_order-insert_example : in_order three ≡ insert_sorted cat (in_order two)
in_order-insert_example = in_order-insert two cat three two-IsSorted insert_third

two-IsAvl : IsAvl two
unfolding height
two-IsAvl = (tt, (tt, tt, refl, omega arith, omega arith), refl, omega arith, omega arith)

two-IsFresh : IsFresh cat two
unfolding compare_contacts strcmp
two-IsFresh = (tt, λ e. ground arith, (tt, λ e. ground arith, tt))

insert-IsAvl_example :
    (t' : Tree) × (insert two cat ≡ some t')
    × IsAvl t'
    × (height two ≤ height t')
    × (height t' ≤ height two + 1)
insert-IsAvl_example = insert-IsAvl two cat two-IsAvl two-IsFresh

find_bob : search_name two (codes "Bob") ≡ some bob
unfolding search_name strcmp
find_bob = refl

search_name_sound_example : In bob two × (bob.last_name ≡ codes "Bob")
search_name_sound_example = search_name_sound two (codes "Bob") bob find_bob

miss_cat : search_name two (codes "Cat") ≡ none
unfolding search_name strcmp
miss_cat = refl

search_name_complete_example : All (λ c. c.last_name ≢ codes "Cat") (in_order two)
search_name_complete_example = search_name_complete two (codes "Cat") two-IsSorted miss_cat

insert_copies-chain_example : insert_copies 3 ann ≡ some (chain 3 ann)
insert_copies-chain_example = insert_copies-chain 3 ann

abbrev choices : List Choice
choices = add ann ∷ find (codes "Bob") ∷ add bob ∷ add cat ∷ show ∷ []

choices-AreNew : AreNew [] choices
unfolding insert_sorted compare_contacts strcmp
choices-AreNew = (tt, ((λ e. ground arith, tt), ((λ e. ground arith, (λ e. ground arith, tt)), tt)))

choices-IsShort : All IsShort choices
choices-IsShort = (
  (omega arith, omega arith),
  (omega arith, ((omega arith, omega arith), ((omega arith, omega arith), (tt, tt)))),
)

run-listed_example : Runs leaf choices
run-listed_example = run-listed choices choices-AreNew choices-IsShort
