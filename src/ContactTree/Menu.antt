-- ===== src/ContactTree/Menu.antt =====
-- main of module2/4.3/main.c: the menu loop, whose input is taken as the words that scanf has read.
-- scanf has no width and the arrays have 50 bytes: a word that does not fit is undefined, none.
use practice2_eltex.Prelude.{
  ℕ, ◌<◌, ◌≡◌, refl, sym, ap, subst, ◌∙◌, ◌≢◌, Bool, true, ◌&&◌, Option, none, some, List, [], ◌∷◌,
  arith, ltb, if◌then◌else◌, length, All, option_map,
}
use practice2_eltex.Prelude.Strings.{CString}
use practice2_eltex.ContactTree.{
  Contact, Tree, leaf, node, compare_contacts, insert, search_name, print_tree,
}
use practice2_eltex.ContactTree.Listing.{
  in_order, insert_sorted, IsSorted, All-append_right, All-append_left, in_order-insert,
  insert_sorted-IsSorted,
}
use practice2_eltex.ContactTree.Avl.{IsAvl, IsFresh}
use practice2_eltex.ContactTree.Balance.{insert-IsAvl}
use Prim.Native.Nat.Ordering.{eq}

-- The choices 1 to 3; any other ends the loop, where the list ends.
pub data Choice : Type 0 where
  add : Contact → Choice
  show : Choice
  find : CString → Choice

pub data Output : Type 0 where
  added : Output
  shown : List (ℕ × Contact) → Output
  found : Contact → Output
  not_found : Output

abbrev report : Option Contact → Output
report none = not_found
report (some c) = found c

-- A word and its NUL fit an array of 50 bytes.
abbrev pub fits : CString → Bool
fits word = ltb (length word) 50

unfoldable pub round : Tree → Choice → Option (Tree × Output)
round t (add c) =
    if fits c.last_name && fits c.first_name
    then option_map (λ t'. (t', added)) (insert t c)
    else none
round t show = some (t, shown (print_tree t 0))
round t (find name) = if fits name then some (t, report (search_name t name)) else none

unfoldable pub run : Tree → List Choice → Option (Tree × List Output)
run t [] = some (t, [])
run t (c ∷ cs) = elim (round t c) [
  | none ↦ none
  | some (t', o) ↦ option_map (λ r. (r.0, o ∷ r.1)) (run t' cs)
]

-- The contacts that the choices leave, in order.
unfoldable pub listed : List Contact → List Choice → List Contact
listed xs [] = xs
listed xs (add c ∷ cs) = listed (insert_sorted c xs) cs
listed xs (show ∷ cs) = listed xs cs
listed xs (find name ∷ cs) = listed xs cs

-- The words of a choice have fewer than 50 bytes.
abbrev pub IsShort : Choice → Type 0
IsShort (add c) = (length c.last_name < 50) × (length c.first_name < 50)
IsShort show = Unit
IsShort (find name) = length name < 50

-- Every contact that is added differs from those before it.
abbrev pub AreNew : List Contact → List Choice → Type 0
AreNew xs [] = Unit
AreNew xs (add c ∷ cs) = All (λ d. compare_contacts c d ≢ eq) xs × AreNew (insert_sorted c xs) cs
AreNew xs (show ∷ cs) = AreNew xs cs
AreNew xs (find name ∷ cs) = AreNew xs cs

IsFresh-of_in_order :
    (c : Contact) (t : Tree) → All (λ d. compare_contacts c d ≢ eq) (in_order t) → IsFresh c t
unfolding in_order
IsFresh-of_in_order c leaf h = tt
IsFresh-of_in_order c (node l d r _) h =
    let P : Contact → Type 0 = λ x. compare_contacts c x ≢ eq in
    let right = All-append_right P (in_order l) (d ∷ in_order r) h in
    (
      IsFresh-of_in_order c l (All-append_left P (in_order l) (d ∷ in_order r) h),
      right.0,
      IsFresh-of_in_order c r right.1,
    )

abbrev pub Runs : Tree → List Choice → Type 0
Runs t cs =
    (t' : Tree) × (outputs : List Output) × (run t cs ≡ some (t', outputs))
    × IsAvl t'
    × IsSorted (in_order t')
    × (in_order t' ≡ listed (in_order t) cs)

run_add :
    (t t1 t' : Tree) (c : Contact) (cs : List Choice) (os : List Output)
    → IsShort (add c)
    → insert t c ≡ some t1
    → run t1 cs ≡ some (t', os)
    → run t (add c ∷ cs) ≡ some (t', added ∷ os)
unfolding run round
run_add t t1 t' c cs os short inserted later =
    let last : fits c.last_name ≡ true = ground (arith, short.0) in
    let first : fits c.first_name ≡ true = ground (arith, short.1) in
    rw (last, first, run) (rw (inserted, run) (rw (later, run) refl))

run-find :
    (t t' : Tree) (name : CString) (cs : List Choice) (os : List Output)
    → IsShort (find name)
    → run t cs ≡ some (t', os)
    → run t (find name ∷ cs) ≡ some (t', report (search_name t name) ∷ os)
unfolding run round
run-find t t' name cs os short later =
    let whole : fits name ≡ true = ground (arith, short) in rw (whole, run) (rw (later, run) refl)

run_from :
    (cs : List Choice) (t : Tree)
    → IsAvl t
    → IsSorted (in_order t)
    → AreNew (in_order t) cs
    → All IsShort cs
    → Runs t cs
unfolding run round listed
run_from [] t a s n w = (t, [], refl, a, s, refl)
run_from (show ∷ cs) t a s n w =
    let (t', os, e, a', s', same) = run_from cs t a s n w.1 in
    (t', shown (print_tree t 0) ∷ os, rw (e, run) refl, a', s', same)
run_from (find name ∷ cs) t a s n w =
    let (t', os, e, a', s', same) = run_from cs t a s n w.1 in
    (t', report (search_name t name) ∷ os, run-find t t' name cs os w.0 e, a', s', same)
run_from (add c ∷ cs) t a s n w =
    let (t1, e1, a1, _, _) = insert-IsAvl t c a (IsFresh-of_in_order c t n.0) in
    let same = in_order-insert t c t1 s e1 in
    let sorted = subst IsSorted (sym same) (insert_sorted-IsSorted c (in_order t) s) in
    let new = subst (λ xs. AreNew xs cs) (sym same) n.1 in
    let (t', os, e, a', s', same') = run_from cs t1 a1 sorted new w.1 in
    (t', added ∷ os, run_add t t1 t' c cs os w.0 e1 e, a', s', same' ∙ ap (λ xs. listed xs cs) same)

-- From the empty tree, a session of the menu whose typed words have fewer than 50 bytes and whose
-- added contacts all differ never follows a null pointer nor leaves the arrays of the words, and
-- leaves an AVL tree that holds, in order, the contacts that were added.
pub run-listed : (cs : List Choice) → AreNew [] cs → All IsShort cs → Runs leaf cs
unfolding in_order
run-listed cs n w = run_from cs leaf tt tt n w
