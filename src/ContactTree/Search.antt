-- ===== src/ContactTree/Search.antt =====
-- module2/4.3/main.c: search, and the listing that printTree gives.
use Prim.Native.Nat.{Ordering}
use Prim.Native.Nat.Ordering.{lt, eq, gt}
use mathlib.Core.List.{reverse, reverse-append, append_assoc, map-append}
use practice2_eltex.Prelude.{
  ℕ, ◌+◌, ◌≡◌, refl, sym, ap, ◌∙◌, ◌≢◌, none, some, [], ◌∷◌, ◌++◌, map, arith, All, All-append,
  All-imp, some≢none, some_inj,
}
use practice2_eltex.Prelude.Strings.{CString, strcmp, strcmp-IsLinear}
use practice2_eltex.ContactTree.{
  Contact, Tree, leaf, node, compare_contacts, search_name, print_tree,
}
use practice2_eltex.ContactTree.Listing.{in_order, IsSorted, Around, around}

-- A contact of the tree.
pub data In (c : Contact) : Tree → Type 0 where
  root : {l r : Tree} {h : ℕ} → In c (node l c r h)
  in_left : {l r : Tree} {d : Contact} {h : ℕ} → In c l → In c (node l d r h)
  in_right : {l r : Tree} {d : Contact} {h : ℕ} → In c r → In c (node l d r h)

module _ (l : Tree) (d : Contact) (r : Tree) (h : ℕ) (name : CString) where
  search_lt : strcmp name d.last_name ≡ lt → search_name (node l d r h) name ≡ search_name l name
  unfolding search_name
  search_lt k = rw (k, search_name)

  search_eq : strcmp name d.last_name ≡ eq → search_name (node l d r h) name ≡ some d
  unfolding search_name
  search_eq k = rw (k, search_name)

  search_gt : strcmp name d.last_name ≡ gt → search_name (node l d r h) name ≡ search_name r name
  unfolding search_name
  search_gt k = rw (k, search_name)

abbrev Found : Contact → CString → Tree → Type 0
Found c name t = In c t × (c.last_name ≡ name)

-- A contact that search returns stands in the tree and has the name.
pub search_name_sound :
    (t : Tree) (name : CString) (c : Contact)
    → search_name t name ≡ some c
    → In c t × (c.last_name ≡ name)
search_name_sound leaf name c e = unfold search_name in cc
search_name_sound (node l d r h) name c e =
    go (strcmp name d.last_name) refl (search_name_sound l name c) (search_name_sound r name c)
  where
    here : strcmp name d.last_name ≡ eq → d ≡ c → Found c name (node l d r h)
    here k f = rw (← f) (root, sym (strcmp-IsLinear.equal name d.last_name k))

    go :
        (o : Ordering)
        → strcmp name d.last_name ≡ o
        → (search_name l name ≡ some c → Found c name l)
        → (search_name r name ≡ some c → Found c name r)
        → Found c name (node l d r h)
    go lt k left right = let (i, f) = left (sym (search_lt l d r h name k) ∙ e) in (in_left i, f)
    go eq k left right = here k (some_inj (sym (search_eq l d r h name k) ∙ e))
    go gt k left right = let (i, f) = right (sym (search_gt l d r h name k) ∙ e) in (in_right i, f)

last_below :
    (name : CString) (d y : Contact)
    → strcmp name d.last_name ≡ lt
    → compare_contacts y d ≢ lt
    → y.last_name ≢ name
unfolding compare_contacts
last_below name d y k n e = n (rw (e, k))

last_above :
    (name : CString) (d x : Contact)
    → strcmp name d.last_name ≡ gt
    → compare_contacts d x ≢ lt
    → x.last_name ≢ name
unfolding compare_contacts
last_above name d x k n e = n (rw (e, (strcmp-IsLinear.turned d.last_name name).1 k))

-- Where search finds nothing in a sorted tree, no contact of the tree has the name.
pub search_name_complete :
    (t : Tree) (name : CString)
    → IsSorted (in_order t)
    → search_name t name ≡ none
    → All (λ c. c.last_name ≢ name) (in_order t)
unfolding in_order
search_name_complete leaf name s e = tt
search_name_complete (node l d r h) name s e =
    let a = around (in_order l) d (in_order r) s in
    parts (strcmp name d.last_name) refl a (search_name_complete l name a.sorted_left)
      (search_name_complete r name a.sorted_right)
  where
    other : Contact → Type 0
    other c = c.last_name ≢ name

    parts :
        (o : Ordering)
        → strcmp name d.last_name ≡ o
        → Around (in_order l) d (in_order r)
        → (search_name l name ≡ none → All other (in_order l))
        → (search_name r name ≡ none → All other (in_order r))
        → All other (in_order l ++ d ∷ in_order r)
    parts lt k a left right =
        All-append other (in_order l) (d ∷ in_order r) (left (sym (search_lt l d r h name k) ∙ e)) (
          λ f. ground (arith, strcmp-IsLinear.same name, ap (λ s. strcmp name s) f),
          All-imp _ _ (λ y n. last_below name d y k n) (in_order r) a.right,
        )
    parts eq k a left right = absurd (some≢none (sym (search_eq l d r h name k) ∙ e))
    parts gt k a left right =
        All-append other (in_order l) (d ∷ in_order r)
          (All-imp _ _ (λ x n. last_above name d x k n) (in_order l) a.left)
          (
            λ f. ground (arith, strcmp-IsLinear.same name, ap (λ s. strcmp name s) f),
            right (sym (search_gt l d r h name k) ∙ e),
          )

-- printTree prints each contact of a tree once, from right to left, whatever the indentation.
pub print_tree-eq-reverse :
    (t : Tree) (space : ℕ) → map (λ p. p.1) (print_tree t space) ≡ reverse (in_order t)
unfolding print_tree in_order
print_tree-eq-reverse leaf space = refl
print_tree-eq-reverse (node l d r h) space =
    simp
      (
        map-append,
        reverse-append,
        print_tree-eq-reverse l (space + 5),
        print_tree-eq-reverse r (space + 5),
      )
      (sym (
        ap (λ ys. ys ++ reverse (in_order l)) (reverse-append (d ∷ []) (in_order r))
        ∙ append_assoc (reverse (in_order r)) (d ∷ []) (reverse (in_order l))))
