-- ===== src/ContactTree.antt =====
-- module2/4.3/main.c: a phone book in an AVL tree, ordered by last and first name.
-- A tree of nodes that nothing else points to is a data type, NULL its leaf. Following a null
-- pointer is `none`; malloc is taken to succeed.
pub mod Order
pub mod Descent
pub mod Duplicates
pub mod Search
pub mod Menu
mod Tests
pub mod Avl
pub mod Turns
pub mod Balance
pub mod Rotations
pub mod Listing
use Prim.Native.Nat.{max, Ordering}
use Prim.Native.Nat.Ordering.{lt, eq, gt}
use practice2_eltex.Prelude.{
  ℕ, ◌+◌, Bool, true, false, Option, none, some, List, [], ◌∷◌, ◌++◌, if◌then◌else◌, ◌>>=◌,
}
use practice2_eltex.Prelude.Int.{ℤ, pos, negsuc, sub_ℕ, ltb_ℤ}
use practice2_eltex.Prelude.Strings.{CString, then_by, strcmp}

pub record Contact : Type 0 where
  pub last_name : CString
  pub first_name : CString

pub data Tree : Type 0 where
  leaf : Tree
  node : Tree → Contact → Tree → ℕ → Tree

unfoldable pub height : Tree → ℕ
height leaf = 0
height (node l c r h) = h

unfoldable pub create_node : Contact → Tree
create_node c = node leaf c leaf 1

unfoldable pub compare_contacts : Contact → Contact → Ordering
compare_contacts a b = then_by (strcmp a.last_name b.last_name) (strcmp a.first_name b.first_name)

-- A node whose height is set from those of its children.
unfoldable pub measured : Tree → Contact → Tree → Tree
measured l c r = node l c r (max (height l) (height r) + 1)

unfoldable pub rotate_right : Tree → Option Tree
rotate_right (node (node l x t2 _) y r _) = some (measured l x (measured t2 y r))
rotate_right _ = none

unfoldable pub rotate_left : Tree → Option Tree
rotate_left (node l x (node t2 y r _) _) = some (measured (measured l x t2) y r)
rotate_left _ = none

unfoldable pub get_balance : Tree → ℤ
get_balance leaf = pos 0
get_balance (node l c r _) = sub_ℕ (height l) (height r)

abbrev pub same_sign : Ordering → Ordering → Bool
same_sign lt lt = true
same_sign eq eq = true
same_sign gt gt = true
same_sign _ _ = false

-- `heavy && compare(c, child->data)` of the given sign; the child is read only if heavy holds.
unfoldable pub leans : Bool → Contact → Tree → Ordering → Option Bool
leans false c t o = some false
leans true c leaf o = none
leans true c (node _ d _ _) o = some (same_sign (compare_contacts c d) o)

-- The four cases at the end of insert, from the last to the first, on a node with its height set.
unfoldable pub case_rl : Contact → Tree → Option Tree
case_rl c leaf = some leaf
case_rl c (node l d r h) = leans (ltb_ℤ (get_balance (node l d r h)) (negsuc 0)) c r lt >>= λ rl.
    if rl then rotate_right r >>= (λ r'. rotate_left (node l d r' h)) else some (node l d r h)

unfoldable pub case_lr : Contact → Tree → Option Tree
case_lr c leaf = some leaf
case_lr c (node l d r h) = leans (ltb_ℤ (pos 1) (get_balance (node l d r h))) c l gt >>= λ lr.
    if lr then rotate_left l >>= (λ l'. rotate_right (node l' d r h)) else case_rl c (node l d r h)

unfoldable pub case_rr : Contact → Tree → Option Tree
case_rr c leaf = some leaf
case_rr c (node l d r h) = leans (ltb_ℤ (get_balance (node l d r h)) (negsuc 0)) c r gt >>= λ rr.
    if rr then rotate_left (node l d r h) else case_lr c (node l d r h)

unfoldable pub rebalance : Contact → Tree → Option Tree
rebalance c leaf = some leaf
rebalance c (node l d r h) = leans (ltb_ℤ (pos 1) (get_balance (node l d r h))) c l lt >>= λ ll.
    if ll then rotate_right (node l d r h) else case_rr c (node l d r h)

unfoldable pub insert : Tree → Contact → Option Tree
insert leaf c = some (create_node c)
insert (node l d r h) c = elim (compare_contacts c d) [
  | lt ↦ insert l c >>= (λ l'. rebalance c (measured l' d r))
  | _ ↦ insert r c >>= (λ r'. rebalance c (measured l d r'))
]

-- The node that is found, by its contact.
unfoldable pub search_name : Tree → CString → Option Contact
search_name leaf name = none
search_name (node l d r _) name = elim (strcmp name d.last_name) [
  | eq ↦ some d
  | lt ↦ search_name l name
  | gt ↦ search_name r name
]

-- The lines of printTree: the blanks in front, and the contact.
unfoldable pub print_tree : Tree → ℕ → List (ℕ × Contact)
print_tree leaf space = []
print_tree (node l d r _) space = print_tree r (space + 5) ++ (space, d) ∷ print_tree l (space + 5)
