-- ===== src/ContactTree/Avl.antt =====
-- module2/4.3/main.c: the AVL trees, and what an insertion does to one.
use Prim.Native.Nat.{max}
use Prim.Native.Nat.Ordering.{lt, eq, gt}
use practice2_eltex.Prelude.{ℕ, ◌+◌, ◌≤◌, ◌≡◌, ◌≢◌, some}
use practice2_eltex.ContactTree.{Contact, Tree, leaf, node, height, compare_contacts, rebalance}

-- Every height is right, and the children of a node differ by at most one level.
abbrev pub IsAvl : Tree → Type 0
IsAvl leaf = Unit
IsAvl (node l d r h) =
    IsAvl l
    × IsAvl r
    × (h ≡ max (height l) (height r) + 1)
    × (height l ≤ height r + 1)
    × (height r ≤ height l + 1)

-- No contact of the tree equals c.
abbrev pub IsFresh : Contact → Tree → Type 0
IsFresh c leaf = Unit
IsFresh c (node l d r h) = IsFresh c l × (compare_contacts c d ≢ eq) × IsFresh c r

-- A tree that grew is taller on the side of the contact.
abbrev pub Leans : Contact → Tree → Type 0
Leans c leaf = ⊥
Leans c (node l d r h) =
    (compare_contacts c d ≡ lt → height l ≡ height r + 1)
    × (compare_contacts c d ≡ gt → height r ≡ height l + 1)
    × (compare_contacts c d ≡ eq → h ≡ 1)

pub record Inserted (c : Contact) (before : ℕ) (t' : Tree) : Type 0 where
  pub is_avl : IsAvl t'
  pub no_lower : before ≤ height t'
  pub grown : height t' ≤ before + 1
  pub leaning : height t' ≡ before + 1 → Leans c t'

abbrev pub Rebalanced : Contact → ℕ → Tree → Type 0
Rebalanced c before t = (t' : Tree) × (rebalance c t ≡ some t') × Inserted c before t'
