-- ===== src/ContactTree/Rotations.antt =====
-- module2/4.3/main.c: what rebalancing does to a node, by the heights of its children.
use Prim.Native.Nat.Ordering.{lt, gt}
use practice2_eltex.Prelude.{ℕ, ◌+◌, ◌≤◌, ◌≡◌, some, arith}
use practice2_eltex.ContactTree.{
  Contact, Tree, node, height, compare_contacts, measured, rotate_right, rotate_left, get_balance,
  leans, case_rl, case_lr, case_rr, rebalance,
}

module _ (c d : Contact) (l r : Tree) where
  -- A node whose children differ by at most one level is left alone.
  pub rebalance_calm :
      height l ≤ height r + 1
      → height r ≤ height l + 1
      → rebalance c (measured l d r) ≡ some (measured l d r)
  unfolding rebalance case_rr case_lr case_rl leans get_balance measured
  rebalance_calm h k = ground arith

module _ (c d x : Contact) (a b r : Tree) (k : ℕ) where
  pub rebalance_ll :
      k ≡ height r + 2
      → compare_contacts c x ≡ lt
      → rebalance c (measured (node a x b k) d r) ≡ some (measured a x (measured b d r))
  unfolding rebalance leans get_balance measured height rotate_right
  rebalance_ll h e = ground arith

  pub rebalance_rr :
      k ≡ height r + 2
      → compare_contacts c x ≡ gt
      → rebalance c (measured r d (node a x b k)) ≡ some (measured (measured r d a) x b)
  unfolding rebalance case_rr leans get_balance measured height rotate_left
  rebalance_rr h e = ground arith

module _ (c d x y : Contact) (a b e r : Tree) (k m : ℕ) where
  pub rebalance_lr :
      k ≡ height r + 2
      → compare_contacts c x ≡ gt
      → rebalance c (measured (node a x (node b y e m) k) d r)
        ≡ some (measured (measured a x b) y (measured e d r))
  unfolding rebalance case_rr case_lr leans get_balance measured height rotate_left rotate_right
  rebalance_lr h s = ground arith

  pub rebalance_rl :
      k ≡ height r + 2
      → compare_contacts c x ≡ lt
      → rebalance c (measured r d (node (node b y e m) x a k))
        ≡ some (measured (measured r d b) y (measured e x a))
  unfolding rebalance case_rr case_lr case_rl leans get_balance measured height rotate_left
      rotate_right
  rebalance_rl h s = ground arith
