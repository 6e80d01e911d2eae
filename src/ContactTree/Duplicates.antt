-- ===== src/ContactTree/Duplicates.antt =====
-- module2/4.3/main.c: insert when the same contact comes again.
use practice2_eltex.Prelude.{ℕ, zero, suc, ◌≡◌, refl, Option, some, arith, ◌>>=◌}
use practice2_eltex.ContactTree.{
  Contact, Tree, leaf, node, height, create_node, measured, get_balance, leans, case_rl, case_lr,
  case_rr, rebalance, insert,
}
use practice2_eltex.ContactTree.Order.{compare_contacts-IsLinear}

-- The same contact inserted again and again.
unfoldable pub insert_copies : ℕ → Contact → Option Tree
insert_copies zero c = some leaf
insert_copies (suc n) c = insert_copies n c >>= λ t. insert t c

-- Right children only.
unfoldable pub chain : ℕ → Contact → Tree
chain zero c = leaf
chain (suc n) c = node leaf c (chain n c) (suc n)

pub height-chain : (n : ℕ) (c : Contact) → height (chain n c) ≡ n
unfolding chain height
height-chain zero c = refl
height-chain (suc n) c = refl

rebalance-chain :
    (n : ℕ) (c : Contact) → rebalance c (measured leaf c (chain n c)) ≡ some (chain (suc n) c)
unfolding rebalance case_rr case_lr case_rl leans get_balance measured chain height
rebalance-chain zero c = refl
rebalance-chain (suc n) c = ground (arith, compare_contacts-IsLinear.same c)

insert-chain : (n : ℕ) (c : Contact) → insert (chain n c) c ≡ some (chain (suc n) c)
unfolding chain insert create_node
insert-chain zero c = refl
insert-chain (suc n) c =
    rw (compare_contacts-IsLinear.same c, insert)
      (rw (insert-chain n c) (rebalance-chain (suc n) c))

-- Equal contacts are never rotated: n insertions of one contact build a chain of height n.
pub insert_copies-chain : (n : ℕ) (c : Contact) → insert_copies n c ≡ some (chain n c)
unfolding insert_copies chain
insert_copies-chain zero c = refl
insert_copies-chain (suc n) c = rw (insert_copies-chain n c) (insert-chain n c)
