-- ===== src/ContactTree/Descent.antt =====
-- module2/4.3/main.c: the way that insert takes down the tree.
use Prim.Native.Nat.{Ordering}
use Prim.Native.Nat.Ordering.{lt, eq, gt}
use practice2_eltex.Prelude.{ℕ, ◌≡◌, refl, sym, ◌∙◌, ◌≢◌, some, arith, ◌>>=◌, >>=-eq-some}
use practice2_eltex.ContactTree.{Contact, Tree, node, compare_contacts, measured, rebalance, insert}

-- What a successful insert below a node did.
pub data Descent (l : Tree) (d : Contact) (r : Tree) (c : Contact) (t' : Tree) : Type 0 where
  to_left :
      (u : Tree)
      → compare_contacts c d ≡ lt
      → insert l c ≡ some u
      → rebalance c (measured u d r) ≡ some t'
      → Descent l d r c t'
  to_right :
      (u : Tree)
      → compare_contacts c d ≢ lt
      → insert r c ≡ some u
      → rebalance c (measured l d u) ≡ some t'
      → Descent l d r c t'

module _ (l : Tree) (d : Contact) (r : Tree) (h : ℕ) (c : Contact) where
  pub insert_left :
      compare_contacts c d ≡ lt
      → insert (node l d r h) c ≡ (insert l c >>= λ u. rebalance c (measured u d r))
  unfolding insert
  insert_left k = rw (k, insert)

  pub insert_right :
      compare_contacts c d ≢ lt
      → insert (node l d r h) c ≡ (insert r c >>= λ u. rebalance c (measured l d u))
  unfolding insert
  insert_right k = go (compare_contacts c d) refl
    where
      go :
          (o : Ordering)
          → compare_contacts c d ≡ o
          → insert (node l d r h) c ≡ (insert r c >>= λ u. rebalance c (measured l d u))
      go lt e = absurd (k e)
      go eq e = rw (e, insert)
      go gt e = rw (e, insert)

  pub descent : (t' : Tree) → insert (node l d r h) c ≡ some t' → Descent l d r c t'
  descent t' e = go (compare_contacts c d) refl
    where
      right_way : compare_contacts c d ≢ lt → Descent l d r c t'
      right_way n =
          let (u, built, done) =
            >>=-eq-some (insert r c) (λ u. rebalance c (measured l d u))
              (sym (insert_right n) ∙ e) in
          to_right u n built done

      go : (o : Ordering) → compare_contacts c d ≡ o → Descent l d r c t'
      go lt k =
          let (u, built, done) =
            >>=-eq-some (insert l c) (λ u. rebalance c (measured u d r))
              (sym (insert_left k) ∙ e) in
          to_left u k built done
      go eq k = right_way (λ f. ground arith)
      go gt k = right_way (λ f. ground arith)
