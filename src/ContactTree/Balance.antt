-- ===== src/ContactTree/Balance.antt =====
-- module2/4.3/main.c: insert keeps an AVL tree, as long as no contact equals the new one.
use Prim.Native.Nat.{Ordering, max}
use Prim.Native.Nat.Ordering.{lt, eq, gt}
use practice2_eltex.Prelude.{ℕ, ◌+◌, ◌≤◌, ◌≡◌, refl, ◌∙◌, ◌≢◌, inl, inr, some, arith, le_or_eq}
use practice2_eltex.ContactTree.{
  Contact, Tree, leaf, node, height, create_node, compare_contacts, measured, insert,
}
use practice2_eltex.ContactTree.Order.{compare_contacts-IsLinear, lt_or_ge}
use practice2_eltex.ContactTree.Rotations.{rebalance_calm}
use practice2_eltex.ContactTree.Avl.{IsAvl, IsFresh, Leans, Inserted, Rebalanced}
use practice2_eltex.ContactTree.Turns.{single_left, single_right, double_left, double_right}
use practice2_eltex.ContactTree.Descent.{insert_left, insert_right}

module _ (c d : Contact) (l r : Tree) (before : ℕ) where
  calm_left :
      (u : Tree)
      → compare_contacts c d ≡ lt
      → IsAvl r
      → Inserted c (height l) u
      → before ≡ max (height l) (height r) + 1
      → height l ≤ height r + 1
      → height r ≤ height l + 1
      → height u ≤ height r + 1
      → Rebalanced c before (measured u d r)
  unfolding measured height
  calm_left u k ar i e x y z = (
    measured u d r,
    rebalance_calm c d u r z (omega (arith, i.no_lower)),
    record {
      is_avl = (i.is_avl, ar, refl, z, omega (arith, i.no_lower));
      no_lower = omega (arith, i.no_lower);
      grown = omega (arith, i.grown);
      leaning =
          λ g. (λ _. omega (arith, i.grown, i.no_lower), λ f. ground arith, λ f. ground arith);
    },
  )

  calm_right :
      (u : Tree)
      → compare_contacts c d ≢ lt
      → compare_contacts c d ≢ eq
      → IsAvl l
      → Inserted c (height r) u
      → before ≡ max (height l) (height r) + 1
      → height l ≤ height r + 1
      → height r ≤ height l + 1
      → height u ≤ height l + 1
      → Rebalanced c before (measured l d u)
  unfolding measured height
  calm_right u k n al i e x y z = (
    measured l d u,
    rebalance_calm c d l u (omega (arith, i.no_lower)) z,
    record {
      is_avl = (al, i.is_avl, refl, omega (arith, i.no_lower), z);
      no_lower = omega (arith, i.no_lower);
      grown = omega (arith, i.grown);
      leaning =
          λ g. (λ f. absurd (k f), λ _. omega (arith, i.grown, i.no_lower), λ f. absurd (n f));
    },
  )

turn_left :
    (c d : Contact) (r : Tree) (before below : ℕ) (u : Tree)
    → Inserted c below u
    → IsAvl r
    → height u ≡ height r + 2
    → before ≡ height u
    → below + 1 ≡ height u
    → Rebalanced c before (measured u d r)
unfolding height
turn_left c d r before below leaf i ar z same g = absurd (omega arith)
turn_left c d r before below (node a x b k) i ar z same g = go (compare_contacts c x) refl
  where
    lean : Leans c (node a x b k)
    lean = i.leaning (omega arith)

    go :
        (o : Ordering)
        → compare_contacts c x ≡ o
        → Rebalanced c before (measured (node a x b k) d r)
    go lt f = single_left c d x r before a b k i.is_avl ar z same f (lean.0 f)
    go eq f = absurd (omega (arith, lean.2 f))
    go gt f = double_left c d x r before a b k i.is_avl ar z same f (lean.1 f)

turn_right :
    (c d : Contact) (r : Tree) (before below : ℕ) (u : Tree)
    → Inserted c below u
    → IsAvl r
    → height u ≡ height r + 2
    → before ≡ height u
    → below + 1 ≡ height u
    → Rebalanced c before (measured r d u)
unfolding height
turn_right c d r before below leaf i ar z same g = absurd (omega arith)
turn_right c d r before below (node a x b k) i ar z same g = go (compare_contacts c x) refl
  where
    lean : Leans c (node a x b k)
    lean = i.leaning (omega arith)

    go :
        (o : Ordering)
        → compare_contacts c x ≡ o
        → Rebalanced c before (measured r d (node a x b k))
    go lt f = double_right c d x r before a b k i.is_avl ar z same f (lean.0 f)
    go eq f = absurd (omega (arith, lean.2 f))
    go gt f = single_right c d x r before a b k i.is_avl ar z same f (lean.1 f)

abbrev pub InsertsInto : Contact → Tree → Type 0
InsertsInto c t = (t' : Tree) × (insert t c ≡ some t') × Inserted c (height t) t'

module _ (c d : Contact) (l r : Tree) (h : ℕ) (avl : IsAvl (node l d r h)) where
  grow_left : compare_contacts c d ≡ lt → InsertsInto c l → InsertsInto c (node l d r h)
  unfolding height
  grow_left k (u, built, i) =
      let (al, ar, e, x, y) = avl in
      let res : Rebalanced c h (measured u d r) =
        elim (le_or_eq (height u) (height r + 1) (omega (arith, i.grown))) [
          | inl z ↦ calm_left c d l r h u k ar i e x y z
          | inr z ↦
              turn_left c d r h (height l) u i ar (omega arith) (omega (arith, i.grown))
                (omega (arith, i.grown))
        ] in
      (res.0, insert_left l d r h c k ∙ (rw built res.1), res.2)

  grow_right :
      compare_contacts c d ≢ lt
      → compare_contacts c d ≢ eq
      → InsertsInto c r
      → InsertsInto c (node l d r h)
  unfolding height
  grow_right k n (u, built, i) =
      let (al, ar, e, x, y) = avl in
      let res : Rebalanced c h (measured l d u) =
        elim (le_or_eq (height u) (height l + 1) (omega (arith, i.grown))) [
          | inl z ↦ calm_right c d l r h u k n al i e x y z
          | inr z ↦
              turn_right c d l h (height r) u i al (omega arith) (omega (arith, i.grown))
                (omega (arith, i.grown))
        ] in
      (res.0, insert_right l d r h c k ∙ (rw built res.1), res.2)

insert-Inserted : (t : Tree) (c : Contact) → IsAvl t → IsFresh c t → InsertsInto c t
insert-Inserted leaf c avl fresh = (
  create_node c,
  unfold insert in refl,
  unfold create_node height in
      record {
        is_avl = (tt, tt, refl, omega arith, omega arith);
        no_lower = omega arith;
        grown = omega arith;
        leaning = λ g.
            let e = compare_contacts-IsLinear.same c in
            (λ f. ground (arith, e), λ f. ground (arith, e), λ _. refl);
      },
)
insert-Inserted (node l d r h) c avl (fl, n, fr) = elim (lt_or_ge c d) [
  | inl k ↦ grow_left c d l r h avl k (insert-Inserted l c avl.0 fl)
  | inr k ↦ grow_right c d l r h avl k n (insert-Inserted r c avl.1 fr)
]

-- Inserting a contact that equals none of an AVL tree follows no null pointer, and gives an AVL
-- tree of the same height or of one level more.
pub insert-IsAvl :
    (t : Tree) (c : Contact)
    → IsAvl t
    → IsFresh c t
    → (t' : Tree) × (insert t c ≡ some t')
      × IsAvl t'
      × (height t ≤ height t')
      × (height t' ≤ height t + 1)
insert-IsAvl t c avl fresh =
    let (t', done, i) = insert-Inserted t c avl fresh in (t', done, i.is_avl, i.no_lower, i.grown)
