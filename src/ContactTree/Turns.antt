-- ===== src/ContactTree/Turns.antt =====
-- module2/4.3/main.c: the rotations of an AVL tree that grew on one side.
use Prim.Native.Nat.Ordering.{lt, gt}
use practice2_eltex.Prelude.{ℕ, ◌+◌, ◌≡◌, refl, arith}
use practice2_eltex.ContactTree.{Contact, Tree, leaf, node, height, compare_contacts, measured}
use practice2_eltex.ContactTree.Avl.{IsAvl, Rebalanced}
use practice2_eltex.ContactTree.Rotations.{rebalance_ll, rebalance_rr, rebalance_lr, rebalance_rl}

-- A child two levels above its sibling r: the rotation brings the node back to its old height.
module _ (c d x : Contact) (r : Tree) (before : ℕ) where
  pub single_left :
      (a b : Tree) (k : ℕ)
      → IsAvl (node a x b k)
      → IsAvl r
      → k ≡ height r + 2
      → before ≡ k
      → compare_contacts c x ≡ lt
      → height a ≡ height b + 1
      → Rebalanced c before (measured (node a x b k) d r)
  unfolding measured height
  single_left a b k (aa, ab, e, _, _) ar z same f taller = (
    measured a x (measured b d r),
    rebalance_ll c d x a b r k z f,
    record {
      is_avl = (aa, (ab, ar, refl, omega arith, omega arith), refl, omega arith, omega arith);
      no_lower = omega arith;
      grown = omega arith;
      leaning = λ g. absurd (omega arith);
    },
  )

  pub single_right :
      (a b : Tree) (k : ℕ)
      → IsAvl (node a x b k)
      → IsAvl r
      → k ≡ height r + 2
      → before ≡ k
      → compare_contacts c x ≡ gt
      → height b ≡ height a + 1
      → Rebalanced c before (measured r d (node a x b k))
  unfolding measured height
  single_right a b k (aa, ab, e, _, _) ar z same f taller = (
    measured (measured r d a) x b,
    rebalance_rr c d x a b r k z f,
    record {
      is_avl = ((ar, aa, refl, omega arith, omega arith), ab, refl, omega arith, omega arith);
      no_lower = omega arith;
      grown = omega arith;
      leaning = λ g. absurd (omega arith);
    },
  )

  pub double_left :
      (a b : Tree) (k : ℕ)
      → IsAvl (node a x b k)
      → IsAvl r
      → k ≡ height r + 2
      → before ≡ k
      → compare_contacts c x ≡ gt
      → height b ≡ height a + 1
      → Rebalanced c before (measured (node a x b k) d r)
  unfolding measured height
  double_left a leaf k avl ar z same f taller = absurd (omega arith)
  double_left a (node b y e m) k (aa, (ab, ae, em, p, q), ek, _, _) ar z same f taller = (
    measured (measured a x b) y (measured e d r),
    rebalance_lr c d x y a b e r k m z f,
    record {
      is_avl = (
        (aa, ab, refl, omega arith, omega arith),
        (ae, ar, refl, omega arith, omega arith),
        refl,
        omega arith,
        omega arith,
      );
      no_lower = omega arith;
      grown = omega arith;
      leaning = λ g. absurd (omega arith);
    },
  )

  pub double_right :
      (b a : Tree) (k : ℕ)
      → IsAvl (node b x a k)
      → IsAvl r
      → k ≡ height r + 2
      → before ≡ k
      → compare_contacts c x ≡ lt
      → height b ≡ height a + 1
      → Rebalanced c before (measured r d (node b x a k))
  unfolding measured height
  double_right leaf a k avl ar z same f taller = absurd (omega arith)
  double_right (node b y e m) a k ((ab, ae, em, p, q), aa, ek, _, _) ar z same f taller = (
    measured (measured r d b) y (measured e x a),
    rebalance_rl c d x y a b e r k m z f,
    record {
      is_avl = (
        (ar, ab, refl, omega arith, omega arith),
        (ae, aa, refl, omega arith, omega arith),
        refl,
        omega arith,
        omega arith,
      );
      no_lower = omega arith;
      grown = omega arith;
      leaning = λ g. absurd (omega arith);
    },
  )
