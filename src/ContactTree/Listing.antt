-- ===== src/ContactTree/Listing.antt =====
-- module2/4.3/main.c: insert against the list of the contacts from left to right.
use practice2_eltex.ContactTree.Order.{ge_trans, not_lt_of_gt}
use Prim.Native.Nat.Ordering.{lt}
use mathlib.Core.List.{append_assoc}
use practice2_eltex.Prelude.{
  ℕ, ◌≡◌, sym, ap, ◌∙◌, ◌≢◌, some, List, [], ◌∷◌, ◌++◌, arith, All, All-imp, ◌>>=◌, >>=-eq-some,
}
use practice2_eltex.ContactTree.{
  Contact, Tree, leaf, node, create_node, compare_contacts, measured, rotate_right, rotate_left,
  case_rl, case_lr, case_rr, rebalance, insert,
}
use practice2_eltex.ContactTree.Descent.{Descent, to_left, to_right, descent}

-- The contacts from left to right.
unfoldable pub in_order : Tree → List Contact
in_order leaf = []
in_order (node l c r _) = in_order l ++ c ∷ in_order r

-- A contact put behind all that do not come after it.
unfoldable pub insert_sorted : Contact → List Contact → List Contact
insert_sorted c [] = c ∷ []
insert_sorted c (x ∷ xs) = elim (compare_contacts c x) [
  | lt ↦ c ∷ x ∷ xs
  | _ ↦ x ∷ insert_sorted c xs
]

in_order-rotate_right : (t : Tree) {t' : Tree} → rotate_right t ≡ some t' → in_order t' ≡ in_order t
unfolding in_order rotate_right measured
in_order-rotate_right leaf e = cc
in_order-rotate_right (node leaf y r h) e = cc
in_order-rotate_right (node (node l x t2 k) y r h) e =
    ground (arith, append_assoc (in_order l) (x ∷ in_order t2) (y ∷ in_order r))

in_order-rotate_left : (t : Tree) {t' : Tree} → rotate_left t ≡ some t' → in_order t' ≡ in_order t
unfolding in_order rotate_left measured
in_order-rotate_left leaf e = cc
in_order-rotate_left (node l y leaf h) e = cc
in_order-rotate_left (node l x (node t2 y r k) h) e =
    ground (arith, append_assoc (in_order l) (x ∷ in_order t2) (y ∷ in_order r))

in_order_turn_rl :
    (l : Tree) (d : Contact) (r : Tree) (h : ℕ) {t' : Tree}
    → (rotate_right r >>= λ r'. rotate_left (node l d r' h)) ≡ some t'
    → in_order t' ≡ in_order (node l d r h)
unfolding in_order
in_order_turn_rl l d r h e =
    let (r', inner, outer) = >>=-eq-some (rotate_right r) (λ r'. rotate_left (node l d r' h)) e in
    in_order-rotate_left (node l d r' h) outer
    ∙ ap (λ xs. in_order l ++ d ∷ xs) (in_order-rotate_right r inner)

in_order_turn_lr :
    (l : Tree) (d : Contact) (r : Tree) (h : ℕ) {t' : Tree}
    → (rotate_left l >>= λ l'. rotate_right (node l' d r h)) ≡ some t'
    → in_order t' ≡ in_order (node l d r h)
unfolding in_order
in_order_turn_lr l d r h e =
    let (l', inner, outer) = >>=-eq-some (rotate_left l) (λ l'. rotate_right (node l' d r h)) e in
    in_order-rotate_right (node l' d r h) outer
    ∙ ap (λ xs. xs ++ d ∷ in_order r) (in_order-rotate_left l inner)

in_order-case_rl :
    (c : Contact) (t : Tree) {t' : Tree} → case_rl c t ≡ some t' → in_order t' ≡ in_order t
unfolding case_rl
in_order-case_rl c leaf e = ground arith
in_order-case_rl c (node l d r h) {t'} e = ground (arith, in_order_turn_rl l d r h {t' = t'})

in_order-case_lr :
    (c : Contact) (t : Tree) {t' : Tree} → case_lr c t ≡ some t' → in_order t' ≡ in_order t
unfolding case_lr
in_order-case_lr c leaf e = ground arith
in_order-case_lr c (node l d r h) {t'} e =
    ground (arith, in_order_turn_lr l d r h {t' = t'}, in_order-case_rl c (node l d r h) {t' = t'})

in_order-case_rr :
    (c : Contact) (t : Tree) {t' : Tree} → case_rr c t ≡ some t' → in_order t' ≡ in_order t
unfolding case_rr
in_order-case_rr c leaf e = ground arith
in_order-case_rr c (node l d r h) {t'} e = ground (
  arith,
  in_order-rotate_left (node l d r h) {t' = t'},
  in_order-case_lr c (node l d r h) {t' = t'},
)

-- Rebalancing moves no contact.
pub in_order-rebalance :
    (c : Contact) (t : Tree) {t' : Tree} → rebalance c t ≡ some t' → in_order t' ≡ in_order t
unfolding rebalance
in_order-rebalance c leaf e = ground arith
in_order-rebalance c (node l d r h) {t'} e = ground (
  arith,
  in_order-rotate_right (node l d r h) {t' = t'},
  in_order-case_rr c (node l d r h) {t' = t'},
)

-- No contact of the list comes before one that stands to its left.
abbrev pub IsSorted : List Contact → Type 0
IsSorted [] = Unit
IsSorted (x ∷ xs) = All (λ y. compare_contacts y x ≢ lt) xs × IsSorted xs

-- Around a contact of a sorted list.
pub record Around (xs : List Contact) (d : Contact) (ys : List Contact) : Type 0 where
  pub sorted_left : IsSorted xs
  pub left : All (λ x. compare_contacts d x ≢ lt) xs
  pub right : All (λ y. compare_contacts y d ≢ lt) ys
  pub sorted_right : IsSorted ys

pub All-append_right {κ} :
    (P : Contact → Type κ) (xs ys : List Contact) → All P (xs ++ ys) → All P ys
All-append_right P [] ys h = h
All-append_right P (x ∷ xs) ys h = All-append_right P xs ys h.1

pub All-append_left {κ} :
    (P : Contact → Type κ) (xs ys : List Contact) → All P (xs ++ ys) → All P xs
All-append_left P [] ys h = tt
All-append_left P (x ∷ xs) ys h = (h.0, All-append_left P xs ys h.1)

pub around :
    (xs : List Contact) (d : Contact) (ys : List Contact) → IsSorted (xs ++ d ∷ ys) → Around xs d ys
around [] d ys h = record { sorted_left = tt; left = tt; right = h.0; sorted_right = h.1 }
around (x ∷ xs) d ys h =
    let a = around xs d ys h.1 in
    record {
      sorted_left = (All-append_left _ xs (d ∷ ys) h.0, a.sorted_left);
      left = ((All-append_right _ xs (d ∷ ys) h.0).0, a.left);
      right = a.right;
      sorted_right = a.sorted_right;
    }

insert_sorted_left :
    (c d : Contact) (xs ys : List Contact)
    → compare_contacts c d ≡ lt
    → insert_sorted c (xs ++ d ∷ ys) ≡ insert_sorted c xs ++ d ∷ ys
unfolding insert_sorted
insert_sorted_left c d [] ys e = rw (e, insert_sorted)
insert_sorted_left c d (x ∷ xs) ys e = ground (arith, insert_sorted_left c d xs ys e)

insert_sorted_right :
    (c d : Contact) (xs ys : List Contact)
    → compare_contacts c d ≢ lt
    → All (λ x. compare_contacts d x ≢ lt) xs
    → insert_sorted c (xs ++ d ∷ ys) ≡ xs ++ d ∷ insert_sorted c ys
unfolding insert_sorted
insert_sorted_right c d [] ys n a = ground arith
insert_sorted_right c d (x ∷ xs) ys n a =
    ground (arith, ge_trans c d x n a.0, insert_sorted_right c d xs ys n a.1)

in_order-Descent :
    (l : Tree) (d : Contact) (r : Tree) (c : Contact) (t' : Tree)
    → Around (in_order l) d (in_order r)
    → ((u : Tree) → insert l c ≡ some u → in_order u ≡ insert_sorted c (in_order l))
    → ((u : Tree) → insert r c ≡ some u → in_order u ≡ insert_sorted c (in_order r))
    → Descent l d r c t'
    → in_order t' ≡ insert_sorted c (in_order l ++ d ∷ in_order r)
unfolding in_order measured
in_order-Descent l d r c t' a left right (to_left u k built done) =
    in_order-rebalance c (measured u d r) done
    ∙ ap (λ xs. xs ++ d ∷ in_order r) (left u built)
    ∙ sym (insert_sorted_left c d (in_order l) (in_order r) k)
in_order-Descent l d r c t' a left right (to_right u k built done) =
    in_order-rebalance c (measured l d u) done
    ∙ ap (λ xs. in_order l ++ d ∷ xs) (right u built)
    ∙ sym (insert_sorted_right c d (in_order l) (in_order r) k a.left)

-- In a sorted tree, an insertion that returns puts the contact behind all that do not come after
-- it and leaves the others in their places, through every rotation.
pub in_order-insert :
    (t : Tree) (c : Contact) (t' : Tree)
    → IsSorted (in_order t)
    → insert t c ≡ some t'
    → in_order t' ≡ insert_sorted c (in_order t)
unfolding in_order
in_order-insert leaf c t' s e = unfold insert create_node insert_sorted in ground arith
in_order-insert (node l d r h) c t' s e =
    let a = around (in_order l) d (in_order r) s in
    in_order-Descent l d r c t' a (λ u. in_order-insert l c u a.sorted_left)
      (λ u. in_order-insert r c u a.sorted_right) (descent l d r h c t' e)

All-insert_sorted {κ} :
    (P : Contact → Type κ) (c : Contact) (xs : List Contact)
    → P c
    → All P xs
    → All P (insert_sorted c xs)
unfolding insert_sorted
All-insert_sorted P c [] p a = (p, tt)
All-insert_sorted P c (x ∷ xs) p a = ground (arith, All-insert_sorted P c xs p a.1)

All-ge :
    (c x : Contact) (xs : List Contact)
    → compare_contacts c x ≡ lt
    → All (λ y. compare_contacts y x ≢ lt) xs
    → All (λ y. compare_contacts y c ≢ lt) xs
All-ge c x xs e a = All-imp _ _ (λ y n. ge_trans y x c n (not_lt_of_gt c x e)) xs a

-- Inserting in a sorted list keeps it sorted.
pub insert_sorted-IsSorted :
    (c : Contact) (xs : List Contact) → IsSorted xs → IsSorted (insert_sorted c xs)
unfolding insert_sorted
insert_sorted-IsSorted c [] s = (tt, tt)
insert_sorted-IsSorted c (x ∷ xs) s = ground (
  arith,
  insert_sorted-IsSorted c xs s.1,
  All-insert_sorted (λ y. compare_contacts y x ≢ lt) c xs,
  All-ge c x xs,
  not_lt_of_gt c x,
)
