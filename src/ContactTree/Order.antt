-- ===== src/ContactTree/Order.antt =====
-- module2/4.3/main.c: compare orders the contacts linearly.
use Prim.Native.Nat.Ordering.{lt, eq, gt}
use practice2_eltex.Prelude.{◌≡◌, refl, ◌≢◌, ◌⊎◌, inl, inr, arith}
use practice2_eltex.Prelude.Strings.{strcmp, IsLinear, strcmp-IsLinear}
use practice2_eltex.ContactTree.{Contact, compare_contacts}
use Prim.Native.Nat.{Ordering}

-- compare is a linear order of the contacts: it answers 0 only for equal contacts, swapping its
-- arguments swaps the sign, and coming before is transitive.
pub compare_contacts-IsLinear : IsLinear compare_contacts
unfolding compare_contacts
compare_contacts-IsLinear = record {
  same = λ x. ground (arith, names.same x.last_name, names.same x.first_name);
  turned = λ x y. ground (
    arith,
    names.equal x.last_name y.last_name,
    names.equal y.last_name x.last_name,
    names.turned x.last_name y.last_name,
    names.turned y.last_name x.last_name,
    names.turned x.first_name y.first_name,
  );
  equal = λ x y.
      ground (arith, names.equal x.last_name y.last_name, names.equal x.first_name y.first_name);
  before = λ x y z. ground (
    arith,
    names.equal x.last_name y.last_name,
    names.equal y.last_name z.last_name,
    names.before x.last_name y.last_name z.last_name,
    names.before x.first_name y.first_name z.first_name,
  );
}
  where
    names : IsLinear strcmp
    names = strcmp-IsLinear

-- What does not come before what does not come before y does not come before y.
pub ge_trans :
    (a b c : Contact)
    → compare_contacts a b ≢ lt
    → compare_contacts b c ≢ lt
    → compare_contacts a c ≢ lt
ge_trans a b c h k e =
    let o = compare_contacts-IsLinear in grind (arith, o.before, o.turned, o.equal)

pub not_lt_of_gt : (a b : Contact) → compare_contacts a b ≡ lt → compare_contacts b a ≢ lt
not_lt_of_gt a b e = ground (arith, compare_contacts-IsLinear.turned a b)

pub lt_or_ge : (a b : Contact) → (compare_contacts a b ≡ lt) ⊎ (compare_contacts a b ≢ lt)
lt_or_ge a b = go (compare_contacts a b) refl
  where
    go :
        (o : Ordering)
        → compare_contacts a b ≡ o
        → (compare_contacts a b ≡ lt) ⊎ (compare_contacts a b ≢ lt)
    go lt e = inl e
    go eq e = inr (λ f. ground arith)
    go gt e = inr (λ f. ground arith)
