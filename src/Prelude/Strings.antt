-- ===== src/Prelude/Strings.antt =====
-- C strings as the lists of their bytes before the NUL, and the functions of string.h on them.
use Prim.Native.Nat.{ℕ, compare, Ordering}
use Prim.Native.Nat.Ordering.{lt, eq, gt}
use mathlib.Core.Path.{◌≡◌, refl}
use mathlib.Core.Bool.{Bool, true, false}
use mathlib.Core.Logic.{◌↔◌}
use mathlib.Core.List.{List, [], ◌∷◌}
use native.Mathlib.Omega.{arith}
use Prim.Native.Char.{code}
use Prim.Native.String.{String}

abbrev pub CString : Type 0
CString = List ℕ

-- The sign of a second comparison counts where the first finds no difference.
abbrev pub then_by : Ordering → Ordering → Ordering
then_by lt second = lt
then_by eq second = second
then_by gt second = gt

-- strcmp, of which callers read the sign only.
unfoldable pub strcmp : CString → CString → Ordering
strcmp [] [] = eq
strcmp [] (b ∷ t) = lt
strcmp (a ∷ s) [] = gt
strcmp (a ∷ s) (b ∷ t) = then_by (compare a b) (strcmp s t)

-- A comparison that orders its values in one line: it finds no difference only between equal ones,
-- its sign turns with its arguments, and coming before is transitive.
pub record IsLinear {ℓ} {C : Type ℓ} (sign : C → C → Ordering) : Type ℓ where
  pub same : (x : C) → sign x x ≡ eq
  pub turned : (x y : C) → (sign x y ≡ lt) ↔ (sign y x ≡ gt)
  pub equal : (x y : C) → sign x y ≡ eq → x ≡ y
  pub before : (x y z : C) → sign x y ≡ lt → sign y z ≡ lt → sign x z ≡ lt

pub strcmp_refl : (s : CString) → strcmp s s ≡ eq
unfolding strcmp
strcmp_refl [] = refl
strcmp_refl (a ∷ s) = ground (arith, strcmp_refl s)

pub eq_of_strcmp : (s t : CString) → strcmp s t ≡ eq → s ≡ t
unfolding strcmp
eq_of_strcmp [] [] e = refl
eq_of_strcmp [] (b ∷ t) e = ground arith
eq_of_strcmp (a ∷ s) [] e = ground arith
eq_of_strcmp (a ∷ s) (b ∷ t) e = ground (arith, eq_of_strcmp s t)

lt_of_strcmp-gt : (s t : CString) → strcmp s t ≡ gt → strcmp t s ≡ lt
unfolding strcmp
lt_of_strcmp-gt [] [] e = ground arith
lt_of_strcmp-gt [] (b ∷ t) e = ground arith
lt_of_strcmp-gt (a ∷ s) [] e = refl
lt_of_strcmp-gt (a ∷ s) (b ∷ t) e = ground (arith, lt_of_strcmp-gt s t)

gt_of_strcmp-lt : (s t : CString) → strcmp s t ≡ lt → strcmp t s ≡ gt
unfolding strcmp
gt_of_strcmp-lt [] [] e = ground arith
gt_of_strcmp-lt [] (b ∷ t) e = refl
gt_of_strcmp-lt (a ∷ s) [] e = ground arith
gt_of_strcmp-lt (a ∷ s) (b ∷ t) e = ground (arith, gt_of_strcmp-lt s t)

strcmp-lt_trans : (s t u : CString) → strcmp s t ≡ lt → strcmp t u ≡ lt → strcmp s u ≡ lt
unfolding strcmp
strcmp-lt_trans [] [] u h k = ground arith
strcmp-lt_trans [] (b ∷ t) [] h k = ground arith
strcmp-lt_trans [] (b ∷ t) (c ∷ u) h k = refl
strcmp-lt_trans (a ∷ s) [] u h k = ground arith
strcmp-lt_trans (a ∷ s) (b ∷ t) [] h k = ground arith
strcmp-lt_trans (a ∷ s) (b ∷ t) (c ∷ u) h k = ground (arith, strcmp-lt_trans s t u)

pub strcmp-IsLinear : IsLinear strcmp
strcmp-IsLinear = record {
  same = strcmp_refl;
  turned = λ s t. (gt_of_strcmp-lt s t, lt_of_strcmp-gt t s);
  equal = eq_of_strcmp;
  before = strcmp-lt_trans;
}

-- strcmp(s, t) == 0
unfoldable pub str_eqb : CString → CString → Bool
str_eqb s t = elim (strcmp s t) [ lt ↦ false | eq ↦ true | gt ↦ false ]

pub str_eqb_iff : (s t : CString) → (str_eqb s t ≡ true) ↔ (s ≡ t)
unfolding str_eqb
str_eqb_iff s t = (λ h. eq_of_strcmp s t (ground arith), λ e. rw (e, strcmp_refl t, str_eqb))

-- The bytes of a text in ASCII.
abbrev pub codes : String → CString
codes String.[] = []
codes (String.◌∷◌ c s) = code c ∷ codes s
