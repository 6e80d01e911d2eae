-- ===== src/Prelude/Arrays.antt =====
-- Arrays that the programs search by a loop and shift by a loop.
use practice2_eltex.Prelude.Tests.{if◌then◌else◌}
use practice2_eltex.Prelude.Partial.{option_map}
use practice2_eltex.Prelude.Lists.{length, get_elem?}
use Prim.Native.Nat.{ℕ, zero, suc, ◌<◌}
use mathlib.Core.Path.{◌≡◌, refl, ap}
use mathlib.Core.Bool.{Bool, true, false, ◌||◌}
use mathlib.Core.Option.{Option, none, some}
use mathlib.Core.List.{List, [], ◌∷◌, ◌++◌}
use native.Mathlib.Omega.{arith}

module _ {ℓ} {A : Type ℓ} where
  -- for (i = 0; i < n; i++) if (p(a[i])) return i; return -1;
  abbrev pub find_index : (A → Bool) → List A → Option ℕ
  find_index p [] = none
  find_index p (x ∷ xs) = if p x then some 0 else option_map suc (find_index p xs)

  abbrev pub modify_at : List A → ℕ → (A → A) → List A
  modify_at [] i f = []
  modify_at (x ∷ xs) zero f = f x ∷ xs
  modify_at (x ∷ xs) (suc i) f = x ∷ modify_at xs i f

  -- for (i = idx; i < n - 1; i++) a[i] = a[i + 1]; n--;
  abbrev pub remove_at : List A → ℕ → List A
  remove_at [] i = []
  remove_at (x ∷ xs) zero = xs
  remove_at (x ∷ xs) (suc i) = x ∷ remove_at xs i

  abbrev pub any : (A → Bool) → List A → Bool
  any p [] = false
  any p (x ∷ xs) = if p x then true else any p xs

  -- The same without the index.
  abbrev pub modify_first : (A → Bool) → (A → A) → List A → List A
  modify_first p f [] = []
  modify_first p f (x ∷ xs) = if p x then f x ∷ xs else x ∷ modify_first p f xs

  abbrev pub remove_first : (A → Bool) → List A → List A
  remove_first p [] = []
  remove_first p (x ∷ xs) = if p x then xs else x ∷ remove_first p xs

  abbrev pub find : (A → Bool) → List A → Option A
  find p [] = none
  find p (x ∷ xs) = if p x then some x else find p xs

module _ {ℓ} {A : Type ℓ} (p : A → Bool) where
  pub modify_at-find_index :
      (f : A → A) (xs : List A) (i : ℕ)
      → find_index p xs ≡ some i
      → modify_at xs i f ≡ modify_first p f xs
  modify_at-find_index f [] i e = cc
  modify_at-find_index f (x ∷ xs) zero e = ground arith
  modify_at-find_index f (x ∷ xs) (suc i) e = ground (arith, modify_at-find_index f xs i)

  pub remove_at-find_index :
      (xs : List A) (i : ℕ) → find_index p xs ≡ some i → remove_at xs i ≡ remove_first p xs
  remove_at-find_index [] i e = cc
  remove_at-find_index (x ∷ xs) zero e = ground arith
  remove_at-find_index (x ∷ xs) (suc i) e = ground (arith, remove_at-find_index xs i)

  pub get_elem?-find_index :
      (xs : List A) (i : ℕ) → find_index p xs ≡ some i → get_elem? xs i ≡ find p xs
  get_elem?-find_index [] i e = cc
  get_elem?-find_index (x ∷ xs) zero e = ground arith
  get_elem?-find_index (x ∷ xs) (suc i) e = ground (arith, get_elem?-find_index xs i)

  pub find_of_find_index-none : (xs : List A) → find_index p xs ≡ none → find p xs ≡ none
  find_of_find_index-none [] e = refl
  find_of_find_index-none (x ∷ xs) e = ground (arith, find_of_find_index-none xs)

  pub find_of_find_index-some :
      (xs : List A) (i : ℕ)
      → find_index p xs ≡ some i
      → (a : A) × (find p xs ≡ some a) × (p a ≡ true) × (i < length xs)
  find_of_find_index-some [] i e = cc
  find_of_find_index-some (x ∷ xs) zero e = (x, ground arith, ground arith, omega arith)
  find_of_find_index-some (x ∷ xs) (suc i) e =
      let (a, f, t, b) = find_of_find_index-some xs i (ground arith) in
      (a, ground arith, t, omega arith)

pub any-append {ℓ} :
    {A : Type ℓ} (p : A → Bool) (xs ys : List A) → any p (xs ++ ys) ≡ (any p xs || any p ys)
any-append p [] ys = refl
any-append p (x ∷ xs) ys = ground (arith, any-append p xs ys)

pub length-modify_at {ℓ} :
    {A : Type ℓ} (xs : List A) (i : ℕ) (f : A → A) → length (modify_at xs i f) ≡ length xs
length-modify_at [] i f = refl
length-modify_at (x ∷ xs) zero f = refl
length-modify_at (x ∷ xs) (suc i) f = ap suc (length-modify_at xs i f)
