-- ===== src/Prelude/Slices.antt =====
-- Parts of lists of bytes: take and drop after one another, and at a seam.
use practice2_eltex.Prelude.Lists.{length, take, drop}
use Prim.Native.Nat.{ℕ, zero, suc, ◌+◌, ◌≤◌}
use mathlib.Core.Path.{◌≡◌, refl, ap}
use mathlib.Core.List.{List, [], ◌∷◌, ◌++◌}
use native.Mathlib.Omega.{arith}

module _ {ℓ} {A : Type ℓ} where
  pub take_nil : (n : ℕ) → take {A = A} n [] ≡ []
  take_nil zero = refl
  take_nil (suc n) = refl

  pub drop_nil : (n : ℕ) → drop {A = A} n [] ≡ []
  drop_nil zero = refl
  drop_nil (suc n) = refl

  pub take-seam : (xs ys : List A) (n : ℕ) → n ≡ length xs → take n (xs ++ ys) ≡ xs
  take-seam [] ys zero e = refl
  take-seam [] ys (suc n) e = absurd (omega arith)
  take-seam (x ∷ xs) ys zero e = absurd (omega arith)
  take-seam (x ∷ xs) ys (suc n) e = rw (take-seam xs ys n (omega arith)) refl

  pub drop-seam : (xs ys : List A) (n : ℕ) → n ≡ length xs → drop n (xs ++ ys) ≡ ys
  drop-seam [] ys zero e = refl
  drop-seam [] ys (suc n) e = absurd (omega arith)
  drop-seam (x ∷ xs) ys zero e = absurd (omega arith)
  drop-seam (x ∷ xs) ys (suc n) e = drop-seam xs ys n (omega arith)

  -- The first k elements are the first m and then n more.
  pub take-split :
      (m n k : ℕ) (xs : List A) → k ≡ m + n → take m xs ++ take n (drop m xs) ≡ take k xs
  take-split zero n k xs e = let e' : n ≡ k = omega arith in ap (λ i. take i xs) e'
  take-split (suc m) n zero xs e = absurd (omega arith)
  take-split (suc m) n (suc k) [] e = take_nil n
  take-split (suc m) n (suc k) (x ∷ xs) e = rw (take-split m n k xs (omega arith)) refl

  pub drop-split : (m n k : ℕ) (xs : List A) → k ≡ m + n → drop n (drop m xs) ≡ drop k xs
  drop-split zero n k xs e = let e' : n ≡ k = omega arith in ap (λ i. drop i xs) e'
  drop-split (suc m) n zero xs e = absurd (omega arith)
  drop-split (suc m) n (suc k) [] e = drop_nil n
  drop-split (suc m) n (suc k) (x ∷ xs) e = drop-split m n k xs (omega arith)

  pub take_all : (xs : List A) → take (length xs) xs ≡ xs
  take_all [] = refl
  take_all (x ∷ xs) = ap (λ l. x ∷ l) (take_all xs)

  pub drop_all : (xs : List A) → drop (length xs) xs ≡ []
  drop_all [] = refl
  drop_all (x ∷ xs) = drop_all xs

  pub take_beyond : (n : ℕ) (xs : List A) → length xs ≤ n → take n xs ≡ xs
  take_beyond n [] h = take_nil n
  take_beyond zero (x ∷ xs) h = absurd (omega arith)
  take_beyond (suc n) (x ∷ xs) h = ap (λ l. x ∷ l) (take_beyond n xs (omega arith))

  pub drop_beyond : (n : ℕ) (xs : List A) → length xs ≤ n → drop n xs ≡ []
  drop_beyond n [] h = drop_nil n
  drop_beyond zero (x ∷ xs) h = absurd (omega arith)
  drop_beyond (suc n) (x ∷ xs) h = drop_beyond n xs (omega arith)

  pub append_assoc : (xs ys zs : List A) → (xs ++ ys) ++ zs ≡ xs ++ (ys ++ zs)
  append_assoc [] ys zs = refl
  append_assoc (x ∷ xs) ys zs = ap (λ l. x ∷ l) (append_assoc xs ys zs)

  pub append_nil : (xs : List A) → xs ++ [] ≡ xs
  append_nil [] = refl
  append_nil (x ∷ xs) = ap (λ l. x ∷ l) (append_nil xs)

module _ {ℓ} {A : Type ℓ} where
  pub take-front : (k : ℕ) (xs ys : List A) → k ≤ length xs → take k (xs ++ ys) ≡ take k xs
  take-front zero xs ys h = refl
  take-front (suc k) [] ys h = absurd (omega arith)
  take-front (suc k) (x ∷ xs) ys h = ap (λ l. x ∷ l) (take-front k xs ys (omega arith))

  pub drop-front : (k : ℕ) (xs ys : List A) → k ≤ length xs → drop k (xs ++ ys) ≡ drop k xs ++ ys
  drop-front zero xs ys h = refl
  drop-front (suc k) [] ys h = absurd (omega arith)
  drop-front (suc k) (x ∷ xs) ys h = drop-front k xs ys (omega arith)
