-- ===== src/SharedPool/Extremes.antt =====
-- module1/task4/task4.c: the least and the greatest number of a block.
use practice2_eltex.Prelude.{
  ℕ, ◌≤◌, ◌≡◌, refl, ◌⊎◌, inl, inr, Bool, true, false, List, [], ◌∷◌, arith, ltb, if◌then◌else◌,
  All,
}
use practice2_eltex.SharedPool.{extremes}

abbrev pub Among : ℕ → List ℕ → Type 0
Among x [] = ⊥
Among x (n ∷ ns) = (x ≡ n) ⊎ Among x ns

-- No number is below least or above most, which are two of them.
abbrev pub Bounds : ℕ → ℕ → List ℕ → Type 0
Bounds least most ns = All (λ n. (least ≤ n) × (n ≤ most)) ns × Among least ns × Among most ns

extremes_lem :
    (least most : ℕ) (ns : List ℕ)
    → least ≤ most
    → let (a, b) = extremes least most ns in
      (a ≤ least) × (most ≤ b) × All (λ n. (a ≤ n) × (n ≤ b)) ns
unfolding extremes
extremes_lem least most [] h = (omega arith, omega arith, tt)
extremes_lem least most (n ∷ ns) h =
    let low : ((if ltb n least then n else least) ≤ least)
        × ((if ltb n least then n else least) ≤ n) =
      ground arith in
    let high : (most ≤ (if ltb most n then n else most)) × (n ≤ (if ltb most n then n else most)) =
      ground arith in
    let (a_le, le_b, rest) =
      extremes_lem (if ltb n least then n else least) (if ltb most n then n else most) ns
        (omega (arith, low, high)) in
    (
      omega (arith, low, a_le),
      omega (arith, high, le_b),
      ((omega (arith, low, a_le), omega (arith, high, le_b)), rest),
    )

-- A choice between two numbers is one of them.
chosen-Among :
    (t : Bool) (a x n : ℕ) (ns : List ℕ)
    → (a ≡ (if t then n else x)) ⊎ Among a ns
    → (a ≡ x) ⊎ Among a (n ∷ ns)
chosen-Among true a x n ns (inl e) = inr (inl e)
chosen-Among false a x n ns (inl e) = inl e
chosen-Among t a x n ns (inr h) = inr (inr h)

extremes-Among :
    (least most : ℕ) (ns : List ℕ)
    → let (a, b) = extremes least most ns in Among a (least ∷ ns) × Among b (most ∷ ns)
unfolding extremes
extremes-Among least most [] = (inl refl, inl refl)
extremes-Among least most (n ∷ ns) =
    let (low, high) =
      extremes-Among (if ltb n least then n else least) (if ltb most n then n else most) ns in
    (chosen-Among (ltb n least) _ least n ns low, chosen-Among (ltb most n) _ most n ns high)

pub extremes-Bounds : (n : ℕ) (ns : List ℕ) → let (a, b) = extremes n n ns in Bounds a b (n ∷ ns)
extremes-Bounds n ns =
    let (low, high, rest) = extremes_lem n n ns (omega arith) in
    let (least, most) = extremes-Among n n ns in (((low, high), rest), least, most)
