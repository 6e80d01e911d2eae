-- ===== src/ArrayBook/Shift.antt =====
-- module2/2.1/phonebook.c: what the loops on the array do to its first count contacts.
use practice2_eltex.Prelude.{
  ℕ, zero, suc, ◌+◌, ◌≤◌, ◌<◌, ◌≡◌, refl, ap, ◌∙◌, none, some, List, [], ◌∷◌, ◌++◌, arith, length,
  get_elem?, set, length-set, get_or, take,
}
use practice2_eltex.Prelude.Arrays.{remove_at}
use practice2_eltex.Prelude.Slices.{take_nil}
use practice2_eltex.ArrayBook.{Contact, blank, store, shift}

-- The contacts once the later ones were moved down.
unfoldable pub shifted : ℕ → ℕ → List Contact → List Contact
shifted zero i cs = cs
shifted (suc steps) i cs = shifted steps (suc i) (set cs i (get_or cs (suc i) blank))

pub store_lem :
    (cs : List Contact) (i : ℕ) (c : Contact) → i < length cs → store cs i c ≡ some (set cs i c)
unfolding store
store_lem cs i c h = ground arith

pub load_lem :
    (cs : List Contact) (i : ℕ) → i < length cs → get_elem? cs i ≡ some (get_or cs i blank)
load_lem [] i h = absurd (omega arith)
load_lem (c ∷ cs) zero h = refl
load_lem (c ∷ cs) (suc i) h = load_lem cs i (omega arith)

-- The loop stays inside the array.
pub shift_lem :
    (n i : ℕ) (cs : List Contact) → i + n < length cs → shift n i cs ≡ some (shifted n i cs)
unfolding shift shifted
shift_lem zero i cs h = refl
shift_lem (suc n) i cs h =
    let c = get_or cs (suc i) blank in
    rw (load_lem cs (suc i) (omega arith), shift)
      (rw (store_lem cs i c (omega arith), shift)
        (shift_lem n (suc i) (set cs i c) (omega (arith, length-set cs i c))))

shifted-cons :
    (n i : ℕ) (c : Contact) (cs : List Contact) → shifted n (suc i) (c ∷ cs) ≡ c ∷ shifted n i cs
unfolding shifted
shifted-cons zero i c cs = refl
shifted-cons (suc n) i c cs = shifted-cons n (suc i) c (set cs i (get_or cs (suc i) blank))

take-shifted_first :
    (n : ℕ) (c : Contact) (cs : List Contact)
    → n ≤ length cs
    → take n (shifted n 0 (c ∷ cs)) ≡ take n cs
unfolding shifted
take-shifted_first zero c cs h = refl
take-shifted_first (suc n) c [] h = absurd (omega arith)
take-shifted_first (suc n) c (d ∷ ds) h =
    ap (λ l. take (suc n) l) (shifted-cons n 0 d (d ∷ ds))
    ∙ ap (λ l. d ∷ l) (take-shifted_first n d ds (omega arith))

-- The first contacts lose the one at the index.
pub take-shifted :
    (i n k : ℕ) (cs : List Contact)
    → k ≡ i + n
    → k < length cs
    → take k (shifted n i cs) ≡ remove_at (take (suc k) cs) i
take-shifted i n k [] e h = absurd (omega arith)
take-shifted zero n k (c ∷ cs) e h =
    let e' : n ≡ k = omega arith in
    ap (λ m. take k (shifted m 0 (c ∷ cs))) e' ∙ take-shifted_first k c cs (omega arith)
take-shifted (suc i) n zero (c ∷ cs) e h = absurd (omega arith)
take-shifted (suc i) n (suc k) (c ∷ cs) e h =
    ap (λ l. take (suc k) l) (shifted-cons n i c cs)
    ∙ ap (λ l. c ∷ l) (take-shifted i n k cs (omega arith) (omega arith))

pub length-shifted : (n i : ℕ) (cs : List Contact) → length (shifted n i cs) ≡ length cs
unfolding shifted
length-shifted zero i cs = refl
length-shifted (suc n) i cs =
    let v = get_or cs (suc i) blank in length-shifted n (suc i) (set cs i v) ∙ length-set cs i v

pub take-set_next :
    (n k : ℕ) (cs : List Contact) (c : Contact)
    → k ≡ n + 1
    → n < length cs
    → take k (set cs n c) ≡ take n cs ++ c ∷ []
take-set_next n k [] c e h = absurd (omega arith)
take-set_next n zero (d ∷ cs) c e h = absurd (omega arith)
take-set_next zero (suc zero) (d ∷ cs) c e h = refl
take-set_next zero (suc (suc k)) (d ∷ cs) c e h = absurd (omega arith)
take-set_next (suc n) (suc k) (d ∷ cs) c e h =
    ap (λ l. d ∷ l) (take-set_next n k cs c (omega arith) (omega arith))

pub take-set :
    (n i : ℕ) (cs : List Contact) (c : Contact) → i < n → take n (set cs i c) ≡ set (take n cs) i c
take-set n i [] c h = rw (take_nil n) refl
take-set zero i (d ∷ cs) c h = absurd (omega arith)
take-set (suc n) zero (d ∷ cs) c h = refl
take-set (suc n) (suc i) (d ∷ cs) c h = ap (λ l. d ∷ l) (take-set n i cs c (omega arith))

pub get_elem?-take :
    (n i : ℕ) (cs : List Contact)
    → i < n
    → n ≤ length cs
    → get_elem? (take n cs) i ≡ some (get_or cs i blank)
get_elem?-take n i [] h k = absurd (omega arith)
get_elem?-take zero i (d ∷ cs) h k = absurd (omega arith)
get_elem?-take (suc n) zero (d ∷ cs) h k = refl
get_elem?-take (suc n) (suc i) (d ∷ cs) h k = get_elem?-take n i cs (omega arith) (omega arith)

pub get_elem?_beyond : (cs : List Contact) (i : ℕ) → length cs ≤ i → get_elem? cs i ≡ none
get_elem?_beyond [] i h = refl
get_elem?_beyond (c ∷ cs) zero h = absurd (omega arith)
get_elem?_beyond (c ∷ cs) (suc i) h = get_elem?_beyond cs i (omega arith)
