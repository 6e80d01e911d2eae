-- ===== src/SharedPool/Append.antt =====
-- module1/task4/task4.c: one more block behind the others, and the link to it.
use practice2_eltex.Prelude.{
  ℕ, ◌+◌, ◌≤◌, ◌<◌, ◌≡◌, refl, sym, ap, subst, ◌∙◌, ◌≢◌, List, [], ◌∷◌, ◌++◌, arith, ◌==◌,
  if◌then◌else◌,
}
use practice2_eltex.SharedPool.{Memory, write}
use practice2_eltex.SharedPool.Memory.{write_self, write_ne}
use practice2_eltex.SharedPool.Layout.{Block, size, Holds, Lies, Links, Holds-Agree, last_offset}

pub last_offset_le : (p : ℕ) (b : Block) (bs : List Block) → p ≤ last_offset p (b ∷ bs)
unfolding last_offset
last_offset_le p b [] = omega arith
last_offset_le p b (c ∷ bs) = omega (arith, last_offset_le (p + size b) c bs)

abbrev pub linked : Memory → ℕ → ℕ → Memory
linked m last e = if last == 0 then m else write m (last + 4) e

linked_at : (m : Memory) (last e : ℕ) → 0 < last → linked m last e ≡ write m (last + 4) e
linked_at m last e h = ground arith

pub linked_ne : (m : Memory) (last e a : ℕ) → a ≢ last + 4 → linked m last e a ≡ m a
linked_ne m last e a n = ground (arith, write_ne m (last + 4) e a)

linked_away : (m : Memory) (last e a : ℕ) → 0 < last → a ≢ last + 4 → linked m last e a ≡ m a
linked_away m last e a h n = rw (linked_at m last e h) (write_ne m (last + 4) e a n)

-- A block behind the others, and the link to it.
pub append_lem :
    (m : Memory) (p : ℕ) (bs : List Block) (e : ℕ) (new : Block)
    → 0 < p
    → Lies m p bs e
    → Links m p bs
    → Holds m e new
    → m (e + 4) ≡ 0
    → let m' = linked m (last_offset p bs) e in
      Lies m' p (bs ++ new ∷ []) (e + size new) × Links m' p (bs ++ new ∷ [])
unfolding last_offset
append_lem m p [] e new z h l n t =
    subst (λ q. (Holds m q new × (q + size new ≡ e + size new)) × (m (q + 4) ≡ 0)) (sym h)
      ((n, refl), t)
append_lem m p (b ∷ []) e new z h l n t =
    let here : p + size b ≡ e = h.1 in
    let m' = write m (p + 4) e in
    let away : (a : ℕ) → a ≢ p + 4 → m' a ≡ m a = write_ne m (p + 4) e in
    let old : Holds m' p b =
      Holds-Agree m m' p b (away p (λ x. omega arith)) (λ x lo hi. away x (λ y. omega arith)) h.0 in
    let fresh : Holds m' e new =
      Holds-Agree m m' e new (away e (λ x. omega arith)) (λ x lo hi. away x (λ y. omega arith)) n in
    let whole : (Holds m' p b
          × (Holds m' (p + size b) new × (p + size b + size new ≡ e + size new)))
        × ((m' (p + 4) ≡ p + size b) × (m' (p + size b + 4) ≡ 0)) =
      (
        (old, (subst (λ q. Holds m' q new) (sym here) fresh, omega arith)),
        (
          write_self m (p + 4) e ∙ sym here,
          ap (λ q. m' (q + 4)) here ∙ away (e + 4) (λ x. omega arith) ∙ t,
        ),
      ) in
    subst (λ f. (Lies f p (b ∷ new ∷ []) (e + size new)) × Links f p (b ∷ new ∷ []))
      (sym (linked_at m p e z)) whole
append_lem m p (b ∷ c ∷ bs) e new z h l n t =
    let q = p + size b in
    let last = last_offset q (c ∷ bs) in
    let m' = linked m last e in
    let ge = last_offset_le q c bs in
    let away : (a : ℕ) → a < q → m' a ≡ m a =
      λ a lt. linked_away m last e a (omega (arith, ge)) (λ x. omega (arith, ge)) in
    let (lies, links) = append_lem m q (c ∷ bs) e new (omega arith) h.1 l.1 n t in
    (
      (Holds-Agree m m' p b (away p (omega arith)) (λ x lo hi. away x hi) h.0, lies),
      (away (p + 4) (omega (arith, h.0.2)) ∙ l.0, links),
    )

pub last_offset-append :
    (m : Memory) (p : ℕ) (bs : List Block) (e : ℕ) (new : Block)
    → Lies m p bs e
    → last_offset p (bs ++ new ∷ []) ≡ e
unfolding last_offset
last_offset-append m p [] e new h = h
last_offset-append m p (b ∷ []) e new h = h.1
last_offset-append m p (b ∷ c ∷ bs) e new h = last_offset-append m (p + size b) (c ∷ bs) e new h.1

pub last_offset_bound :
    (m : Memory) (p : ℕ) (bs : List Block) (e : ℕ) → Lies m p bs e → p ≤ e × (last_offset p bs ≤ e)
unfolding last_offset
last_offset_bound m p [] e h = (omega (arith, h), omega arith)
last_offset_bound m p (b ∷ []) e h = (omega (arith, h.1), omega (arith, h.1))
last_offset_bound m p (b ∷ c ∷ bs) e h =
    let (le, last) = last_offset_bound m (p + size b) (c ∷ bs) e h.1 in (omega (arith, le), last)
