-- ===== src/ChatServer/Slots.antt =====
-- module1/task7/server.c: the slots of the clients.
use practice2_eltex.Prelude.{
  ℕ, zero, suc, ◌≤◌, ◌<◌, ◌≡◌, refl, sym, ap, subst, ◌∙◌, inl, inr, Bool, true, false, Option, some,
  List, [], ◌∷◌, arith, if◌then◌else◌, Bool-cases, length, set, get_or, option_map, some≢none,
  some_inj, option_map-eq-some,
}
use practice2_eltex.Prelude.Arrays.{find_index, modify_at}
use practice2_eltex.ChatServer.{Client, no_client, is_free}

-- The slots that hold a connection.
unfoldable pub taken_slots : List Client → ℕ
taken_slots [] = 0
taken_slots (c ∷ cs) = let rest = taken_slots cs in if is_free c then rest else suc rest

pub taken_slots-set :
    (cs : List Client) (i : ℕ) (c : Client)
    → is_free c ≡ is_free (get_or cs i no_client)
    → taken_slots (set cs i c) ≡ taken_slots cs
unfolding taken_slots
taken_slots-set [] i c e = refl
taken_slots-set (d ∷ cs) zero c e = ap (λ b. if b then taken_slots cs else suc (taken_slots cs)) e
taken_slots-set (d ∷ cs) (suc i) c e =
    ap (λ n. if is_free d then n else suc n) (taken_slots-set cs i c e)

-- A slot that is given up, and one that is taken.
pub taken_slots-free :
    (cs : List Client) (i : ℕ)
    → is_free (get_or cs i no_client) ≡ false
    → suc (taken_slots (set cs i no_client)) ≡ taken_slots cs
unfolding taken_slots
taken_slots-free [] i e = absurd (true≢false e)
  where
    true≢false : true ≡ false → ⊥
    true≢false x = cc
taken_slots-free (d ∷ cs) zero e =
    sym (ap (λ b. if b then taken_slots cs else suc (taken_slots cs)) e)
taken_slots-free (d ∷ cs) (suc i) e = elim (Bool-cases (is_free d)) [
  | inl b ↦ rw b (taken_slots-free cs i e)
  | inr b ↦ rw b (ap suc (taken_slots-free cs i e))
]

-- A free slot that a connection takes.
pub taken_slots-modify :
    (cs : List Client) (i : ℕ) (f : Client → Client)
    → i < length cs
    → is_free (get_or cs i no_client) ≡ true
    → ((c : Client) → is_free (f c) ≡ false)
    → taken_slots (modify_at cs i f) ≡ suc (taken_slots cs)
unfolding taken_slots
taken_slots-modify [] i f h e k = absurd (omega (arith, h))
taken_slots-modify (d ∷ cs) zero f h e k = rw (e, k d) refl
taken_slots-modify (d ∷ cs) (suc i) f h e k = elim (Bool-cases (is_free d)) [
  | inl b ↦ rw b (taken_slots-modify cs i f (omega arith) e k)
  | inr b ↦ rw b (ap suc (taken_slots-modify cs i f (omega arith) e k))
]

pub taken_slots_le : (cs : List Client) → taken_slots cs ≤ length cs
unfolding taken_slots
taken_slots_le [] = omega arith
taken_slots_le (d ∷ cs) = elim (Bool-cases (is_free d)) [
  | inl b ↦ rw b (omega (arith, taken_slots_le cs))
  | inr b ↦ rw b (omega (arith, taken_slots_le cs))
]

pub taken_slots_lt :
    (cs : List Client) (i : ℕ)
    → i < length cs
    → is_free (get_or cs i no_client) ≡ true
    → taken_slots cs < length cs
unfolding taken_slots
taken_slots_lt [] i h e = absurd (omega (arith, h))
taken_slots_lt (d ∷ cs) zero h e = rw e (omega (arith, taken_slots_le cs))
taken_slots_lt (d ∷ cs) (suc i) h e = elim (Bool-cases (is_free d)) [
  | inl b ↦ rw b (omega (arith, taken_slots_lt cs i (omega arith) e))
  | inr b ↦ rw b (omega (arith, taken_slots_lt cs i (omega arith) e))
]

-- find_index gives a place of the list, where the test holds.
pub find_index_holds :
    (p : Client → Bool) (cs : List Client) (i : ℕ)
    → find_index p cs ≡ some i
    → (i < length cs) × (p (get_or cs i no_client) ≡ true)
find_index_holds p [] i e = absurd (some≢none (sym e))
find_index_holds p (c ∷ cs) i e = elim (Bool-cases (p c)) [
  | inl b ↦
      let pick : Bool → Option ℕ = λ x. if x then some 0 else option_map suc (find_index p cs) in
      let zero_i : 0 ≡ i = some_inj (sym (ap pick b) ∙ e) in
      (omega (arith, zero_i), subst (λ j. p (get_or (c ∷ cs) j no_client) ≡ true) zero_i b)
  | inr b ↦
      let pick : Bool → Option ℕ = λ x. if x then some 0 else option_map suc (find_index p cs) in
      let (j, found, next) = option_map-eq-some suc (find_index p cs) (sym (ap pick b) ∙ e) in
      let (lt, holds) = find_index_holds p cs j found in
      (omega (arith, lt, next), subst (λ k. p (get_or (c ∷ cs) k no_client) ≡ true) next holds)
]
