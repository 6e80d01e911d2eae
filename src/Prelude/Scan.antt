-- ===== src/Prelude/Scan.antt =====
-- The parts of sscanf that the programs use. A part returns what is left of the input, or none
-- where scanf would stop. Numbers are unbounded: C leaves a number that does not fit undefined.
use practice2_eltex.Prelude.Tests.{leb, ◌==◌, if◌then◌else◌}
use practice2_eltex.Prelude.Partial.{option_map}
use practice2_eltex.Prelude.Int.{ℤ, pos, sub_ℕ}
use practice2_eltex.Prelude.Strings.{CString}
use Prim.Native.Nat.{ℕ, zero, suc, ◌+◌, ◌-◌, ◌*◌}
use mathlib.Core.Bool.{Bool, not, ◌&&◌, ◌||◌}
use mathlib.Core.Option.{Option, none, some}
use mathlib.Core.List.{[], ◌∷◌}

abbrev pub is_space : ℕ → Bool
is_space c = c == b' ' || (leb 9 c && leb c 13)

abbrev pub is_digit : ℕ → Bool
is_digit c = leb b'0' c && leb c b'9'

pub skip_spaces : CString → CString
skip_spaces [] = []
skip_spaces (c ∷ s) = let rest = skip_spaces s in if is_space c then rest else c ∷ s

-- A literal of the format that holds no space.
unfoldable pub scan_literal : CString → CString → Option CString
scan_literal [] s = some s
scan_literal (f ∷ fs) [] = none
scan_literal (f ∷ fs) (c ∷ s) = let rest = scan_literal fs s in if f == c then rest else none

-- The digits in front, added to what was read.
unfoldable pub scan_digits : ℕ → CString → ℕ × CString
scan_digits acc [] = (acc, [])
scan_digits acc (c ∷ s) =
    let rest = scan_digits (acc * 10 + (c - b'0')) s in if is_digit c then rest else (acc, c ∷ s)

-- One digit at least.
unfoldable pub scan_number : CString → Option (ℕ × CString)
unfolding scan_digits
scan_number [] = none
scan_number (c ∷ s) = if is_digit c then some (scan_digits 0 (c ∷ s)) else none

scan_signed : CString → Option (ℤ × CString)
unfolding scan_number
scan_signed [] = none
scan_signed (c ∷ s) =
    if c == b'-'
    then option_map (λ r. (sub_ℕ 0 r.0, r.1)) (scan_number s)
    else if c == b'+'
    then option_map (λ r. (pos r.0, r.1)) (scan_number s)
    else option_map (λ r. (pos r.0, r.1)) (scan_number (c ∷ s))

-- %d
unfoldable pub scan_int : CString → Option (ℤ × CString)
unfolding skip_spaces scan_signed
scan_int s = scan_signed (skip_spaces s)

unfoldable pub take_while : ℕ → (ℕ → Bool) → CString → CString × CString
take_while zero p s = ([], s)
take_while (suc n) p [] = ([], [])
take_while (suc n) p (c ∷ s) =
    let rest = take_while n p s in if p c then (c ∷ rest.0, rest.1) else ([], c ∷ s)

unfoldable pub non_empty : CString × CString → Option (CString × CString)
non_empty ([], s) = none
non_empty (c ∷ w, s) = some (c ∷ w, s)

-- %n[…]: one to n bytes that satisfy p.
unfoldable pub scan_set : ℕ → (ℕ → Bool) → CString → Option (CString × CString)
unfolding take_while non_empty
scan_set n p s = non_empty (take_while n p s)

-- %ns
unfoldable pub scan_word : ℕ → CString → Option (CString × CString)
unfolding scan_set skip_spaces
scan_word n s = scan_set n (λ c. not (is_space c)) (skip_spaces s)
