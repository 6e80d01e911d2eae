-- ===== src/Prelude/Print.antt =====
-- The decimal print of an int with %d.
use practice2_eltex.Prelude.Tests.{ltb, if◌then◌else◌}
use practice2_eltex.Prelude.Lists.{length, length-append}
use practice2_eltex.Prelude.Strings.{CString}
use Prim.Native.Nat.{ℕ, zero, suc, ◌+◌, ◌-◌, ◌*◌, ◌/◌, ◌%◌, ◌^◌, ◌≤◌, ◌<◌}
use mathlib.Core.Path.{◌≡◌, refl}
use mathlib.Core.List.{[], ◌∷◌, ◌++◌}
use native.Mathlib.Omega.{arith}

-- The digits of %d for a number that is not negative; an int has at most 10.
unfoldable pub digits : ℕ → ℕ → CString
digits zero n = []
digits (suc fuel) n =
    let rest = digits fuel (n / 10) in (if ltb n 10 then [] else rest) ++ (b'0' + n % 10) ∷ []

-- %d on the bits of an int
unfoldable pub print_int : ℕ → CString
unfolding digits
print_int bits = if ltb bits (2 ^ 31) then digits 10 bits else b'-' ∷ digits 10 (2 ^ 32 - bits)

-- The number that digits stand for, after a number that was read before.
unfoldable pub value : ℕ → CString → ℕ
value before [] = before
value before (c ∷ s) = value (before * 10 + (c - b'0')) s

value-append : (s t : CString) (n : ℕ) → value n (s ++ t) ≡ value (value n s) t
unfolding value
value-append [] t n = refl
value-append (c ∷ s) t n = value-append s t (n * 10 + (c - b'0'))

pub value-digits : (fuel n : ℕ) → n < 10 ^ fuel → value 0 (digits fuel n) ≡ n
unfolding value digits
value-digits zero n h = omega arith
value-digits (suc fuel) n h =
    let i = value-digits fuel (n / 10) (omega arith) in
    ground
      (arith, value-append (if ltb n 10 then [] else digits fuel (n / 10)) ((b'0' + n % 10) ∷ []) 0)

pub length-digits : (fuel n : ℕ) → length (digits fuel n) ≤ fuel
unfolding digits
length-digits zero n = omega arith
length-digits (suc fuel) n =
    let i = length-digits fuel (n / 10) in
    ground
      (arith, length-append (if ltb n 10 then [] else digits fuel (n / 10)) ((b'0' + n % 10) ∷ []))

pub length-print_int : (bits : ℕ) → length (print_int bits) ≤ 11
unfolding print_int
length-print_int bits = ground (arith, length-digits 10 bits, length-digits 10 (2 ^ 32 - bits))
