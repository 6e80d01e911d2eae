-- ===== src/Prelude/Bytes.antt =====
-- Numbers and C strings as bytes in memory.
use practice2_eltex.Prelude.Tests.{◌==◌, if◌then◌else◌}
use practice2_eltex.Prelude.Lists.{length}
use practice2_eltex.Prelude.Strings.{CString}
use Prim.Native.Nat.{ℕ, zero, suc, ◌+◌, ◌*◌, ◌/◌, ◌%◌, ◌^◌, ◌<◌}
use mathlib.Core.Path.{◌≡◌, refl, ap}
use mathlib.Core.List.{List, [], ◌∷◌}
use native.Mathlib.Omega.{arith}

-- An unsigned number in a count of bytes, the lowest first, and back.
unfoldable pub to_bytes : ℕ → ℕ → List ℕ
to_bytes zero n = []
to_bytes (suc count) n = n % 256 ∷ to_bytes count (n / 256)

unfoldable pub of_bytes : List ℕ → ℕ
of_bytes [] = 0
of_bytes (b ∷ bs) = b + 256 * of_bytes bs

-- The bytes in front of the first NUL.
unfoldable pub c_string : List ℕ → CString
c_string [] = []
c_string (b ∷ bs) = let rest = c_string bs in if b == 0 then [] else b ∷ rest

pub length-to_bytes : (count n : ℕ) → length (to_bytes count n) ≡ count
unfolding to_bytes
length-to_bytes zero n = refl
length-to_bytes (suc count) n = ap suc (length-to_bytes count (n / 256))

pub of_bytes-to_bytes : (count n : ℕ) → n < 256 ^ count → of_bytes (to_bytes count n) ≡ n
unfolding of_bytes to_bytes
of_bytes-to_bytes zero n h = omega arith
of_bytes-to_bytes (suc count) n h =
    let i = of_bytes-to_bytes count (n / 256) (omega arith) in omega (arith, i)
