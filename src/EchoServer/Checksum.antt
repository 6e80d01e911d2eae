-- ===== src/EchoServer/Checksum.antt =====
-- module2/cross1/server.c: the checksum that a packet carries makes its own sum come out.
use practice2_eltex.Prelude.{
  ℕ, zero, suc, ◌+◌, ◌-◌, ◌*◌, ◌/◌, ◌%◌, ◌^◌, ◌≤◌, ◌<◌, ◌≡◌, ap, ◌∙◌, ◌⊎◌, inl, inr, List, [], ◌∷◌,
  ◌++◌, arith, lt_or_le, length, length-append, All, All-append,
}
use practice2_eltex.Prelude.Bytes.{to_bytes, length-to_bytes}
use practice2_eltex.EchoServer.{add32, sum_words, fold, checksum}

-- The sum of the words without a bound.
unfoldable pub total : List ℕ → ℕ
total [] = 0
total (b ∷ []) = b
total (b ∷ c ∷ rest) = b + 256 * c + total rest

abbrev pub IsByte : ℕ → Type 0
IsByte b = b < 256

total_le : (bytes : List ℕ) → All IsByte bytes → total bytes ≤ 32768 * length bytes
unfolding total
total_le [] h = omega arith
total_le (b ∷ []) h = omega (arith, h.0)
total_le (b ∷ c ∷ rest) h = omega (arith, h.0, h.1.0, total_le rest h.1.1)

total-append :
    (front rest : List ℕ) → length front % 2 ≡ 0 → total (front ++ rest) ≡ total front + total rest
unfolding total
total-append [] rest e = omega arith
total-append (b ∷ []) rest e = absurd (omega (arith, e))
total-append (b ∷ c ∷ front) rest e = omega (arith, total-append front rest (omega (arith, e)))

sum_words_lem :
    (sum : ℕ) (bytes : List ℕ)
    → sum + total bytes < 2 ^ 32
    → sum_words sum bytes ≡ sum + total bytes
unfolding total sum_words
sum_words_lem sum [] h = omega arith
sum_words_lem sum (b ∷ []) h = omega (arith, h)
sum_words_lem sum (b ∷ c ∷ rest) h =
    let same : add32 sum (b + 256 * c) ≡ sum + (b + 256 * c) = omega (arith, h) in
    rw same (omega (arith, sum_words_lem (sum + (b + 256 * c)) rest (omega (arith, h))))

-- What fold gives, by the two halves of the sum.
fold_halves :
    (sum high low : ℕ)
    → sum ≡ 65536 * high + low
    → high < 65536
    → low < 65536
    → (high + low < 65536 × (fold sum ≡ 65535 - (high + low)))
      ⊎ (65536 ≤ high + low × (fold sum ≡ 131070 - (high + low)))
unfolding fold
fold_halves sum high low e h l =
    let a : sum / 65536 ≡ high = omega (arith, e, l) in
    let b : sum % 65536 ≡ low = omega (arith, e, l) in
    let c : (high + low) % 4294967296 ≡ high + low = omega (arith, h, l) in
    elim (lt_or_le (high + low) 65536) [
      | inl lt ↦ inl (lt, rw (a, b, c) (omega (arith, lt)))
      | inr ge ↦ inr (ge, rw (a, b, c) (omega (arith, ge, h, l)))
    ]

-- A sum with the complement of its fold folds to 0.
fold_lem : (sum : ℕ) → sum + 65535 < 2 ^ 32 → fold (sum + fold sum) ≡ 0
fold_lem sum h =
    let first =
      fold_halves sum (sum / 65536) (sum % 65536) (omega arith) (omega arith) (omega arith) in
    let next = sum + fold sum in
    let bound : fold sum ≤ 65535 = omega (arith, first) in
    let second =
      fold_halves next (next / 65536) (next % 65536) (omega arith) (omega (arith, bound, h))
        (omega arith) in
    omega (arith, first, second)

checksum-total :
    (bytes : List ℕ)
    → All IsByte bytes
    → length bytes < 131000
    → checksum bytes ≡ fold (total bytes)
unfolding checksum
checksum-total bytes h n =
    ap fold (sum_words_lem 0 bytes (omega (arith, total_le bytes h, n)))
    ∙ ap fold (zero_add (total bytes))
  where
    zero_add : (n : ℕ) → 0 + n ≡ n
    zero_add n = omega arith

fold_le : (sum : ℕ) → fold sum ≤ 65535
unfolding fold
fold_le sum = omega arith

-- The two bytes of a check that stands at an even place.
total-check :
    (front rest : List ℕ) (check : ℕ)
    → length front % 2 ≡ 0
    → check < 65536
    → total (front ++ (to_bytes 2 check ++ rest)) ≡ check + total (front ++ (0 ∷ 0 ∷ rest))
unfolding total to_bytes
total-check front rest check e h = omega (
  arith,
  h,
  total-append front (check % 256 ∷ check / 256 % 256 ∷ rest) e,
  total-append front (0 ∷ 0 ∷ rest) e,
)

to_bytes-IsByte : (count n : ℕ) → All IsByte (to_bytes count n)
unfolding to_bytes
to_bytes-IsByte zero n = tt
to_bytes-IsByte (suc count) n = (omega arith, to_bytes-IsByte count (n / 256))

-- In a packet of bytes, shorter than 130000, whose check stands at an even place and holds the
-- checksum of the packet with 0 in that place, the checksum of the whole packet is 0.
pub checksum_verifies :
    (front rest : List ℕ)
    → length front % 2 ≡ 0
    → All IsByte front
    → All IsByte rest
    → length front + length rest < 130000
    → checksum (front ++ (to_bytes 2 (checksum (front ++ (0 ∷ 0 ∷ rest))) ++ rest)) ≡ 0
checksum_verifies front rest e hf hr n =
    let blank = front ++ (0 ∷ 0 ∷ rest) in
    let blank_bytes : All IsByte blank =
      All-append IsByte front (0 ∷ 0 ∷ rest) hf (omega arith, (omega arith, hr)) in
    let blank_length = length-append front (0 ∷ 0 ∷ rest) in
    let check = checksum blank in
    let first : check ≡ fold (total blank) =
      checksum-total blank blank_bytes (omega (arith, n, blank_length)) in
    let bound : check < 65536 = omega (arith, first, fold_le (total blank)) in
    let whole = front ++ (to_bytes 2 check ++ rest) in
    let whole_bytes : All IsByte whole =
      All-append IsByte front (to_bytes 2 check ++ rest) hf
        (All-append IsByte (to_bytes 2 check) rest (to_bytes-IsByte 2 check) hr) in
    let room : total blank + 65535 < 2 ^ 32 =
      omega (arith, total_le blank blank_bytes, n, blank_length) in
    checksum-total whole whole_bytes (
      omega (
        arith,
        n,
        length-append front (to_bytes 2 check ++ rest),
        length-append (to_bytes 2 check) rest,
        length-to_bytes 2 check,
      ))
    ∙ ap fold (total-check front rest check e bound ∙ omega (arith, first))
    ∙ fold_lem (total blank) room
