-- ===== src/Chardev/Reading.antt =====
-- module5/task4/chardev.c: device_read from the begin of the message to its end.
use practice2_eltex.Prelude.{
  ℕ, zero, suc, ◌+◌, ◌≤◌, ◌<◌, ◌≡◌, refl, sym, ap, ◌∙◌, inl, inr, Option, none, some, List, [], ◌∷◌,
  ◌++◌, arith, length, take, drop, length-take, length-drop, All, List-cases,
}
use practice2_eltex.Prelude.Strings.{CString}
use practice2_eltex.Chardev.{Device, put_bytes, device_read}

put_bytes-eq-take : (n : ℕ) (s : CString) → put_bytes n s ≡ take n s
unfolding put_bytes
put_bytes-eq-take zero s = refl
put_bytes-eq-take (suc n) [] = refl
put_bytes-eq-take (suc n) (c ∷ s) = rw (put_bytes-eq-take n s) refl

drop_nil : (n : ℕ) → drop {A = ℕ} n [] ≡ []
drop_nil zero = refl
drop_nil (suc n) = refl

drop-add : (m n k : ℕ) (s : CString) → k ≡ m + n → drop k s ≡ drop n (drop m s)
drop-add zero n k s e = let e' : k ≡ n = omega arith in ap (λ i. drop i s) e'
drop-add (suc m) n k [] e = drop_nil k ∙ sym (drop_nil n)
drop-add (suc m) n zero (c ∷ s) e = absurd (omega arith)
drop-add (suc m) n (suc k) (c ∷ s) e = drop-add m n k s (omega arith)

-- Where a read from inside the message ends.
pub device_read_lem :
    (d : Device) (size offset : ℕ)
    → offset ≤ length d.msg
    → (bytes : CString) × (offset' : ℕ) × (device_read d size offset ≡ some (bytes, offset'))
      × (offset' ≤ length d.msg)
unfolding device_read
device_read_lem d size offset h = elim (List-cases (drop offset d.msg)) [
  | inl e ↦ ([], 0, ground arith, omega arith)
  | inr (c, s, e) ↦
      let left = ap (λ x. length x) e in
      (
        put_bytes size (c ∷ s),
        offset + length (put_bytes size (c ∷ s)),
        ground arith,
        rw (put_bytes-eq-take size (c ∷ s))
            (omega (arith, left, length-drop offset d.msg, length-take size (c ∷ s))),
      )
]

-- A process that reads with the given sizes until a read gives no bytes; none if the sizes end
-- before, or if a read leaves the message.
unfoldable pub read_until_end : Device → List ℕ → ℕ → Option (CString × ℕ)
read_until_end d [] offset = none
read_until_end d (size ∷ sizes) offset = elim (device_read d size offset) [
  | none ↦ none
  | some ([], offset') ↦ some ([], offset')
  | some (c ∷ s, offset') ↦ elim (read_until_end d sizes offset') [
    | none ↦ none
    | some (more, last) ↦ some (c ∷ s ++ more, last)
  ]
]

take-append-rest : (n : ℕ) (s : CString) → take n s ++ drop (length (take n s)) s ≡ s
take-append-rest zero s = refl
take-append-rest (suc n) [] = refl
take-append-rest (suc n) (c ∷ s) = rw (take-append-rest n s) refl

-- Reads at the end of the message and inside it, with room for at least one byte.
read_end :
    (d : Device) (size offset : ℕ)
    → offset ≤ length d.msg
    → drop offset d.msg ≡ []
    → device_read d size offset ≡ some ([], 0)
unfolding device_read
read_end d size offset h e = ground arith

read_inside :
    (d : Device) (size offset c : ℕ) (s : CString)
    → offset ≤ length d.msg
    → drop offset d.msg ≡ c ∷ s
    → device_read d (suc size) offset ≡ some (c ∷ take size s, offset + suc (length (take size s)))
unfolding device_read put_bytes
read_inside d size offset c s h e = ground (arith, put_bytes-eq-take size s)

read_until_end_from :
    (d : Device) (sizes : List ℕ) (offset : ℕ)
    → All (λ n. 0 < n) sizes
    → offset ≤ length d.msg
    → length d.msg < offset + length sizes
    → read_until_end d sizes offset ≡ some (drop offset d.msg, 0)
unfolding read_until_end
read_until_end_from d [] offset p h k = absurd (omega arith)
read_until_end_from d (zero ∷ sizes) offset p h k = absurd (omega (arith, p.0))
read_until_end_from d (suc n ∷ sizes) offset p h k = elim (List-cases (drop offset d.msg)) [
  | inl e ↦ rw (read_end d (suc n) offset h e, read_until_end) (rw e refl)
  | inr (c, s, e) ↦
      let next = offset + suc (length (take n s)) in
      let left = ap (λ x. length x) e in
      let later =
        read_until_end_from d sizes next p.1
          (omega (arith, left, length-drop offset d.msg, length-take n s)) (omega arith) in
      rw (read_inside d n offset c s h e, read_until_end)
        (rw (later, read_until_end)
          (rw (drop-add offset (suc (length (take n s))) next d.msg refl, e)
            (rw (take-append-rest n s) refl)))
]

-- Whatever sizes above 0 a process reads with, if there are more of them than the message has
-- bytes, reading until a read gives nothing gives the whole message, never leaves it, and ends
-- with the offset back at 0.
pub read_until_end-eq-msg :
    (d : Device) (sizes : List ℕ)
    → All (λ n. 0 < n) sizes
    → length d.msg < length sizes
    → read_until_end d sizes 0 ≡ some (d.msg, 0)
read_until_end-eq-msg d sizes p h = read_until_end_from d sizes 0 p (omega arith) (omega arith)
