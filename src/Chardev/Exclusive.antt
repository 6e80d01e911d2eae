-- ===== src/Chardev/Exclusive.antt =====
-- module5/task4/chardev.c: any sequence of calls from processes that share the device.
use practice2_eltex.Prelude.{
  ℕ, zero, suc, ◌+◌, ◌%◌, ◌^◌, ◌≤◌, ◌≡◌, refl, subst, true, false, Option, none, some, List, [],
  ◌∷◌, ◌++◌, arith, if◌then◌else◌, length, get_elem?, set, All,
}
use practice2_eltex.Chardev.{
  Device, chardev_init, message, device_open, device_release, device_read,
}
use practice2_eltex.Prelude.Arrays.{remove_at}
use practice2_eltex.Chardev.Reading.{device_read_lem}

-- The device and the offsets of the files that are open on it.
pub record System : Type 0 where
  pub device : Device
  pub files : List ℕ

-- The calls; a file is named by its place among the open ones, and a name of none is refused. read
-- reads at the file's own offset, and pread at one that it names, which leaves the file's own as it
-- was. The operations have no llseek, so that an offset is not set otherwise.
pub data Call : Type 0 where
  open_device : Call
  release : ℕ → Call
  read : ℕ → ℕ → Call
  pread : ℕ → ℕ → ℕ → Call
  write : Call

-- The first call of an open file; device_write does nothing but refuse. A read that leaves the
-- message is none.
unfoldable pub step : System → Call → Option System
step s open_device =
    let (ok, d) = device_open s.device in
    some (record { device = d; files = if ok then s.files ++ 0 ∷ [] else s.files })
step s (release i) = elim (get_elem? s.files i) [
  | none ↦ some s
  | some o ↦ some (record { device = device_release s.device; files = remove_at s.files i })
]
step s (read i size) = elim (get_elem? s.files i) [
  | none ↦ some s
  | some o ↦ elim (device_read s.device size o) [
    | none ↦ none
    | some (bytes, o') ↦ some (record s { files = set s.files i o' })
  ]
]
step s (pread i size offset) = elim (get_elem? s.files i) [
  | none ↦ some s
  | some o ↦ elim (device_read s.device size offset) [ none ↦ none | some r ↦ some s ]
]
step s write = some s

unfoldable pub run : System → List Call → Option System
run s [] = some s
run s (c ∷ cs) = elim (step s c) [ none ↦ none | some s' ↦ run s' cs ]

-- Every pread names an offset in the message that the device has then.
abbrev IsInside : System → Call → Type 0
IsInside s (pread i size offset) = offset ≤ length s.device.msg
IsInside s _ = Unit

unfoldable pub AreInside : System → List Call → Type 0
unfolding step
AreInside s [] = Unit
AreInside s (c ∷ cs) = IsInside s c × elim (step s c) [ none ↦ Unit | some s' ↦ AreInside s' cs ]

-- At most one file is open, the flag tells whether there is one, and its offset is in the message.
abbrev pub IsExclusive : System → Type 0
IsExclusive s =
    (length s.files ≡ (if s.device.already_open then 1 else 0))
    × All (λ o. o ≤ length s.device.msg) s.files

abbrev Steps : Device → List ℕ → Call → Type 0
Steps d files c =
    (s' : System) × (step (record { device = d; files = files }) c ≡ some s') × IsExclusive s'

step_open :
    (d : Device) (files : List ℕ)
    → IsExclusive (record { device = d; files = files })
    → Steps d files open_device
unfolding step device_open
step_open d [] v =
    let free : d.already_open ≡ false = ground (arith, v.0) in
    (
      record {
        device = record {
          already_open = true;
          counter = (d.counter + 1) % 2 ^ 32;
          msg = message d.counter;
        };
        files = 0 ∷ [];
      },
      ground arith,
      (refl, (omega arith, tt)),
    )
step_open d (o ∷ []) v =
    let taken : d.already_open ≡ true = ground (arith, v.0) in
    (record { device = d; files = o ∷ [] }, ground arith, v)
step_open d (o ∷ o' ∷ rest) v = absurd (ground (arith, v.0))

step_release :
    (d : Device) (files : List ℕ) (i : ℕ)
    → IsExclusive (record { device = d; files = files })
    → Steps d files (release i)
unfolding step device_release
step_release d [] i v = (_, refl, v)
step_release d (o ∷ []) zero v = (_, refl, (refl, tt))
step_release d (o ∷ []) (suc i) v = (_, refl, v)
step_release d (o ∷ o' ∷ rest) i v = absurd (ground (arith, v.0))

step_read :
    (d : Device) (files : List ℕ) (i size : ℕ)
    → IsExclusive (record { device = d; files = files })
    → Steps d files (read i size)
unfolding step
step_read d [] i size v = (_, refl, v)
step_read d (o ∷ []) zero size v =
    let (bytes, o', e, h) = device_read_lem d size o v.1.0 in
    (record { device = d; files = o' ∷ [] }, rw (e, step) refl, (v.0, (h, tt)))
step_read d (o ∷ []) (suc i) size v = (_, refl, v)
step_read d (o ∷ o' ∷ rest) i size v = absurd (ground (arith, v.0))

step_pread :
    (d : Device) (files : List ℕ) (i size offset : ℕ)
    → offset ≤ length d.msg
    → IsExclusive (record { device = d; files = files })
    → Steps d files (pread i size offset)
unfolding step
step_pread d [] i size offset h v = (_, refl, v)
step_pread d (o ∷ []) zero size offset h v =
    let (bytes, o', e, _) = device_read_lem d size offset h in
    (record { device = d; files = o ∷ [] }, rw (e, step) refl, v)
step_pread d (o ∷ []) (suc i) size offset h v = (_, refl, v)
step_pread d (o ∷ o' ∷ rest) i size offset h v = absurd (ground (arith, v.0))

step-IsExclusive : (s : System) (c : Call) → IsInside s c → IsExclusive s → Steps s.device s.files c
unfolding step
step-IsExclusive s open_device h v = step_open s.device s.files v
step-IsExclusive s (release i) h v = step_release s.device s.files i v
step-IsExclusive s (read i size) h v = step_read s.device s.files i size v
step-IsExclusive s (pread i size offset) h v = step_pread s.device s.files i size offset h v
step-IsExclusive s write h v = (s, refl, v)

AreInside-step :
    (s s' : System) (c : Call) (cs : List Call)
    → step s c ≡ some s'
    → AreInside s (c ∷ cs)
    → AreInside s' cs
unfolding AreInside
AreInside-step s s' c cs e h =
    subst (λ o. elim o as (λ _. Type 0) [ none ↦ Unit | some t ↦ AreInside t cs ]) e h.1

run_from :
    (cs : List Call) (s : System)
    → AreInside s cs
    → IsExclusive s
    → (s' : System) × (run s cs ≡ some s') × IsExclusive s'
unfolding run AreInside
run_from [] s h v = (s, refl, v)
run_from (c ∷ cs) s h v =
    let (s', e, v') = step-IsExclusive s c h.0 v in
    let (s'', e', v'') = run_from cs s' (AreInside-step s s' c cs e h) v' in
    (s'', rw (e, run) e', v'')

unfoldable pub loaded : System
loaded = record { device = chardev_init; files = [] }

-- Whatever calls of open, release, read, pread and write come in any order from the loading on, if
-- every pread names an offset in the message of that time, no read leaves the message, at most one
-- file is open, already_open tells whether there is one, and its offset is in the message.
pub run-IsExclusive :
    (cs : List Call) → AreInside loaded cs → (s : System) × (run loaded cs ≡ some s) × IsExclusive s
unfolding loaded chardev_init
run-IsExclusive cs h = run_from cs loaded h (refl, tt)
