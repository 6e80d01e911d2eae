-- ===== src/Taxi/Untouched.antt =====
-- module2/cross2/taxi.c: rounds of the dispatcher that leave a busy driver's entry as it was.
use practice2_eltex.Prelude.{
  ℕ, zero, suc, ◌≡◌, refl, sym, ap, subst, ◌∙◌, ◌≢◌, ◌⊎◌, inl, inr, Bool, true, none, some, List,
  [], ◌∷◌, ◌++◌, arith, Option-cases, length, get_elem?, All,
}
use practice2_eltex.Prelude.Arrays.{find_index, modify_at, remove_at, get_elem?-find_index}
use practice2_eltex.Prelude.Int.{ℤ, pos}
use practice2_eltex.Prelude.Strings.{CString}
use practice2_eltex.Taxi.{
  DriverInfo, Drivers, has_pid, is_busy, remove_driver, start_task, send_task, first_line, Report,
  is_available, has_started, noise, read_report, set_available, apply_report, handle_driver_message,
  Spawn, new_driver, open_driver, create_driver,
}
use practice2_eltex.Taxi.Cli.{
  blank, create, task, status, drivers, leave, usage, other, serve_line, serve_event,
}
use practice2_eltex.Taxi.Lookup.{lookup, lookup-send_task}
use practice2_eltex.Taxi.Capacity.{Round, line, event, serve, serve_all}
use practice2_eltex.Taxi.Slots.{serve_event_ne}

module _ {ℓ} {A : Type ℓ} (p : A → Bool) where
  find_index-modify_at :
      (f : A → A) (keep : (x : A) → p (f x) ≡ p x)
      → (xs : List A) (j : ℕ) → find_index p (modify_at xs j f) ≡ find_index p xs
  find_index-modify_at f keep [] j = refl
  find_index-modify_at f keep (x ∷ xs) zero = ground (arith, keep x)
  find_index-modify_at f keep (x ∷ xs) (suc j) = ground (arith, find_index-modify_at f keep xs j)

  find_index-append :
      (xs ys : List A) (i : ℕ) → find_index p xs ≡ some i → find_index p (xs ++ ys) ≡ some i
  find_index-append [] ys i e = cc
  find_index-append (x ∷ xs) ys zero e = ground arith
  find_index-append (x ∷ xs) ys (suc i) e = ground (arith, find_index-append xs ys i)

get_elem?-append {ℓ} :
    {A : Type ℓ} (xs ys : List A) (i : ℕ) (d : A)
    → get_elem? xs i ≡ some d
    → get_elem? (xs ++ ys) i ≡ some d
get_elem?-append [] ys i d e = cc
get_elem?-append (x ∷ xs) ys zero d e = e
get_elem?-append (x ∷ xs) ys (suc i) d e = get_elem?-append xs ys i d e

get_elem?_last {ℓ} :
    {A : Type ℓ} (xs : List A) (x : A) → get_elem? (xs ++ x ∷ []) (length xs) ≡ some x
get_elem?_last [] x = refl
get_elem?_last (y ∷ xs) x = get_elem?_last xs x

remove_at_last {ℓ} : {A : Type ℓ} (xs : List A) (x : A) → remove_at (xs ++ x ∷ []) (length xs) ≡ xs
remove_at_last [] x = refl
remove_at_last (y ∷ xs) x = ap (λ l. y ∷ l) (remove_at_last xs x)

-- The driver of a process id stands in a slot.
abbrev pub Stands : ℤ → ℕ → DriverInfo → Drivers → Type 0
Stands pid i d ds = (find_index (has_pid pid) ds ≡ some i) × (get_elem? ds i ≡ some d)

pub lookup-Stands :
    (pid : ℤ) (i : ℕ) (d : DriverInfo) (ds : Drivers) → Stands pid i d ds → lookup pid ds ≡ some d
lookup-Stands pid i d ds (e, g) = ground (arith, get_elem?-find_index (has_pid pid) ds i e)

pub Stands-of_lookup :
    (pid : ℤ) (i : ℕ) (d : DriverInfo) (ds : Drivers)
    → find_index (has_pid pid) ds ≡ some i
    → lookup pid ds ≡ some d
    → Stands pid i d ds
Stands-of_lookup pid i d ds e f = (e, get_elem?-find_index (has_pid pid) ds i e ∙ f)

pub find_index-send_task :
    (ds : Drivers) (pid secs now : ℤ) (wrote : Bool) (p : ℤ)
    → find_index (has_pid p) (send_task ds pid secs now wrote).0 ≡ find_index (has_pid p) ds
unfolding send_task
find_index-send_task ds pid secs now wrote p = elim (Option-cases (find_index (has_pid pid) ds)) [
  | inl e ↦ ground arith
  | inr (j, e) ↦
      ground (arith, find_index-modify_at (has_pid p) (start_task secs now) (λ _. refl) ds j)
]

-- A task, to whomever, leaves a busy driver's entry.
send_task-Stands :
    (ds : Drivers) (pid secs now : ℤ) (wrote : Bool) (p : ℤ) (i : ℕ) (d : DriverInfo)
    → is_busy d ≡ true
    → Stands p i d ds
    → Stands p i d (send_task ds pid secs now wrote).0
send_task-Stands ds pid secs now wrote p i d b w =
    Stands-of_lookup p i d (send_task ds pid secs now wrote).0
      (find_index-send_task ds pid secs now wrote p ∙ w.0)
      (ground (arith, lookup-send_task ds pid secs now wrote p, lookup-Stands p i d ds w))

append-Stands :
    (ds : Drivers) (x : DriverInfo) (p : ℤ) (i : ℕ) (d : DriverInfo)
    → Stands p i d ds
    → Stands p i d (ds ++ x ∷ [])
append-Stands ds x p i d (e, g) =
    (find_index-append (has_pid p) ds (x ∷ []) i e, get_elem?-append ds (x ∷ []) i d g)

remove_driver_last :
    (ds : Drivers) (x : DriverInfo) → (remove_driver (ds ++ x ∷ []) (pos (length ds))).0 ≡ ds
unfolding remove_driver
remove_driver_last ds x = rw (get_elem?_last ds x, remove_driver) (remove_at_last ds x)

-- The drivers after create_driver: as before, or with one more at the end.
create_driver_cases :
    (ds : Drivers) (k : Spawn)
    → ((create_driver ds k).0 ≡ ds) ⊎ ((create_driver ds k).0 ≡ ds ++ new_driver k ∷ [])
unfolding create_driver open_driver
create_driver_cases ds k = ground (arith, remove_driver_last ds (new_driver k))

create_driver-Stands :
    (ds : Drivers) (k : Spawn) (p : ℤ) (i : ℕ) (d : DriverInfo)
    → Stands p i d ds
    → Stands p i d (create_driver ds k).0
create_driver-Stands ds k p i d w = elim (create_driver_cases ds k) [
  | inl e ↦ subst (Stands p i d) (sym e) w
  | inr e ↦ subst (Stands p i d) (sym e) (append-Stands ds (new_driver k) p i d w)
]

find_index-apply_report :
    (ds : Drivers) (slot : ℕ) (d : DriverInfo) (r : Report) (now p : ℤ)
    → find_index (has_pid p) (apply_report ds slot d r now).0 ≡ find_index (has_pid p) ds
unfolding apply_report
find_index-apply_report ds slot d is_available now p =
    find_index-modify_at (has_pid p) set_available (λ _. refl) ds slot
find_index-apply_report ds slot d (has_started secs) now p =
    find_index-modify_at (has_pid p) (start_task secs now) (λ _. refl) ds slot
find_index-apply_report ds slot d noise now p = refl

find_index-serve_event :
    (ds : Drivers) (slot : ℕ) (buf : CString) (now p : ℤ)
    → find_index (has_pid p) (serve_event ds slot (some buf) now).0 ≡ find_index (has_pid p) ds
unfolding serve_event handle_driver_message
find_index-serve_event ds slot buf now p = elim (Option-cases (get_elem? ds slot)) [
  | inl e ↦ ground arith
  | inr (d, e) ↦
      ground (arith, find_index-apply_report ds slot d (read_report (first_line buf)) now p)
]

-- A line that is not exit, or a message of another driver.
abbrev pub IsElsewhere : ℕ → Round → Type 0
IsElsewhere i (line leave k) = ⊥
IsElsewhere i (line _ k) = Unit
IsElsewhere i (event slot none now) = ⊥
IsElsewhere i (event slot (some buf) now) = slot ≢ i

serve-Stands :
    (ds : Drivers) (r : Round) (p : ℤ) (i : ℕ) (d : DriverInfo)
    → is_busy d ≡ true
    → IsElsewhere i r
    → Stands p i d ds
    → Stands p i d (serve ds r)
unfolding serve serve_line
serve-Stands ds (line blank k) p i d b h w = w
serve-Stands ds (line create k) p i d b h w = create_driver-Stands ds k.spawn p i d w
serve-Stands ds (line (task pid secs) k) p i d b h w =
    send_task-Stands ds pid secs k.now k.wrote p i d b w
serve-Stands ds (line (status pid) k) p i d b h w = w
serve-Stands ds (line drivers k) p i d b h w = w
serve-Stands ds (line leave k) p i d b h w = absurd h
serve-Stands ds (line usage k) p i d b h w = w
serve-Stands ds (line other k) p i d b h w = w
serve-Stands ds (event slot none now) p i d b h w = absurd h
serve-Stands ds (event slot (some buf) now) p i d b h w =
    (find_index-serve_event ds slot buf now p ∙ w.0, serve_event_ne ds slot i buf now h ∙ w.1)

pub serve_all-Stands :
    (rs : List Round) (ds : Drivers) (p : ℤ) (i : ℕ) (d : DriverInfo)
    → is_busy d ≡ true
    → All (IsElsewhere i) rs
    → Stands p i d ds
    → Stands p i d (serve_all ds rs)
unfolding serve_all
serve_all-Stands [] ds p i d b h w = w
serve_all-Stands (r ∷ rs) ds p i d b h w =
    serve_all-Stands rs (serve ds r) p i d b h.1 (serve-Stands ds r p i d b h.0 w)
