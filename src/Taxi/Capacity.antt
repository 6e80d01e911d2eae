-- ===== src/Taxi/Capacity.antt =====
-- module2/cross2/taxi.c: the array of the drivers never overflows.
use practice2_eltex.Prelude.{
  ℕ, zero, suc, ◌+◌, ◌≤◌, ◌<◌, ◌≡◌, refl, ap, inl, inr, Bool, Option, none, some, List, [], ◌∷◌,
  ◌++◌, arith, Option-cases, length, get_elem?, length-append,
}
use practice2_eltex.Prelude.Arrays.{find_index, modify_at, remove_at}
use practice2_eltex.Prelude.Int.{ℤ, pos, negsuc}
use practice2_eltex.Prelude.Strings.{CString}
use practice2_eltex.Taxi.{
  max_drivers, DriverInfo, Drivers, has_pid, remove_driver, start_task, send_task, first_line,
  Report, is_available, has_started, noise, read_report, set_available, apply_report,
  handle_driver_message, Spawn, new_driver, open_driver, create_driver,
}
use practice2_eltex.Taxi.Cli.{
  Line, blank, create, task, status, drivers, leave, usage, other, Answers, serve_line, serve_event,
}

pub length-modify_at {ℓ} :
    {A : Type ℓ} (xs : List A) (i : ℕ) (f : A → A) → length (modify_at xs i f) ≡ length xs
length-modify_at [] i f = refl
length-modify_at (x ∷ xs) zero f = refl
length-modify_at (x ∷ xs) (suc i) f = ap suc (length-modify_at xs i f)

pub length-remove_at {ℓ} : {A : Type ℓ} (xs : List A) (i : ℕ) → length (remove_at xs i) ≤ length xs
length-remove_at [] i = omega arith
length-remove_at (x ∷ xs) zero = omega arith
length-remove_at (x ∷ xs) (suc i) = omega (arith, length-remove_at xs i)

pub length-remove_at_lt {ℓ} :
    {A : Type ℓ} (xs : List A) (i : ℕ) → i < length xs → length (remove_at xs i) + 1 ≡ length xs
length-remove_at_lt [] i h = elim h [ ]
length-remove_at_lt (x ∷ xs) zero h = omega arith
length-remove_at_lt (x ∷ xs) (suc i) h = omega (arith, length-remove_at_lt xs i (omega arith))

length-remove_driver : (ds : Drivers) (idx : ℤ) → length (remove_driver ds idx).0 ≤ length ds
unfolding remove_driver
length-remove_driver ds (negsuc n) = omega arith
length-remove_driver ds (pos i) = ground (arith, length-remove_at ds i)

length-apply_report :
    (ds : Drivers) (i : ℕ) (d : DriverInfo) (r : Report) (now : ℤ)
    → length (apply_report ds i d r now).0 ≤ length ds
unfolding apply_report
length-apply_report ds i d is_available now = omega (arith, length-modify_at ds i set_available)
length-apply_report ds i d (has_started secs) now =
    omega (arith, length-modify_at ds i (start_task secs now))
length-apply_report ds i d noise now = omega arith

length-handle_driver_message :
    (ds : Drivers) (i : ℕ) (input : Option CString) (now : ℤ)
    → length (handle_driver_message ds i input now).0 ≤ length ds
unfolding handle_driver_message
length-handle_driver_message ds i none now = length-remove_driver ds (pos i)
length-handle_driver_message ds i (some buf) now = elim (Option-cases (get_elem? ds i)) [
  | inl e ↦ rw (e, handle_driver_message) (omega arith)
  | inr (d, e) ↦
      rw (e, handle_driver_message) (length-apply_report ds i d (read_report (first_line buf)) now)
]

length-send_task :
    (ds : Drivers) (pid secs now : ℤ) (wrote : Bool)
    → length (send_task ds pid secs now wrote).0 ≡ length ds
unfolding send_task
length-send_task ds pid secs now wrote = elim (Option-cases (find_index (has_pid pid) ds)) [
  | inl e ↦ ground arith
  | inr (i, e) ↦ ground (arith, length-modify_at ds i (start_task secs now))
]

length-open_driver : (ds : Drivers) (k : Spawn) → length (open_driver ds k).0 ≤ length ds + 1
unfolding open_driver
length-open_driver ds k = ground (
  arith,
  length-append ds (new_driver k ∷ []),
  length-remove_driver (ds ++ new_driver k ∷ []) (pos (length ds)),
)

length-create_driver :
    (ds : Drivers) (k : Spawn)
    → length ds ≤ max_drivers
    → length (create_driver ds k).0 ≤ max_drivers
unfolding create_driver
length-create_driver ds k h = ground (arith, length-open_driver ds k)

-- What the dispatcher may meet in a round of its loop.
pub data Round : Type 0 where
  line : Line → Answers → Round
  event : ℕ → Option CString → ℤ → Round

unfoldable pub serve : Drivers → Round → Drivers
serve ds (line l k) = elim (serve_line ds l k) [ none ↦ ds | some (ds', effects) ↦ ds' ]
serve ds (event slot input now) = (serve_event ds slot input now).0

unfoldable pub serve_all : Drivers → List Round → Drivers
serve_all ds [] = ds
serve_all ds (r ∷ rs) = serve_all (serve ds r) rs

serve_bound :
    (ds : Drivers) (r : Round) → length ds ≤ max_drivers → length (serve ds r) ≤ max_drivers
unfolding serve serve_line serve_event
serve_bound ds (line blank k) h = h
serve_bound ds (line create k) h = length-create_driver ds k.spawn h
serve_bound ds (line (task pid secs) k) h =
    omega (arith, length-send_task ds pid secs k.now k.wrote)
serve_bound ds (line (status pid) k) h = h
serve_bound ds (line drivers k) h = h
serve_bound ds (line leave k) h = h
serve_bound ds (line usage k) h = h
serve_bound ds (line other k) h = h
serve_bound ds (event slot input now) h =
    ground (arith, length-handle_driver_message ds slot input now)

serve_all_bound_from :
    (rs : List Round) (ds : Drivers)
    → length ds ≤ max_drivers
    → length (serve_all ds rs) ≤ max_drivers
unfolding serve_all
serve_all_bound_from [] ds h = h
serve_all_bound_from (r ∷ rs) ds h = serve_all_bound_from rs (serve ds r) (serve_bound ds r h)

-- Whatever lines and events come, in any order, the list of drivers stays within its array of 100.
pub serve_all_bound : (rs : List Round) → length (serve_all [] rs) ≤ max_drivers
serve_all_bound rs = serve_all_bound_from rs [] (omega arith)
