-- ===== src/Taxi/Tasks.antt =====
-- module2/cross2/taxi.c: what a task shows until it is over, and the time that is left of it.
use practice2_eltex.Prelude.{
  ◌≡◌, inl, inr, Option, none, some, List, [], ◌∷◌, arith, if◌then◌else◌, Option-cases,
}
use practice2_eltex.Prelude.Arrays.{
  find_index, get_elem?-find_index, find_of_find_index-none, find_of_find_index-some,
}
use practice2_eltex.Prelude.Int.{ℤ, pos, ◌-ℤ◌, ◌≤ℤ◌, -ℤ_parts}
use practice2_eltex.Taxi.{
  DriverInfo, Drivers, Effect, say_not_found, say_busy, say_available, has_pid, is_busy, remaining,
  get_status,
}
use practice2_eltex.Taxi.Lookup.{lookup}

abbrev answer : Option DriverInfo → ℤ → ℤ → List Effect
answer none pid now = say_not_found pid ∷ []
answer (some d) pid now = if is_busy d then say_busy (remaining d now) ∷ [] else say_available ∷ []

-- get_status reads the map.
pub get_status_lem :
    (ds : Drivers) (pid now : ℤ) → get_status ds pid now ≡ answer (lookup pid ds) pid now
unfolding get_status
get_status_lem ds pid now = elim (Option-cases (find_index (has_pid pid) ds)) [
  | inl e ↦ ground (arith, find_of_find_index-none (has_pid pid) ds e)
  | inr (i, e) ↦
      let (d, f, t, b) = find_of_find_index-some (has_pid pid) ds i e in
      ground (arith, get_elem?-find_index (has_pid pid) ds i e, f)
]

-- Once a task of no negative duration started, what is left of it is at most its duration, never
-- grows as time goes on, and never goes below 0.
pub remaining_bounds :
    (d : DriverInfo) (now later : ℤ)
    → now ≤ℤ later
    → d.start_time ≤ℤ now
    → pos 0 ≤ℤ d.duration
    → (pos 0 ≤ℤ remaining d later)
      × (remaining d later ≤ℤ remaining d now)
      × (remaining d now ≤ℤ d.duration)
unfolding remaining
remaining_bounds d now later h s p =
    let start = d.start_time in
    let n = -ℤ_parts now start in
    let l = -ℤ_parts later start in
    let dn = -ℤ_parts d.duration (now -ℤ start) in
    let dl = -ℤ_parts d.duration (later -ℤ start) in
    (ground arith, ground (arith, n, l, dn, dl), ground (arith, n, dn))
