-- ===== src/Taxi/Lookup.antt =====
-- module2/cross2/taxi.c: the drivers as a map from process ids.
use practice2_eltex.Prelude.{
  ℕ, zero, suc, ◌≡◌, refl, inl, inr, Bool, not, ◌&&◌, Option, none, some, [], ◌∷◌, arith,
  if◌then◌else◌, Option-cases, option_map,
}
use practice2_eltex.Prelude.Arrays.{
  find_index, modify_first, find, modify_at-find_index, get_elem?-find_index,
  find_of_find_index-none, find_of_find_index-some,
}
use practice2_eltex.Prelude.Int.{ℤ, eqb_ℤ, eqb_ℤ_iff}
use practice2_eltex.Taxi.{
  DriverInfo, Drivers, has_pid, is_busy, send_to_driver, start_task, send_task,
}

-- The entry that find_driver_index finds.
abbrev pub lookup : ℤ → Drivers → Option DriverInfo
lookup pid ds = find (has_pid pid) ds

-- The entry of a driver after send_task: started if it was free and the write went through.
abbrev pub after_task : ℤ → ℤ → Bool → DriverInfo → DriverInfo
after_task secs now wrote d = if not (is_busy d) && wrote then start_task secs now d else d

send_to_driver_found :
    (ds : Drivers) (pid secs : ℤ) (wrote : Bool) (i : ℕ)
    → find_index (has_pid pid) ds ≡ some i
    → (send_to_driver ds pid secs wrote).0 ≡ wrote
unfolding send_to_driver
send_to_driver_found [] pid secs wrote i e = cc
send_to_driver_found (d ∷ ds) pid secs wrote zero e = ground arith
send_to_driver_found (d ∷ ds) pid secs wrote (suc i) e =
    ground (arith, send_to_driver_found ds pid secs wrote i)

pub send_task_found :
    (ds : Drivers) (pid secs now : ℤ) (wrote : Bool) (i : ℕ) (d : DriverInfo)
    → find_index (has_pid pid) ds ≡ some i
    → lookup pid ds ≡ some d
    → (send_task ds pid secs now wrote).0 ≡ (
        if not (is_busy d) && wrote
        then modify_first (has_pid pid) (start_task secs now) ds
        else ds)
unfolding send_task
send_task_found ds pid secs now wrote i d e f = ground (
  arith,
  get_elem?-find_index (has_pid pid) ds i e,
  send_to_driver_found ds pid secs wrote i e,
  modify_at-find_index (has_pid pid) (start_task secs now) ds i e,
)

pub lookup-modify_first :
    (f : DriverInfo → DriverInfo) (keep : (d : DriverInfo) → (f d).pid ≡ d.pid)
    → (ds : Drivers) (pid p : ℤ)
    → lookup p (modify_first (has_pid pid) f ds)
      ≡ (if eqb_ℤ pid p then option_map f (lookup p ds) else lookup p ds)
lookup-modify_first f keep [] pid p = ground arith
lookup-modify_first f keep (d ∷ ds) pid p = ground (
  arith,
  lookup-modify_first f keep ds pid p,
  keep d,
  eqb_ℤ_iff d.pid pid,
  eqb_ℤ_iff d.pid p,
  eqb_ℤ_iff pid p,
)

send_task_absent :
    (ds : Drivers) (pid secs now : ℤ) (wrote : Bool)
    → find_index (has_pid pid) ds ≡ none
    → (send_task ds pid secs now wrote).0 ≡ ds
unfolding send_task
send_task_absent ds pid secs now wrote e = ground arith

-- send_task on the map: the entry of a free driver whose task was written becomes busy, with the
-- task's start and duration; a busy driver, a failed write, an unknown process id and every other
-- driver leave the map as it was.
pub lookup-send_task :
    (ds : Drivers) (pid secs now : ℤ) (wrote : Bool) (p : ℤ)
    → lookup p (send_task ds pid secs now wrote).0
      ≡ (if eqb_ℤ pid p then option_map (after_task secs now wrote) (lookup p ds) else lookup p ds)
lookup-send_task ds pid secs now wrote p = elim (Option-cases (find_index (has_pid pid) ds)) [
  | inl e ↦ ground (
    arith,
    send_task_absent ds pid secs now wrote e,
    find_of_find_index-none (has_pid pid) ds e,
    eqb_ℤ_iff pid p,
  )
  | inr (i, e) ↦
      let (d, f, t, b) = find_of_find_index-some (has_pid pid) ds i e in
      ground (
        arith,
        send_task_found ds pid secs now wrote i d e f,
        lookup-modify_first (start_task secs now) (λ _. refl) ds pid p,
        eqb_ℤ_iff pid p,
        f,
      )
]
