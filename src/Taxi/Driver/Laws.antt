-- ===== src/Taxi/Driver/Laws.antt =====
-- module2/cross2/taxi.c, driver_main: when a busy driver becomes available again.
use practice2_eltex.Prelude.{
  ℕ, zero, suc, ◌≡◌, refl, sym, ap, subst, ◌∙◌, inl, inr, true, false, none, some, List, [], ◌∷◌,
  arith, Option-cases, replicate, All,
}
use practice2_eltex.Prelude.Int.{ℤ, pos, negsuc, ◌≤ℤ◌}
use practice2_eltex.Prelude.Strings.{CString}
use practice2_eltex.Taxi.Driver.{
  Driver, available, busy, ready, read_task, on_task, on_timer, Event, command, timer, on_event,
  run,
}

-- The tasks of a command or an event take more than 0 seconds.
abbrev pub IsPositive : Event → Type 0
IsPositive (command buf) = (secs : ℤ) → read_task buf ≡ some secs → (n : ℕ) × (secs ≡ pos (suc n))
IsPositive timer = Unit

on_task_armed :
    (d : Driver) (n : ℕ)
    → d.is_busy ≡ d.armed
    → (on_task d (pos (suc n))).0.is_busy ≡ (on_task d (pos (suc n))).0.armed
unfolding on_task
on_task_armed d n h = ground arith

on_event_armed :
    (d : Driver) (e : Event)
    → IsPositive e
    → d.is_busy ≡ d.armed
    → (on_event d e).0.is_busy ≡ (on_event d e).0.armed
unfolding on_event
on_event_armed d timer p h = unfold on_timer in ground arith
on_event_armed d (command buf) p h = elim (Option-cases (read_task buf)) [
  | inl e ↦ rw (e, on_event) h
  | inr (secs, e) ↦ let (n, f) = p secs e in rw (e, on_event) (rw f (on_task_armed d n h))
]

run_armed :
    (es : List Event) (d : Driver)
    → All IsPositive es
    → d.is_busy ≡ d.armed
    → (run d es).0.is_busy ≡ (run d es).0.armed
unfolding run
run_armed [] d p h = h
run_armed (e ∷ es) d p h = run_armed es (on_event d e).0 p.1 (on_event_armed d e p.0 h)

-- When a driver that was given only tasks of more than 0 seconds is busy, its timer is armed, and
-- the timer's event makes it available and tells the dispatcher so.
pub busy_driver_recovers :
    (es : List Event)
    → All IsPositive es
    → (run ready.0 es).0.is_busy ≡ true
    → let d = (run ready.0 es).0 in
      (d.armed ≡ true) × (on_event d timer ≡ (ready.0, available ∷ []))
unfolding ready on_event on_timer
busy_driver_recovers es p b = let on = sym (run_armed es ready.0 p refl) ∙ b in (on, rw on refl)

-- Where the kernel does not arm the timer.
abbrev pub IsStuck : Driver → Type 0
IsStuck d = (d.is_busy ≡ true) × (d.armed ≡ false)

on_task-IsStuck : (d : Driver) (secs : ℤ) → IsStuck d → on_task d secs ≡ (d, busy d.remaining ∷ [])
unfolding on_task
on_task-IsStuck d secs h = ground arith

on_command :
    (d : Driver) (buf : CString) (secs : ℤ)
    → read_task buf ≡ some secs
    → on_event d (command buf) ≡ on_task d secs
unfolding on_event
on_command d buf secs e = rw (e, on_event)

on_event_ignored :
    (d : Driver) (buf : CString) → read_task buf ≡ none → on_event d (command buf) ≡ (d, [])
unfolding on_event
on_event_ignored d buf e = rw (e, on_event) refl

-- The tasks that a driver is asked for.
unfoldable pub asked : List Event → ℕ
asked [] = 0
asked (timer ∷ es) = asked es
asked (command buf ∷ es) = elim (read_task buf) [ none ↦ asked es | some secs ↦ suc (asked es) ]

-- A stuck driver answers every task in the same way, and nothing else.
run-IsStuck :
    (es : List Event) (d : Driver)
    → IsStuck d
    → run d es ≡ (d, replicate (asked es) (busy d.remaining))
unfolding run asked
run-IsStuck [] d h = refl
run-IsStuck (timer ∷ es) d h =
    let ignored : on_event d timer ≡ (d, []) = unfold on_event in rw h.1 refl in
    rw (ignored, run) (run-IsStuck es d h)
run-IsStuck (command buf ∷ es) d h = elim (Option-cases (read_task buf)) [
  | inl e ↦ rw (on_event_ignored d buf e, run) (rw (e, asked) (run-IsStuck es d h))
  | inr (secs, e) ↦
      rw (on_command d buf secs e, on_task-IsStuck d secs h, run)
        (rw (e, asked) (ap (λ r. (r.0, busy d.remaining ∷ r.1)) (run-IsStuck es d h)))
]

abbrev stuck_with : ℤ → Driver
stuck_with secs = record { is_busy = true; remaining = secs; armed = false }

on_task_no_time :
    (d : Driver) (secs : ℤ)
    → d.is_busy ≡ false
    → d.armed ≡ false
    → secs ≤ℤ pos 0
    → on_task d secs ≡ (stuck_with secs, busy secs ∷ [])
unfolding on_task
on_task_no_time d (pos zero) free off le = ground arith
on_task_no_time d (pos (suc n)) free off le = absurd (omega arith)
on_task_no_time d (negsuc n) free off le = ground arith

-- A free driver whose timer is not armed and whose task takes 0 seconds, or fewer, stays busy as
-- long as it runs: whatever events follow, it answers each task that it is asked for with one BUSY
-- and the time of that first task, and writes nothing else, so that it is never available again.
pub task_of_no_time :
    (d : Driver) (buf : CString) (secs : ℤ) (es : List Event)
    → d.is_busy ≡ false
    → d.armed ≡ false
    → read_task buf ≡ some secs
    → secs ≤ℤ pos 0
    → let stuck = (on_event d (command buf)).0 in
      (stuck.is_busy ≡ true) × (run stuck es ≡ (stuck, replicate (asked es) (busy secs)))
task_of_no_time d buf secs es free off e le =
    let there : stuck_with secs ≡ (on_event d (command buf)).0 =
      ap (λ r. r.0) (sym (on_command d buf secs e ∙ on_task_no_time d secs free off le)) in
    subst (λ x. (x.is_busy ≡ true) × (run x es ≡ (x, replicate (asked es) (busy secs)))) there
      (refl, run-IsStuck es (stuck_with secs) (refl, refl))
