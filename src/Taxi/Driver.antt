-- ===== src/Taxi/Driver.antt =====
-- module2/cross2/taxi.c, driver_main: the process of a driver, once its pipes are open. Its events
-- come from the command pipe and from the timer; what it writes to the response pipe comes back.
-- The end of the command pipe, or an error of its read, ends the process: a run is the events
-- before it, and the exit itself is left out.
pub mod Laws
use practice2_eltex.Prelude.{
  zero, suc, Bool, true, false, not, Option, none, some, List, [], ◌∷◌, ◌++◌, if◌then◌else◌, ◌>>=◌,
  option_map,
}
use practice2_eltex.Prelude.Int.{ℤ, pos, negsuc}
use practice2_eltex.Prelude.Strings.{CString, codes}
use practice2_eltex.Prelude.Scan.{scan_literal, scan_int}

-- The variables of the loop, and whether the timer is armed.
pub record Driver : Type 0 where
  pub is_busy : Bool
  pub remaining : ℤ
  pub armed : Bool

-- The messages on the response pipe, without their newlines.
pub data Reply : Type 0 where
  available : Reply
  busy : ℤ → Reply

unfoldable pub ready : Driver × List Reply
ready = (record { is_busy = false; remaining = pos 0; armed = false }, available ∷ [])

-- "TASK %d"
unfoldable pub read_task : CString → Option ℤ
read_task buf = option_map (λ r. r.0) (scan_literal (codes "TASK") buf >>= scan_int)

-- timerfd_settime with a relative time: 0 disarms the timer, and a negative time is refused, which
-- leaves the timer as it was.
abbrev pub settime : ℤ → Bool → Bool
settime (pos zero) before = false
settime (pos (suc n)) before = true
settime (negsuc n) before = before

unfoldable pub on_task : Driver → ℤ → Driver × List Reply
on_task d secs =
    if not d.is_busy
    then (record { is_busy = true; remaining = secs; armed = settime secs d.armed }, busy secs ∷ [])
    else (d, busy d.remaining ∷ [])

unfoldable pub on_timer : Driver → Driver × List Reply
on_timer d = (record { is_busy = false; remaining = pos 0; armed = false }, available ∷ [])

-- What epoll_wait reports: bytes on the command pipe, or the timer.
pub data Event : Type 0 where
  command : CString → Event
  timer : Event

-- One event. The kernel reports the timer only while it is armed.
unfoldable pub on_event : Driver → Event → Driver × List Reply
unfolding read_task on_task on_timer
on_event d (command buf) = elim (read_task buf) [ none ↦ (d, []) | some secs ↦ on_task d secs ]
on_event d timer = if d.armed then on_timer d else (d, [])

unfoldable pub run : Driver → List Event → Driver × List Reply
run d [] = (d, [])
run d (e ∷ es) =
    let (d', replies) = on_event d e in let (d'', later) = run d' es in (d'', replies ++ later)
