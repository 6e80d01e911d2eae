-- ===== src/Taxi/Cli.antt =====
-- module2/cross2/taxi.c, main: the lines of the user and the events of the drivers' pipes.
use practice2_eltex.Prelude.{
  ℕ, Bool, Option, none, some, List, [], ◌∷◌, ltb, if◌then◌else◌, length, ◌>>=◌,
}
use practice2_eltex.Prelude.Int.{ℤ, pos, ltb_ℤ}
use practice2_eltex.Prelude.Strings.{CString, str_eqb, codes}
use practice2_eltex.Prelude.Scan.{scan_int, scan_word}
use practice2_eltex.Taxi.{
  Drivers, Effect, close_fd, remove_fifo, terminate, close_stale, say_usage, say_unknown, send_task,
  get_status, get_drivers, handle_driver_message, Spawn, create_driver,
}

pub data Line : Type 0 where
  blank : Line
  create : Line
  task : ℤ → ℤ → Line
  status : ℤ → Line
  drivers : Line
  leave : Line
  usage : Line
  other : Line

-- "%*s %d"
scan_pid : CString → Option (ℤ × CString)
scan_pid line = do (w, s) ← scan_word (length line) line; scan_int s

-- "%*s %d %d"
scan_task : CString → Option (ℤ × ℤ)
unfolding scan_pid
scan_task line = do (pid, s) ← scan_pid line; (secs, s) ← scan_int s; some (pid, secs)

unfoldable pub parse_line : CString → Line
unfolding scan_pid scan_task
parse_line line = elim (scan_word 31 line) [
  | none ↦ blank
  | some (cmd, rest) ↦
      if str_eqb cmd (codes "create_driver")
      then create
      else if str_eqb cmd (codes "send_task")
      then elim (scan_task line) [ none ↦ usage | some (pid, secs) ↦ task pid secs ]
      else if str_eqb cmd (codes "get_status")
      then elim (scan_pid line) [ none ↦ usage | some (pid, s) ↦ status pid ]
      else if str_eqb cmd (codes "get_drivers")
      then drivers
      else if str_eqb cmd (codes "exit")
      then leave
      else other
]

-- What the kernel answers while a line is served.
pub record Answers : Type 0 where
  pub now : ℤ
  pub wrote : Bool
  pub spawn : Spawn

-- A line of the user; none is the way to the exit label.
unfoldable pub serve_line : Drivers → Line → Answers → Option (Drivers × List Effect)
serve_line ds blank k = some (ds, [])
serve_line ds create k = some (create_driver ds k.spawn)
serve_line ds (task pid secs) k = some (send_task ds pid secs k.now k.wrote)
serve_line ds (status pid) k = some (ds, get_status ds pid k.now)
serve_line ds drivers k = some (ds, get_drivers ds k.now)
serve_line ds leave k = none
serve_line ds usage k = some (ds, say_usage ∷ [])
serve_line ds other k = some (ds, say_unknown ∷ [])

-- An event of a driver's pipe. Its pointer was stored when the driver was created and is the slot
-- that the driver had then; the comparison of pids is of that slot with itself.
unfoldable pub serve_event : Drivers → ℕ → Option CString → ℤ → Drivers × List Effect
serve_event ds slot input now =
    if ltb slot (length ds)
    then handle_driver_message ds slot input now
    else (ds, close_stale slot ∷ [])

-- cleanup, on every driver that has a process id above 0.
unfoldable pub cleanup : Drivers → List Effect
cleanup [] = []
cleanup (d ∷ ds) =
    if ltb_ℤ (pos 0) d.pid
    then terminate d.pid ∷ close_fd d.cmd_fd ∷ close_fd d.resp_fd ∷ remove_fifo d.pid ∷ cleanup ds
    else cleanup ds
