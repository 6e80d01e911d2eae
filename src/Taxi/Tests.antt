-- ===== src/Taxi/Tests.antt =====
-- Runs of module2/cross2/taxi.c, and its theorems at concrete drivers.
use practice2_eltex.Prelude.{
  ℕ, ◌+◌, ◌≤◌, ◌≡◌, refl, sym, ◌∙◌, true, false, none, some, List, [], ◌∷◌, arith, if◌then◌else◌,
  length, replicate, All, option_map, some_inj,
}
use practice2_eltex.Prelude.Int.{pos, eqb_ℤ}
use practice2_eltex.Prelude.Strings.{strcmp, str_eqb, codes}
use practice2_eltex.Taxi.{
  max_drivers, available, DriverInfo, Drivers, remaining, send_task, first_line, has_started,
  read_report,
}
use practice2_eltex.Taxi.Cli.{create, task, drivers, parse_line, Answers}
use practice2_eltex.Taxi.Lookup.{lookup, after_task, lookup-send_task}
use practice2_eltex.Taxi.Capacity.{Round, line, event, serve_all, serve_all_bound}
use practice2_eltex.Taxi.Driver.Laws.{IsPositive, busy_driver_recovers, asked, task_of_no_time}
use practice2_eltex.Prelude.Scan.{scan_literal, scan_int, scan_word}
use practice2_eltex.Taxi.Driver

abbrev driver_at : ℕ → DriverInfo
driver_at n = record {
  pid = pos n;
  cmd_fd = pos (n + 1);
  resp_fd = pos (n + 2);
  status = available;
  start_time = pos 0;
  duration = pos 0;
}

abbrev fleet : Drivers
fleet = driver_at 100 ∷ driver_at 200 ∷ driver_at 300 ∷ []

parse_task : parse_line (codes "send_task 200 15") ≡ task (pos 200) (pos 15)
unfolding parse_line str_eqb strcmp scan_word scan_int
parse_task = refl

coalesced_reports : read_report (first_line (codes "BUSY 5\nAVAILABLE")) ≡ has_started (pos 5)
unfolding read_report first_line str_eqb strcmp scan_literal scan_int
coalesced_reports = refl

lookup-send_task_example :
    lookup (pos 200) (send_task fleet (pos 200) (pos 15) (pos 1000) true).0 ≡ (
      if eqb_ℤ (pos 200) (pos 200)
      then option_map (after_task (pos 15) (pos 1000) true) (lookup (pos 200) fleet)
      else lookup (pos 200) fleet)
lookup-send_task_example = lookup-send_task fleet (pos 200) (pos 15) (pos 1000) true (pos 200)

abbrev answers : Answers
answers = record {
  now = pos 1000;
  wrote = true;
  spawn = record {
    pid = pos 400;
    fifos_made = true;
    cmd_fd = pos 5;
    resp_fd = pos 6;
    watched = true;
  };
}

-- A task for another driver, a free driver's report, a new driver and a table of all.
abbrev meanwhile : List Round
meanwhile =
    line (task (pos 100) (pos 7)) answers
    ∷ event 2 (some (codes "AVAILABLE")) (pos 1001)
    ∷ line create answers
    ∷ line drivers answers
    ∷ []

serve_all_bound_example :
    length (serve_all [] (line create answers ∷ event 0 none (pos 1001) ∷ [])) ≤ max_drivers
serve_all_bound_example = serve_all_bound (line create answers ∷ event 0 none (pos 1001) ∷ [])

abbrev five_seconds : List Driver.Event
five_seconds = Driver.Event.command (codes "TASK 5") ∷ []

reads_five : Driver.read_task (codes "TASK 5") ≡ some (pos 5)
unfolding Driver.read_task scan_literal scan_int
reads_five = refl

five_seconds-IsPositive : All IsPositive five_seconds
five_seconds-IsPositive = (λ secs e. (4, some_inj (sym e ∙ reads_five)), tt)

starts_five : (Driver.run Driver.ready.0 five_seconds).0.is_busy ≡ true
unfolding Driver.run Driver.ready Driver.on_event Driver.on_task Driver.read_task scan_literal
    scan_int
starts_five = refl

busy_driver_recovers_example :
    let d = (Driver.run Driver.ready.0 five_seconds).0 in
    (d.armed ≡ true)
    × (Driver.on_event d Driver.Event.timer ≡ (Driver.ready.0, Driver.Reply.available ∷ []))
busy_driver_recovers_example = busy_driver_recovers five_seconds five_seconds-IsPositive starts_five

abbrev idle : Driver.Driver
idle = record { is_busy = false; remaining = pos 0; armed = false }

reads_zero : Driver.read_task (codes "TASK 0") ≡ some (pos 0)
unfolding Driver.read_task scan_literal scan_int
reads_zero = refl

abbrev more_events : List Driver.Event
more_events = Driver.Event.timer ∷ Driver.Event.command (codes "TASK 0") ∷ []

asked_once : asked more_events ≡ 1
unfolding asked Driver.read_task scan_literal scan_int
asked_once = refl

task_of_no_time_example :
    let stuck = (Driver.on_event idle (Driver.Event.command (codes "TASK 0"))).0 in
    (stuck.is_busy ≡ true)
    × (Driver.run stuck more_events
        ≡ (stuck, replicate (asked more_events) (Driver.Reply.busy (pos 0))))
task_of_no_time_example =
    task_of_no_time idle (codes "TASK 0") (pos 0) more_events refl refl reads_zero (omega arith)
