-- ===== src/Taxi.antt =====
-- module2/cross2/taxi.c, the parent process: a dispatcher that creates drivers, sends them tasks and
-- follows their answers. What the kernel answers (fork, mkfifo, open, epoll_ctl, read, write, time)
-- is an argument; what is asked of the kernel and what is printed comes back as a list of effects.
pub mod Cli
pub mod Lookup
pub mod Tasks
pub mod Capacity
pub mod Untouched
pub mod Slots
pub mod Driver
mod Tests
use practice2_eltex.Prelude.{
  ℕ, Bool, true, false, not, ◌||◌, Option, none, some, List, [], ◌∷◌, ◌++◌, leb, ◌==◌,
  if◌then◌else◌, length, get_elem?, ◌>>=◌,
}
use practice2_eltex.Prelude.Arrays.{find_index, modify_at, remove_at}
use practice2_eltex.Prelude.Int.{ℤ, pos, negsuc, ◌-ℤ◌, ltb_ℤ, eqb_ℤ}
use practice2_eltex.Prelude.Strings.{CString, str_eqb, codes}
use practice2_eltex.Prelude.Scan.{scan_literal, scan_int}

abbrev pub max_drivers : ℕ
max_drivers = 100

-- The texts of driver_info_t.status.
pub data Status : Type 0 where
  unknown available busy : Status

pub record DriverInfo : Type 0 where
  pub pid : ℤ
  pub cmd_fd : ℤ
  pub resp_fd : ℤ
  pub status : Status
  pub start_time : ℤ
  pub duration : ℤ

-- The array drivers with its count.
abbrev pub Drivers : Type 0
Drivers = List DriverInfo

pub data Effect : Type 0 where
  close_fd : ℤ → Effect
  remove_fifo : ℤ → Effect
  terminate : ℤ → Effect
  write_task : ℤ → ℤ → Effect
  say_full : Effect
  say_error : Effect
  say_created : ℤ → Effect
  say_not_found : ℤ → Effect
  say_busy : ℤ → Effect
  say_available : Effect
  say_failed : ℤ → Effect
  say_sent : ℤ → ℤ → Effect
  say_pid : ℤ → Effect
  say_driver_available : ℤ → Effect
  close_stale : ℕ → Effect
  say_usage : Effect
  say_unknown : Effect
  say_driver_started : ℤ → ℤ → Effect

abbrev pub has_pid : ℤ → DriverInfo → Bool
has_pid pid d = eqb_ℤ d.pid pid

abbrev pub is_busy : DriverInfo → Bool
is_busy d = elim d.status [ busy ↦ true | _ ↦ false ]

-- The index is an int, and one outside the list is ignored.
unfoldable pub remove_driver : Drivers → ℤ → Drivers × List Effect
remove_driver ds (negsuc _) = (ds, [])
remove_driver ds (pos idx) = elim (get_elem? ds idx) [
  | none ↦ (ds, [])
  | some d ↦ (remove_at ds idx, close_fd d.cmd_fd ∷ close_fd d.resp_fd ∷ remove_fifo d.pid ∷ [])
]

unfoldable pub find_driver_index : Drivers → ℤ → Option ℕ
find_driver_index ds pid = find_index (has_pid pid) ds

-- What send_to_driver writes; whether all of it was written is the kernel's answer.
unfoldable pub send_to_driver : Drivers → ℤ → ℤ → Bool → Bool × List Effect
send_to_driver [] pid secs wrote = (false, [])
send_to_driver (d ∷ ds) pid secs wrote =
    if has_pid pid d
    then (wrote, write_task d.cmd_fd secs ∷ [])
    else send_to_driver ds pid secs wrote

-- duration - (now - start_time), no less than 0
unfoldable pub remaining : DriverInfo → ℤ → ℤ
remaining d now =
    let left = d.duration -ℤ (now -ℤ d.start_time) in if ltb_ℤ left (pos 0) then pos 0 else left

abbrev pub start_task : ℤ → ℤ → DriverInfo → DriverInfo
start_task secs now d = record d { status = busy; start_time = now; duration = secs }

unfoldable pub send_task : Drivers → ℤ → ℤ → ℤ → Bool → Drivers × List Effect
unfolding find_driver_index send_to_driver remaining
send_task ds pid secs now wrote = elim (find_driver_index ds pid) [
  | none ↦ (ds, say_not_found pid ∷ [])
  | some idx ↦ elim (get_elem? ds idx) [
    | none ↦ (ds, [])
    | some d ↦
        if is_busy d
        then (ds, say_busy (remaining d now) ∷ [])
        else (let (done, effects) = send_to_driver ds pid secs wrote in
            if done
            then (modify_at ds idx (start_task secs now), effects ++ say_sent secs pid ∷ [])
            else (ds, effects ++ say_failed pid ∷ []))
  ]
]

unfoldable pub get_status : Drivers → ℤ → ℤ → List Effect
unfolding find_driver_index remaining
get_status ds pid now = elim (find_driver_index ds pid) [
  | none ↦ say_not_found pid ∷ []
  | some idx ↦ elim (get_elem? ds idx) [
    | none ↦ []
    | some d ↦ if is_busy d then say_busy (remaining d now) ∷ [] else say_available ∷ []
  ]
]

-- time(NULL) is asked once for each busy driver; here the answers are equal.
unfoldable pub get_drivers : Drivers → ℤ → List Effect
unfolding remaining
get_drivers [] now = []
get_drivers (d ∷ ds) now =
    say_pid d.pid
    ∷ (if is_busy d then say_busy (remaining d now) else say_available)
    ∷ get_drivers ds now

-- The bytes before the first newline.
unfoldable pub first_line : CString → CString
first_line [] = []
first_line (c ∷ s) = let rest = first_line s in if c == 10 then [] else c ∷ rest

-- What a line of a driver says.
pub data Report : Type 0 where
  is_available : Report
  has_started : ℤ → Report
  noise : Report

unfoldable pub read_report : CString → Report
read_report line =
    if str_eqb line (codes "AVAILABLE")
    then is_available
    else elim (scan_literal (codes "BUSY") line >>= scan_int) [
      | none ↦ noise
      | some (secs, rest) ↦ has_started secs
    ]

abbrev pub set_available : DriverInfo → DriverInfo
set_available d = record d { status = available; start_time = pos 0; duration = pos 0 }

unfoldable pub apply_report : Drivers → ℕ → DriverInfo → Report → ℤ → Drivers × List Effect
apply_report ds idx d is_available now =
    (modify_at ds idx set_available, say_driver_available d.pid ∷ [])
apply_report ds idx d (has_started secs) now =
    (modify_at ds idx (start_task secs now), say_driver_started d.pid secs ∷ [])
apply_report ds idx d noise now = (ds, [])

-- The bytes that read returned, none at the end of the pipe or on an error.
unfoldable pub handle_driver_message : Drivers → ℕ → Option CString → ℤ → Drivers × List Effect
unfolding remove_driver first_line read_report apply_report
handle_driver_message ds idx none now = remove_driver ds (pos idx)
handle_driver_message ds idx (some buf) now = elim (get_elem? ds idx) [
  | none ↦ (ds, [])
  | some d ↦ apply_report ds idx d (read_report (first_line buf)) now
]

-- The answers of the kernel to create_driver in the parent.
pub record Spawn : Type 0 where
  pub pid : ℤ
  pub fifos_made : Bool
  pub cmd_fd : ℤ
  pub resp_fd : ℤ
  pub watched : Bool

abbrev pub is_negative : ℤ → Bool
is_negative (pos n) = false
is_negative (negsuc n) = true

abbrev close_if_open : ℤ → List Effect
close_if_open (pos n) = close_fd (pos n) ∷ []
close_if_open (negsuc n) = []

abbrev pub new_driver : Spawn → DriverInfo
new_driver k = record {
  pid = k.pid;
  cmd_fd = k.cmd_fd;
  resp_fd = k.resp_fd;
  status = unknown;
  start_time = pos 0;
  duration = pos 0;
}

-- The parent's side from mkfifo on; old pipes of that process id are unlinked before.
unfoldable pub open_driver : Drivers → Spawn → Drivers × List Effect
unfolding remove_driver
open_driver ds k =
    if not k.fifos_made
    then (ds, say_error ∷ terminate k.pid ∷ [])
    else if is_negative k.cmd_fd || is_negative k.resp_fd
    then (
      ds,
      say_error
          ∷ (close_if_open k.cmd_fd
              ++ (close_if_open k.resp_fd ++ terminate k.pid ∷ remove_fifo k.pid ∷ [])),
    )
    else (let ds' = ds ++ new_driver k ∷ [] in
        if k.watched
        then (ds', say_created k.pid ∷ [])
        else (let (ds'', effects) = remove_driver ds' (pos (length ds)) in
            (ds'', say_error ∷ effects)))

unfoldable pub create_driver : Drivers → Spawn → Drivers × List Effect
unfolding open_driver
create_driver ds k =
    if leb max_drivers (length ds)
    then (ds, say_full ∷ [])
    else if is_negative k.pid
    then (ds, say_error ∷ [])
    else (let (ds', effects) = open_driver ds k in (ds', remove_fifo k.pid ∷ effects))
