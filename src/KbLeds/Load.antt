-- ===== src/KbLeds/Load.antt =====
-- module5/task3/kbleds.c: what loading and unloading the module ask of the kernel.
use practice2_eltex.Prelude.{
  ◌≡◌, Bool, true, false, not, ◌&&◌, List, [], ◌∷◌, ◌++◌, map, arith, if◌then◌else◌,
}
use practice2_eltex.Prelude.Int.{ℤ, pos, eqb_ℤ}
use practice2_eltex.KbLeds.{restore_leds, Leds, set_leds}

-- What the kernel answers to kbleds_init; the error of sysfs_create_file is 0 for success.
pub record Answers : Type 0 where
  pub console : Bool
  pub tty : Bool
  pub driver : Bool
  pub kobject : Bool
  pub file_error : ℤ

-- What is asked of the kernel.
pub data Request : Type 0 where
  create_kobject : Request
  create_file : Request
  put_kobject : Request
  remove_file : Request
  start_timer : Request
  stop_timer : Request
  leds : ℤ → Request

-- What kbleds_init returns: 0, -ENODEV, -ENOMEM or the error of sysfs_create_file.
pub data Loaded : Type 0 where
  success : Loaded
  no_device : Loaded
  no_memory : Loaded
  failed : ℤ → Loaded

unfoldable pub kbleds_init : Answers → Loaded × List Request
kbleds_init k =
    if not (k.console && (k.tty && k.driver))
    then (no_device, [])
    else if not k.kobject
    then (no_memory, create_kobject ∷ [])
    else if not (eqb_ℤ k.file_error (pos 0))
    then (failed k.file_error, create_kobject ∷ create_file ∷ put_kobject ∷ [])
    else (success, create_kobject ∷ create_file ∷ start_timer ∷ [])

unfoldable pub kbleds_exit : Leds → List Request
kbleds_exit s = stop_timer ∷ (map leds (set_leds s restore_leds) ++ remove_file ∷ put_kobject ∷ [])

-- The kobject, the sysfs file and the timer, as the kernel holds them.
pub record Held : Type 0 where
  pub object : Bool
  pub file : Bool
  pub timer : Bool

-- The kernel's side of a request, and whether its creation succeeds.
unfoldable pub obey : Answers → Held → Request → Held
obey k h create_kobject = record h { object = k.kobject }
obey k h create_file = record h { file = eqb_ℤ k.file_error (pos 0) }
obey k h put_kobject = record h { object = false }
obey k h remove_file = record h { file = false }
obey k h start_timer = record h { timer = true }
obey k h stop_timer = record h { timer = false }
obey k h (leds value) = h

unfoldable pub obey_all : Answers → Held → List Request → Held
obey_all k h [] = h
obey_all k h (r ∷ rs) = obey_all k (obey k h r) rs

abbrev pub nothing : Held
nothing = record { object = false; file = false; timer = false }

abbrev pub everything : Held
everything = record { object = true; file = true; timer = true }

abbrev pub is_loaded : Loaded → Bool
is_loaded success = true
is_loaded _ = false

-- Loading holds the kobject, the sysfs file and the timer when it succeeds, and nothing when it
-- fails, whatever the kernel answers.
pub kbleds_init-holds :
    (k : Answers)
    → obey_all k nothing (kbleds_init k).1
      ≡ (if is_loaded (kbleds_init k).0 then everything else nothing)
unfolding kbleds_init obey_all obey
kbleds_init-holds k = ground arith

-- Unloading gives back all of them, whether or not the console is usable.
pub kbleds_exit-holds : (k : Answers) (s : Leds) → obey_all k everything (kbleds_exit s) ≡ nothing
unfolding kbleds_exit obey_all obey set_leds
kbleds_exit-holds k s = ground arith
