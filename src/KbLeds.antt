-- ===== src/KbLeds.antt =====
-- module5/task3/kbleds.c: the keyboard's LEDs blink with a mask that is set through sysfs.
-- Each handler holds the mutex for the whole of its change, so that a handler is one step. What the
-- kernel answers is an argument, and the values that the console's ioctl is called with come back
-- as a list.
pub mod Behaviour
pub mod Load
mod Tests
use practice2_eltex.Prelude.{Bool, ◌||◌, Option, none, some, List, [], ◌∷◌, if◌then◌else◌}
use practice2_eltex.Prelude.Int.{ℤ, pos, ltb_ℤ, eqb_ℤ}

abbrev pub led_mask_min : ℤ
led_mask_min = pos 0

abbrev pub led_mask_max : ℤ
led_mask_max = pos 7

abbrev pub restore_leds : ℤ
restore_leds = pos 255

-- The variables of the module; usable says that the driver, its ioctl and the tty are there.
pub record Leds : Type 0 where
  pub usable : Bool
  pub led_mask : ℤ
  pub current_led_state : ℤ

unfoldable pub start : Bool → Leds
start usable = record { usable = usable; led_mask = led_mask_max; current_led_state = restore_leds }

unfoldable pub set_leds : Leds → ℤ → List ℤ
set_leds s value = if s.usable then value ∷ [] else []

-- The LEDs take a new state, and are told.
unfoldable pub switch_to : Leds → ℤ → Leds × List ℤ
switch_to s value = (record s { current_led_state = value }, set_leds s value)

unfoldable pub timer_func : Leds → Leds × List ℤ
unfolding switch_to
timer_func s =
    if eqb_ℤ s.led_mask led_mask_min
    then switch_to s restore_leds
    else if eqb_ℤ s.current_led_state s.led_mask
    then switch_to s restore_leds
    else switch_to s s.led_mask

unfoldable pub led_mask_show : Leds → ℤ
led_mask_show s = s.led_mask

-- How a store ends: with the count, with the error of kstrtoint, or with -EINVAL.
pub data Stored : Type 0 where
  stored : Stored
  unreadable : Stored
  invalid : Stored

-- The store of the number that kstrtoint read, none where it fails.
unfoldable pub led_mask_store : Leds → Option ℤ → Stored × (Leds × List ℤ)
unfolding switch_to
led_mask_store s none = (unreadable, (s, []))
led_mask_store s (some value) =
    if ltb_ℤ value led_mask_min || ltb_ℤ led_mask_max value
    then (invalid, (s, []))
    else (let s' = record s { led_mask = value } in
        if eqb_ℤ value led_mask_min
        then (stored, switch_to s' restore_leds)
        else (stored, switch_to s' value))
