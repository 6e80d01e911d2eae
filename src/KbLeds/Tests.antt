-- ===== src/KbLeds/Tests.antt =====
-- Runs of module5/task3/kbleds.c, and its theorems at concrete events.
use practice2_eltex.Prelude.{◌≡◌, refl, true, some, List, [], ◌∷◌, arith}
use practice2_eltex.Prelude.Int.{pos, negsuc}
use practice2_eltex.KbLeds.{
  restore_leds, Leds, start, set_leds, switch_to, timer_func, led_mask_store,
}
use practice2_eltex.KbLeds.Behaviour.{
  IsValid, Event, timer, write, step, run, shown, run_shows, timers, alternate, blinks,
}
use practice2_eltex.KbLeds.Load.{Answers, kbleds_init, obey_all, nothing, kbleds_init-holds}

abbrev writes : List Event
writes = timer ∷ write (some (pos 5)) ∷ timer ∷ write (some (pos 9)) ∷ timer ∷ []

told : (run (start true) writes).1 ≡ pos 7 ∷ pos 5 ∷ pos 255 ∷ pos 5 ∷ []
unfolding run start step timer_func led_mask_store switch_to set_leds
told = refl

run_shows_example :
    let r = run (start true) writes in
    IsValid r.0 × (shown restore_leds r.1 ≡ r.0.current_led_state)
run_shows_example = run_shows writes

abbrev loaded : Leds
loaded = record { usable = true; led_mask = pos 7; current_led_state = pos 255 }

blinks_example :
    let s' = (led_mask_store loaded (some (pos 5))).1.0 in
    run s' (timers 3) ≡ (s', alternate 3 restore_leds (pos 5))
blinks_example = blinks loaded 5 3 refl (omega arith) (omega arith)

-- sysfs_create_file fails with -12.
abbrev no_file : Answers
no_file = record {
  console = true;
  tty = true;
  driver = true;
  kobject = true;
  file_error = negsuc 11;
}

kbleds_init-holds_example : obey_all no_file nothing (kbleds_init no_file).1 ≡ nothing
unfolding kbleds_init
kbleds_init-holds_example = kbleds_init-holds no_file
