-- ===== src/KbLeds/Behaviour.antt =====
-- module5/task3/kbleds.c: the mask stays in range, the LEDs show what the module means, and they
-- blink.
use practice2_eltex.Prelude.{
  ℕ, zero, suc, ◌≤◌, ◌<◌, ◌≡◌, refl, sym, ap, subst, ◌∙◌, ◌≢◌, ◌⊎◌, Bool, true, Option, none, some,
  List, [], ◌∷◌, ◌++◌, arith,
}
use practice2_eltex.Prelude.Int.{ℤ, pos, ◌≤ℤ◌, eqb_ℤ_iff}
use practice2_eltex.KbLeds.{
  led_mask_min, led_mask_max, restore_leds, Leds, start, set_leds, switch_to, timer_func,
  led_mask_store,
}

-- The mask is in range, and the LEDs are restored or show a mask that is not 0.
abbrev pub IsValid : Leds → Type 0
IsValid s =
    (led_mask_min ≤ℤ s.led_mask)
    × (s.led_mask ≤ℤ led_mask_max)
    × ((s.current_led_state ≡ restore_leds)
        ⊎ ((s.current_led_state ≡ s.led_mask) × (s.led_mask ≢ led_mask_min)))

start-IsValid : (u : Bool) → IsValid (start u)
unfolding start
start-IsValid u = ground arith

timer_func-IsValid : (s : Leds) → IsValid s → IsValid (timer_func s).0
unfolding timer_func switch_to
timer_func-IsValid s v = ground (arith, eqb_ℤ_iff s.led_mask led_mask_min)

led_mask_store-IsValid :
    (s : Leds) (value : Option ℤ) → IsValid s → IsValid (led_mask_store s value).1.0
unfolding led_mask_store switch_to
led_mask_store-IsValid s none v = v
led_mask_store-IsValid s (some value) v = ground (arith, eqb_ℤ_iff value led_mask_min)

-- What happens to the module while it is loaded: its timer, or a write to its sysfs file.
pub data Event : Type 0 where
  timer : Event
  write : Option ℤ → Event

unfoldable pub step : Leds → Event → Leds × List ℤ
step s timer = timer_func s
step s (write value) = (led_mask_store s value).1

unfoldable pub run : Leds → List Event → Leds × List ℤ
run s [] = (s, [])
run s (e ∷ es) = let (s', told) = step s e in let (s'', later) = run s' es in (s'', told ++ later)

step-IsValid : (s : Leds) (e : Event) → IsValid s → IsValid (step s e).0
unfolding step
step-IsValid s timer v = timer_func-IsValid s v
step-IsValid s (write value) v = led_mask_store-IsValid s value v

-- The LEDs as the console last had them told.
unfoldable pub shown : ℤ → List ℤ → ℤ
shown before [] = before
shown before (v ∷ vs) = shown v vs

shown-append : (vs ws : List ℤ) (v : ℤ) → shown v (vs ++ ws) ≡ shown (shown v vs) ws
unfolding shown
shown-append [] ws v = refl
shown-append (x ∷ vs) ws v = shown-append vs ws x

step-shown :
    (s : Leds) (e : Event)
    → s.usable ≡ true
    → (shown s.current_led_state (step s e).1 ≡ (step s e).0.current_led_state)
      × ((step s e).0.usable ≡ true)
unfolding step timer_func led_mask_store switch_to set_leds shown
step-shown s timer u = ground arith
step-shown s (write none) u = ground arith
step-shown s (write (some value)) u = ground arith

run_from :
    (es : List Event) (s : Leds)
    → s.usable ≡ true
    → IsValid s
    → IsValid (run s es).0
      × (shown s.current_led_state (run s es).1 ≡ (run s es).0.current_led_state)
unfolding run shown
run_from [] s u v = (v, refl)
run_from (e ∷ es) s u v =
    let (told, u') = step-shown s e u in
    let (v', rest) = run_from es (step s e).0 u' (step-IsValid s e v) in
    (
      v',
      shown-append (step s e).1 (run (step s e).0 es).1 s.current_led_state
          ∙ ap (λ x. shown x (run (step s e).0 es).1) told
          ∙ rest,
    )

-- From loading on, with a usable console, whatever timer events and writes come: the mask is in
-- 0..7, the current state is 255 or a mask that is not 0, and it is what the LEDs were told last.
pub run_shows :
    (es : List Event)
    → let r = run (start true) es in IsValid r.0 × (shown restore_leds r.1 ≡ r.0.current_led_state)
unfolding start
run_shows es = run_from es (start true) refl (start-IsValid true)

-- Pairs of timer events, and the values told in them.
unfoldable pub timers : ℕ → List Event
timers zero = []
timers (suc n) = timer ∷ timer ∷ timers n

unfoldable pub alternate : ℕ → ℤ → ℤ → List ℤ
alternate zero a b = []
alternate (suc n) a b = a ∷ b ∷ alternate n a b

abbrev pub lit : ℕ → Leds
lit v = record { usable = true; led_mask = pos v; current_led_state = pos v }

lit-timers :
    (n v : ℕ) → 0 < v → v ≤ 7 → run (lit v) (timers n) ≡ (lit v, alternate n restore_leds (pos v))
unfolding run timers alternate step timer_func switch_to set_leds
lit-timers zero v h k = refl
lit-timers (suc n) v h k =
    ground (arith, lit-timers n v h k, eqb_ℤ_iff (pos v) (pos v), eqb_ℤ_iff (pos v) led_mask_min)

store_lit :
    (s : Leds) (v : ℕ)
    → s.usable ≡ true
    → 0 < v
    → v ≤ 7
    → (led_mask_store s (some (pos v))).1.0 ≡ lit v
unfolding led_mask_store switch_to
store_lit s v u h k = ground arith

-- A mask of 1..7 that is written to a usable console makes the LEDs blink: the n next pairs of
-- timer events tell them 255 and the mask in turn, and leave the state as the write made it.
pub blinks :
    (s : Leds) (v n : ℕ)
    → s.usable ≡ true
    → 0 < v
    → v ≤ 7
    → let s' = (led_mask_store s (some (pos v))).1.0 in
      run s' (timers n) ≡ (s', alternate n restore_leds (pos v))
blinks s v n u h k =
    subst (λ x. run x (timers n) ≡ (x, alternate n restore_leds (pos v)))
      (sym (store_lit s v u h k)) (lit-timers n v h k)
