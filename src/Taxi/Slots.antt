-- ===== src/Taxi/Slots.antt =====
-- module2/cross2/taxi.c: the slots that a driver's message leaves as they were.
use practice2_eltex.Prelude.{
  ℕ, zero, suc, ◌≡◌, refl, ap, ◌≢◌, inl, inr, some, List, [], ◌∷◌, arith, Option-cases, get_elem?,
}
use practice2_eltex.Prelude.Arrays.{modify_at}
use practice2_eltex.Prelude.Int.{ℤ}
use practice2_eltex.Prelude.Strings.{CString}
use practice2_eltex.Taxi.{
  DriverInfo, Drivers, start_task, first_line, Report, is_available, has_started, noise,
  read_report, set_available, apply_report, handle_driver_message,
}
use practice2_eltex.Taxi.Cli.{serve_event}

get_elem?-modify_at_ne {ℓ} :
    {A : Type ℓ} (xs : List A) (i j : ℕ) (f : A → A)
    → i ≢ j
    → get_elem? (modify_at xs i f) j ≡ get_elem? xs j
get_elem?-modify_at_ne [] i j f n = refl
get_elem?-modify_at_ne (x ∷ xs) zero zero f n = absurd (n refl)
get_elem?-modify_at_ne (x ∷ xs) zero (suc j) f n = refl
get_elem?-modify_at_ne (x ∷ xs) (suc i) zero f n = refl
get_elem?-modify_at_ne (x ∷ xs) (suc i) (suc j) f n =
    get_elem?-modify_at_ne xs i j f (λ e. n (ap suc e))

apply_report_ne :
    (ds : Drivers) (i j : ℕ) (d : DriverInfo) (r : Report) (now : ℤ)
    → i ≢ j
    → get_elem? (apply_report ds i d r now).0 j ≡ get_elem? ds j
unfolding apply_report
apply_report_ne ds i j d is_available now n = get_elem?-modify_at_ne ds i j set_available n
apply_report_ne ds i j d (has_started secs) now n =
    get_elem?-modify_at_ne ds i j (start_task secs now) n
apply_report_ne ds i j d noise now n = refl

-- A message changes only the slot that the event points to.
pub serve_event_ne :
    (ds : Drivers) (slot j : ℕ) (buf : CString) (now : ℤ)
    → slot ≢ j
    → get_elem? (serve_event ds slot (some buf) now).0 j ≡ get_elem? ds j
unfolding serve_event handle_driver_message
serve_event_ne ds slot j buf now n = elim (Option-cases (get_elem? ds slot)) [
  | inl e ↦ ground arith
  | inr (d, e) ↦ ground (arith, apply_report_ne ds slot j d (read_report (first_line buf)) now n)
]
