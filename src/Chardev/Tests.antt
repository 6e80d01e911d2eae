-- ===== src/Chardev/Tests.antt =====
-- Runs of module5/task4/chardev.c, and its theorems at concrete calls.
use practice2_eltex.Prelude.{◌-◌, ◌^◌, ◌≡◌, refl, true, some, List, [], ◌∷◌, arith}
use practice2_eltex.Prelude.Strings.{codes}
use practice2_eltex.Chardev.{Device, chardev_init, message, device_open, put_bytes, device_read}
use practice2_eltex.Chardev.Reading.{read_until_end, read_until_end-eq-msg}
use practice2_eltex.Chardev.Exclusive.{
  System, Call, open_device, release, read, pread, write, step, run, AreInside, IsExclusive, loaded,
  run-IsExclusive,
}
use practice2_eltex.Prelude.Print.{digits, print_int}

eleventh : message 10 ≡ codes "I already told you 10 times Hello world!\n"
unfolding message print_int digits
eleventh = refl

wrapped : message (2 ^ 32 - 1) ≡ codes "I already told you -1 times Hello world!\n"
unfolding message print_int digits
wrapped = refl

abbrev greeting : Device
greeting = record { already_open = true; counter = 1; msg = codes "Hello" }

read_until_end-eq-msg_example :
    read_until_end greeting (1 ∷ 2 ∷ 1 ∷ 4 ∷ 1 ∷ 1 ∷ []) 0 ≡ some (codes "Hello", 0)
read_until_end-eq-msg_example =
    read_until_end-eq-msg greeting (1 ∷ 2 ∷ 1 ∷ 4 ∷ 1 ∷ 1 ∷ [])
      (omega arith, (omega arith, (omega arith, (omega arith, (omega arith, (omega arith, tt))))))
      (omega arith)

abbrev calls : List Call
calls = open_device ∷ open_device ∷ read 0 7 ∷ pread 0 5 39 ∷ write ∷ release 0 ∷ open_device ∷ []

calls-AreInside : AreInside loaded calls
unfolding AreInside step loaded chardev_init device_open device_read message print_int digits
    put_bytes
calls-AreInside = (tt, (tt, (tt, (omega arith, (tt, (tt, (tt, tt)))))))

run-IsExclusive_example : (s : System) × (run loaded calls ≡ some s) × IsExclusive s
run-IsExclusive_example = run-IsExclusive calls calls-AreInside
