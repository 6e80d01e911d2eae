-- ===== src/Chardev.antt =====
-- module5/task4/chardev.c: a character device that one process at a time may open and read.
-- The buffer msg is the C string that it holds. The static counter is an int of 32 bits that wraps
-- around, kept as its bits. Each open file has its own offset.
pub mod Decimal
pub mod Reading
pub mod Exclusive
mod Tests
use practice2_eltex.Prelude.{
  ℕ, zero, suc, ◌+◌, ◌%◌, ◌^◌, Bool, true, false, Option, none, some, [], ◌∷◌, ◌++◌, ltb,
  if◌then◌else◌, length, drop,
}
use practice2_eltex.Prelude.Strings.{CString, codes}
use practice2_eltex.Prelude.Print.{print_int}

abbrev pub buf_len : ℕ
buf_len = 80

pub record Device : Type 0 where
  pub already_open : Bool
  pub counter : ℕ
  pub msg : CString

unfoldable pub chardev_init : Device
chardev_init = record { already_open = false; counter = 0; msg = [] }

-- What sprintf writes to msg.
unfoldable pub message : ℕ → CString
unfolding print_int
message counter = codes "I already told you " ++ print_int counter ++ codes " times Hello world!\n"

-- true for SUCCESS, false for -EBUSY
unfoldable pub device_open : Device → Bool × Device
unfolding message
device_open d = if d.already_open then (false, d) else (
  true,
  record { already_open = true; counter = (d.counter + 1) % 2 ^ 32; msg = message d.counter },
)

unfoldable pub device_release : Device → Device
device_release d = record d { already_open = false }

-- The loop `while (length && *msg_ptr)`: the bytes that it puts into the user's buffer.
unfoldable pub put_bytes : ℕ → CString → CString
put_bytes zero s = []
put_bytes (suc length) [] = []
put_bytes (suc length) (c ∷ s) = c ∷ put_bytes length s

-- The bytes that are read, and the new offset. Behind the end of the string the code would read
-- what older messages left there, or behind the buffer: none.
unfoldable pub device_read : Device → ℕ → ℕ → Option (CString × ℕ)
unfolding put_bytes
device_read d size offset = if ltb (length d.msg) offset then none else elim (drop offset d.msg) [
  | [] ↦ some ([], 0)
  | c ∷ s ↦ let read = put_bytes size (c ∷ s) in some (read, offset + length read)
]
