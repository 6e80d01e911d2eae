-- ===== src/FileCopy.antt =====
-- module1/task1/filecopy.c: a parent sends files through a pipe to a child that writes the copies.
-- The bytes of a pipe are a list, in order. The struct Message has the layout of a 64-bit
-- little-endian machine: 4 bytes of type, 4 of padding, 8 of size, and the name.
pub mod Pipe
pub mod Child
pub mod Parent
pub mod Layout
pub mod Receiving
pub mod Sending
pub mod Copying
mod Tests
use practice2_eltex.Prelude.{ℕ, ◌-◌, List, ◌++◌, ltb, if◌then◌else◌, length, take, drop, replicate}
use practice2_eltex.Prelude.Strings.{CString}
use practice2_eltex.Prelude.Bytes.{to_bytes, of_bytes, c_string}

abbrev pub path_max : ℕ
path_max = 4096

abbrev pub block_size : ℕ
block_size = 4096

abbrev pub msg_file : ℕ
msg_file = 1

abbrev pub msg_end : ℕ
msg_end = 2

-- sizeof(Message)
abbrev pub message_size : ℕ
message_size = 4112

pub record Message : Type 0 where
  pub kind : ℕ
  pub file_size : ℕ
  pub file_name : CString

-- The struct after its memset to 0, and the struct as its reader sees it, which first puts a NUL
-- at the last byte of the name.
unfoldable pub encode : Message → List ℕ
unfolding to_bytes
encode m =
    to_bytes 4 m.kind
    ++ (replicate 4 0
        ++ (to_bytes 8 m.file_size ++ (m.file_name ++ replicate (path_max - length m.file_name) 0)))

unfoldable pub decode : List ℕ → Message
unfolding of_bytes c_string
decode bs = record {
  kind = of_bytes (take 4 bs);
  file_size = of_bytes (take 8 (drop 8 bs));
  file_name = c_string (take (path_max - 1) (drop 16 bs));
}

-- remaining > BLOCK_SIZE ? BLOCK_SIZE : remaining
unfoldable pub chunk : ℕ → ℕ
chunk remaining = if ltb block_size remaining then block_size else remaining
