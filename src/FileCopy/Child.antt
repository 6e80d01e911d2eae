-- ===== src/FileCopy/Child.antt =====
-- module1/task1/filecopy.c: child_loop. read_exact stands by what it gives: the next bytes of the
-- pipe, or an error when the pipe ends before. Sending READY is taken to succeed, and of a block
-- whose write fails nothing is taken to be written.
use practice2_eltex.Prelude.{
  ℕ, zero, suc, ◌+◌, ◌-◌, Bool, false, not, ◌&&◌, ◌||◌, Option, none, some, List, [], ◌∷◌, ◌++◌,
  ltb, ◌==◌, if◌then◌else◌, length, take, drop, option_map,
}
use practice2_eltex.Prelude.Strings.{CString, codes}
use practice2_eltex.FileCopy.{path_max, msg_file, msg_end, message_size, Message, decode, chunk}

-- sizeof(copy_name): the size of a path and of ".copy" with its NUL
abbrev pub copy_name_size : ℕ
copy_name_size = path_max + 6

abbrev pub copy_name : CString → CString
copy_name name = name ++ codes ".copy"

-- What the kernel answers for a file: whether it can be created, whether the block that is written
-- when so many bytes remain is written whole, and whether close succeeds.
pub record Disk : Type 0 where
  pub creates : CString → Bool
  pub writes : CString → ℕ → Bool
  pub closes : CString → Bool

-- A file that the child created, and whether it said so at the end.
pub record Copy : Type 0 where
  pub name : CString
  pub content : List ℕ
  pub announced : Bool

-- The loop over the blocks of a file: what was written, whether the file is still open, and the
-- rest of the pipe, none where it ended. The fuel is the count of bytes, and a block has one.
pub record Received : Type 0 where
  pub written : List ℕ
  pub open_still : Bool
  pub left : Option (List ℕ)

unfoldable pub receive : Disk → CString → ℕ → ℕ → List ℕ → Bool → List ℕ → Received
receive disk name zero remaining s out written = record {
  written = written;
  open_still = out;
  left = some s;
}
receive disk name (suc fuel) zero s out written = record {
  written = written;
  open_still = out;
  left = some s;
}
receive disk name (suc fuel) (suc n) s out written =
    let size = chunk (suc n) in
    let ok = out && disk.writes name (suc n) in
    let later =
      receive disk name fuel (suc n - size) (drop size s) ok
        (if ok then written ++ take size s else written) in
    if ltb (length s) size
    then record { written = written; open_still = out; left = none }
    else later

-- What the child returns, the files that it created, and the READY codes that it sent.
pub record Done : Type 0 where
  pub code : ℕ
  pub copies : List Copy
  pub readies : ℕ

abbrev pub with_copy : Bool → Copy → Done → Done
with_copy created copy d = record d {
  copies = if created then copy ∷ d.copies else d.copies;
  readies = 1 + d.readies;
}

-- What a round does for a file: whether it was created, its copy, whether nothing failed, and the
-- rest of the pipe.
pub record Round : Type 0 where
  pub created : Bool
  pub copy : Copy
  pub fine : Bool
  pub left : Option (List ℕ)

unfoldable pub receive_file : Disk → Message → List ℕ → Round
receive_file disk m s =
    let name = copy_name m.file_name in
    let created = ltb (length name) copy_name_size && disk.creates name in
    let r = receive disk name m.file_size m.file_size s created [] in
    let fine = r.open_still && disk.closes name in
    record {
      created = created;
      copy = record { name = name; content = r.written; announced = fine };
      fine = fine;
      left = r.left;
    }

-- One round, with what the next rounds do: the pipe may end before the message, and inside a file,
-- whose copy is then not announced.
unfoldable pub round : Bool → Message → Round → Bool → (List ℕ → Bool → Option Done) → Option Done
round ended m r had_error next =
    let later : Option Done = elim r.left [
      | none ↦ some (
          with_copy r.created (record r.copy { announced = false })
            (record { code = 1; copies = []; readies = 0 }))
      | some s ↦ option_map (with_copy r.created r.copy) (next s (had_error || not r.fine))
    ] in
    if ended
    then some (record { code = 1; copies = []; readies = 1 })
    else if m.kind == msg_end
    then some (record { code = if had_error then 1 else 0; copies = []; readies = 1 })
    else if not (m.kind == msg_file)
    then some (record { code = 1; copies = []; readies = 1 })
    else later

-- The rounds; none without fuel.
unfoldable pub child_loop : Disk → ℕ → List ℕ → Bool → Option Done
child_loop disk zero s had_error = none
child_loop disk (suc fuel) s had_error =
    let m = decode (take message_size s) in
    round (ltb (length s) message_size) m (receive_file disk m (drop message_size s)) had_error
      (child_loop disk fuel)
