-- ===== src/FileCopy/Parent.antt =====
-- module1/task1/filecopy.c: parent_send_file, and the end of main that sends the files. READY is
-- taken to arrive and the writes to the pipe to succeed: the child is there.
use Prim.Native.Nat.{min}
use practice2_eltex.Prelude.{
  ℕ, zero, suc, ◌+◌, ◌-◌, Bool, true, false, not, ◌||◌, List, [], ◌∷◌, ◌++◌, leb, ◌==◌,
  if◌then◌else◌, length, take, drop,
}
use practice2_eltex.Prelude.Int.{ℤ, pos, negsuc, ltb_ℤ}
use practice2_eltex.Prelude.Strings.{CString}
use practice2_eltex.FileCopy.{path_max, msg_file, msg_end, Message, encode, chunk}
use practice2_eltex.FileCopy.Pipe.{Answer, interrupted, failed, moved}

-- A file that was named, and what the kernel answers for it.
pub record Source : Type 0 where
  pub name : CString
  pub opens : Bool
  pub stats : Bool
  pub is_regular : Bool
  pub size : ℤ
  pub content : List ℕ
  pub reads : List Answer

-- What the parent does: the bytes it writes to the pipe, the READY codes it waits for, and the
-- result, 0, 1 for a file that is skipped, or -1.
pub record Sent : Type 0 where
  pub bytes : List ℕ
  pub waits : ℕ
  pub code : ℤ

-- The loop over the bytes of a file: what is sent, and whether all of it was. Where there are no
-- more answers, the file ended.
unfoldable pub send_data : List Answer → List ℕ → ℕ → List ℕ × Bool
send_data reads content zero = ([], true)
send_data [] content (suc n) = ([], false)
send_data (interrupted ∷ reads) content (suc n) = send_data reads content (suc n)
send_data (failed ∷ reads) content (suc n) = ([], false)
send_data (moved k ∷ reads) content (suc n) =
    let part = take (min k (chunk (suc n))) content in
    let later = send_data reads (drop (length part) content) (suc n - length part) in
    if length part == 0 then ([], false) else (part ++ later.0, later.1)

abbrev skip : Sent
skip = record { bytes = []; waits = 0; code = pos 1 }

unfoldable pub parent_send_file : Source → Sent
parent_send_file f =
    if not f.opens || (not f.stats || not f.is_regular) then skip else elim f.size [
      | negsuc _ ↦ skip
      | pos size ↦
          if leb path_max (length f.name)
          then skip
          else (let header =
                encode (record { kind = msg_file; file_size = size; file_name = f.name }) in
              let (data_bytes, ok) = send_data f.reads f.content size in
              record {
                bytes = header ++ data_bytes;
                waits = 1;
                code = if ok then pos 0 else negsuc 0;
              })
    ]

abbrev pub end_message : Message
end_message = record { kind = msg_end; file_size = 0; file_name = [] }

-- The files in turn and the message that ends the child: what is written, the READY codes waited
-- for, and the flags fatal_error and had_file_error.
pub record Session : Type 0 where
  pub bytes : List ℕ
  pub waits : ℕ
  pub fatal_error : Bool
  pub had_file_error : Bool

unfoldable pub send_files : List Source → Session
send_files [] = record {
  bytes = encode end_message;
  waits = 1;
  fatal_error = false;
  had_file_error = false;
}
send_files (f ∷ fs) =
    let sent = parent_send_file f in
    let later = send_files fs in
    if ltb_ℤ sent.code (pos 0)
    then record {
      bytes = sent.bytes;
      waits = sent.waits;
      fatal_error = true;
      had_file_error = false;
    }
    else record {
      bytes = sent.bytes ++ later.bytes;
      waits = sent.waits + later.waits;
      fatal_error = later.fatal_error;
      had_file_error = ltb_ℤ (pos 0) sent.code || later.had_file_error;
    }
