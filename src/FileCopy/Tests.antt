-- ===== src/FileCopy/Tests.antt =====
-- Runs of module1/task1/filecopy.c, and its theorems at concrete files.
use practice2_eltex.Prelude.{◌<◌, ◌≡◌, refl, inl, inr, true, false, List, [], ◌∷◌, arith, All}
use practice2_eltex.Prelude.Int.{pos}
use practice2_eltex.Prelude.Strings.{codes}
use practice2_eltex.FileCopy.{msg_file, Message, encode, decode}
use practice2_eltex.FileCopy.Pipe.{
  Answer, interrupted, moved, success, error, read_exact, write_all, moves, IsGood,
  write_all-read_exact,
}
use practice2_eltex.FileCopy.Child.{Disk}
use practice2_eltex.FileCopy.Parent.{Source, send_files}
use practice2_eltex.FileCopy.Layout.{decode-encode}
use practice2_eltex.FileCopy.Receiving.{IsSound}
use practice2_eltex.FileCopy.Copying.{IsReadable, Copied, child_loop-send_files}

abbrev in_parts : List Answer
in_parts = moved 2 ∷ interrupted ∷ moved 1 ∷ moved 9 ∷ []

abbrev at_once : List Answer
at_once = moved 3 ∷ moved 3 ∷ moved 3 ∷ []

in_parts-IsGood : All IsGood in_parts
in_parts-IsGood = (omega arith, (tt, (omega arith, (omega arith, tt))))

broken : read_exact (moved 2 ∷ moved 2 ∷ []) (1 ∷ 2 ∷ []) 3 ≡ error
unfolding read_exact
broken = refl

write_all-read_exact_example :
    (write_all at_once (7 ∷ 8 ∷ 9 ∷ []) 3 ≡ success (7 ∷ 8 ∷ 9 ∷ []) [])
    × (read_exact in_parts (7 ∷ 8 ∷ 9 ∷ 1 ∷ []) 3 ≡ success (7 ∷ 8 ∷ 9 ∷ []) (1 ∷ []))
unfolding moves
write_all-read_exact_example =
    write_all-read_exact at_once in_parts (7 ∷ 8 ∷ 9 ∷ []) (1 ∷ [])
      (omega arith, (omega arith, (omega arith, tt))) in_parts-IsGood (omega arith) (omega arith)

abbrev note : Source
note = record {
  name = codes "note";
  opens = true;
  stats = true;
  is_regular = true;
  size = pos 3;
  content = 7 ∷ 8 ∷ 9 ∷ [];
  reads = in_parts;
}

abbrev absent : Source
absent = record note { name = codes "absent"; opens = false }

abbrev note_message : Message
note_message = record { kind = msg_file; file_size = 3; file_name = codes "note" }

name_is_proper : All (λ b. 0 < b) (codes "note")
name_is_proper = (omega arith, (omega arith, (omega arith, (omega arith, tt))))

decode-encode_example : decode (encode note_message) ≡ note_message
decode-encode_example =
    decode-encode note_message (omega arith, omega arith, omega arith, name_is_proper)

note-IsReadable : IsReadable note
unfolding moves
note-IsReadable = record {
  opens = refl;
  stats = refl;
  regular = refl;
  size = refl;
  small = omega arith;
  short = omega arith;
  named = name_is_proper;
  reads = in_parts-IsGood;
  enough = omega arith;
}

abbrev good_disk : Disk
good_disk = record { creates = λ name. true; writes = λ name n. true; closes = λ name. true }

good_disk-IsSound : IsSound good_disk
good_disk-IsSound = record {
  creates = λ name. refl;
  writes = λ name n. refl;
  closes = λ name. refl;
}

child_loop-send_files_example :
    Copied good_disk 3 (note ∷ absent ∷ []) (send_files (note ∷ absent ∷ []))
child_loop-send_files_example =
    child_loop-send_files good_disk 3 (note ∷ absent ∷ []) good_disk-IsSound
      (inl note-IsReadable, (inr refl, tt)) (omega arith)
