-- ===== src/FileCopy/Copying.antt =====
-- module1/task1/filecopy.c: the parent and the child together.
use practice2_eltex.Prelude.{
  ℕ, zero, suc, ◌+◌, ◌^◌, ◌≤◌, ◌<◌, ◌≡◌, refl, sym, ap, ◌∙◌, ◌⊎◌, inl, inr, Bool, true, false, not,
  ◌||◌, Option, some, List, [], ◌∷◌, ◌++◌, arith, ltb, if◌then◌else◌, length, length-append, take,
  drop, All, option_map,
}
use practice2_eltex.Prelude.Int.{pos}
use practice2_eltex.Prelude.Slices.{take-seam, drop-seam, take_all, append_assoc, append_nil}
use practice2_eltex.FileCopy.{path_max, msg_file, msg_end, message_size, Message, encode, decode}
use practice2_eltex.FileCopy.Pipe.{moves, IsGood}
use practice2_eltex.FileCopy.Parent.{Source, parent_send_file, end_message, Session, send_files}
use practice2_eltex.FileCopy.Child.{
  copy_name, Disk, Copy, Done, with_copy, Round, round, child_loop,
}
use practice2_eltex.FileCopy.Layout.{IsProper, length-encode, decode-encode}
use practice2_eltex.FileCopy.Receiving.{IsSound, receive_file_lem}
use practice2_eltex.FileCopy.Sending.{send_data-good}
use practice2_eltex.Prelude.Arrays.{any}

-- A file that can be read to its end, of a name and a size that fit the message.
pub record IsReadable (f : Source) : Type 0 where
  pub opens : f.opens ≡ true
  pub stats : f.stats ≡ true
  pub regular : f.is_regular ≡ true
  pub size : f.size ≡ pos (length f.content)
  pub small : length f.content < 2 ^ 64
  pub short : length f.name < path_max
  pub named : All (λ b. 0 < b) f.name
  pub reads : All IsGood f.reads
  pub enough : length f.content ≤ moves f.reads

-- A file that does not open.
abbrev pub IsMissing : Source → Type 0
IsMissing f = f.opens ≡ false

abbrev pub IsHandled : Source → Type 0
IsHandled f = IsReadable f ⊎ IsMissing f

abbrev pub header_of : Source → Message
header_of f = record { kind = msg_file; file_size = length f.content; file_name = f.name }

-- The copies of the files that open, in order.
unfoldable pub copies_of : List Source → List Copy
copies_of [] = []
copies_of (f ∷ fs) =
    let rest = copies_of fs in
    if f.opens
    then record { name = copy_name f.name; content = f.content; announced = true } ∷ rest
    else rest

header-IsProper : (f : Source) → IsReadable f → IsProper (header_of f)
header-IsProper f r = (omega arith, r.small, r.short, r.named)

parent_send_file-IsReadable :
    (f : Source)
    → IsReadable f
    → parent_send_file f
      ≡ record { bytes = encode (header_of f) ++ f.content; waits = 1; code = pos 0 }
unfolding parent_send_file
parent_send_file-IsReadable f r =
    let sent = send_data-good f.reads f.content (length f.content) r.reads (omega arith) r.enough in
    let whole = take_all f.content in
    ground (arith, r.opens, r.stats, r.regular, r.size, r.short, sent, whole)

-- What the child reads of a message that comes first.
record Seen (m : Message) (behind : List ℕ) : Type 0 where
  enough : ltb (length (encode m ++ behind)) message_size ≡ false
  read : decode (take message_size (encode m ++ behind)) ≡ m
  left : drop message_size (encode m ++ behind) ≡ behind

seen : (m : Message) (behind : List ℕ) → IsProper m → Seen m behind
seen m behind p =
    let size = length-encode m p.2 in
    record {
      enough = ground (arith, length-append (encode m) behind, size);
      read = rw (take-seam (encode m) behind message_size (sym size)) (decode-encode m p);
      left = drop-seam (encode m) behind message_size (sym size);
    }

round_file :
    (m : Message) (r : Round) (s : List ℕ) (had_error : Bool) (next : List ℕ → Bool → Option Done)
    → m.kind ≡ msg_file
    → r.left ≡ some s
    → round false m r had_error next
      ≡ option_map (with_copy r.created r.copy) (next s (had_error || not r.fine))
unfolding round
round_file m r s had_error next kind left = ground arith

round_end :
    (m : Message) (r : Round) (had_error : Bool) (next : List ℕ → Bool → Option Done)
    → m.kind ≡ msg_end
    → round false m r had_error next
      ≡ some (record { code = if had_error then 1 else 0; copies = []; readies = 1 })
unfolding round
round_end m r had_error next kind = ground arith

-- The child's round for a file whose message and bytes come first.
child_round :
    (disk : Disk) (fuel : ℕ) (f : Source) (behind : List ℕ)
    → IsSound disk
    → IsReadable f
    → child_loop disk (suc fuel) (encode (header_of f) ++ (f.content ++ behind)) false
      ≡ option_map
          (with_copy true
            (record { name = copy_name f.name; content = f.content; announced = true }))
          (child_loop disk fuel behind false)
unfolding child_loop
child_round disk fuel f behind d r =
    let h = header_of f in
    let v = seen h (f.content ++ behind) (header-IsProper f r) in
    rw (v.enough, v.read, v.left, receive_file_lem disk h f.content behind d r.short refl)
      (round_file h _ behind false (child_loop disk fuel) refl refl)

abbrev pub Copied : Disk → ℕ → List Source → Session → Type 0
Copied disk fuel fs s =
    (child_loop disk fuel s.bytes false
      ≡ some (record { code = 0; copies = copies_of fs; readies = s.waits }))
    × (s.fatal_error ≡ false)
    × (s.had_file_error ≡ any (λ f. not f.opens) fs)

Copied-end : (disk : Disk) (fuel : ℕ) → Copied disk (suc fuel) [] (send_files [])
unfolding send_files copies_of child_loop
Copied-end disk fuel =
    let v = seen end_message [] (omega arith, omega arith, omega arith, tt) in
    let all =
      ap (λ l. child_loop disk (suc fuel) l false) (sym (append_nil (encode end_message))) in
    (
      all
          ∙ rw (v.enough, v.read, v.left)
              (round_end end_message _ false (child_loop disk fuel) refl),
      refl,
      refl,
    )

Copied-file :
    (disk : Disk) (fuel : ℕ) (f : Source) (fs : List Source)
    → IsSound disk
    → IsReadable f
    → Copied disk fuel fs (send_files fs)
    → Copied disk (suc fuel) (f ∷ fs) (send_files (f ∷ fs))
unfolding send_files copies_of
Copied-file disk fuel f fs d r (copied, fatal, missing) =
    let later = (send_files fs).bytes in
    let round = child_round disk fuel f later d r in
    let whole = append_assoc (encode (header_of f)) f.content later in
    rw (parent_send_file-IsReadable f r, send_files)
      (rw r.opens (
        ap (λ l. child_loop disk (suc fuel) l false) whole
            ∙ round
            ∙ ap (option_map (with_copy true _)) copied,
        fatal,
        missing,
      ))

Copied-missing :
    (disk : Disk) (fuel : ℕ) (f : Source) (fs : List Source)
    → IsMissing f
    → Copied disk fuel fs (send_files fs)
    → Copied disk fuel (f ∷ fs) (send_files (f ∷ fs))
unfolding send_files copies_of parent_send_file
Copied-missing disk fuel f fs m (copied, fatal, missing) =
    let skipped : parent_send_file f ≡ record { bytes = []; waits = 0; code = pos 1 } =
      ground arith in
    let none_more : (send_files fs).waits ≡ 0 + (send_files fs).waits = omega arith in
    let counted =
      ap (λ n. some (record { code = 0; copies = copies_of fs; readies = n })) none_more in
    rw (skipped, send_files) (rw m (copied ∙ counted, fatal, refl))

-- Where every named file can be read to its end or does not open, the disk is sound, and the fuel
-- is above the number of files: the child that is given what the parent wrote returns 0 and leaves
-- a copy of exactly each file that opens, with its bytes; it sends as many READY codes as the
-- parent waits for; the parent meets no fatal error, and reports an error just when some file did
-- not open.
pub child_loop-send_files :
    (disk : Disk) (fuel : ℕ) (fs : List Source)
    → IsSound disk
    → All IsHandled fs
    → length fs < fuel
    → Copied disk fuel fs (send_files fs)
child_loop-send_files disk zero fs d h k = absurd (omega arith)
child_loop-send_files disk (suc fuel) [] d h k = Copied-end disk fuel
child_loop-send_files disk (suc fuel) (f ∷ fs) d (inl r, hs) k =
    Copied-file disk fuel f fs d r (child_loop-send_files disk fuel fs d hs (omega arith))
child_loop-send_files disk (suc fuel) (f ∷ fs) d (inr m, hs) k =
    Copied-missing disk (suc fuel) f fs m
      (child_loop-send_files disk (suc fuel) fs d hs (omega arith))
