-- ===== src/Files/Close.antt =====
-- Deleting and closing files in the table of romemul/gemdrvemul.c.
use side_tnfs_firmware.Prelude.{
  ℕ, zero, suc, ◌≤◌, ◌<◌, ◌≡◌, ◌≢◌, ◌⊎◌, inl, inr, refl, Bool-cases, true, false, none, some, List,
  [], ◌∷◌, leb, ◌==◌, arith, ==_iff,
}
use side_tnfs_firmware.Files.{
  FileDescriptor, get_file_by_fdesc, delete_file_by_fdesc, delete_all_loop, delete_all_files,
  FileBackend, sd_file, tnfs_file, config_flash, net_err, sd_error, SdClose, closed_ok,
  invalid_object, other_failure, CloseCall, f_close, tnfs_close, sd_status, FcloseStatus,
  gemdos_eok, gemdos_eihndl, gemdos_eintrn, fclose_found, gemdrive_backend_fclose,
}

-- The loop ends in its first round, with the head, or never.
delete_file_by_fdesc_other :
    (rounds : ℕ) (f : FileDescriptor) (rest : List FileDescriptor) (fd : ℕ)
    → (f.fd == fd) ≡ false
    → delete_file_by_fdesc rounds (f ∷ rest) fd ≡ none
unfolding delete_file_by_fdesc
delete_file_by_fdesc_other zero f rest fd e = refl
delete_file_by_fdesc_other (suc rounds) f rest fd e =
    rw e (delete_file_by_fdesc_other rounds f rest fd e)

delete_file_by_fdesc_head :
    (rounds : ℕ) (f : FileDescriptor) (rest : List FileDescriptor) (fd : ℕ)
    → (f.fd == fd) ≡ true
    → delete_file_by_fdesc (suc rounds) (f ∷ rest) fd ≡ some rest
unfolding delete_file_by_fdesc
delete_file_by_fdesc_head rounds f rest fd e = rw e refl

==-self : (n : ℕ) → (n == n) ≡ true
==-self n = (==_iff n n).1 refl

delete_all_loop_lem :
    (rounds : ℕ) (head : List FileDescriptor) → delete_all_loop (suc rounds) head head ≡ some []
unfolding delete_all_loop
delete_all_loop_lem rounds [] = refl
delete_all_loop_lem rounds (f ∷ rest) =
    rw
      (delete_file_by_fdesc_head rounds f rest f.fd (==-self f.fd), delete_all_loop_lem rounds rest)
      refl

-- One round for each file is enough to delete them all, since each is the head when its turn comes.
pub delete_all_files_lem :
    (rounds : ℕ) (head : List FileDescriptor) → delete_all_files (suc rounds) head ≡ some []
unfolding delete_all_files
delete_all_files_lem rounds head = delete_all_loop_lem rounds head

-- What closing an open file comes to, on a machine with so many drives: the status for the Atari and
-- the calls made. A file on the card is closed by FatFS. One on a server is closed there, if its slot
-- is still that of a drive, and else no call is made; its status is good either way. A file that the
-- firmware made up itself was never opened.
pub data Closes (answer : ℕ → SdClose) (drive_count : ℕ) (f : FileDescriptor)
    : FcloseStatus → List CloseCall → Type 0 where
  on_card :
      f.backend ≡ sd_file
      → answer f.fobject ≢ other_failure
      → Closes answer drive_count f gemdos_eok (f_close f.fobject ∷ [])
  card_failed :
      f.backend ≡ sd_file
      → answer f.fobject ≡ other_failure
      → Closes answer drive_count f gemdos_eintrn (f_close f.fobject ∷ [])
  on_server :
      f.backend ≡ tnfs_file
      → f.runtime_slot < drive_count
      → f.runtime_slot < 9
      → Closes answer drive_count f gemdos_eok (tnfs_close f.fd f.tnfs_handle f.runtime_slot ∷ [])
  slot_gone :
      f.backend ≡ tnfs_file
      → (drive_count ≤ f.runtime_slot) ⊎ (9 ≤ f.runtime_slot)
      → Closes answer drive_count f gemdos_eok []
  made_up :
      (f.backend ≡ config_flash) ⊎ ((f.backend ≡ net_err) ⊎ (f.backend ≡ sd_error))
      → Closes answer drive_count f gemdos_eok []

card-Closes :
    (answer : ℕ → SdClose) (drive_count : ℕ) (f : FileDescriptor) (came : SdClose)
    → f.backend ≡ sd_file
    → answer f.fobject ≡ came
    → Closes answer drive_count f (sd_status came) (f_close f.fobject ∷ [])
unfolding sd_status
card-Closes answer drive_count f closed_ok b e = on_card b (λ k. absurd (cc))
card-Closes answer drive_count f invalid_object b e = on_card b (λ k. absurd (cc))
card-Closes answer drive_count f other_failure b e = card_failed b e

fclose_found-Closes :
    (answer : ℕ → SdClose) (drive_count : ℕ) (f : FileDescriptor) (b : FileBackend)
    → f.backend ≡ b
    → let (status, calls) = fclose_found b f answer drive_count in
      Closes answer drive_count f status calls
unfolding fclose_found
fclose_found-Closes answer drive_count f sd_file h =
    card-Closes answer drive_count f (answer f.fobject) h refl
fclose_found-Closes answer drive_count f config_flash h = made_up (inl h)
fclose_found-Closes answer drive_count f net_err h = made_up (inr (inl h))
fclose_found-Closes answer drive_count f sd_error h = made_up (inr (inr h))
fclose_found-Closes answer drive_count f tnfs_file h =
    elim (Bool-cases (leb drive_count f.runtime_slot)) [
      | inl gone ↦ rw gone (slot_gone h (inl (ground arith)))
      | inr here ↦ elim (Bool-cases (leb 9 f.runtime_slot)) [
        | inl behind ↦ rw (here, behind) (slot_gone h (inr (ground arith)))
        | inr below ↦ rw (here, below) (on_server h (ground arith) (ground arith))
      ]
    ]

-- What Fclose does on a table that is not empty. If the file opened last has the descriptor, Fclose
-- returns and takes that file and no other off the table, whatever came of its closing: a file on the
-- card is closed by FatFS, and an error returned exactly for a failure that is not of its object; a
-- file on a server whose slot is in use is closed there; one whose slot is not, and one that the
-- firmware made up, need no call, and nothing fails. If no file has the descriptor, the error is
-- returned, no call is made and nothing changes. If another file has it, the handler does not return,
-- however many rounds its loop is given.
pub fclose_cases :
    (rounds : ℕ) (answer : ℕ → SdClose) (drives : ℕ) (f : FileDescriptor)
    (rest : List FileDescriptor) (fd : ℕ)
    → let fclose = λ (n : ℕ). gemdrive_backend_fclose n answer drives (f ∷ rest) fd in
      (f.fd ≡ fd
        → (status : FcloseStatus) × (calls : List CloseCall) × Closes answer drives f status calls
          × (fclose (suc rounds) ≡ some (status, rest, calls)))
      × (f.fd ≢ fd
          → get_file_by_fdesc rest fd ≡ none
          → fclose (suc rounds) ≡ some (gemdos_eihndl, f ∷ rest, []))
      × (f.fd ≢ fd
          → (g : FileDescriptor) → get_file_by_fdesc rest fd ≡ some g
          → fclose rounds ≡ none)
unfolding gemdrive_backend_fclose get_file_by_fdesc
fclose_cases rounds answer drives f rest fd = (
  λ same.
      let e : (f.fd == fd) ≡ true = ground arith in
      (
        _,
        _,
        fclose_found-Closes answer drives f f.backend refl,
        rw (e, delete_file_by_fdesc_head rounds f rest fd e) refl,
      ),
  λ differs missing. let e : (f.fd == fd) ≡ false = ground arith in rw (e, missing) refl,
  λ differs g found.
      let e : (f.fd == fd) ≡ false = ground arith in
      rw (e, found, delete_file_by_fdesc_other rounds f rest fd e) refl,
)
