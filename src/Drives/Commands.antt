-- ===== src/Drives/Commands.antt =====
-- The commands of romemul/sidetnfs_config.c that change the drive list in RAM.
use side_tnfs_firmware.Prelude.{
  ℕ, suc, Bool, false, not, ◌&&◌, ◌||◌, List, [], ◌∷◌, leb, ◌==◌, if◌then◌else◌, get_or, set,
  replicate,
}
use side_tnfs_firmware.Drives.{
  max_drives, drive_sd, slot_empty, slot_disabled, slot_enabled, DriveConfig, DriveFlash,
  ConfigStatus, is_ok, drive_slot_is_empty, drive_slot_is_configured, is_valid_drive_letter,
  validate_drive_record, force_nul_drive, recompute_drive_count, empty_drive, letter_used, ok,
  invalid_index, empty_slot, invalid_drive_letter, duplicate_drive_letter, invalid_drive_state,
}

-- A configured drive at another place of the list has the letter; `i` is the place of the head.
unfoldable pub letter_taken : ℕ → ℕ → ℕ → List DriveConfig → Bool
unfolding drive_slot_is_configured
letter_taken skip letter i [] = false
letter_taken skip letter i (d ∷ ds) =
    (not (i == skip) && drive_slot_is_configured d && d.drive_letter == letter)
    || letter_taken skip letter (suc i) ds

-- "Zero the fields that don't apply to this record's type."
unfoldable pub zero_irrelevant : DriveConfig → DriveConfig
zero_irrelevant d =
    if d.type == drive_sd
    then record d { transport = 0; port = 0; host = replicate 64 0; mount_path = replicate 32 0 }
    else record d { sd_path = replicate 64 0 }

-- `sidetnfs_config_set_drive` from the validation of the candidate on.
unfoldable pub store_drive : ℕ → DriveConfig → DriveFlash → ConfigStatus × DriveFlash
store_drive index candidate g =
    if not (is_ok (validate_drive_record candidate))
    then (validate_drive_record candidate, g)
    else if candidate.drive_letter == g.config_drive_letter
    then (duplicate_drive_letter, g)
    else if letter_taken index candidate.drive_letter 0 g.drives
    then (duplicate_drive_letter, g)
    else (
      ok,
      recompute_drive_count (record g { drives = set g.drives index (zero_irrelevant candidate) }),
    )

-- The candidate that `sidetnfs_config_set_drive` validates.
unfoldable pub candidate_of : DriveConfig → DriveConfig
candidate_of input = force_nul_drive (record input { reserved0 = replicate 2 0 })

unfoldable pub set_drive : ℕ → DriveConfig → DriveFlash → ConfigStatus × DriveFlash
set_drive index input g =
    if leb max_drives index
    then (invalid_index, g)
    else if input.state == slot_empty
    then (ok, recompute_drive_count (record g { drives = set g.drives index empty_drive }))
    else if not (input.state == slot_disabled) && not (input.state == slot_enabled)
    then (invalid_drive_state, g)
    else store_drive index (candidate_of input) g

-- `g_config.drives[index]`; the callers have checked the index.
abbrev pub drive_at : DriveFlash → ℕ → DriveConfig
drive_at g index = get_or g.drives index empty_drive

unfoldable pub set_drive_state : ℕ → ℕ → DriveFlash → ConfigStatus × DriveFlash
set_drive_state index new_state g =
    if leb max_drives index
    then (invalid_index, g)
    else if new_state == slot_empty
    then set_drive index empty_drive g
    else if not (new_state == slot_disabled) && not (new_state == slot_enabled)
    then (invalid_drive_state, g)
    else if not (drive_slot_is_configured (drive_at g index))
    then (empty_slot, g)
    else set_drive index (record (drive_at g index) { state = new_state }) g

unfoldable pub delete_drive : ℕ → DriveFlash → ConfigStatus × DriveFlash
delete_drive index g =
    if leb max_drives index
    then (invalid_index, g)
    else if drive_slot_is_empty (drive_at g index)
    then (empty_slot, g)
    else (ok, recompute_drive_count (record g { drives = set g.drives index empty_drive }))

unfoldable pub set_config_drive_letter : ℕ → DriveFlash → ConfigStatus × DriveFlash
set_config_drive_letter new_letter g =
    if not (is_valid_drive_letter new_letter)
    then (invalid_drive_letter, g)
    else if letter_used new_letter g.drives
    then (duplicate_drive_letter, g)
    else (ok, record g { config_drive_letter = new_letter })

-- The commands that change the copy in RAM.
pub data Command : Type 0 where
  set_drive_cmd : ℕ → DriveConfig → Command
  set_state_cmd : ℕ → ℕ → Command
  delete_cmd : ℕ → Command
  set_letter_cmd : ℕ → Command

unfoldable pub execute : Command → DriveFlash → ConfigStatus × DriveFlash
execute (set_drive_cmd i d) g = set_drive i d g
execute (set_state_cmd i s) g = set_drive_state i s g
execute (delete_cmd i) g = delete_drive i g
execute (set_letter_cmd l) g = set_config_drive_letter l g

unfoldable pub execute_all : List Command → DriveFlash → DriveFlash
execute_all [] g = g
execute_all (c ∷ cs) g = execute_all cs (execute c g).1
