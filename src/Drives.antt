-- ===== src/Drives.antt =====
-- The drive list of romemul/sidetnfs_config.c: the records, their validation, and the operations on
-- the copy in RAM. The flash sector is in `Drives.Flash`.
pub mod Commands
pub mod Layout
pub mod Flash
pub mod Spec
pub mod Validate
pub mod Preserve
pub mod Accept
pub mod Rewrite
pub mod Boot
pub mod Shape
pub mod Save
pub mod Factory
pub mod Migrate
mod Tests
use side_tnfs_firmware.Prelude.{
  ℕ, suc, ◌+◌, Bool, true, false, not, ◌&&◌, ◌||◌, List, [], ◌∷◌, map, ltb, leb, ◌==◌,
  if◌then◌else◌, get_or, set, replicate,
}

abbrev pub max_drives : ℕ
max_drives = 8

abbrev pub nickname_len : ℕ
nickname_len = 24

abbrev pub host_len : ℕ
host_len = 64

abbrev pub mountpath_len : ℕ
mountpath_len = 32

abbrev pub sdpath_len : ℕ
sdpath_len = 64

-- `sidetnfs_drive_type_t`
abbrev pub drive_sd : ℕ
drive_sd = 1

abbrev pub drive_tnfs : ℕ
drive_tnfs = 2

-- `sidetnfs_drive_slot_state_t`
abbrev pub slot_empty : ℕ
slot_empty = 0

abbrev pub slot_disabled : ℕ
slot_disabled = 1

abbrev pub slot_enabled : ℕ
slot_enabled = 2

-- `sidetnfs_transport_t`
abbrev pub transport_udp : ℕ
transport_udp = 0

abbrev pub transport_tcp : ℕ
transport_tcp = 1

-- `sidetnfs_drive_config_t`; the character arrays are lists of bytes.
pub record DriveConfig : Type 0 where
  pub state : ℕ
  pub drive_letter : ℕ
  pub type : ℕ
  pub transport : ℕ
  pub port : ℕ
  pub reserved0 : List ℕ
  pub nickname : List ℕ
  pub host : List ℕ
  pub mount_path : List ℕ
  pub sd_path : List ℕ

-- `sidetnfs_drive_flash_t`
pub record DriveFlash : Type 0 where
  pub magic : ℕ
  pub version : ℕ
  pub config_drive_letter : ℕ
  pub drive_count : ℕ
  pub reserved : List ℕ
  pub drives : List DriveConfig
  pub crc32 : ℕ

-- `sidetnfs_config_status_t`
pub data ConfigStatus : Type 0 where
  ok : ConfigStatus
  invalid_index : ConfigStatus
  empty_slot : ConfigStatus
  invalid_drive_letter : ConfigStatus
  duplicate_drive_letter : ConfigStatus
  invalid_type : ConfigStatus
  invalid_transport : ConfigStatus
  invalid_port : ConfigStatus
  invalid_host : ConfigStatus
  invalid_mount_path : ConfigStatus
  invalid_sd_path : ConfigStatus
  too_many_drives : ConfigStatus
  flash_write_failed : ConfigStatus
  crc_mismatch : ConfigStatus
  unsupported_version : ConfigStatus
  invalid_drive_state : ConfigStatus

-- `rc == SIDETNFS_CONFIG_STATUS_OK`
abbrev pub is_ok : ConfigStatus → Bool
is_ok ok = true
is_ok _ = false

unfoldable pub drive_slot_is_empty : DriveConfig → Bool
drive_slot_is_empty d = d.state == slot_empty

unfoldable pub drive_slot_is_configured : DriveConfig → Bool
drive_slot_is_configured d = d.state == slot_disabled || d.state == slot_enabled

unfoldable pub drive_slot_is_enabled : DriveConfig → Bool
drive_slot_is_enabled d = d.state == slot_enabled

unfoldable pub is_valid_drive_letter : ℕ → Bool
is_valid_drive_letter letter =
    if ltb letter b'A' || ltb b'Z' letter
    then false
    else if letter == b'A' || letter == b'B'
    then false
    else true

-- `field[0] == '\0'`
abbrev pub is_blank : List ℕ → Bool
is_blank field = get_or field 0 0 == 0

unfoldable pub validate_drive_record : DriveConfig → ConfigStatus
validate_drive_record d =
    if not (is_valid_drive_letter d.drive_letter)
    then invalid_drive_letter
    else if d.type == drive_tnfs
    then (if not (d.transport == transport_udp) && not (d.transport == transport_tcp)
        then invalid_transport
        else if d.port == 0
        then invalid_port
        else if is_blank d.host
        then invalid_host
        else if is_blank d.mount_path
        then invalid_mount_path
        else ok)
    else if d.type == drive_sd
    then (if is_blank d.sd_path then invalid_sd_path else ok)
    else invalid_type

-- The four lines of `sidetnfs_config_force_nul_termination` for one drive.
unfoldable pub force_nul_drive : DriveConfig → DriveConfig
force_nul_drive d = record d {
  nickname = set d.nickname 23 0;
  host = set d.host 63 0;
  mount_path = set d.mount_path 31 0;
  sd_path = set d.sd_path 63 0;
}

unfoldable pub force_nul_termination : DriveFlash → DriveFlash
force_nul_termination c = record c { drives = map force_nul_drive c.drives }

unfoldable pub count_configured : List DriveConfig → ℕ
unfolding drive_slot_is_configured
count_configured [] = 0
count_configured (d ∷ ds) =
    let rest = count_configured ds in if drive_slot_is_configured d then suc rest else rest

unfoldable pub recompute_drive_count : DriveFlash → DriveFlash
recompute_drive_count g = record g { drive_count = count_configured g.drives }

-- What `memset` to 0 leaves of a record.
abbrev pub empty_drive : DriveConfig
empty_drive = record {
  state = 0;
  drive_letter = 0;
  type = 0;
  transport = 0;
  port = 0;
  reserved0 = replicate 2 0;
  nickname = replicate 24 0;
  host = replicate 64 0;
  mount_path = replicate 32 0;
  sd_path = replicate 64 0;
}

-- A configured drive of the list has the letter. (The inner loop of
-- `sidetnfs_config_validate_structure`, and the loop of `set_config_drive_letter`.)
unfoldable pub letter_used : ℕ → List DriveConfig → Bool
unfolding drive_slot_is_configured
letter_used letter [] = false
letter_used letter (d ∷ ds) =
    (drive_slot_is_configured d && d.drive_letter == letter) || letter_used letter ds

-- One round of the loop of `sidetnfs_config_validate_structure`: a drive and those behind it.
unfoldable pub check_slot : ℕ → DriveConfig → List DriveConfig → ConfigStatus
check_slot letter d ds =
    if ltb slot_enabled d.state
    then invalid_drive_state
    else if drive_slot_is_empty d
    then ok
    else if not (is_ok (validate_drive_record d))
    then validate_drive_record d
    else if d.drive_letter == letter
    then duplicate_drive_letter
    else if letter_used d.drive_letter ds
    then duplicate_drive_letter
    else ok

-- The outcome of the loop: the number of configured drives, or the first error.
pub data Scan : Type 0 where
  counted : ℕ → Scan
  failed : ConfigStatus → Scan

unfoldable pub validate_drives : ℕ → ℕ → List DriveConfig → Scan
validate_drives letter count [] = counted count
validate_drives letter count (d ∷ ds) =
    let rest = validate_drives letter (if drive_slot_is_empty d then count else count + 1) ds in
    if is_ok (check_slot letter d ds) then rest else failed (check_slot letter d ds)

unfoldable pub validate_structure : DriveFlash → ConfigStatus
validate_structure c =
    if not (is_valid_drive_letter c.config_drive_letter)
    then invalid_drive_letter
    else if ltb max_drives c.drive_count
    then too_many_drives
    else elim (validate_drives c.config_drive_letter 0 c.drives) [
      | failed e ↦ e
      | counted n ↦ if not (n == c.drive_count) then too_many_drives else ok
    ]
