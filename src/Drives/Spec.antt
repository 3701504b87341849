-- ===== src/Drives/Spec.antt =====
-- What a drive list must be, stated without the code's loops.
use side_tnfs_firmware.Prelude.{ℕ, ◌≤◌, ◌≡◌, ◌≢◌, ◌⊎◌, true, some, length, get_elem?, get_or}
use side_tnfs_firmware.Drives.{DriveConfig, DriveFlash, drive_slot_is_configured, count_configured}

-- C: to Z:
abbrev pub IsDriveLetter : ℕ → Type 0
IsDriveLetter l = (b'C' ≤ l) × (l ≤ b'Z')

abbrev pub IsTnfs : DriveConfig → Type 0
IsTnfs d =
    (d.type ≡ 2)
    × (d.transport ≤ 1)
    × (d.port ≢ 0)
    × (get_or d.host 0 0 ≢ 0)
    × (get_or d.mount_path 0 0 ≢ 0)

abbrev pub IsSd : DriveConfig → Type 0
IsSd d = (d.type ≡ 1) × (get_or d.sd_path 0 0 ≢ 0)

abbrev pub IsRecord : DriveConfig → Type 0
IsRecord d = IsDriveLetter d.drive_letter × (IsTnfs d ⊎ IsSd d)

abbrev pub IsConfigured : DriveConfig → Type 0
IsConfigured d = drive_slot_is_configured d ≡ true

-- A slot is empty, or holds a record with a letter of its own.
pub record IsSlot (settings : ℕ) (d : DriveConfig) : Type 0 where
  pub state : d.state ≤ 2
  pub complete : IsConfigured d → IsRecord d
  pub not_settings : IsConfigured d → d.drive_letter ≢ settings

pub record IsValid (c : DriveFlash) : Type 0 where
  pub slots : length c.drives ≡ 8
  pub letter : IsDriveLetter c.config_drive_letter
  pub each :
      (i : ℕ) (d : DriveConfig) → get_elem? c.drives i ≡ some d → IsSlot c.config_drive_letter d
  pub distinct :
      (i j : ℕ) (d e : DriveConfig)
      → i ≢ j
      → get_elem? c.drives i ≡ some d
      → get_elem? c.drives j ≡ some e
      → IsConfigured d
      → IsConfigured e
      → d.drive_letter ≢ e.drive_letter
  pub count : c.drive_count ≡ count_configured c.drives
