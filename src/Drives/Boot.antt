-- ===== src/Drives/Boot.antt =====
-- What `sidetnfs_config_init` trusts: whatever is in flash, the active drive list is valid.
use side_tnfs_firmware.Prelude.{
  ℕ, ◌≡◌, inl, inr, refl, ◌∙◌, true, false, List, map, length, length-map, Bool-cases, ◌==◌,
}
use side_tnfs_firmware.Drives.{
  DriveFlash, ConfigStatus, ok, is_ok, validate_structure, force_nul_termination, force_nul_drive,
  validate_drives, check_slot, drive_slot_is_empty, validate_drive_record, is_valid_drive_letter,
  letter_used,
}
use side_tnfs_firmware.Drives.Spec.{IsValid}
use side_tnfs_firmware.Drives.Validate.{validate_structure_sound}
use side_tnfs_firmware.Drives.Rewrite.{map-IsValid, force_nul_drive-IsHarmless}
use side_tnfs_firmware.Drives.Layout.{decode, decode_drives}
use side_tnfs_firmware.Drives.Flash.{
  ConfigState, default_config, body_crc, with_crc, migrate_drive, migrated_config, Verdict,
  rejected, accepted, check_block, examine, adopt, init, config_magic, config_flash_version,
  config_flash_version_v2,
}

is_ok-eq : (s : ConfigStatus) → is_ok s ≡ true → s ≡ ok
is_ok-eq ok h = refl
is_ok-eq _ h = cc

force_nul_termination-IsValid : (c : DriveFlash) → IsValid c → IsValid (force_nul_termination c)
unfolding force_nul_termination
force_nul_termination-IsValid c v =
    map-IsValid force_nul_drive force_nul_drive-IsHarmless c _ refl refl refl v

default_config_ok : validate_structure default_config ≡ ok
unfolding validate_structure default_config validate_drives check_slot drive_slot_is_empty
    validate_drive_record is_valid_drive_letter letter_used
default_config_ok = refl

default_config_slots : length default_config.drives ≡ 8
unfolding default_config
default_config_slots = refl

pub default_config-IsValid : IsValid default_config
default_config-IsValid =
    validate_structure_sound default_config default_config_slots default_config_ok

-- An accepted block is valid.
abbrev pub IsSound : Verdict → Type 0
IsSound (rejected _ _) = Unit
IsSound (accepted c _) = IsValid c

check_block-IsSound : (c : DriveFlash) (m : ℕ) → length c.drives ≡ 8 → IsSound (check_block c m)
unfolding check_block
check_block-IsSound c m len = elim (Bool-cases (body_crc c == c.crc32)) [
  | inr bad ↦ rw bad tt
  | inl good ↦ elim (Bool-cases (is_ok (validate_structure c))) [
    | inr bad ↦ rw (good, bad) tt
    | inl sound ↦ rw (good, sound) (validate_structure_sound c len (is_ok-eq _ sound))
  ]
]

length-migrated : (c : DriveFlash) → length c.drives ≡ 8 → length (migrated_config c).drives ≡ 8
unfolding migrated_config with_crc force_nul_termination
length-migrated c len =
    length-map force_nul_drive (map migrate_drive c.drives)
    ∙ length-map migrate_drive c.drives
    ∙ len

examine-IsSound : (c : DriveFlash) → length c.drives ≡ 8 → IsSound (examine c)
unfolding examine
examine-IsSound c len = elim (Bool-cases (c.magic == config_magic)) [
  | inr bad ↦ rw bad tt
  | inl good ↦ elim (Bool-cases (c.version == config_flash_version_v2)) [
    | inl old ↦ elim (Bool-cases (body_crc c == c.crc32)) [
      | inr bad ↦ rw (good, old, bad) tt
      | inl right ↦
          rw (good, old, right)
            (check_block-IsSound (migrated_config c) config_flash_version_v2
              (length-migrated c len))
    ]
    | inr new ↦ elim (Bool-cases (c.version == config_flash_version)) [
      | inr bad ↦ rw (good, new, bad) tt
      | inl right ↦ rw (good, new, right) (check_block-IsSound c 0 len)
    ]
  ]
]

decoded_slots : (sector : List ℕ) → length (decode sector).drives ≡ 8
unfolding decode decode_drives
decoded_slots sector = refl

adopt-IsValid :
    (verdict : Verdict) (s : ConfigState) → IsSound verdict → IsValid (adopt verdict s).config
unfolding adopt
adopt-IsValid (rejected r e) s h = default_config-IsValid
adopt-IsValid (accepted c m) s h = force_nul_termination-IsValid c h

adopt_default :
    (verdict : Verdict) (s : ConfigState)
    → (adopt verdict s).loaded_from_flash ≡ false
    → (adopt verdict s).config ≡ default_config
unfolding adopt
adopt_default (rejected r e) s h = refl
adopt_default (accepted c m) s h = cc

-- Whatever bytes the flash sector holds, the drive list that is active after boot is valid, and it
-- is the factory list exactly as built in unless the block was accepted.
pub init-IsValid :
    (sector : List ℕ) (s : ConfigState)
    → IsValid (init sector s).config
      × ((init sector s).loaded_from_flash ≡ false → (init sector s).config ≡ default_config)
unfolding init
init-IsValid sector s = (
  adopt-IsValid (examine (decode sector)) s
      (examine-IsSound (decode sector) (decoded_slots sector)),
  adopt_default (examine (decode sector)) s,
)
