-- ===== src/Drives/Factory.antt =====
-- The factory reset, and the boot-time test that recognises it.
use side_tnfs_firmware.Prelude.{
  ℕ, ◌≡◌, refl, ap, ◌∙◌, true, List, [], ◌∷◌, arith, All, zero, suc, replicate,
}
use side_tnfs_firmware.Drives.{
  DriveFlash, ok, empty_drive, force_nul_drive, force_nul_termination, drive_slot_is_empty,
}
use side_tnfs_firmware.Drives.Commands.{zero_irrelevant}
use side_tnfs_firmware.Drives.Boot.{default_config-IsValid}
use side_tnfs_firmware.Drives.Shape.{
  All-map, empty_drive-IsDriveShaped, force_nul_drive-IsDriveShaped, zeros-IsField,
}
use side_tnfs_firmware.Drives.Layout.{IsDriveShaped, decode, encode_body}
use side_tnfs_firmware.Drives.Save.{
  Programs, save_then_init, save_stored, image_crc, image_magic, image_version,
}
use side_tnfs_firmware.Drives.Flash.{
  ConfigState, default_drive, default_config, clean_image, clean_drive, with_crc, body_crc,
  same_bytes, flash_matches_factory_defaults, init, factory_reset, save, config_magic,
  config_flash_version,
}

default_drive-IsDriveShaped : IsDriveShaped default_drive
default_drive-IsDriveShaped = record {
  state = omega arith;
  drive_letter = omega arith;
  type = omega arith;
  transport = omega arith;
  port = omega arith;
  reserved0 = zeros-IsField 2;
  nickname = (refl, omega arith);
  host = (refl, omega arith);
  mount_path = (refl, omega arith);
  sd_path = zeros-IsField 64;
}

empties : (n : ℕ) → All IsDriveShaped (replicate n empty_drive)
empties zero = tt
empties (suc n) = (empty_drive-IsDriveShaped, empties n)

pub default_config-IsDriveShaped : All IsDriveShaped default_config.drives
unfolding default_config
default_config-IsDriveShaped =
    All-map force_nul_drive (default_drive ∷ replicate 7 empty_drive) force_nul_drive-IsDriveShaped
      (default_drive-IsDriveShaped, empties 7)

same_bytes_refl : (xs : List ℕ) → same_bytes xs xs ≡ true
unfolding same_bytes
same_bytes_refl [] = refl
same_bytes_refl (x ∷ xs) = ground (arith, same_bytes_refl xs)

-- The clean image of the factory list is the factory list with its checksum.
clean-default : clean_image default_config ≡ with_crc default_config
unfolding clean_image default_config force_nul_termination clean_drive drive_slot_is_empty
    zero_irrelevant force_nul_drive
clean-default = refl

body-with_crc : (c : DriveFlash) → encode_body (with_crc c) ≡ encode_body c
unfolding with_crc encode_body
body-with_crc c = refl

matches-native :
    (sector : List ℕ) (c : DriveFlash)
    → decode sector ≡ c
    → c.magic ≡ config_magic
    → c.version ≡ config_flash_version
    → body_crc c ≡ c.crc32
    → encode_body c ≡ encode_body default_config
    → flash_matches_factory_defaults sector ≡ true
unfolding flash_matches_factory_defaults
matches-native sector c d m v b e =
    ground (arith, d, m, v, b, e, same_bytes_refl (encode_body default_config))

module _ (flash_range_erase : List ℕ → List ℕ) (flash_range_program : List ℕ → List ℕ → List ℕ)
    (programs : Programs flash_range_erase flash_range_program) where
  -- With a flash that stores what is programmed, a factory reset succeeds whatever was configured.
  -- The next boot loads the factory drives from flash, and the test for factory defaults then
  -- answers yes.
  pub factory_reset_lem :
      (s later : ConfigState) (sector : List ℕ)
      → let (status, reset, sector') =
          factory_reset flash_range_erase flash_range_program s sector in
        let booted = init sector' later in
        (status ≡ ok)
        × (booted.loaded_from_flash ≡ true)
        × (booted.config ≡ with_crc default_config)
        × (flash_matches_factory_defaults sector' ≡ true)
  unfolding factory_reset
  factory_reset_lem s later sector =
      let r = record s { config = default_config } in
      let saved =
        save_then_init flash_range_erase flash_range_program programs r later sector
          default_config-IsValid default_config-IsDriveShaped in
      (saved.0, saved.4, saved.3 ∙ saved.2 ∙ clean-default, matched)
    where
      matched :
          flash_matches_factory_defaults
            (save flash_range_erase flash_range_program
              (record s { config = default_config })
              sector).2
          ≡ true
      matched =
          matches-native _ (clean_image default_config)
            (save_stored flash_range_erase flash_range_program programs
              (record s { config = default_config }) sector default_config-IsValid
              default_config-IsDriveShaped)
            (image_magic default_config default_config-IsValid)
            (image_version default_config default_config-IsValid)
            (image_crc default_config default_config-IsValid)
            (ap encode_body clean-default ∙ body-with_crc default_config)
