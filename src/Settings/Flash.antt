-- ===== src/Settings/Flash.antt =====
-- The flash side of romemul/sidetnfs_system_config.c: boot and saving.
use side_tnfs_firmware.Prelude.{
  ℕ, Bool, true, false, not, ◌||◌, Option, none, some, List, ◌++◌, ◌==◌, if◌then◌else◌, replicate,
}
use side_tnfs_firmware.Crc32.{crc32}
use side_tnfs_firmware.Settings.{
  SystemSettings, SystemFlash, SysStatus, sys_ok, invalid_structure, sys_write_failed,
  sys_crc_mismatch, SystemState, default_settings, force_nul_termination, validate_structure,
}
use side_tnfs_firmware.Settings.Layout.{encode_body, encode, decode}
use side_tnfs_firmware.Settings.Legacy.{LegacyStore, migrate_from_legacy}

-- "SYSC"
abbrev pub system_magic : ℕ
system_magic = 0x53595343

abbrev pub system_flash_version : ℕ
system_flash_version = 1

unfoldable pub body_crc : SystemFlash → ℕ
body_crc f = crc32 (encode_body f)

-- The checks of `sidetnfs_system_config_init`, in their order.
unfoldable pub is_valid_block : SystemFlash → Bool
is_valid_block candidate =
    if not (candidate.magic == system_magic)
    then false
    else if not (candidate.version == system_flash_version)
    then false
    else if not (body_crc candidate == candidate.crc32)
    then false
    else validate_structure candidate.settings

-- The fallback: the legacy settings, or the factory's.
unfoldable pub fall_back : Option SystemSettings → SystemState
fall_back none = record {
  settings = default_settings;
  ready = true;
  loaded_from_flash = false;
  migrated_from_legacy = false;
}
fall_back (some legacy) = record {
  settings = legacy;
  ready = true;
  loaded_from_flash = false;
  migrated_from_legacy = true;
}

-- `sidetnfs_system_config_init`, on the bytes of the sector.
unfoldable pub init : LegacyStore → List ℕ → SystemState
unfolding is_valid_block fall_back
init store sector =
    if is_valid_block (decode sector)
    then record {
      settings = force_nul_termination (decode sector).settings;
      ready = true;
      loaded_from_flash = true;
      migrated_from_legacy = false;
    }
    else fall_back (migrate_from_legacy store)

-- The image that `sidetnfs_system_config_save` programs.
unfoldable pub clean_block : SystemSettings → SystemFlash
clean_block s = record {
  magic = system_magic;
  version = system_flash_version;
  settings = force_nul_termination s;
  padding = replicate 2 0;
  crc32 = body_crc (record {
    magic = system_magic;
    version = system_flash_version;
    settings = force_nul_termination s;
    padding = replicate 2 0;
    crc32 = 0;
  });
}

-- `sidetnfs_system_config_save` from the read back on.
unfoldable pub verify : SystemState → List ℕ → SysStatus × SystemState × List ℕ
verify st sector =
    let readback = decode sector in
    if not (readback.magic == system_magic) || not (readback.version == system_flash_version)
    then (sys_write_failed, st, sector)
    else if not (body_crc readback == readback.crc32)
    then (sys_crc_mismatch, st, sector)
    else (
      sys_ok,
      record {
        settings = readback.settings;
        ready = true;
        loaded_from_flash = true;
        migrated_from_legacy = false;
      },
      sector,
    )

-- The SDK's `flash_range_erase` and `flash_range_program`, on the bytes of the one sector.
module _ (flash_range_erase : List ℕ → List ℕ)
    (flash_range_program : List ℕ → List ℕ → List ℕ) where
  -- `program_buf` has 512 bytes.
  unfoldable pub program_sector : List ℕ → SystemFlash → List ℕ
  program_sector sector f =
      flash_range_program (flash_range_erase sector) (encode f ++ replicate 236 0)

  -- `sidetnfs_system_config_save`
  unfoldable pub save : SystemState → List ℕ → SysStatus × SystemState × List ℕ
  save st sector =
      if not (validate_structure st.settings)
      then (invalid_structure, st, sector)
      else verify st (program_sector sector (clean_block st.settings))
