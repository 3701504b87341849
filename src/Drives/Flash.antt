-- ===== src/Drives/Flash.antt =====
-- The flash side of romemul/sidetnfs_config.c: boot, migration of version 2, saving, factory reset.
use Prim.Native.Char.{code}
use Prim.Native.String.{String}
use side_tnfs_firmware.Prelude.{
  ℕ, ◌+◌, Bool, true, false, not, ◌&&◌, ◌||◌, Option, none, some, List, [], ◌∷◌, ◌++◌, map, ◌==◌,
  if◌then◌else◌, take, replicate,
}
use side_tnfs_firmware.Crc32.{crc32}
use side_tnfs_firmware.Drives.{
  DriveConfig, DriveFlash, ConfigStatus, ok, flash_write_failed, crc_mismatch, is_ok,
  drive_slot_is_empty, slot_enabled, drive_tnfs, transport_udp, empty_drive, force_nul_drive,
  force_nul_termination, recompute_drive_count, validate_structure,
}
use side_tnfs_firmware.Drives.Commands.{zero_irrelevant}
use side_tnfs_firmware.Drives.Layout.{encode_body, encode, decode}

-- "STDF"
abbrev pub config_magic : ℕ
config_magic = 0x53544446

abbrev pub config_flash_version : ℕ
config_flash_version = 3

abbrev pub config_flash_version_v2 : ℕ
config_flash_version_v2 = 2

-- `sidetnfs_config_fallback_reason_t`
pub data FallbackReason : Type 0 where
  no_fallback : FallbackReason
  bad_magic : FallbackReason
  version_not_supported : FallbackReason
  bad_crc : FallbackReason
  structure_invalid : FallbackReason

-- The static variables of the file.
pub record ConfigState : Type 0 where
  pub config : DriveFlash
  pub ready : Bool
  pub pending : Bool
  pub loaded_from_flash : Bool
  pub fallback_reason : FallbackReason
  pub fallback_structure_status : ConfigStatus
  pub migrated_from_version : ℕ

abbrev pub codes : String → List ℕ
codes String.[] = []
codes (String.◌∷◌ c s) = code c ∷ codes s

-- A string literal in a character array of `n`.
abbrev pub char_array : ℕ → String → List ℕ
char_array n s = take n (codes s ++ replicate n 0)

-- `SIDETNFS_DEFAULT_DRIVE`
abbrev pub default_drive : DriveConfig
default_drive = record {
  state = slot_enabled;
  drive_letter = b'N';
  type = drive_tnfs;
  transport = transport_udp;
  port = 16384;
  reserved0 = replicate 2 0;
  nickname = char_array 24 "Retroloft TNFS";
  host = char_array 64 "retroloft.net";
  mount_path = char_array 32 "/ATARI.ST";
  sd_path = replicate 64 0;
}

-- The image that `sidetnfs_config_load_defaults` leaves in `g_config`.
unfoldable pub default_config : DriveFlash
unfolding force_nul_termination force_nul_drive
default_config = force_nul_termination (record {
  magic = config_magic;
  version = config_flash_version;
  config_drive_letter = b'S';
  drive_count = 1;
  reserved = replicate 2 0;
  drives = default_drive ∷ replicate 7 empty_drive;
  crc32 = 0;
})

-- The checksum that belongs to the bytes of a list.
unfoldable pub body_crc : DriveFlash → ℕ
body_crc c = crc32 (encode_body c)

-- `crc32` is written last.
unfoldable pub with_crc : DriveFlash → DriveFlash
with_crc c = record c { crc32 = body_crc c }

-- In version 2 the first byte of a drive is `used`.
unfoldable pub migrate_drive : DriveConfig → DriveConfig
migrate_drive old =
    if old.state == 0
    then empty_drive
    else record old { state = slot_enabled; reserved0 = replicate 2 0 }

unfoldable pub count_used : List DriveConfig → ℕ
count_used [] = 0
count_used (d ∷ ds) = let rest = count_used ds in if d.state == 0 then rest else rest + 1

-- What `sidetnfs_config_migrate_v2_to_v3` makes of a block with a good checksum.
unfoldable pub migrated_config : DriveFlash → DriveFlash
migrated_config old = with_crc (
    force_nul_termination (record {
      magic = config_magic;
      version = config_flash_version;
      config_drive_letter = old.config_drive_letter;
      drive_count = count_used old.drives;
      reserved = replicate 2 0;
      drives = map migrate_drive old.drives;
      crc32 = 0;
    }))

unfoldable pub migrate_v2_to_v3 : DriveFlash → Option DriveFlash
migrate_v2_to_v3 old = if not (body_crc old == old.crc32) then none else some (migrated_config old)

-- The verdict of `sidetnfs_config_init` on the block in flash.
pub data Verdict : Type 0 where
  rejected : FallbackReason → ConfigStatus → Verdict
  accepted : DriveFlash → ℕ → Verdict

-- The checks that a native and a migrated block share.
unfoldable pub check_block : DriveFlash → ℕ → Verdict
check_block c migrated_from =
    if not (body_crc c == c.crc32)
    then rejected bad_crc ok
    else if not (is_ok (validate_structure c))
    then rejected structure_invalid (validate_structure c)
    else accepted c migrated_from

unfoldable pub examine : DriveFlash → Verdict
unfolding migrate_v2_to_v3
examine candidate =
    if not (candidate.magic == config_magic)
    then rejected bad_magic ok
    else if candidate.version == config_flash_version_v2
    then elim (migrate_v2_to_v3 candidate) [
      | none ↦ rejected bad_crc ok
      | some migrated ↦ check_block migrated config_flash_version_v2
    ]
    else if not (candidate.version == config_flash_version)
    then rejected version_not_supported ok
    else check_block candidate 0

unfoldable pub adopt : Verdict → ConfigState → ConfigState
adopt (rejected reason status) s = record s {
  config = default_config;
  ready = true;
  loaded_from_flash = false;
  fallback_reason = reason;
  fallback_structure_status = status;
  migrated_from_version = 0;
}
adopt (accepted c migrated_from) s = record s {
  config = force_nul_termination c;
  ready = true;
  loaded_from_flash = true;
  fallback_reason = no_fallback;
  fallback_structure_status = ok;
  migrated_from_version = migrated_from;
}

-- `sidetnfs_config_init`, on the bytes of the sector.
unfoldable pub init : List ℕ → ConfigState → ConfigState
init sector s = adopt (examine (decode sector)) s

-- One drive of the image that `sidetnfs_config_save` builds.
unfoldable pub clean_drive : DriveConfig → DriveConfig
clean_drive d =
    if drive_slot_is_empty d
    then empty_drive
    else zero_irrelevant (record d { reserved0 = replicate 2 0 })

unfoldable pub clean_image : DriveFlash → DriveFlash
clean_image g = with_crc (
    force_nul_termination (record {
      magic = config_magic;
      version = config_flash_version;
      config_drive_letter = g.config_drive_letter;
      drive_count = g.drive_count;
      reserved = replicate 2 0;
      drives = map clean_drive g.drives;
      crc32 = 0;
    }))

-- `memcmp` of two blocks of the same size is 0.
unfoldable pub same_bytes : List ℕ → List ℕ → Bool
same_bytes [] [] = true
same_bytes (x ∷ xs) (y ∷ ys) = (x == y) && same_bytes xs ys
same_bytes _ _ = false

unfoldable pub flash_matches_factory_defaults : List ℕ → Bool
flash_matches_factory_defaults sector =
    let raw = decode sector in
    if not (raw.magic == config_magic) || not (raw.version == config_flash_version)
    then false
    else if not (body_crc raw == raw.crc32)
    then false
    else same_bytes (encode_body raw) (encode_body default_config)

-- `sidetnfs_config_save` from the read back on.
unfoldable pub verify : DriveFlash → ConfigState → List ℕ → ConfigStatus × ConfigState × List ℕ
verify clean s sector =
    let readback = decode sector in
    if not (readback.magic == config_magic) || not (readback.version == config_flash_version)
    then (flash_write_failed, s, sector)
    else if not (body_crc readback == readback.crc32)
    then (crc_mismatch, s, sector)
    else (ok, record s { config = clean; ready = true; pending = true }, sector)

-- The SDK's `flash_range_erase` and `flash_range_program`, on the bytes of the one sector.
module _ (flash_range_erase : List ℕ → List ℕ)
    (flash_range_program : List ℕ → List ℕ → List ℕ) where
  -- The sector after the erase and the program of `program_buf`, 1792 bytes.
  unfoldable pub program_sector : List ℕ → DriveFlash → List ℕ
  program_sector sector image =
      flash_range_program (flash_range_erase sector) (encode image ++ replicate 240 0)

  unfoldable pub save : ConfigState → List ℕ → ConfigStatus × ConfigState × List ℕ
  save s sector =
      let counted = record s { config = recompute_drive_count s.config } in
      if not (is_ok (validate_structure counted.config))
      then (validate_structure counted.config, counted, sector)
      else verify (clean_image counted.config) counted
          (program_sector sector (clean_image counted.config))

  unfoldable pub factory_reset : ConfigState → List ℕ → ConfigStatus × ConfigState × List ℕ
  factory_reset s sector = save (record s { config = default_config }) sector
