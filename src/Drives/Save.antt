-- ===== src/Drives/Save.antt =====
-- What `sidetnfs_config_save` writes is what the next boot loads.
use side_tnfs_firmware.Prelude.{
  ℕ, ◌-◌, ◌≡◌, refl, ap, sym, ◌∙◌, true, List, [], ◌∷◌, ◌++◌, map, arith, length, set-set,
  replicate, All, append_assoc,
}
use side_tnfs_firmware.Drives.{
  DriveConfig, DriveFlash, ok, validate_structure, force_nul_termination, force_nul_drive,
  recompute_drive_count,
}
use side_tnfs_firmware.Drives.Spec.{IsValid}
use side_tnfs_firmware.Drives.Validate.{validate_structure_complete, count_configured-le}
use side_tnfs_firmware.Drives.Rewrite.{
  map-IsValid, force_nul_drive-IsHarmless, clean_drive-IsHarmless,
}
use side_tnfs_firmware.Drives.Layout.{
  IsDriveShaped, IsShaped, encode_body, encode, decode, decode-encode,
}
use side_tnfs_firmware.Drives.Shape.{clean_image-IsShaped}
use side_tnfs_firmware.Drives.Flash.{
  ConfigState, body_crc, with_crc, clean_drive, clean_image, config_magic, config_flash_version,
  accepted, check_block, examine, adopt, init, program_sector, verify, save,
}

pub with_crc-body_crc : (c : DriveFlash) → body_crc (with_crc c) ≡ (with_crc c).crc32
unfolding with_crc body_crc encode_body
with_crc-body_crc c = refl

-- Terminating the strings twice is terminating them once.
force_nul_drive_twice : (d : DriveConfig) → force_nul_drive (force_nul_drive d) ≡ force_nul_drive d
unfolding force_nul_drive
force_nul_drive_twice d = λ i. record (force_nul_drive d) {
  nickname = set-set d.nickname 23 0 0 i;
  host = set-set d.host 63 0 0 i;
  mount_path = set-set d.mount_path 31 0 0 i;
  sd_path = set-set d.sd_path 63 0 0 i;
}

pub force_nul_drives_twice :
    (ds : List DriveConfig) → map force_nul_drive (map force_nul_drive ds) ≡ map force_nul_drive ds
force_nul_drives_twice [] = refl
force_nul_drives_twice (d ∷ ds) = rw (force_nul_drive_twice d, force_nul_drives_twice ds)

clean_image-terminated : (g : DriveFlash) → force_nul_termination (clean_image g) ≡ clean_image g
unfolding clean_image with_crc force_nul_termination
clean_image-terminated g =
    ap (λ ds. record (clean_image g) { drives = ds })
      (force_nul_drives_twice (map clean_drive g.drives))

clean_image-IsValid : (g : DriveFlash) → IsValid g → IsValid (clean_image g)
unfolding clean_image with_crc force_nul_termination
clean_image-IsValid g v =
    map-IsValid force_nul_drive force_nul_drive-IsHarmless
      (record g { drives = map clean_drive g.drives }) _ refl refl refl
      (map-IsValid clean_drive clean_drive-IsHarmless g _ refl refl refl v)

-- A native block with a good checksum and a valid structure is accepted.
examine-native :
    (c : DriveFlash)
    → c.magic ≡ config_magic
    → c.version ≡ config_flash_version
    → body_crc c ≡ c.crc32
    → validate_structure c ≡ ok
    → examine c ≡ accepted c 0
unfolding examine check_block
examine-native c m v b s = ground arith

verify-native :
    (clean : DriveFlash) (s : ConfigState) (sector : List ℕ)
    → decode sector ≡ clean
    → clean.magic ≡ config_magic
    → clean.version ≡ config_flash_version
    → body_crc clean ≡ clean.crc32
    → verify clean s sector
      ≡ (ok, record s { config = clean; ready = true; pending = true }, sector)
unfolding verify
verify-native clean s sector d m v b = ground arith

module _ (g : DriveFlash) (v : IsValid g) where
  pub image_magic : (clean_image g).magic ≡ config_magic
  unfolding clean_image with_crc force_nul_termination
  image_magic = refl

  pub image_version : (clean_image g).version ≡ config_flash_version
  unfolding clean_image with_crc force_nul_termination
  image_version = refl

  pub image_crc : body_crc (clean_image g) ≡ (clean_image g).crc32
  unfolding clean_image
  image_crc = with_crc-body_crc _

  image_ok : validate_structure (clean_image g) ≡ ok
  image_ok = validate_structure_complete (clean_image g) (clean_image-IsValid g v)

  examine-image : examine (clean_image g) ≡ accepted (clean_image g) 0
  examine-image = examine-native (clean_image g) image_magic image_version image_crc image_ok

-- The count of a valid list is already right.
recompute-IsValid : (g : DriveFlash) → IsValid g → recompute_drive_count g ≡ g
unfolding recompute_drive_count
recompute-IsValid g v = λ i. record g { drive_count = sym v.count i }

adopt-image :
    (c : DriveFlash) (s : ConfigState)
    → force_nul_termination c ≡ c
    → let booted = adopt (accepted c 0) s in
      (booted.config ≡ c) × (booted.loaded_from_flash ≡ true) × (booted.migrated_from_version ≡ 0)
unfolding adopt
adopt-image c s e = (e, refl, refl)

-- What the flash driver does, as documented: an erased sector is all ones, and programming a buffer
-- at its start leaves the rest of the erased sector.
abbrev pub Programs : (List ℕ → List ℕ) → (List ℕ → List ℕ → List ℕ) → Type 0
Programs flash_range_erase flash_range_program =
    (sector buffer : List ℕ)
    → flash_range_program (flash_range_erase sector) buffer
      ≡ buffer ++ replicate (4096 - length buffer) 255

module _ (flash_range_erase : List ℕ → List ℕ) (flash_range_program : List ℕ → List ℕ → List ℕ)
    (programs : Programs flash_range_erase flash_range_program) where
  pub decode-program_sector :
      (c : DriveFlash) (sector : List ℕ)
      → IsShaped c
      → decode (program_sector flash_range_erase flash_range_program sector c) ≡ c
  unfolding program_sector
  decode-program_sector c sector s =
      ap decode (
        programs sector (encode c ++ replicate 240 0) ∙ append_assoc (encode c) (replicate 240 0) _)
      ∙ decode-encode c _ s

  pub save-eq :
      (s : ConfigState) (sector : List ℕ)
      → IsValid s.config
      → IsShaped (clean_image s.config)
      → save flash_range_erase flash_range_program s sector ≡ (
        ok,
        record s { config = clean_image s.config; ready = true; pending = true },
        program_sector flash_range_erase flash_range_program sector (clean_image s.config),
      )
  unfolding save
  save-eq s sector v shaped =
      rw (recompute-IsValid s.config v, validate_structure_complete s.config v)
        (verify-native (clean_image s.config) s _ (decode-program_sector _ sector shaped)
          (image_magic s.config v) (image_version s.config v) (image_crc s.config v))

  image-IsShaped :
      (g : DriveFlash) → IsValid g → All IsDriveShaped g.drives → IsShaped (clean_image g)
  image-IsShaped g v ds =
      clean_image-IsShaped g (omega (arith, v.letter))
        (omega (arith, v.count, v.slots, count_configured-le g.drives)) v.slots ds

  -- The sector then holds the image.
  pub save_stored :
      (s : ConfigState) (sector : List ℕ)
      → IsValid s.config
      → All IsDriveShaped s.config.drives
      → decode (save flash_range_erase flash_range_program s sector).2 ≡ clean_image s.config
  save_stored s sector v ds =
      rw (save-eq s sector v (image-IsShaped s.config v ds))
        (decode-program_sector (clean_image s.config) sector (image-IsShaped s.config v ds))

  -- With a flash that stores what is programmed, saving a valid drive list whose fields are within
  -- their C types succeeds, and marks it pending. The next boot, in whatever state, loads from flash
  -- and without migration exactly the list that the save left active.
  pub save_then_init :
      (s later : ConfigState) (sector : List ℕ)
      → IsValid s.config
      → All IsDriveShaped s.config.drives
      → let (status, saved, sector') = save flash_range_erase flash_range_program s sector in
        let booted = init sector' later in
        (status ≡ ok)
        × (saved.pending ≡ true)
        × (saved.config ≡ clean_image s.config)
        × (booted.config ≡ saved.config)
        × (booted.loaded_from_flash ≡ true)
        × (booted.migrated_from_version ≡ 0)
  unfolding init
  save_then_init s later sector v ds =
      let g = s.config in
      let shaped = image-IsShaped g v ds in
      let (same, loaded, native) = adopt-image (clean_image g) later (clean_image-terminated g) in
      let e : examine
            (decode (program_sector flash_range_erase flash_range_program sector (clean_image g)))
          ≡ accepted (clean_image g) 0 =
        ap examine (decode-program_sector (clean_image g) sector shaped) ∙ examine-image g v in
      rw (save-eq s sector v shaped) (rw e (refl, refl, refl, same, loaded, native))
