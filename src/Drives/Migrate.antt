-- ===== src/Drives/Migrate.antt =====
-- A block of flash format version 2 is carried over.
use side_tnfs_firmware.Prelude.{
  ℕ, suc, ◌≡◌, ◌≢◌, refl, ap, sym, ◌∙◌, subst, true, some, List, [], ◌∷◌, map, arith, length,
  length-map, get_elem?, get_elem?-map_inv, if◌then◌else◌, ◌==◌, replicate,
}
use native.Mathlib.Decide.{ℕ_discrete}
use side_tnfs_firmware.Drives.{
  DriveConfig, DriveFlash, ok, drive_slot_is_configured, count_configured, validate_structure,
  force_nul_drive, force_nul_termination, empty_drive,
}
use side_tnfs_firmware.Drives.Spec.{IsDriveLetter, IsRecord, IsConfigured, IsSlot, IsValid}
use side_tnfs_firmware.Drives.Validate.{validate_structure_complete}
use side_tnfs_firmware.Drives.Preserve.{empty_drive-IsSlot}
use side_tnfs_firmware.Drives.Rewrite.{map-IsValid, force_nul_drive-IsHarmless}
use side_tnfs_firmware.Drives.Layout.{decode}
use side_tnfs_firmware.Drives.Flash.{
  ConfigState, config_magic, config_flash_version_v2, body_crc, with_crc, migrate_drive, count_used,
  migrated_config, accepted, check_block, examine, adopt, init,
}
use side_tnfs_firmware.Drives.Save.{with_crc-body_crc, force_nul_drives_twice}

-- A version 2 block: what a drive list must be, with `used` for the state.
pub record IsValidV2 (c : DriveFlash) : Type 0 where
  pub slots : length c.drives ≡ 8
  pub letter : IsDriveLetter c.config_drive_letter
  pub each :
      (i : ℕ) (d : DriveConfig)
      → get_elem? c.drives i ≡ some d
      → d.state ≢ 0
      → IsRecord d × (d.drive_letter ≢ c.config_drive_letter)
  pub distinct :
      (i j : ℕ) (d e : DriveConfig)
      → i ≢ j
      → get_elem? c.drives i ≡ some d
      → get_elem? c.drives j ≡ some e
      → d.state ≢ 0
      → e.state ≢ 0
      → d.drive_letter ≢ e.drive_letter

abbrev enabled : DriveConfig → DriveConfig
enabled d = record d { state = 2; reserved0 = replicate 2 0 }

migrate-unused : (d : DriveConfig) → d.state ≡ 0 → migrate_drive d ≡ empty_drive
unfolding migrate_drive
migrate-unused d h = ground arith

migrate-used : (d : DriveConfig) → d.state ≢ 0 → migrate_drive d ≡ enabled d
unfolding migrate_drive
migrate-used d h = ground arith

migrated_used : (d : DriveConfig) → IsConfigured (migrate_drive d) → (d.state ≢ 0)
unfolding migrate_drive drive_slot_is_configured
migrated_used d c h = ground arith

count_migrated : (ds : List DriveConfig) → count_configured (map migrate_drive ds) ≡ count_used ds
unfolding count_configured count_used drive_slot_is_configured migrate_drive
count_migrated [] = refl
count_migrated (d ∷ ds) = ground (arith, count_migrated ds)

migrate_drive-IsSlot :
    (l : ℕ) (d : DriveConfig)
    → (d.state ≢ 0 → IsRecord d × (d.drive_letter ≢ l))
    → IsSlot l (migrate_drive d)
migrate_drive-IsSlot l d h = elim (ℕ_discrete d.state 0) [
  | yes e ↦ rw (migrate-unused d e) (empty_drive-IsSlot l)
  | no n ↦
      rw (migrate-used d n)
        (record { state = omega arith; complete = λ _. (h n).0; not_settings = λ _. (h n).1 })
]

letter_of :
    (d x : DriveConfig) → d.state ≢ 0 → migrate_drive d ≡ x → d.drive_letter ≡ x.drive_letter
letter_of d x n e =
    ap (λ (y : DriveConfig). y.drive_letter) (sym (migrate-used d n))
    ∙ ap (λ (y : DriveConfig). y.drive_letter) e

unterminated-IsValid :
    (old : DriveFlash)
    → IsValidV2 old
    → IsValid
        (record old { drive_count = count_used old.drives; drives = map migrate_drive old.drives })
unterminated-IsValid old v = record {
  slots = length-map migrate_drive old.drives ∙ v.slots;
  letter = v.letter;
  each = λ i d e.
      let (x, h, p) = get_elem?-map_inv migrate_drive old.drives i e in
      subst (IsSlot old.config_drive_letter) p
        (migrate_drive-IsSlot old.config_drive_letter x (v.each i x h));
  distinct = λ i j d e n hd he cd ce.
      let (x, h, p) = get_elem?-map_inv migrate_drive old.drives i hd in
      let (y, k, q) = get_elem?-map_inv migrate_drive old.drives j he in
      let ux = migrated_used x (ap drive_slot_is_configured p ∙ cd) in
      let uy = migrated_used y (ap drive_slot_is_configured q ∙ ce) in
      λ r. v.distinct i j x y n h k ux uy (letter_of x d ux p ∙ r ∙ sym (letter_of y e uy q));
  count = sym (count_migrated old.drives);
}

migrated_config-IsValid : (old : DriveFlash) → IsValidV2 old → IsValid (migrated_config old)
unfolding migrated_config with_crc force_nul_termination
migrated_config-IsValid old v =
    map-IsValid force_nul_drive force_nul_drive-IsHarmless
      (record old { drive_count = count_used old.drives; drives = map migrate_drive old.drives }) _
      refl refl refl (unterminated-IsValid old v)

migrated_crc : (old : DriveFlash) → body_crc (migrated_config old) ≡ (migrated_config old).crc32
unfolding migrated_config
migrated_crc old = with_crc-body_crc _

examine-v2 :
    (c : DriveFlash)
    → c.magic ≡ config_magic
    → c.version ≡ config_flash_version_v2
    → body_crc c ≡ c.crc32
    → body_crc (migrated_config c) ≡ (migrated_config c).crc32
    → validate_structure (migrated_config c) ≡ ok
    → examine c ≡ accepted (migrated_config c) config_flash_version_v2
unfolding examine check_block
examine-v2 c m v b b' s = ground arith

migrated-terminated :
    (old : DriveFlash) → force_nul_termination (migrated_config old) ≡ migrated_config old
unfolding migrated_config with_crc force_nul_termination
migrated-terminated old =
    ap (λ ds. record (migrated_config old) { drives = ds })
      (force_nul_drives_twice (map migrate_drive old.drives))

get_elem?-map :
    (f : DriveConfig → DriveConfig) (ds : List DriveConfig) (i : ℕ) (d : DriveConfig)
    → get_elem? ds i ≡ some d
    → get_elem? (map f ds) i ≡ some (f d)
get_elem?-map f [] i d h = absurd (ground arith)
get_elem?-map f (x ∷ ds) ℕ.zero d h = ap some (ap f (ground arith))
get_elem?-map f (x ∷ ds) (suc i) d h = get_elem?-map f ds i d h

-- What a slot of version 2 becomes.
abbrev pub carried : DriveConfig → DriveConfig
carried d = if d.state == 0 then empty_drive else force_nul_drive (enabled d)

carried_lem : (d : DriveConfig) → force_nul_drive (migrate_drive d) ≡ carried d
unfolding force_nul_drive migrate_drive
carried_lem d = ground arith

migrated_letter :
    (old : DriveFlash) → (migrated_config old).config_drive_letter ≡ old.config_drive_letter
unfolding migrated_config with_crc force_nul_termination
migrated_letter old = refl

migrated_slot :
    (old : DriveFlash) (i : ℕ) (d : DriveConfig)
    → get_elem? old.drives i ≡ some d
    → get_elem? (migrated_config old).drives i ≡ some (carried d)
unfolding migrated_config with_crc force_nul_termination
migrated_slot old i d h =
    get_elem?-map force_nul_drive (map migrate_drive old.drives) i (migrate_drive d)
      (get_elem?-map migrate_drive old.drives i d h)
    ∙ ap some (carried_lem d)

adopt-migrated :
    (c : DriveFlash) (s : ConfigState)
    → force_nul_termination c ≡ c
    → let booted = adopt (accepted c config_flash_version_v2) s in
      (booted.config ≡ c) × (booted.loaded_from_flash ≡ true) × (booted.migrated_from_version ≡ 2)
unfolding adopt
adopt-migrated c s e = (e, refl, refl)

-- A version 2 block with the magic, a matching checksum, complete records and different letters is
-- never dropped: boot loads it and reports the migration from version 2. The settings letter stays,
-- an unused slot is empty, and a used one is ENABLED with its letter, type, transport, port and
-- strings, the strings terminated.
pub init_migrates :
    (sector : List ℕ) (s : ConfigState)
    → (decode sector).magic ≡ config_magic
    → (decode sector).version ≡ 2
    → body_crc (decode sector) ≡ (decode sector).crc32
    → IsValidV2 (decode sector)
    → let booted = init sector s in
      (booted.loaded_from_flash ≡ true)
      × (booted.migrated_from_version ≡ 2)
      × (booted.config.config_drive_letter ≡ (decode sector).config_drive_letter)
      × ((i : ℕ) (d : DriveConfig)
          → get_elem? (decode sector).drives i ≡ some d
          → get_elem? booted.config.drives i ≡ some (carried d))
unfolding init
init_migrates sector s m v b w =
    let old = decode sector in
    let good = validate_structure_complete (migrated_config old) (migrated_config-IsValid old w) in
    let (same, loaded, version) =
      adopt-migrated (migrated_config old) s (migrated-terminated old) in
    rw (examine-v2 old m v b (migrated_crc old) good) (
      loaded,
      version,
      ap (λ (c : DriveFlash). c.config_drive_letter) same ∙ migrated_letter old,
      λ i d h. ap (λ (c : DriveFlash). get_elem? c.drives i) same ∙ migrated_slot old i d h,
    )
