-- ===== src/Drives/Tests.antt =====
-- The drive list at concrete inputs.
use side_tnfs_firmware.Prelude.{
  ℕ, ◌≤◌, ◌≡◌, ◌≢◌, ◌↔◌, inr, refl, ap, sym, ◌∙◌, subst, true, false, some, List, [], ◌∷◌, ◌++◌,
  arith, length, drop, drop-replicate, replicate, get_elem?, set,
}
use side_tnfs_firmware.Drives.{
  DriveConfig, DriveFlash, ok, invalid_index, duplicate_drive_letter, validate_structure,
  drive_slot_is_configured, validate_drive_record, is_valid_drive_letter, letter_used,
  force_nul_drive, recompute_drive_count, empty_drive,
}
use side_tnfs_firmware.Drives.Commands.{
  letter_taken, set_drive, store_drive, candidate_of, zero_irrelevant, Command, set_drive_cmd,
  set_state_cmd, delete_cmd, set_letter_cmd, execute, execute_all, set_config_drive_letter,
}
use side_tnfs_firmware.Drives.Spec.{IsConfigured, IsRecord, IsValid}
use side_tnfs_firmware.Drives.Validate.{validate_structure_iff}
use side_tnfs_firmware.Drives.Preserve.{execute_all-IsValid}
use side_tnfs_firmware.Drives.Accept.{IsFree, set_drive_accepts_iff}
use side_tnfs_firmware.Drives.Boot.{default_config-IsValid, init-IsValid}
use side_tnfs_firmware.Drives.Flash.{
  ConfigState, no_fallback, default_config, with_crc, body_crc, clean_image, save, factory_reset,
  flash_matches_factory_defaults, init, config_magic,
}
use side_tnfs_firmware.Drives.Layout.{IsShaped, encode, decode, decode-encode}
use side_tnfs_firmware.Drives.Save.{with_crc-body_crc, Programs, save_then_init}
use side_tnfs_firmware.Drives.Factory.{default_config-IsDriveShaped, factory_reset_lem}
use side_tnfs_firmware.Drives.Shape.{body_crc-lt, zeros-IsField, zero_bytes}
use side_tnfs_firmware.Drives.Migrate.{IsValidV2, carried, init_migrates}

-- An SD drive P: on the folder /g.
abbrev games : DriveConfig
games = record empty_drive {
  state = 2;
  drive_letter = b'P';
  type = 1;
  sd_path = b'/' ∷ b'g' ∷ replicate 62 0;
}

validate_structure_iff_example : (validate_structure default_config ≡ ok) ↔ IsValid default_config
validate_structure_iff_example = validate_structure_iff default_config default_config-IsValid.slots

abbrev script : List Command
script = set_drive_cmd 1 games ∷ set_state_cmd 0 1 ∷ set_letter_cmd b'P' ∷ delete_cmd 1 ∷ []

execute_all-IsValid_example : IsValid (execute_all script default_config)
execute_all-IsValid_example = execute_all-IsValid script default_config default_config-IsValid

-- P: is taken by the SD drive, so it cannot be the settings drive.
letter_taken_status :
    (set_config_drive_letter b'P' (set_drive 1 games default_config).1).0 ≡ duplicate_drive_letter
unfolding set_config_drive_letter set_drive store_drive candidate_of force_nul_drive zero_irrelevant
    recompute_drive_count default_config validate_drive_record is_valid_drive_letter letter_used
    letter_taken drive_slot_is_configured
letter_taken_status = refl

set_drive_out : (execute (set_drive_cmd 8 games) default_config).0 ≡ invalid_index
unfolding execute set_drive
set_drive_out = refl

set_drive_accepts_iff_example :
    ((set_drive 1 games default_config).0 ≡ ok → IsRecord games × IsFree 1 b'P' default_config)
    × (IsRecord games × IsFree 1 b'P' default_config
        → set_drive 1 games default_config ≡ (
          ok,
          recompute_drive_count (record default_config {
            drives = set default_config.drives 1 (zero_irrelevant (candidate_of games));
          }),
        ))
set_drive_accepts_iff_example =
    set_drive_accepts_iff 1 games default_config (omega arith) (inr refl)

-- Before boot.
abbrev cold : ConfigState
cold = record {
  config = default_config;
  ready = false;
  pending = false;
  loaded_from_flash = false;
  fallback_reason = no_fallback;
  fallback_structure_status = ok;
  migrated_from_version = 0;
}

init-IsValid_example :
    IsValid (init [] cold).config
    × ((init [] cold).loaded_from_flash ≡ false → (init [] cold).config ≡ default_config)
init-IsValid_example = init-IsValid [] cold

-- A flash as the driver documents it.
abbrev erase : List ℕ → List ℕ
erase _ = replicate 4096 255

abbrev program : List ℕ → List ℕ → List ℕ
program sector buffer = buffer ++ drop (length buffer) sector

flash-Programs : Programs erase program
flash-Programs sector buffer =
    ap (λ l. buffer ++ l) (drop-replicate {A = ℕ} (length buffer) 4096 255)

save_then_init_example :
    let (status, saved, sector') = save erase program cold [] in
    let booted = init sector' cold in
    (status ≡ ok)
    × (saved.pending ≡ true)
    × (saved.config ≡ clean_image default_config)
    × (booted.config ≡ saved.config)
    × (booted.loaded_from_flash ≡ true)
    × (booted.migrated_from_version ≡ 0)
save_then_init_example =
    save_then_init erase program flash-Programs cold cold [] default_config-IsValid
      default_config-IsDriveShaped

factory_reset_lem_example :
    let (status, reset, sector') = factory_reset erase program cold [] in
    let booted = init sector' cold in
    (status ≡ ok)
    × (booted.loaded_from_flash ≡ true)
    × (booted.config ≡ with_crc default_config)
    × (flash_matches_factory_defaults sector' ≡ true)
factory_reset_lem_example = factory_reset_lem erase program flash-Programs cold cold []

-- The factory list as version 2 stored it.
abbrev old_block : DriveFlash
old_block = with_crc (record default_config { version = 2 })

old_block-IsShaped : IsShaped old_block
unfolding with_crc default_config
old_block-IsShaped = record {
  magic = omega arith;
  version = omega arith;
  config_drive_letter = omega arith;
  drive_count = omega arith;
  reserved = zeros-IsField 2;
  slots = refl;
  drives = default_config-IsDriveShaped;
  crc32 =
      body_crc-lt (record default_config { version = 2 }) (omega arith) (omega arith) (zero_bytes 2)
        default_config-IsDriveShaped;
}

decoded : decode (encode old_block ++ []) ≡ old_block
decoded = decode-encode old_block [] old_block-IsShaped

used-IsConfigured : (d : DriveConfig) → d.state ≤ 2 → d.state ≢ 0 → IsConfigured d
unfolding drive_slot_is_configured
used-IsConfigured d h n = ground arith

IsValidV2-of : (c : DriveFlash) → IsValid c → IsValidV2 c
IsValidV2-of c v = record {
  slots = v.slots;
  letter = v.letter;
  each = λ i d h n.
      let s = v.each i d h in
      let used = used-IsConfigured d s.state n in (s.complete used, s.not_settings used);
  distinct = λ i j d e n h k a b.
      v.distinct i j d e n h k (used-IsConfigured d (v.each i d h).state a)
        (used-IsConfigured e (v.each j e k).state b);
}

old_block-IsValidV2 : IsValidV2 old_block
unfolding with_crc
old_block-IsValidV2 = record {
  slots = old.slots;
  letter = old.letter;
  each = old.each;
  distinct = old.distinct;
}
  where
    old : IsValidV2 default_config
    old = IsValidV2-of default_config default_config-IsValid

old_magic : old_block.magic ≡ config_magic
unfolding with_crc default_config
old_magic = refl

old_version : old_block.version ≡ 2
unfolding with_crc
old_version = refl

abbrev old_sector : List ℕ
old_sector = encode old_block ++ []

init_migrates_example :
    let booted = init old_sector cold in
    (booted.loaded_from_flash ≡ true)
    × (booted.migrated_from_version ≡ 2)
    × (booted.config.config_drive_letter ≡ (decode old_sector).config_drive_letter)
    × ((i : ℕ) (d : DriveConfig)
        → get_elem? (decode old_sector).drives i ≡ some d
        → get_elem? booted.config.drives i ≡ some (carried d))
init_migrates_example =
    init_migrates old_sector cold (ap (λ (c : DriveFlash). c.magic) decoded ∙ old_magic)
      (ap (λ (c : DriveFlash). c.version) decoded ∙ old_version)
      (ap body_crc decoded
        ∙ with_crc-body_crc (record default_config { version = 2 })
        ∙ ap (λ (c : DriveFlash). c.crc32) (sym decoded))
      (subst IsValidV2 (sym decoded) old_block-IsValidV2)
