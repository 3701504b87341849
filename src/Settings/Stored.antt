-- ===== src/Settings/Stored.antt =====
-- romemul/sidetnfs_system_config.c: settings that are set and saved are in flash, and the next boot
-- loads them.
use side_tnfs_firmware.Prelude.{
  ℕ, ◌≤◌, ◌≡◌, refl, ap, ◌∙◌, true, false, not, ◌&&◌, List, ◌++◌, append_assoc, ◌==◌, ltb,
  replicate, set-set, arith,
}
use side_tnfs_firmware.Crc32.{crc32-lt}
use side_tnfs_firmware.Drives.Save.{Programs}
use side_tnfs_firmware.Settings.{
  SystemSettings, SystemFlash, sys_ok, SystemState, force_nul_termination, validate_structure,
  set_settings,
}
use side_tnfs_firmware.Settings.Layout.{
  IsMember, IsShaped, IsBlock, encode_body, encode, decode, encode_body_bytes, decode-encode,
}
use side_tnfs_firmware.Settings.Legacy.{LegacyStore}
use side_tnfs_firmware.Settings.Flash.{
  system_magic, system_flash_version, body_crc, is_valid_block, init, clean_block, verify,
  program_sector, save,
}
use side_tnfs_firmware.Settings.Network.{set_then_save}
use side_tnfs_firmware.Settings.Fields.{set-IsMember, terminated_lem}

-- The numbers of the settings are in their ranges.
pub record InRange (s : SystemSettings) : Type 0 where
  pub auth_mode : s.auth_mode ≤ 8
  pub use_dhcp : s.use_dhcp ≤ 1
  pub rtc_enabled : s.rtc_enabled ≤ 1

pub force_nul_termination-IsShaped :
    (s : SystemSettings) → IsShaped s → IsShaped (force_nul_termination s)
unfolding force_nul_termination
force_nul_termination-IsShaped s h = record {
  auth_mode = h.auth_mode;
  use_dhcp = h.use_dhcp;
  rtc_enabled = h.rtc_enabled;
  reserved = h.reserved;
  ssid = set-IsMember 35 s.ssid h.ssid;
  password = set-IsMember 67 s.password h.password;
  country = set-IsMember 3 s.country h.country;
  ip_address = set-IsMember 15 s.ip_address h.ip_address;
  netmask = set-IsMember 15 s.netmask h.netmask;
  gateway = set-IsMember 15 s.gateway h.gateway;
  primary_dns = set-IsMember 15 s.primary_dns h.primary_dns;
  ntp_server = set-IsMember 63 s.ntp_server h.ntp_server;
  utc_offset = set-IsMember 3 s.utc_offset h.utc_offset;
}

pub force_nul_termination_twice :
    (s : SystemSettings) → force_nul_termination (force_nul_termination s) ≡ force_nul_termination s
unfolding force_nul_termination
force_nul_termination_twice s = λ i. record (force_nul_termination s) {
  ssid = set-set s.ssid 35 0 0 i;
  password = set-set s.password 67 0 0 i;
  country = set-set s.country 3 0 0 i;
  ip_address = set-set s.ip_address 15 0 0 i;
  netmask = set-set s.netmask 15 0 0 i;
  gateway = set-set s.gateway 15 0 0 i;
  primary_dns = set-set s.primary_dns 15 0 0 i;
  ntp_server = set-set s.ntp_server 63 0 0 i;
  utc_offset = set-set s.utc_offset 3 0 0 i;
}

flag_test : (n : ℕ) → n ≤ 1 → (not (n == 0) && not (n == 1)) ≡ false
flag_test n h = ground (arith, h)

pub validate_structure-terminated :
    (s : SystemSettings)
    → IsShaped s
    → InRange s
    → validate_structure (force_nul_termination s) ≡ true
unfolding validate_structure force_nul_termination
validate_structure-terminated s h r =
    let auth : ltb 8 s.auth_mode ≡ false = let k = r.auth_mode in ground (arith, k) in
    rw
      (
        terminated_lem 35 s.ssid h.ssid.0,
        terminated_lem 67 s.password h.password.0,
        terminated_lem 3 s.country h.country.0,
        terminated_lem 15 s.ip_address h.ip_address.0,
        terminated_lem 15 s.netmask h.netmask.0,
        terminated_lem 15 s.gateway h.gateway.0,
        terminated_lem 15 s.primary_dns h.primary_dns.0,
        terminated_lem 63 s.ntp_server h.ntp_server.0,
        terminated_lem 3 s.utc_offset h.utc_offset.0,
        flag_test s.use_dhcp r.use_dhcp,
        flag_test s.rtc_enabled r.rtc_enabled,
        auth,
      )
      refl

clean_block-IsBlock : (s : SystemSettings) → IsShaped s → IsBlock (clean_block s)
unfolding clean_block body_crc
clean_block-IsBlock s h =
    let shaped = force_nul_termination-IsShaped s h in
    let zeros : IsMember 2 (replicate 2 0) = (refl, (omega arith, (omega arith, tt))) in
    let body : SystemFlash = record {
      magic = system_magic;
      version = system_flash_version;
      settings = force_nul_termination s;
      padding = replicate 2 0;
      crc32 = 0;
    } in
    record {
      magic = omega arith;
      version = omega arith;
      settings = shaped;
      padding = zeros;
      crc32 = crc32-lt (encode_body body) (encode_body_bytes body shaped zeros);
    }

clean_block-crc : (s : SystemSettings) → body_crc (clean_block s) ≡ (clean_block s).crc32
unfolding clean_block body_crc encode_body
clean_block-crc s = refl

-- The state after settings were saved.
abbrev pub stored_state : SystemSettings → SystemState
stored_state s = record {
  settings = s;
  ready = true;
  loaded_from_flash = true;
  migrated_from_legacy = false;
}

verify-clean :
    (f : SystemFlash) (st : SystemState) (sector : List ℕ)
    → decode sector ≡ f
    → f.magic ≡ system_magic
    → f.version ≡ system_flash_version
    → body_crc f ≡ f.crc32
    → verify st sector ≡ (sys_ok, stored_state f.settings, sector)
unfolding verify
verify-clean f st sector d m v b = ground arith

is_valid_block-clean :
    (f : SystemFlash)
    → f.magic ≡ system_magic
    → f.version ≡ system_flash_version
    → body_crc f ≡ f.crc32
    → is_valid_block f ≡ validate_structure f.settings
unfolding is_valid_block
is_valid_block-clean f m v b = ground arith

-- The sector holds the settings, terminated.
abbrev pub Holds : List ℕ → SystemSettings → Type 0
Holds sector s = decode sector ≡ clean_block s

-- The next boot loads what the sector holds.
pub init-Holds :
    (store : LegacyStore) (sector : List ℕ) (s : SystemSettings)
    → IsShaped s
    → InRange s
    → Holds sector s
    → init store sector ≡ stored_state (force_nul_termination s)
unfolding init clean_block
init-Holds store sector s h r d =
    rw
      (
        d,
        is_valid_block-clean (clean_block s) refl refl (clean_block-crc s),
        validate_structure-terminated s h r,
      )
      (ap stored_state (force_nul_termination_twice s))

module _ (flash_range_erase : List ℕ → List ℕ) (flash_range_program : List ℕ → List ℕ → List ℕ)
    (programs : Programs flash_range_erase flash_range_program) where
  pub decode-program_sector :
      (s : SystemSettings) (sector : List ℕ)
      → IsShaped s
      → Holds (program_sector flash_range_erase flash_range_program sector (clean_block s)) s
  unfolding program_sector
  decode-program_sector s sector h =
      let f = clean_block s in
      ap decode (
        programs sector (encode f ++ replicate 236 0) ∙ append_assoc (encode f) (replicate 236 0) _)
      ∙ decode-encode f _ (clean_block-IsBlock s h)

  -- Settings that are set and saved are active, and the sector holds them.
  pub set_then_save_lem :
      (s : SystemSettings) (st : SystemState) (sector : List ℕ)
      → IsShaped s
      → InRange s
      → let t = force_nul_termination s in
        (sector' : List ℕ) × Holds sector' t
        × (set_then_save flash_range_erase flash_range_program (set_settings s st) sector
            ≡ (sys_ok, stored_state t, sector'))
  unfolding set_then_save set_settings save clean_block
  set_then_save_lem s st sector h r =
      let t = force_nul_termination s in
      let shaped = force_nul_termination-IsShaped s h in
      let sector' = program_sector flash_range_erase flash_range_program sector (clean_block t) in
      let held = decode-program_sector t sector shaped in
      let valid = validate_structure-terminated s h r in
      (
        sector',
        held,
        rw (valid, valid)
            (verify-clean (clean_block t) _ sector' held refl refl (clean_block-crc t)
              ∙ ap (λ u. (sys_ok, stored_state u, sector')) (force_nul_termination_twice s)),
      )
