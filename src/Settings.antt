-- ===== src/Settings.antt =====
-- romemul/sidetnfs_system_config.c: the settings of Wi-Fi, network and clock that one block of flash
-- holds. The two modules that change them are `Settings.Network` and `Settings.Clock`.
pub mod Layout
pub mod Legacy
pub mod Flash
pub mod Network
pub mod Clock
pub mod Device
pub mod Fields
pub mod Offset
pub mod Stored
pub mod Spec
pub mod NetworkHalf
pub mod ClockHalf
pub mod Checked
pub mod Boot
pub mod Saving
pub mod Refinement
mod Tests
use side_tnfs_firmware.Prelude.{
  ℕ, ◌-◌, Bool, true, false, not, ◌&&◌, ◌||◌, List, [], ltb, leb, ◌==◌, if◌then◌else◌, set,
  replicate, strnlen,
}
use side_tnfs_firmware.Drives.Flash.{codes, char_array}

-- `sidetnfs_system_settings_t`
pub record SystemSettings : Type 0 where
  pub auth_mode : ℕ
  pub use_dhcp : ℕ
  pub ssid : List ℕ
  pub password : List ℕ
  pub country : List ℕ
  pub ip_address : List ℕ
  pub netmask : List ℕ
  pub gateway : List ℕ
  pub primary_dns : List ℕ
  pub rtc_enabled : ℕ
  pub ntp_server : List ℕ
  pub utc_offset : List ℕ
  pub reserved : List ℕ

-- `sidetnfs_system_flash_t`, with the two bytes of padding before its checksum.
pub record SystemFlash : Type 0 where
  pub magic : ℕ
  pub version : ℕ
  pub settings : SystemSettings
  pub padding : List ℕ
  pub crc32 : ℕ

-- `sidetnfs_system_config_status_t`
pub data SysStatus : Type 0 where
  sys_ok : SysStatus
  invalid_structure : SysStatus
  sys_write_failed : SysStatus
  sys_crc_mismatch : SysStatus
  unsupported_version : SysStatus

-- The static variables of the file.
pub record SystemState : Type 0 where
  pub settings : SystemSettings
  pub ready : Bool
  pub loaded_from_flash : Bool
  pub migrated_from_legacy : Bool

-- `SIDETNFS_SYSTEM_DEFAULT_SETTINGS`
abbrev pub default_settings : SystemSettings
default_settings = record {
  auth_mode = 3;
  use_dhcp = 1;
  ssid = replicate 36 0;
  password = replicate 68 0;
  country = char_array 4 "XX";
  ip_address = replicate 16 0;
  netmask = replicate 16 0;
  gateway = replicate 16 0;
  primary_dns = char_array 16 "8.8.8.8";
  rtc_enabled = 1;
  ntp_server = char_array 64 "pool.ntp.org";
  utc_offset = char_array 4 "+1";
  reserved = replicate 16 0;
}

-- `sidetnfs_system_config_force_nul_termination`
unfoldable pub force_nul_termination : SystemSettings → SystemSettings
force_nul_termination s = record s {
  ssid = set s.ssid 35 0;
  password = set s.password 67 0;
  country = set s.country 3 0;
  ip_address = set s.ip_address 15 0;
  netmask = set s.netmask 15 0;
  gateway = set s.gateway 15 0;
  primary_dns = set s.primary_dns 15 0;
  ntp_server = set s.ntp_server 63 0;
  utc_offset = set s.utc_offset 3 0;
}

-- A field of `size` characters has its NUL.
unfoldable pub is_nul_terminated : List ℕ → ℕ → Bool
is_nul_terminated field size = ltb (strnlen field size) size

-- `sidetnfs_system_config_validate_structure`
unfoldable pub validate_structure : SystemSettings → Bool
validate_structure s =
    if not (is_nul_terminated s.ssid 36)
    then false
    else if not (is_nul_terminated s.password 68)
    then false
    else if not (is_nul_terminated s.country 4)
    then false
    else if not (is_nul_terminated s.ip_address 16)
    then false
    else if not (is_nul_terminated s.netmask 16)
    then false
    else if not (is_nul_terminated s.gateway 16)
    then false
    else if not (is_nul_terminated s.primary_dns 16)
    then false
    else if not (is_nul_terminated s.ntp_server 64)
    then false
    else if not (is_nul_terminated s.utc_offset 4)
    then false
    else if not (s.use_dhcp == 0) && not (s.use_dhcp == 1)
    then false
    else if not (s.rtc_enabled == 0) && not (s.rtc_enabled == 1)
    then false
    else if ltb 8 s.auth_mode
    then false
    else true

-- `sidetnfs_system_config_get`
unfoldable pub get : SystemState → SystemSettings
get st = if not st.ready then default_settings else st.settings

-- `sidetnfs_system_config_set`
unfoldable pub set_settings : SystemSettings → SystemState → SysStatus × SystemState
set_settings input st =
    if not (validate_structure (force_nul_termination input))
    then (invalid_structure, st)
    else (sys_ok, record st { settings = force_nul_termination input; ready = true })
