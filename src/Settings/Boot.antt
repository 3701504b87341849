-- ===== src/Settings/Boot.antt =====
-- romemul/sidetnfs_system_config.c: the settings after any boot pass the structural check, but for an
-- auth mode that the migration takes from the older store.
use Prim.Native.String.{String}
use side_tnfs_firmware.Prelude.{
  length-drop, ℕ, suc, ◌≤◌, ◌≡◌, ◌↔◌, refl, ◌∙◌, inl, inr, true, false, not, Bool-cases, Option,
  none, some, List, ltb, ◌==◌, length, drop, arith, strncpy, strnlen, c_str, padded, length-padded,
  length-append,
}
use side_tnfs_firmware.Drives.Flash.{codes}
use side_tnfs_firmware.Settings.{
  SystemSettings, default_settings, force_nul_termination, is_nul_terminated, validate_structure,
}
use side_tnfs_firmware.Settings.Layout.{decode}
use side_tnfs_firmware.Settings.Legacy.{
  LegacyStore, is_filled, is_true, flag, copy_entry, copy_filled, auth_of, flag_of,
  migrate_from_legacy,
}
use side_tnfs_firmware.Settings.Flash.{
  is_valid_block, fall_back, init, body_crc, system_magic, system_flash_version,
}
use side_tnfs_firmware.Settings.Checked.{
  IsSized, passes, numbers, checked, validate_structure-numbers, decode-IsSized,
}

strncpy-size :
    (n : ℕ) (field src : List ℕ) → length field ≡ suc n → length (strncpy field src n) ≡ suc n
unfolding strncpy
strncpy-size n field src h =
    length-append (padded n src) (drop n field)
    ∙ omega (arith, length-padded n src, length-drop n field, h)

copy_entry-size :
    (o : Option (List ℕ)) (n : ℕ) (field : List ℕ)
    → length field ≡ suc n
    → length (copy_entry o field n) ≡ suc n
unfolding copy_entry
copy_entry-size none n field h = h
copy_entry-size (some value) n field h = strncpy-size n field value h

copy_filled-size :
    (o : Option (List ℕ)) (n : ℕ) (field : List ℕ)
    → length field ≡ suc n
    → length (copy_filled o field n) ≡ suc n
unfolding copy_filled
copy_filled-size none n field h = h
copy_filled-size (some value) n field h = elim (Bool-cases (is_filled value)) [
  | inl e ↦ rw e (strncpy-size n field value h)
  | inr e ↦ rw e h
]

flag_of-le : (o : Option (List ℕ)) (missing : ℕ) → missing ≤ 1 → flag_of o missing ≤ 1
unfolding flag_of flag
flag_of-le none missing h = h
flag_of-le (some value) missing h = elim (Bool-cases (is_true value)) [
  | inl e ↦ rw e (omega arith)
  | inr e ↦ rw e (omega arith)
]

-- The auth mode of the older store.
abbrev pub legacy_auth : LegacyStore → ℕ
legacy_auth store = auth_of store (store.find_entry (codes "WIFI_AUTH"))

-- The numbers of migrated settings are good but for the auth mode.
numbers-auth :
    (s : SystemSettings) → s.use_dhcp ≤ 1 → s.rtc_enabled ≤ 1 → numbers s ≡ not (ltb 8 s.auth_mode)
unfolding numbers
numbers-auth s d r = ground (arith, d, r)

migrated_lem :
    (store : LegacyStore)
    → store.loaded_from_real_flash ≡ true
    → validate_structure (fall_back (migrate_from_legacy store)).settings
      ≡ not (ltb 8 (legacy_auth store))
unfolding migrate_from_legacy fall_back
migrated_lem store h =
    let find : String → Option (List ℕ) = λ key. store.find_entry (codes key) in
    let d = default_settings in
    let raw : SystemSettings = record d {
      auth_mode = auth_of store (find "WIFI_AUTH");
      use_dhcp = flag_of (find "WIFI_DHCP") 0;
      ssid = copy_entry (find "WIFI_SSID") d.ssid 35;
      password = copy_entry (find "WIFI_PASSWORD") d.password 67;
      country = copy_filled (find "WIFI_COUNTRY") d.country 3;
      ip_address = copy_entry (find "WIFI_IP") d.ip_address 15;
      netmask = copy_entry (find "WIFI_NETMASK") d.netmask 15;
      gateway = copy_entry (find "WIFI_GATEWAY") d.gateway 15;
      primary_dns = copy_entry (find "WIFI_DNS") d.primary_dns 15;
      rtc_enabled = flag_of (find "GEMDRIVE_RTC") 1;
      ntp_server = copy_filled (find "RTC_NTP_SERVER_HOST") d.ntp_server 63;
      utc_offset = copy_filled (find "RTC_UTC_OFFSET") d.utc_offset 3;
    } in
    let sized : IsSized raw = record {
      ssid = copy_entry-size (find "WIFI_SSID") 35 d.ssid refl;
      password = copy_entry-size (find "WIFI_PASSWORD") 67 d.password refl;
      country = copy_filled-size (find "WIFI_COUNTRY") 3 d.country refl;
      ip_address = copy_entry-size (find "WIFI_IP") 15 d.ip_address refl;
      netmask = copy_entry-size (find "WIFI_NETMASK") 15 d.netmask refl;
      gateway = copy_entry-size (find "WIFI_GATEWAY") 15 d.gateway refl;
      primary_dns = copy_entry-size (find "WIFI_DNS") 15 d.primary_dns refl;
      ntp_server = copy_filled-size (find "RTC_NTP_SERVER_HOST") 63 d.ntp_server refl;
      utc_offset = copy_filled-size (find "RTC_UTC_OFFSET") 3 d.utc_offset refl;
    } in
    rw h (
      checked raw sized
      ∙ numbers-auth raw (flag_of-le (find "WIFI_DHCP") 0 (omega arith))
          (flag_of-le (find "GEMDRIVE_RTC") 1 (omega arith)))

valid_settings :
    (sector : List ℕ)
    → is_valid_block (decode sector) ≡ true
    → validate_structure (decode sector).settings ≡ true
unfolding is_valid_block
valid_settings sector h =
    let f = decode sector in
    let (_, h1) = passes (not (f.magic == system_magic)) _ h in
    let (_, h2) = passes (not (f.version == system_flash_version)) _ h1 in
    (passes (not (body_crc f == f.crc32)) _ h2).1

defaults :
    (store : LegacyStore)
    → store.loaded_from_real_flash ≡ false
    → let booted = (fall_back (migrate_from_legacy store)).settings in
      (booted ≡ default_settings) × (validate_structure booted ≡ true)
unfolding migrate_from_legacy fall_back validate_structure is_nul_terminated strnlen c_str
defaults store h = rw h (refl, refl)

migrated_iff :
    (store : LegacyStore)
    → store.loaded_from_real_flash ≡ true
    → (validate_structure (fall_back (migrate_from_legacy store)).settings ≡ true)
      ↔ (legacy_auth store ≤ 8)
migrated_iff store h =
    let m = migrated_lem store h in ((λ k. ground (arith, m, k)), (λ k. ground (arith, m, k)))

-- On a sector that has a whole block: a boot leaves settings that pass the structural check, those of
-- the sector, terminated, if its block is valid, and the defaults if it is not and the older store was
-- not found; settings that were migrated from the older store pass exactly if its auth mode is at most 8.
pub init_passes :
    (store : LegacyStore) (sector : List ℕ)
    → 276 ≤ length sector
    → let booted = (init store sector).settings in
      (is_valid_block (decode sector) ≡ true
        → (booted ≡ force_nul_termination (decode sector).settings)
          × (validate_structure booted ≡ true))
      × (is_valid_block (decode sector) ≡ false
          → store.loaded_from_real_flash ≡ false
          → (booted ≡ default_settings) × (validate_structure booted ≡ true))
      × (is_valid_block (decode sector) ≡ false
          → store.loaded_from_real_flash ≡ true
          → (validate_structure booted ≡ true) ↔ (legacy_auth store ≤ 8))
unfolding init
init_passes store sector l = (
  (λ h. rw h (
    refl,
    checked (decode sector).settings (decode-IsSized sector l)
        ∙ validate_structure-numbers (decode sector).settings (valid_settings sector h),
  )),
  (λ h g. rw h (defaults store g)),
  (λ h g. rw h (migrated_iff store g)),
)
