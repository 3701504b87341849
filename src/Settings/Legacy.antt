-- ===== src/Settings/Legacy.antt =====
-- The migration of romemul/sidetnfs_system_config.c from the older store of entries.
use Prim.Native.String.{String}
use side_tnfs_firmware.Prelude.{
  ℕ, Bool, not, ◌||◌, Option, none, some, List, ◌==◌, if◌then◌else◌, get_or, c_str, strncpy,
}
use side_tnfs_firmware.Drives.Flash.{codes}
use side_tnfs_firmware.Settings.{SystemSettings, default_settings, force_nul_termination}

-- What the older store offers: whether it was found in flash, the value of an entry as its 64
-- characters, and `(uint16_t)atoi` of the C library.
pub record LegacyStore : Type 0 where
  pub loaded_from_real_flash : Bool
  pub find_entry : List ℕ → Option (List ℕ)
  pub atoi : List ℕ → ℕ

-- `strlen(value) > 0`
unfoldable pub is_filled : List ℕ → Bool
is_filled value = not (get_or value 0 0 == 0)

unfoldable pub is_true : List ℕ → Bool
is_true value = get_or value 0 0 == b't' || get_or value 0 0 == b'T'

unfoldable pub flag : Bool → ℕ
flag b = if b then 1 else 0

-- A string entry that is there, or one that is also filled, replaces the field.
unfoldable pub copy_entry : Option (List ℕ) → List ℕ → ℕ → List ℕ
copy_entry none field n = field
copy_entry (some value) field n = strncpy field value n

unfoldable pub copy_filled : Option (List ℕ) → List ℕ → ℕ → List ℕ
copy_filled none field n = field
copy_filled (some value) field n = if is_filled value then strncpy field value n else field

unfoldable pub auth_of : LegacyStore → Option (List ℕ) → ℕ
auth_of store none = 0
auth_of store (some value) = if is_filled value then store.atoi (c_str value) else 0

unfoldable pub flag_of : Option (List ℕ) → ℕ → ℕ
flag_of none missing = missing
flag_of (some value) missing = flag (is_true value)

-- `sidetnfs_system_config_migrate_from_legacy`
unfoldable pub migrate_from_legacy : LegacyStore → Option SystemSettings
unfolding auth_of flag_of copy_entry copy_filled
migrate_from_legacy store =
    let find : String → Option (List ℕ) = λ key. store.find_entry (codes key) in
    let d = default_settings in
    if not store.loaded_from_real_flash
    then none
    else some (
        force_nul_termination (record d {
          auth_mode = auth_of store (find "WIFI_AUTH");
          use_dhcp = flag_of (find "WIFI_DHCP") 0;
          ssid = copy_entry (find "WIFI_SSID") d.ssid 35;
          password = copy_entry (find "WIFI_PASSWORD") d.password 67;
          country = copy_filled (find "WIFI_COUNTRY") d.country 3;
          ip_address = copy_entry (find "WIFI_IP") d.ip_address 15;
          netmask = copy_entry (find "WIFI_NETMASK") d.netmask 15;
          gateway = copy_entry (find "WIFI_GATEWAY") d.gateway 15;
          primary_dns = copy_entry (find "WIFI_DNS") d.primary_dns 15;
          rtc_enabled = flag_of (find "GEMDRIVE_RTC") 1;
          ntp_server = copy_filled (find "RTC_NTP_SERVER_HOST") d.ntp_server 63;
          utc_offset = copy_filled (find "RTC_UTC_OFFSET") d.utc_offset 3;
        }))
