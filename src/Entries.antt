-- ===== src/Entries.antt =====
-- romemul/config.c: the older store of settings, 48 entries of a key, a type and a text.
pub mod Flash
pub mod Update
pub mod Written
pub mod Puts
pub mod Sequence
pub mod Keys
pub mod Loaded
pub mod Distinct
pub mod Stored
mod Tests
use Prim.Native.String.{String}
use side_tnfs_firmware.Prelude.{
  ℕ, zero, suc, ◌+◌, ◌/◌, ◌%◌, Bool, true, false, Option, none, some, List, [], ◌∷◌, ◌++◌, map, ltb,
  ◌==◌, if◌then◌else◌, take, drop, set, replicate, c_str, strncpy, padded, same_text,
}
use side_tnfs_firmware.Drives.Flash.{codes, char_array}

abbrev pub max_entries : ℕ
max_entries = 48

abbrev pub type_int : ℕ
type_int = 0

abbrev pub type_string : ℕ
type_string = 1

abbrev pub type_bool : ℕ
type_bool = 2

-- `ConfigEntry`: a key of 20 characters, which need not have a NUL, and a text of 64.
pub record ConfigEntry : Type 0 where
  pub key : List ℕ
  pub data_type : ℕ
  pub value : List ℕ

-- `ConfigData`: the array has `max_entries` entries, of which the first `count` are used.
pub record ConfigData : Type 0 where
  pub magic : ℕ
  pub entries : List ConfigEntry
  pub count : ℕ

-- `CONFIG_MAGIC | CONFIG_VERSION`, and that of the version with 4 KB.
abbrev pub config_magic : ℕ
config_magic = 0x12340002

abbrev pub config_magic_4kb : ℕ
config_magic_4kb = 0x12340001

abbrev pub default_entry : String × ℕ × String → ConfigEntry
default_entry (key, data_type, value) = record {
  key = char_array 20 key;
  data_type = data_type;
  value = char_array 64 value;
}

-- `defaultEntries`
abbrev pub default_rows : List (String × ℕ × String)
default_rows =
    ("BOOT_FEATURE", type_string, "CONFIGURATOR")
    ∷ ("CONFIGURATOR_DARK", type_bool, "false")
    ∷ ("DELAY_ROM_EMULATION", type_bool, "false")
    ∷ ("DOWNLOAD_TIMEOUT_SEC", type_int, "60")
    ∷ ("FILE_COUNT_ENABLED", type_bool, "false")
    ∷ ("FLOPPIES_FOLDER", type_string, "/floppies")
    ∷ ("FLOPPY_BOOT_ENABLED", type_bool, "true")
    ∷ ("FLOPPY_BUFFER_TYPE", type_int, "0")
    ∷ ("FLOPPY_DB_URL", type_string, "http://ataristdb.sidecartridge.com")
    ∷ ("FLOPPY_IMAGE_A", type_string, "")
    ∷ ("FLOPPY_IMAGE_B", type_string, "")
    ∷ ("FLOPPY_NET_ENABLED", type_bool, "false")
    ∷ ("FLOPPY_NET_TOUT_SEC", type_int, "45")
    ∷ ("FLOPPY_XBIOS_ENABLED", type_bool, "true")
    ∷ ("GEMDRIVE_BUFF_TYPE", type_int, "0")
    ∷ ("GEMDRIVE_DRIVE", type_string, "C")
    ∷ ("GEMDRIVE_FOLDERS", type_string, "/hd")
    ∷ ("GEMDRIVE_RTC", type_bool, "true")
    ∷ ("GEMDRIVE_TIMEOUT_SEC", type_int, "45")
    ∷ ("GEMDRIVE_FAKEFLOPPY", type_bool, "true")
    ∷ ("HOSTNAME", type_string, "sidecart")
    ∷ ("LASTEST_RELEASE_URL", type_string, "")
    ∷ ("MENU_REFRESH_SEC", type_int, "3")
    ∷ ("NETWORK_STATUS_SEC", type_int, "5")
    ∷ ("ROMS_CSV_URL", type_string, "http://roms.sidecartridge.com/roms.csv")
    ∷ ("ROMS_FOLDER", type_string, "/roms")
    ∷ ("ROMS_YAML_URL", type_string, "http://roms.sidecartridge.com/roms.json")
    ∷ ("RTC_NTP_SERVER_HOST", type_string, "pool.ntp.org")
    ∷ ("RTC_NTP_SERVER_PORT", type_int, "123")
    ∷ ("RTC_TYPE", type_string, "SIDECART")
    ∷ ("RTC_UTC_OFFSET", type_string, "+1")
    ∷ ("RTC_Y2K_PATCH", type_bool, "true")
    ∷ ("SAFE_CONFIG_REBOOT", type_bool, "true")
    ∷ ("SD_MASS_STORAGE", type_bool, "true")
    ∷ ("SD_BAUD_RATE_KB", type_int, "12500")
    ∷ ("WIFI_AUTH", type_int, "")
    ∷ ("WIFI_CONNECT_TIMEOUT", type_int, "30")
    ∷ ("WIFI_COUNTRY", type_string, "")
    ∷ ("WIFI_DHCP", type_bool, "true")
    ∷ ("WIFI_DNS", type_string, "8.8.8.8")
    ∷ ("WIFI_GATEWAY", type_string, "")
    ∷ ("WIFI_IP", type_string, "")
    ∷ ("WIFI_NETMASK", type_string, "")
    ∷ ("WIFI_PASSWORD", type_string, "")
    ∷ ("WIFI_POWER", type_int, "0")
    ∷ ("WIFI_RSSI", type_bool, "false")
    ∷ ("WIFI_SCAN_SECONDS", type_int, "15")
    ∷ ("WIFI_SSID", type_string, "")
    ∷ []

abbrev pub default_entries : List ConfigEntry
default_entries = map default_entry default_rows

-- What `strncmp` with `MAX_KEY_LENGTH` compares of a key.
abbrev pub key_text : List ℕ → List ℕ
key_text key = c_str (take 20 key)

unfoldable pub same_key : List ℕ → List ℕ → Bool
same_key a b = same_text (key_text a) (key_text b)

-- The loop of `find_entry`.
unfoldable pub find_in : ℕ → List ℕ → List ConfigEntry → Option ConfigEntry
find_in zero key entries = none
find_in (suc n) key [] = none
find_in (suc n) key (e ∷ entries) =
    let rest = find_in n key entries in if same_key e.key key then some e else rest

-- `find_entry`
unfoldable pub find_entry : List ℕ → ConfigData → Option ConfigEntry
find_entry key d = find_in d.count key d.entries

abbrev pub behind : ConfigEntry → Option (List ConfigEntry) → Option (List ConfigEntry)
behind e none = none
behind e (some entries) = some (e ∷ entries)

-- A loop that changes the first entry with a key, and ends there.
unfoldable pub change_in :
    ℕ → List ℕ → (ConfigEntry → ConfigEntry) → List ConfigEntry → Option (List ConfigEntry)
change_in zero key change entries = none
change_in (suc n) key change [] = none
change_in (suc n) key change (e ∷ entries) =
    let rest = change_in n key change entries in
    if same_key e.key key then some (change e ∷ entries) else behind e rest

-- The type and the value of an entry, written over.
unfoldable pub write_value : ℕ → List ℕ → ConfigEntry → ConfigEntry
write_value data_type value e = record e {
  data_type = data_type;
  value = set (strncpy e.value value 63) 63 0;
}

-- The key too.
unfoldable pub write_entry : List ℕ → ℕ → List ℕ → ConfigEntry → ConfigEntry
unfolding write_value
write_entry key data_type value e =
    write_value data_type value (record e { key = strncpy e.key key 20 })

-- A change of the entry at an index; `none` when the array does not have it.
unfoldable pub change_at :
    ℕ → (ConfigEntry → ConfigEntry) → List ConfigEntry → Option (List ConfigEntry)
change_at n change [] = none
change_at zero change (e ∷ entries) = some (change e ∷ entries)
change_at (suc n) change (e ∷ entries) = behind e (change_at n change entries)

-- What `add_entry` returns: 0 or -1.
pub data AddStatus : Type 0 where
  added : AddStatus
  no_room : AddStatus

unfoldable pub appended : ConfigData → Option (List ConfigEntry) → Option (AddStatus × ConfigData)
appended d none = none
appended d (some entries) = some (added, record d { entries = entries; count = d.count + 1 })

unfoldable pub updated :
    ConfigData
    → Option (List ConfigEntry)
    → Option (List ConfigEntry)
    → Option (AddStatus × ConfigData)
unfolding appended
updated d (some entries) _ = some (added, record d { entries = entries })
updated d none extended = appended d extended

-- `add_entry`; `none` when it writes outside the array.
unfoldable pub add_entry : List ℕ → ℕ → List ℕ → ConfigData → Option (AddStatus × ConfigData)
unfolding updated write_entry
add_entry key data_type value d =
    if ltb max_entries d.count
    then some (no_room, d)
    else updated d (change_in d.count key (write_value data_type value) d.entries)
        (change_at d.count (write_entry key data_type value) d.entries)

unfoldable pub bool_text : Bool → List ℕ
bool_text value = if value then codes "true" else codes "false"

unfoldable pub put_bool : List ℕ → Bool → ConfigData → Option (AddStatus × ConfigData)
put_bool key value d = add_entry key type_bool (bool_text value) d

-- `configValue` is 63 characters and a NUL.
unfoldable pub put_string : List ℕ → List ℕ → ConfigData → Option (AddStatus × ConfigData)
put_string key value d = add_entry key type_string (padded 63 value ++ (0 ∷ [])) d

-- `snprintf` with "%d" of a number below 10 ^ 10.
unfoldable pub digits : ℕ → ℕ → List ℕ
digits zero n = []
digits (suc rounds) n =
    let front = digits rounds (n / 10) in
    if ltb n 10 then (b'0' + n) ∷ [] else front ++ ((b'0' + n % 10) ∷ [])

-- The sign, true below 0, and the magnitude.
unfoldable pub int_text : Bool × ℕ → List ℕ
unfolding digits
int_text (negative, n) = if negative then b'-' ∷ digits 10 n else digits 10 n

unfoldable pub put_integer : List ℕ → Bool × ℕ → ConfigData → Option (AddStatus × ConfigData)
put_integer key value d = add_entry key type_int (int_text value) d

-- `load_default_entries`
abbrev pub load_default_entries : ConfigData
load_default_entries = record {
  magic = config_magic;
  entries = default_entries;
  count = max_entries;
}
