-- ===== src/Settings/Network.antt =====
-- romemul/sidetnfs_netconfig.c: the Wi-Fi and network half of the settings, staged and saved.
use Prim.Native.String.{String}
use side_tnfs_firmware.Prelude.{
  ℕ, Bool, true, false, not, ◌&&◌, ◌||◌, List, [], ◌∷◌, map, ltb, ◌==◌, if◌then◌else◌, length,
  get_or, set, replicate, c_str, strncpy, same_text,
}
use side_tnfs_firmware.Names.{toupper}
use side_tnfs_firmware.Drives.Flash.{codes, char_array}
use side_tnfs_firmware.Settings.{
  SystemSettings, SysStatus, sys_ok, sys_crc_mismatch, invalid_structure, sys_write_failed,
  unsupported_version, SystemState, is_nul_terminated, get, set_settings,
}
use side_tnfs_firmware.Settings.Flash.{save}

-- `sidetnfs_network_config_t`
pub record NetworkConfig : Type 0 where
  pub auth_mode : ℕ
  pub use_dhcp : ℕ
  pub ssid : List ℕ
  pub password : List ℕ
  pub country : List ℕ
  pub ip_address : List ℕ
  pub netmask : List ℕ
  pub gateway : List ℕ
  pub primary_dns : List ℕ

-- `sidetnfs_netconfig_status_t`
pub data NetStatus : Type 0 where
  net_ok : NetStatus
  invalid_ssid : NetStatus
  invalid_password : NetStatus
  invalid_auth_mode : NetStatus
  invalid_country : NetStatus
  invalid_dhcp : NetStatus
  invalid_ip : NetStatus
  invalid_netmask : NetStatus
  invalid_gateway : NetStatus
  invalid_dns : NetStatus
  net_not_staged : NetStatus
  net_write_failed : NetStatus
  net_verify_failed : NetStatus

abbrev pub is_net_ok : NetStatus → Bool
is_net_ok net_ok = true
is_net_ok _ = false

-- `strncpy` into a field of zeros.
unfoldable pub fresh_copy : List ℕ → ℕ → ℕ → List ℕ
fresh_copy src size n = strncpy (replicate size 0) src n

-- `sidetnfs_netconfig_get`
unfoldable pub netconfig_get : SystemState → NetworkConfig
unfolding fresh_copy
netconfig_get st =
    let sys = get st in
    record {
      auth_mode = sys.auth_mode;
      use_dhcp = sys.use_dhcp;
      ssid = fresh_copy sys.ssid 36 35;
      password = fresh_copy sys.password 68 67;
      country =
          fresh_copy (if ltb 0 (length (c_str sys.country)) then sys.country else char_array 4 "XX")
            4 3;
      ip_address = fresh_copy sys.ip_address 16 15;
      netmask = fresh_copy sys.netmask 16 15;
      gateway = fresh_copy sys.gateway 16 15;
      primary_dns = fresh_copy sys.primary_dns 16 15;
    }

-- The table of `get_country_code` in romemul/network.c.
abbrev pub valid_country_codes : List String
valid_country_codes =
    "XX" ∷ "AU" ∷ "AR" ∷ "AT" ∷ "BE" ∷ "BR" ∷ "CA" ∷ "CL" ∷ "CN" ∷ "CO" ∷ "CZ" ∷ "DK" ∷ "EE" ∷ "FI"
    ∷ "FR" ∷ "DE" ∷ "GR" ∷ "HK" ∷ "HU" ∷ "IS" ∷ "IN" ∷ "IL" ∷ "IT" ∷ "JP" ∷ "KE" ∷ "LV" ∷ "LI"
    ∷ "LT" ∷ "LU" ∷ "MY" ∷ "MT" ∷ "MX" ∷ "NL" ∷ "NZ" ∷ "NG" ∷ "NO" ∷ "PE" ∷ "PH" ∷ "PL" ∷ "PT"
    ∷ "SG" ∷ "SK" ∷ "SI" ∷ "ZA" ∷ "KR" ∷ "ES" ∷ "SE" ∷ "CH" ∷ "TW" ∷ "TH" ∷ "TR" ∷ "GB" ∷ "US" ∷ []

-- The string that `get_country_code` puts out: "XX", unless the table has the code.
unfoldable pub find_country : List ℕ → List String → List ℕ
find_country country [] = codes "XX"
find_country country (code ∷ table) =
    let rest = find_country country table in
    if same_text country (codes code) then codes code else rest

unfoldable pub valid_country : List ℕ → List ℕ
unfolding find_country
valid_country c =
    if not (length c == 2) then codes "XX" else find_country (map toupper c) valid_country_codes

-- `ipaddr_aton` of lwIP, as the test whether it accepts a text.
module _ (ipaddr_aton : List ℕ → Bool) where
  unfoldable pub is_valid_ipv4 : List ℕ → ℕ → Bool
  is_valid_ipv4 field size = is_nul_terminated field size && ipaddr_aton (c_str field)

  -- The four fields, which count only without DHCP.
  unfoldable pub validate_static : NetworkConfig → NetStatus
  validate_static cfg =
      if not (is_valid_ipv4 cfg.ip_address 16)
      then invalid_ip
      else if not (is_valid_ipv4 cfg.netmask 16)
      then invalid_netmask
      else if not (is_valid_ipv4 cfg.gateway 16)
      then invalid_gateway
      else if not (is_valid_ipv4 cfg.primary_dns 16)
      then invalid_dns
      else net_ok

  -- `sidetnfs_netconfig_validate`
  unfoldable pub netconfig_validate : NetworkConfig → NetStatus
  unfolding validate_static
  netconfig_validate cfg =
      let upper_country = map toupper (c_str cfg.country) in
      if not (is_nul_terminated cfg.ssid 36) || ltb 32 (length (c_str cfg.ssid))
      then invalid_ssid
      else if not (is_nul_terminated cfg.password 68) || ltb 64 (length (c_str cfg.password))
      then invalid_password
      else if ltb 8 cfg.auth_mode
      then invalid_auth_mode
      else if not (is_nul_terminated cfg.country 4) || not (length (c_str cfg.country) == 2)
      then invalid_country
      else if not (same_text upper_country (valid_country upper_country))
      then invalid_country
      else if not (cfg.use_dhcp == 0) && not (cfg.use_dhcp == 1)
      then invalid_dhcp
      else if cfg.use_dhcp == 0
      then validate_static cfg
      else net_ok

  -- `sidetnfs_netconfig_stage` on `g_staged` and `g_staging`.
  unfoldable pub netconfig_stage :
      NetworkConfig → Bool × NetworkConfig → NetStatus × (Bool × NetworkConfig)
  netconfig_stage cfg staged =
      if not (is_net_ok (netconfig_validate cfg))
      then (netconfig_validate cfg, staged)
      else (net_ok, (true, cfg))

-- `clean` of `sidetnfs_netconfig_save`.
unfoldable pub clean_network : NetworkConfig → NetworkConfig
clean_network cfg =
    let country = set cfg.country 3 0 in
    let first = set country 0 (toupper (get_or country 0 0)) in
    record cfg {
      ssid = set cfg.ssid 35 0;
      password = set cfg.password 67 0;
      country = set first 1 (toupper (get_or first 1 0));
      ip_address = set cfg.ip_address 15 0;
      netmask = set cfg.netmask 15 0;
      gateway = set cfg.gateway 15 0;
      primary_dns = set cfg.primary_dns 15 0;
    }

-- `strncpy`, and the NUL behind it.
unfoldable pub copy_over : List ℕ → List ℕ → ℕ → List ℕ
copy_over field src n = set (strncpy field src n) n 0

-- The settings with the network half replaced.
unfoldable pub with_network : SystemSettings → NetworkConfig → SystemSettings
unfolding copy_over
with_network sys clean = record sys {
  auth_mode = clean.auth_mode;
  use_dhcp = clean.use_dhcp;
  ssid = copy_over sys.ssid clean.ssid 35;
  password = copy_over sys.password clean.password 67;
  country = copy_over sys.country clean.country 3;
  ip_address = copy_over sys.ip_address clean.ip_address 15;
  netmask = copy_over sys.netmask clean.netmask 15;
  gateway = copy_over sys.gateway clean.gateway 15;
  primary_dns = copy_over sys.primary_dns clean.primary_dns 15;
}

unfoldable pub net_save_status : SysStatus → NetStatus
net_save_status sys_ok = net_ok
net_save_status sys_crc_mismatch = net_verify_failed
net_save_status invalid_structure = net_write_failed
net_save_status sys_write_failed = net_write_failed
net_save_status unsupported_version = net_write_failed

-- Setting and saving the settings, as both halves do it: whether they were set, what saving them
-- came to, and the state and the sector then.
module _ (flash_range_erase : List ℕ → List ℕ)
    (flash_range_program : List ℕ → List ℕ → List ℕ) where
  unfoldable pub set_then_save : SysStatus × SystemState → List ℕ → SysStatus × SystemState × List ℕ
  set_then_save (sys_ok, st) sector = save flash_range_erase flash_range_program st sector
  set_then_save (invalid_structure, st) sector = (invalid_structure, st, sector)
  set_then_save (sys_write_failed, st) sector = (sys_write_failed, st, sector)
  set_then_save (unsupported_version, st) sector = (sys_write_failed, st, sector)
  set_then_save (sys_crc_mismatch, st) sector = (sys_write_failed, st, sector)

  -- `sidetnfs_netconfig_save`
  unfoldable pub netconfig_save :
      (List ℕ → Bool)
      → Bool × NetworkConfig
      → SystemState
      → List ℕ
      → NetStatus × SystemState × List ℕ
  netconfig_save ipaddr_aton (staged, cfg) st sector =
      let (status, st', sector') =
        set_then_save (set_settings (with_network (get st) (clean_network cfg)) st) sector in
      if not staged
      then (net_not_staged, st, sector)
      else if not (is_net_ok (netconfig_validate ipaddr_aton cfg))
      then (netconfig_validate ipaddr_aton cfg, st, sector)
      else (net_save_status status, st', sector')
