-- ===== src/Settings/Tests.antt =====
-- The settings at concrete inputs.
use side_tnfs_firmware.Prelude.{
  Option, ltb, if◌then◌else◌, length-replicate, ◌≤◌, ◌↔◌, ℕ, ◌≡◌, refl, ap, true, false, some, none,
  List, [], ◌∷◌, ◌++◌, length, drop, drop-replicate, replicate, arith, c_str, strnlen,
}
use side_tnfs_firmware.Drives.Flash.{char_array}
use side_tnfs_firmware.Drives.Save.{Programs}
use side_tnfs_firmware.Settings.{
  validate_structure, default_settings, is_nul_terminated, force_nul_termination,
}
use side_tnfs_firmware.Settings.Layout.{decode, IsShaped}
use side_tnfs_firmware.Settings.Legacy.{LegacyStore}
use side_tnfs_firmware.Settings.Flash.{init, is_valid_block, clean_block, program_sector}
use side_tnfs_firmware.Settings.Network.{NetworkConfig, netconfig_get}
use side_tnfs_firmware.Settings.Clock.{
  is_digit, offset_text, RtcConfig, parse_utc_offset, normalize_utc_offset, rtcconfig_get,
}
use side_tnfs_firmware.Settings.Device.{
  Device, no_network, no_clock, Request, stage_network, save_network, stage_clock, save_clock,
  reboot, handle_all,
}
use side_tnfs_firmware.Settings.Spec.{
  net_view, rtc_view, Registers, promise_all, IsNetShaped, IsRtcShaped,
}
use side_tnfs_firmware.Settings.Stored.{stored_state, decode-program_sector}
use side_tnfs_firmware.Settings.Offset.{plain}
use side_tnfs_firmware.Settings.ClockHalf.{normalize_utc_offset_twice}
use side_tnfs_firmware.Entries.{ConfigEntry, ConfigData, load_default_entries, find_entry}
use side_tnfs_firmware.Settings.Boot.{legacy_auth, init_passes}
use side_tnfs_firmware.Settings.Refinement.{Refines, handle_all-Refines}

-- A flash as the driver documents it, a parser that takes every address, and an older store that is
-- not there.
abbrev erase_all : List ℕ → List ℕ
erase_all _ = replicate 4096 255

abbrev program_front : List ℕ → List ℕ → List ℕ
program_front sector buffer = buffer ++ drop (length buffer) sector

program_front-Programs : Programs erase_all program_front
program_front-Programs sector buffer =
    ap (λ l. buffer ++ l) (drop-replicate {A = ℕ} (length buffer) 4096 255)

abbrev no_store : LegacyStore
no_store = record { loaded_from_real_flash = false; find_entry = λ _. none; atoi = λ _. 0 }

default_settings-IsShaped : IsShaped default_settings
default_settings-IsShaped = record {
  auth_mode = omega arith;
  use_dhcp = omega arith;
  ssid = (refl, omega arith);
  password = (refl, omega arith);
  country = (refl, omega arith);
  ip_address = (refl, omega arith);
  netmask = (refl, omega arith);
  gateway = (refl, omega arith);
  primary_dns = (refl, omega arith);
  rtc_enabled = omega arith;
  ntp_server = (refl, omega arith);
  utc_offset = (refl, omega arith);
  reserved = (refl, omega arith);
}

default_settings_terminated : force_nul_termination default_settings ≡ default_settings
unfolding force_nul_termination
default_settings_terminated = refl

-- A board that was saved with the factory's settings.
abbrev board : Device
board = record {
  system = stored_state default_settings;
  network = (false, no_network);
  clock = (false, no_clock);
  sector = program_sector erase_all program_front [] (clean_block default_settings);
}

abbrev at_first : Registers
at_first = record {
  net = net_view (netconfig_get (stored_state default_settings));
  rtc = rtc_view (rtcconfig_get (stored_state default_settings));
  staged_net = none;
  staged_rtc = none;
}

board-Refines : Refines (λ _. true) board at_first
board-Refines = (
  record {
    settings = default_settings;
    shaped = default_settings-IsShaped;
    ranged = record { auth_mode = omega arith; use_dhcp = omega arith; rtc_enabled = omega arith };
    terminated = default_settings_terminated;
    active = refl;
    held =
        decode-program_sector erase_all program_front program_front-Programs default_settings []
          default_settings-IsShaped;
    net_half = refl;
    rtc_half = refl;
  },
  tt,
  tt,
)

abbrev home : NetworkConfig
home = record no_network {
  auth_mode = 3;
  use_dhcp = 1;
  ssid = char_array 36 "home";
  country = char_array 4 "be";
}

abbrev west : RtcConfig
west = record no_clock {
  enabled = 1;
  ntp_server = char_array 64 "pool.ntp.org";
  utc_offset = char_array 4 "-07";
}

home-IsNetShaped : IsNetShaped home
home-IsNetShaped = record {
  auth_mode = omega arith;
  use_dhcp = omega arith;
  ssid = (refl, omega arith);
  password = (refl, omega arith);
  country = (refl, omega arith);
  ip_address = (refl, omega arith);
  netmask = (refl, omega arith);
  gateway = (refl, omega arith);
  primary_dns = (refl, omega arith);
}

west-IsRtcShaped : IsRtcShaped west
west-IsRtcShaped = record {
  enabled = omega arith;
  ntp_server = (refl, omega arith);
  utc_offset = (refl, omega arith);
}

abbrev session : List Request
session =
    stage_network home ∷ save_network ∷ stage_clock west ∷ save_clock ∷ reboot ∷ save_clock ∷ []

handle_all-Refines_example :
    let (responses, d) = handle_all erase_all program_front (λ _. true) no_store session board in
    let (expected, σ) = promise_all (λ _. true) session at_first in
    (responses ≡ expected) × Refines (λ _. true) d σ
handle_all-Refines_example =
    handle_all-Refines erase_all program_front (λ _. true) program_front-Programs no_store session
      board at_first (home-IsNetShaped, (tt, (west-IsRtcShaped, (tt, (tt, (tt, tt))))))
      board-Refines

-- The zeros in front of an offset go.
padded_hour : parse_utc_offset (char_array 4 "-07") 4 ≡ some (true, 7)
unfolding parse_utc_offset is_nul_terminated strnlen is_digit
padded_hour = refl

abbrev minus_seven : List ℕ
minus_seven = normalize_utc_offset (char_array 4 "-07") 4

normalize_utc_offset_twice_example :
    (parse_utc_offset minus_seven 4 ≡ some (plain (true, 7)))
    × (c_str minus_seven ≡ offset_text (true, 7))
    × (c_str (normalize_utc_offset minus_seven 4) ≡ c_str minus_seven)
normalize_utc_offset_twice_example =
    normalize_utc_offset_twice (char_array 4 "-07") (true, 7) (refl, omega arith) padded_hour

-- The store of entries as the older store of the migration.
abbrev value_of : Option ConfigEntry → Option (List ℕ)
value_of none = none
value_of (some e) = some e.value

abbrev store_of : ConfigData → LegacyStore
store_of d = record {
  loaded_from_real_flash = true;
  find_entry = λ key. value_of (find_entry key d);
  atoi = λ text. if ltb 1 (length text) then 12 else 3;
}

abbrev old_board : LegacyStore
old_board = store_of load_default_entries

erased-length : 276 ≤ length (erase_all [])
erased-length = omega (arith, length-replicate {A = ℕ} 4096 255)

init_passes_example :
    let booted = (init old_board (erase_all [])).settings in
    (is_valid_block (decode (erase_all [])) ≡ true
      → (booted ≡ force_nul_termination (decode (erase_all [])).settings)
        × (validate_structure booted ≡ true))
    × (is_valid_block (decode (erase_all [])) ≡ false
        → old_board.loaded_from_real_flash ≡ false
        → (booted ≡ default_settings) × (validate_structure booted ≡ true))
    × (is_valid_block (decode (erase_all [])) ≡ false
        → old_board.loaded_from_real_flash ≡ true
        → (validate_structure booted ≡ true) ↔ (legacy_auth old_board ≤ 8))
init_passes_example = init_passes old_board (erase_all []) erased-length
