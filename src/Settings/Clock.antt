-- ===== src/Settings/Clock.antt =====
-- romemul/sidetnfs_rtcconfig.c: the clock half of the settings, staged and saved.
use side_tnfs_firmware.Prelude.{
  ℕ, ◌+◌, ◌-◌, ◌*◌, ◌/◌, ◌%◌, Bool, true, false, not, ◌&&◌, ◌||◌, Option, none, some, List, [], ◌∷◌,
  ◌++◌, ltb, leb, ◌==◌, if◌then◌else◌, length, drop, set, c_str,
}
use side_tnfs_firmware.Settings.{
  SystemSettings, SysStatus, sys_ok, sys_crc_mismatch, invalid_structure, sys_write_failed,
  unsupported_version, SystemState, is_nul_terminated, get, set_settings,
}
use side_tnfs_firmware.Settings.Network.{fresh_copy, copy_over, set_then_save}

-- `sidetnfs_rtc_config_t`
pub record RtcConfig : Type 0 where
  pub enabled : ℕ
  pub ntp_server : List ℕ
  pub utc_offset : List ℕ

-- `sidetnfs_rtcconfig_status_t`
pub data RtcStatus : Type 0 where
  rtc_ok : RtcStatus
  invalid_enabled : RtcStatus
  invalid_ntp_server : RtcStatus
  invalid_utc_offset : RtcStatus
  rtc_not_staged : RtcStatus
  rtc_write_failed : RtcStatus
  rtc_verify_failed : RtcStatus

abbrev pub is_rtc_ok : RtcStatus → Bool
is_rtc_ok rtc_ok = true
is_rtc_ok _ = false

-- An offset in hours: its sign, true below 0, and its magnitude.
abbrev pub Offset : Type 0
Offset = Bool × ℕ

-- `isdigit`
unfoldable pub is_digit : ℕ → Bool
is_digit c = leb b'0' c && leb c b'9'

-- The loop over the digits: two at most.
unfoldable pub offset_digits : ℕ → ℕ → List ℕ → Option ℕ
offset_digits value digit_count [] = some value
offset_digits value digit_count (c ∷ p) =
    let rest = offset_digits (value * 10 + (c - b'0')) (digit_count + 1) p in
    if not (is_digit c) then none else if ltb 2 (digit_count + 1) then none else rest

-- The sign that `parse_utc_offset` passes over.
unfoldable pub skip_sign : List ℕ → Bool × List ℕ
skip_sign [] = (false, [])
skip_sign (c ∷ p) =
    if c == b'+' then (false, p) else if c == b'-' then (true, p) else (false, c ∷ p)

unfoldable pub in_range : Bool → Option ℕ → Option Offset
in_range negative none = none
in_range true (some value) = if ltb 12 value then none else some (true, value)
in_range false (some value) = if ltb 14 value then none else some (false, value)

-- The digits behind the sign; there must be one.
unfoldable pub signed_digits : Bool → List ℕ → Option Offset
unfolding in_range offset_digits
signed_digits negative [] = none
signed_digits negative (c ∷ p) = in_range negative (offset_digits 0 0 (c ∷ p))

-- `parse_utc_offset`
unfoldable pub parse_utc_offset : List ℕ → ℕ → Option Offset
unfolding signed_digits skip_sign
parse_utc_offset field size =
    let (negative, p) = skip_sign (c_str field) in
    if not (is_nul_terminated field size) then none else signed_digits negative p

-- `snprintf` of a number below 100.
unfoldable pub decimal : ℕ → List ℕ
decimal n = if ltb n 10 then (b'0' + n) ∷ [] else (b'0' + n / 10) ∷ (b'0' + n % 10) ∷ []

unfoldable pub offset_text : Offset → List ℕ
unfolding decimal
offset_text (negative, value) =
    if value == 0
    then b'0' ∷ []
    else if negative
    then b'-' ∷ decimal value
    else b'+' ∷ decimal value

-- `snprintf` into a field: the text, its NUL, and what stood behind them.
unfoldable pub write_text : List ℕ → List ℕ → List ℕ
write_text field text = text ++ (0 ∷ drop (length text + 1) field)

unfoldable pub write_offset : List ℕ → Option Offset → List ℕ
write_offset field none = field
write_offset field (some offset) = write_text field (offset_text offset)

-- `normalize_utc_offset`
unfoldable pub normalize_utc_offset : List ℕ → ℕ → List ℕ
unfolding write_offset write_text offset_text
normalize_utc_offset field size = write_offset field (parse_utc_offset field size)

-- `sidetnfs_rtcconfig_get`
unfoldable pub rtcconfig_get : SystemState → RtcConfig
rtcconfig_get st =
    let sys = get st in
    record {
      enabled = sys.rtc_enabled;
      ntp_server = set (fresh_copy sys.ntp_server 64 63) 63 0;
      utc_offset = set (fresh_copy sys.utc_offset 4 3) 3 0;
    }

unfoldable pub has_space : List ℕ → Bool
has_space [] = false
has_space (c ∷ s) = c == b' ' || has_space s

abbrev pub is_some : Option Offset → Bool
is_some none = false
is_some (some offset) = true

-- `sidetnfs_rtcconfig_validate`
unfoldable pub rtcconfig_validate : RtcConfig → RtcStatus
unfolding has_space
rtcconfig_validate cfg =
    if not (cfg.enabled == 0) && not (cfg.enabled == 1)
    then invalid_enabled
    else if not (is_nul_terminated cfg.ntp_server 64)
    then invalid_ntp_server
    else if cfg.enabled == 1 && length (c_str cfg.ntp_server) == 0
    then invalid_ntp_server
    else if has_space (c_str cfg.ntp_server)
    then invalid_ntp_server
    else if not (is_some (parse_utc_offset cfg.utc_offset 4))
    then invalid_utc_offset
    else rtc_ok

-- `sidetnfs_rtcconfig_stage` on `g_staged` and `g_staging`.
unfoldable pub rtcconfig_stage : RtcConfig → Bool × RtcConfig → RtcStatus × (Bool × RtcConfig)
rtcconfig_stage cfg staged =
    if not (is_rtc_ok (rtcconfig_validate cfg))
    then (rtcconfig_validate cfg, staged)
    else (rtc_ok, (true, record cfg { utc_offset = normalize_utc_offset cfg.utc_offset 4 }))

-- `clean` of `sidetnfs_rtcconfig_save`.
unfoldable pub clean_rtc : RtcConfig → RtcConfig
clean_rtc cfg = record cfg {
  ntp_server = set cfg.ntp_server 63 0;
  utc_offset = normalize_utc_offset (set cfg.utc_offset 3 0) 4;
}

-- The settings with the clock half replaced.
unfoldable pub with_rtc : SystemSettings → RtcConfig → SystemSettings
with_rtc sys clean = record sys {
  rtc_enabled = clean.enabled;
  ntp_server = copy_over sys.ntp_server clean.ntp_server 63;
  utc_offset = copy_over sys.utc_offset clean.utc_offset 3;
}

unfoldable pub rtc_save_status : SysStatus → RtcStatus
rtc_save_status sys_ok = rtc_ok
rtc_save_status sys_crc_mismatch = rtc_verify_failed
rtc_save_status invalid_structure = rtc_write_failed
rtc_save_status sys_write_failed = rtc_write_failed
rtc_save_status unsupported_version = rtc_write_failed

-- `sidetnfs_rtcconfig_save`
module _ (flash_range_erase : List ℕ → List ℕ)
    (flash_range_program : List ℕ → List ℕ → List ℕ) where
  unfoldable pub rtcconfig_save :
      Bool × RtcConfig → SystemState → List ℕ → RtcStatus × SystemState × List ℕ
  rtcconfig_save (staged, cfg) st sector =
      let (status, st', sector') =
        set_then_save flash_range_erase flash_range_program
          (set_settings (with_rtc (get st) (clean_rtc cfg)) st) sector in
      if not staged
      then (rtc_not_staged, st, sector)
      else if not (is_rtc_ok (rtcconfig_validate cfg))
      then (rtcconfig_validate cfg, st, sector)
      else (rtc_save_status status, st', sector')
