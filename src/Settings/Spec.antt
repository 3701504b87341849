-- ===== src/Settings/Spec.antt =====
-- What the network and the clock half of the settings promise: two registers, each with a staged value
-- that a save makes the active one, and that a reboot keeps.
use side_tnfs_firmware.Prelude.{
  ℕ, ◌<◌, ◌^◌, Bool, Option, none, some, List, [], ◌∷◌, map, if◌then◌else◌, c_str,
}
use side_tnfs_firmware.Names.{toupper}
use side_tnfs_firmware.Settings.Layout.{IsMember}
use side_tnfs_firmware.Settings.Network.{
  NetworkConfig, net_ok, net_not_staged, is_net_ok, netconfig_validate,
}
use side_tnfs_firmware.Settings.Clock.{
  Offset, RtcConfig, rtc_ok, rtc_not_staged, is_rtc_ok, rtcconfig_validate, parse_utc_offset,
  offset_text,
}
use side_tnfs_firmware.Settings.Device.{
  Request, stage_network, save_network, stage_clock, save_clock, reboot, Response, network_status,
  clock_status, rebooted,
}
use side_tnfs_firmware.Settings.Fields.{text}

-- The network half as its texts.
pub record NetView : Type 0 where
  pub auth_mode : ℕ
  pub use_dhcp : ℕ
  pub ssid : List ℕ
  pub password : List ℕ
  pub country : List ℕ
  pub ip_address : List ℕ
  pub netmask : List ℕ
  pub gateway : List ℕ
  pub primary_dns : List ℕ

-- The clock half as its texts.
pub record RtcView : Type 0 where
  pub enabled : ℕ
  pub ntp_server : List ℕ
  pub utc_offset : List ℕ

abbrev pub net_view : NetworkConfig → NetView
net_view cfg = record {
  auth_mode = cfg.auth_mode;
  use_dhcp = cfg.use_dhcp;
  ssid = c_str cfg.ssid;
  password = c_str cfg.password;
  country = c_str cfg.country;
  ip_address = c_str cfg.ip_address;
  netmask = c_str cfg.netmask;
  gateway = c_str cfg.gateway;
  primary_dns = c_str cfg.primary_dns;
}

abbrev pub rtc_view : RtcConfig → RtcView
rtc_view cfg = record {
  enabled = cfg.enabled;
  ntp_server = c_str cfg.ntp_server;
  utc_offset = c_str cfg.utc_offset;
}

-- What a request asks for: its texts, cut off at the size of a field, the country in capitals.
abbrev pub requested_net : NetworkConfig → NetView
requested_net cfg = record {
  auth_mode = cfg.auth_mode;
  use_dhcp = cfg.use_dhcp;
  ssid = text 35 cfg.ssid;
  password = text 67 cfg.password;
  country = map toupper (text 3 cfg.country);
  ip_address = text 15 cfg.ip_address;
  netmask = text 15 cfg.netmask;
  gateway = text 15 cfg.gateway;
  primary_dns = text 15 cfg.primary_dns;
}

-- The one text for an offset.
abbrev pub canonical : Option Offset → List ℕ
canonical none = []
canonical (some offset) = offset_text offset

abbrev pub requested_rtc : RtcConfig → RtcView
requested_rtc cfg = record {
  enabled = cfg.enabled;
  ntp_server = text 63 cfg.ntp_server;
  utc_offset = canonical (parse_utc_offset cfg.utc_offset 4);
}

-- The two registers.
pub record Registers : Type 0 where
  pub net : NetView
  pub rtc : RtcView
  pub staged_net : Option NetView
  pub staged_rtc : Option RtcView

abbrev pub net_saved : Option NetView → Registers → Response × Registers
net_saved none σ = (network_status net_not_staged, σ)
net_saved (some v) σ = (network_status net_ok, record σ { net = v })

abbrev pub rtc_saved : Option RtcView → Registers → Response × Registers
rtc_saved none σ = (clock_status rtc_not_staged, σ)
rtc_saved (some v) σ = (clock_status rtc_ok, record σ { rtc = v })

abbrev pub promise : (List ℕ → Bool) → Request → Registers → Response × Registers
promise ipaddr_aton (stage_network cfg) σ =
    if is_net_ok (netconfig_validate ipaddr_aton cfg)
    then (network_status net_ok, record σ { staged_net = some (requested_net cfg) })
    else (network_status (netconfig_validate ipaddr_aton cfg), σ)
promise ipaddr_aton save_network σ = net_saved σ.staged_net σ
promise ipaddr_aton (stage_clock cfg) σ =
    if is_rtc_ok (rtcconfig_validate cfg)
    then (clock_status rtc_ok, record σ { staged_rtc = some (requested_rtc cfg) })
    else (clock_status (rtcconfig_validate cfg), σ)
promise ipaddr_aton save_clock σ = rtc_saved σ.staged_rtc σ
promise ipaddr_aton reboot σ = (rebooted, record σ { staged_net = none; staged_rtc = none })

abbrev pub promise_all : (List ℕ → Bool) → List Request → Registers → List Response × Registers
promise_all ipaddr_aton [] σ = ([], σ)
promise_all ipaddr_aton (q ∷ qs) σ =
    let (response, σ') = promise ipaddr_aton q σ in
    let (responses, σ'') = promise_all ipaddr_aton qs σ' in (response ∷ responses, σ'')

-- The members of a request are within their C types.
pub record IsNetShaped (cfg : NetworkConfig) : Type 0 where
  pub auth_mode : cfg.auth_mode < 2 ^ 16
  pub use_dhcp : cfg.use_dhcp < 2 ^ 16
  pub ssid : IsMember 36 cfg.ssid
  pub password : IsMember 68 cfg.password
  pub country : IsMember 4 cfg.country
  pub ip_address : IsMember 16 cfg.ip_address
  pub netmask : IsMember 16 cfg.netmask
  pub gateway : IsMember 16 cfg.gateway
  pub primary_dns : IsMember 16 cfg.primary_dns

pub record IsRtcShaped (cfg : RtcConfig) : Type 0 where
  pub enabled : cfg.enabled < 2 ^ 16
  pub ntp_server : IsMember 64 cfg.ntp_server
  pub utc_offset : IsMember 4 cfg.utc_offset

abbrev pub IsRequest : Request → Type 0
IsRequest (stage_network cfg) = IsNetShaped cfg
IsRequest (stage_clock cfg) = IsRtcShaped cfg
IsRequest _ = Unit
