-- ===== src/Settings/Device.antt =====
-- The settings of romemul/sidetnfs_system_config.c with the two modules that change them, over any
-- sequence of requests and reboots.
use side_tnfs_firmware.Prelude.{ℕ, Bool, false, List, [], ◌∷◌, replicate}
use side_tnfs_firmware.Settings.{SystemState}
use side_tnfs_firmware.Settings.Legacy.{LegacyStore}
use side_tnfs_firmware.Settings.Flash.{init}
use side_tnfs_firmware.Settings.Network.{NetworkConfig, NetStatus, netconfig_stage, netconfig_save}
use side_tnfs_firmware.Settings.Clock.{RtcConfig, RtcStatus, rtcconfig_stage, rtcconfig_save}

-- The static variables of the three files, and the sector. `Bool × …` is a staged flag and copy.
pub record Device : Type 0 where
  pub system : SystemState
  pub network : Bool × NetworkConfig
  pub clock : Bool × RtcConfig
  pub sector : List ℕ

-- What a static copy holds at the start.
abbrev pub no_network : NetworkConfig
no_network = record {
  auth_mode = 0;
  use_dhcp = 0;
  ssid = replicate 36 0;
  password = replicate 68 0;
  country = replicate 4 0;
  ip_address = replicate 16 0;
  netmask = replicate 16 0;
  gateway = replicate 16 0;
  primary_dns = replicate 16 0;
}

abbrev pub no_clock : RtcConfig
no_clock = record { enabled = 0; ntp_server = replicate 64 0; utc_offset = replicate 4 0 }

pub data Request : Type 0 where
  stage_network : NetworkConfig → Request
  save_network : Request
  stage_clock : RtcConfig → Request
  save_clock : Request
  reboot : Request

pub data Response : Type 0 where
  network_status : NetStatus → Response
  clock_status : RtcStatus → Response
  rebooted : Response

-- The flash driver, lwIP's parser of addresses, and the older store.
module _ (flash_range_erase : List ℕ → List ℕ) (flash_range_program : List ℕ → List ℕ → List ℕ)
    (ipaddr_aton : List ℕ → Bool) (store : LegacyStore) where
  unfoldable pub handle : Request → Device → Response × Device
  handle (stage_network cfg) d =
      let (status, staged) = netconfig_stage ipaddr_aton cfg d.network in
      (network_status status, record d { network = staged })
  handle save_network d =
      let (status, system, sector) =
        netconfig_save flash_range_erase flash_range_program ipaddr_aton d.network d.system
          d.sector in
      (network_status status, record d { system = system; sector = sector })
  handle (stage_clock cfg) d =
      let (status, staged) = rtcconfig_stage cfg d.clock in
      (clock_status status, record d { clock = staged })
  handle save_clock d =
      let (status, system, sector) =
        rtcconfig_save flash_range_erase flash_range_program d.clock d.system d.sector in
      (clock_status status, record d { system = system; sector = sector })
  handle reboot d = (
    rebooted,
    record d {
      system = init store d.sector;
      network = (false, no_network);
      clock = (false, no_clock);
    },
  )

  unfoldable pub handle_all : List Request → Device → List Response × Device
  handle_all [] d = ([], d)
  handle_all (q ∷ qs) d =
      let (response, d') = handle q d in
      let (responses, d'') = handle_all qs d' in (response ∷ responses, d'')
