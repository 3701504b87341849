-- ===== src/Settings/Saving.antt =====
-- The settings that a device keeps in RAM and flash, and what a save of either half makes of them.
use side_tnfs_firmware.Prelude.{ℕ, ◌≡◌, refl, ap, ◌∙◌, Bool, true, List}
use side_tnfs_firmware.Drives.Save.{Programs}
use side_tnfs_firmware.Settings.{
  SystemSettings, SystemState, sys_ok, set_settings, force_nul_termination, get,
}
use side_tnfs_firmware.Settings.Layout.{IsShaped}
use side_tnfs_firmware.Settings.Network.{
  NetworkConfig, net_ok, is_net_ok, netconfig_get, netconfig_validate, clean_network, with_network,
  set_then_save, net_save_status, netconfig_save,
}
use side_tnfs_firmware.Settings.Clock.{
  Offset, rtc_save_status, RtcConfig, rtc_ok, is_rtc_ok, rtcconfig_get, rtcconfig_validate,
  clean_rtc, with_rtc, rtcconfig_save,
}
use side_tnfs_firmware.Settings.Spec.{
  NetView, RtcView, net_view, rtc_view, requested_net, requested_rtc, IsNetShaped, IsRtcShaped,
}
use side_tnfs_firmware.Settings.Stored.{
  InRange, stored_state, Holds, set_then_save_lem, force_nul_termination-IsShaped,
  force_nul_termination_twice,
}
use side_tnfs_firmware.Settings.NetworkHalf
use side_tnfs_firmware.Settings.ClockHalf

-- The settings of a device that are active, and in its sector.
pub record Keeps (system : SystemState) (sector : List ℕ) (net : NetView) (rtc : RtcView)
    : Type 0 where
  pub settings : SystemSettings
  pub shaped : IsShaped settings
  pub ranged : InRange settings
  pub terminated : force_nul_termination settings ≡ settings
  pub active : system ≡ stored_state settings
  pub held : Holds sector settings
  pub net_half : net_view (netconfig_get (stored_state settings)) ≡ net
  pub rtc_half : rtc_view (rtcconfig_get (stored_state settings)) ≡ rtc

module _ (flash_range_erase : List ℕ → List ℕ) (flash_range_program : List ℕ → List ℕ → List ℕ)
    (ipaddr_aton : List ℕ → Bool) (programs : Programs flash_range_erase flash_range_program) where
  -- Settings that are set and saved are kept.
  saved-Keeps :
      (s : SystemSettings) (st : SystemState) (sector : List ℕ) (net : NetView) (rtc : RtcView)
      → IsShaped s
      → InRange s
      → net_view (netconfig_get (stored_state (force_nul_termination s))) ≡ net
      → rtc_view (rtcconfig_get (stored_state (force_nul_termination s))) ≡ rtc
      → (system' : SystemState) × (sector' : List ℕ) × (set_then_save flash_range_erase
            flash_range_program
            (set_settings s st)
            sector
          ≡ (sys_ok, system', sector'))
        × Keeps system' sector' net rtc
  unfolding force_nul_termination
  saved-Keeps s st sector net rtc h r a b =
      let (sector', held, e) =
        set_then_save_lem flash_range_erase flash_range_program programs s st sector h r in
      let t = force_nul_termination s in
      (
        stored_state t,
        sector',
        e,
        record {
          settings = t;
          shaped = force_nul_termination-IsShaped s h;
          ranged = record {
            auth_mode = r.auth_mode;
            use_dhcp = r.use_dhcp;
            rtc_enabled = r.rtc_enabled;
          };
          terminated = force_nul_termination_twice s;
          active = refl;
          held = held;
          net_half = a;
          rtc_half = b;
        },
      )

  get-stored : (s : SystemSettings) → get (stored_state s) ≡ s
  unfolding get
  get-stored s = refl

  clock_kept :
      (s : SystemSettings) (cfg : NetworkConfig)
      → rtc_view (rtcconfig_get (stored_state (force_nul_termination (with_network s cfg))))
        ≡ rtc_view (rtcconfig_get (stored_state (force_nul_termination s)))
  unfolding rtcconfig_get get force_nul_termination with_network
  clock_kept s cfg = refl

  network_kept :
      (s : SystemSettings) (cfg : RtcConfig)
      → net_view (netconfig_get (stored_state (force_nul_termination (with_rtc s cfg))))
        ≡ net_view (netconfig_get (stored_state (force_nul_termination s)))
  unfolding netconfig_get get force_nul_termination with_rtc
  network_kept s cfg = refl

  -- Saving the network half changes it, and keeps the clock half.
  pub save_network_lem :
      (cfg : NetworkConfig) (system : SystemState) (sector : List ℕ) (net : NetView) (rtc : RtcView)
      → Keeps system sector net rtc
      → IsNetShaped cfg
      → is_net_ok (netconfig_validate ipaddr_aton cfg) ≡ true
      → (system' : SystemState) × (sector' : List ℕ) × (netconfig_save flash_range_erase
            flash_range_program ipaddr_aton
            (true, cfg)
            system
            sector
          ≡ (net_ok, system', sector'))
        × Keeps system' sector' (requested_net cfg) rtc
  unfolding netconfig_save net_save_status
  save_network_lem cfg system sector net rtc h k v =
      let s = h.settings in
      let a = NetworkHalf.accepted_lem ipaddr_aton cfg v in
      let c = clean_network cfg in
      let (system', sector', e, kept) =
        saved-Keeps (with_network s c) (stored_state s) sector (requested_net cfg) rtc
          (NetworkHalf.with_network-IsShaped s cfg h.shaped k)
          (NetworkHalf.with_network-InRange s cfg h.shaped k h.ranged a)
          (NetworkHalf.netconfig_get-with_network s cfg h.shaped k a)
          (clock_kept s c
            ∙ ap (λ u. rtc_view (rtcconfig_get (stored_state u))) h.terminated
            ∙ h.rtc_half) in
      (system', sector', rw (h.active, get-stored s, v, e) refl, kept)

  -- Saving the clock half changes it, and keeps the network half.
  pub save_clock_lem :
      (cfg : RtcConfig) (o : Offset) (system : SystemState) (sector : List ℕ) (net : NetView)
      (rtc : RtcView)
      → Keeps system sector net rtc
      → IsRtcShaped cfg
      → ClockHalf.IsNormal cfg.utc_offset o
      → is_rtc_ok (rtcconfig_validate cfg) ≡ true
      → (system' : SystemState) × (sector' : List ℕ) × (rtcconfig_save flash_range_erase
            flash_range_program
            (true, cfg)
            system
            sector
          ≡ (rtc_ok, system', sector'))
        × Keeps system' sector' net (requested_rtc cfg)
  unfolding rtcconfig_save rtc_save_status
  save_clock_lem cfg o system sector net rtc h k n v =
      let s = h.settings in
      let a = ClockHalf.accepted_lem cfg v in
      let c = clean_rtc cfg in
      let (system', sector', e, kept) =
        saved-Keeps (with_rtc s c) (stored_state s) sector net (requested_rtc cfg)
          (ClockHalf.with_rtc-IsShaped s cfg o h.shaped k n)
          (ClockHalf.with_rtc-InRange s cfg o h.shaped k n h.ranged a)
          (network_kept s c
            ∙ ap (λ u. net_view (netconfig_get (stored_state u))) h.terminated
            ∙ h.net_half)
          (ClockHalf.rtcconfig_get-with_rtc s cfg o h.shaped k n) in
      (system', sector', rw (h.active, get-stored s, v, e) refl, kept)
