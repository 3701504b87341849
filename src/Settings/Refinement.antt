-- ===== src/Settings/Refinement.antt =====
-- romemul/sidetnfs_system_config.c with its two modules: over any sequence of requests and reboots
-- the device keeps what the registers of `Settings.Spec` keep.
use side_tnfs_firmware.Prelude.{
  ℕ, ◌≡◌, refl, ap, ◌∙◌, subst, inl, inr, Bool, true, false, Bool-cases, Option, none, some, List,
  [], ◌∷◌, All,
}
use side_tnfs_firmware.Drives.Save.{Programs}
use side_tnfs_firmware.Settings.{SystemState}
use side_tnfs_firmware.Settings.Legacy.{LegacyStore}
use side_tnfs_firmware.Settings.Flash.{init}
use side_tnfs_firmware.Settings.Network.{
  NetworkConfig, net_not_staged, is_net_ok, netconfig_validate, netconfig_stage, netconfig_save,
}
use side_tnfs_firmware.Settings.Clock.{
  RtcConfig, rtc_not_staged, is_rtc_ok, rtcconfig_validate, rtcconfig_stage, rtcconfig_save,
}
use side_tnfs_firmware.Settings.Device.{
  Device, Request, stage_network, save_network, stage_clock, save_clock, reboot, network_status,
  clock_status, handle, handle_all,
}
use side_tnfs_firmware.Settings.Spec.{
  NetView, RtcView, requested_net, requested_rtc, Registers, net_saved, rtc_saved, promise,
  promise_all, IsNetShaped, IsRtcShaped, IsRequest,
}
use side_tnfs_firmware.Settings.Stored.{stored_state, init-Holds}
use side_tnfs_firmware.Settings.ClockHalf
use side_tnfs_firmware.Settings.Saving.{Keeps, save_network_lem, save_clock_lem}

-- A staged value stands for what it asked for.
abbrev pub StagedNet : (List ℕ → Bool) → Bool × NetworkConfig → Option NetView → Type 0
StagedNet ipaddr_aton (true, cfg) (some v) =
    IsNetShaped cfg
    × (is_net_ok (netconfig_validate ipaddr_aton cfg) ≡ true)
    × (requested_net cfg ≡ v)
StagedNet ipaddr_aton (false, cfg) none = Unit
StagedNet ipaddr_aton (true, cfg) none = ⊥
StagedNet ipaddr_aton (false, cfg) (some v) = ⊥

abbrev pub StagedRtc : Bool × RtcConfig → Option RtcView → Type 0
StagedRtc (true, cfg) (some v) =
    IsRtcShaped cfg
    × (is_rtc_ok (rtcconfig_validate cfg) ≡ true)
    × (requested_rtc cfg ≡ v)
    × ((o : _) × ClockHalf.IsNormal cfg.utc_offset o)
StagedRtc (false, cfg) none = Unit
StagedRtc (true, cfg) none = ⊥
StagedRtc (false, cfg) (some v) = ⊥

abbrev pub Refines : (List ℕ → Bool) → Device → Registers → Type 0
Refines ipaddr_aton d σ =
    Keeps d.system d.sector σ.net σ.rtc
    × StagedNet ipaddr_aton d.network σ.staged_net
    × StagedRtc d.clock σ.staged_rtc

reloaded :
    {system : SystemState} {sector : List ℕ} {net : NetView} {rtc : RtcView} (system' : SystemState)
    (kept : Keeps system sector net rtc)
    → system' ≡ stored_state kept.settings
    → Keeps system' sector net rtc
reloaded system' kept e = record {
  settings = kept.settings;
  shaped = kept.shaped;
  ranged = kept.ranged;
  terminated = kept.terminated;
  active = e;
  held = kept.held;
  net_half = kept.net_half;
  rtc_half = kept.rtc_half;
}

module _ (flash_range_erase : List ℕ → List ℕ) (flash_range_program : List ℕ → List ℕ → List ℕ)
    (ipaddr_aton : List ℕ → Bool) (programs : Programs flash_range_erase flash_range_program)
    (store : LegacyStore) where
  abbrev Steps : Request → Device → Registers → Type 0
  Steps q d σ =
      let (response, d') = handle flash_range_erase flash_range_program ipaddr_aton store q d in
      let (expected, σ') = promise ipaddr_aton q σ in
      (response ≡ expected) × Refines ipaddr_aton d' σ'

  stage_network-Steps :
      (cfg : NetworkConfig) (d : Device) (σ : Registers)
      → IsNetShaped cfg
      → Refines ipaddr_aton d σ
      → Steps (stage_network cfg) d σ
  unfolding handle netconfig_stage
  stage_network-Steps cfg d σ k (kept, net, rtc) =
      elim (Bool-cases (is_net_ok (netconfig_validate ipaddr_aton cfg))) [
        | inl e ↦ rw e (refl, (kept, (k, e, refl), rtc))
        | inr e ↦ rw e (refl, (kept, net, rtc))
      ]

  stage_clock-Steps :
      (cfg : RtcConfig) (d : Device) (σ : Registers)
      → IsRtcShaped cfg
      → Refines ipaddr_aton d σ
      → Steps (stage_clock cfg) d σ
  unfolding handle rtcconfig_stage
  stage_clock-Steps cfg d σ k (kept, net, rtc) =
      elim (Bool-cases (is_rtc_ok (rtcconfig_validate cfg))) [
        | inl e ↦ rw e (refl, (kept, net, ClockHalf.staged_lem cfg k e))
        | inr e ↦ rw e (refl, (kept, net, rtc))
      ]

  unstaged_network :
      (cfg : NetworkConfig) (d : Device)
      → netconfig_save flash_range_erase flash_range_program ipaddr_aton
          (false, cfg)
          d.system
          d.sector
        ≡ (net_not_staged, d.system, d.sector)
  unfolding netconfig_save
  unstaged_network cfg d = refl

  unstaged_clock :
      (cfg : RtcConfig) (d : Device)
      → rtcconfig_save flash_range_erase flash_range_program (false, cfg) d.system d.sector
        ≡ (rtc_not_staged, d.system, d.sector)
  unfolding rtcconfig_save
  unstaged_clock cfg d = refl

  save_network-Steps :
      (network : Bool × NetworkConfig) (staged : Option NetView) (d : Device) (σ : Registers)
      → StagedNet ipaddr_aton network staged
      → Refines ipaddr_aton d σ
      → let (status, system, sector) =
          netconfig_save flash_range_erase flash_range_program ipaddr_aton network d.system
            d.sector in
        let (expected, σ') = net_saved staged σ in
        (network_status status ≡ expected)
        × Refines ipaddr_aton (record d { system = system; sector = sector }) σ'
  save_network-Steps (true, cfg) (some v) d σ (k, e, r) (kept, net, rtc) =
      let (system, sector, s, kept') =
        save_network_lem flash_range_erase flash_range_program ipaddr_aton programs cfg d.system
          d.sector σ.net σ.rtc kept k e in
      rw s (refl, (subst (λ w. Keeps system sector w σ.rtc) r kept', net, rtc))
  save_network-Steps (false, cfg) none d σ k h = rw (unstaged_network cfg d) (refl, h)
  save_network-Steps (true, cfg) none d σ k h = absurd k
  save_network-Steps (false, cfg) (some v) d σ k h = absurd k

  save_clock-Steps :
      (clock : Bool × RtcConfig) (staged : Option RtcView) (d : Device) (σ : Registers)
      → StagedRtc clock staged
      → Refines ipaddr_aton d σ
      → let (status, system, sector) =
          rtcconfig_save flash_range_erase flash_range_program clock d.system d.sector in
        let (expected, σ') = rtc_saved staged σ in
        (clock_status status ≡ expected)
        × Refines ipaddr_aton (record d { system = system; sector = sector }) σ'
  save_clock-Steps (true, cfg) (some v) d σ (k, e, r, (o, n)) (kept, net, rtc) =
      let (system, sector, s, kept') =
        save_clock_lem flash_range_erase flash_range_program ipaddr_aton programs cfg o d.system
          d.sector σ.net σ.rtc kept k n e in
      rw s (refl, (subst (λ w. Keeps system sector σ.net w) r kept', net, rtc))
  save_clock-Steps (false, cfg) none d σ k h = rw (unstaged_clock cfg d) (refl, h)
  save_clock-Steps (true, cfg) none d σ k h = absurd k
  save_clock-Steps (false, cfg) (some v) d σ k h = absurd k

  reboot-Steps : (d : Device) (σ : Registers) → Refines ipaddr_aton d σ → Steps reboot d σ
  unfolding handle
  reboot-Steps d σ (kept, net, rtc) =
      let loaded = init-Holds store d.sector kept.settings kept.shaped kept.ranged kept.held in
      (
        refl,
        (reloaded (init store d.sector) kept (loaded ∙ ap stored_state kept.terminated), tt, tt),
      )

  handle-Steps :
      (q : Request) (d : Device) (σ : Registers)
      → IsRequest q
      → Refines ipaddr_aton d σ
      → Steps q d σ
  unfolding handle
  handle-Steps (stage_network cfg) d σ k h = stage_network-Steps cfg d σ k h
  handle-Steps save_network d σ k h = save_network-Steps d.network σ.staged_net d σ h.1 h
  handle-Steps (stage_clock cfg) d σ k h = stage_clock-Steps cfg d σ k h
  handle-Steps save_clock d σ k h = save_clock-Steps d.clock σ.staged_rtc d σ h.2 h
  handle-Steps reboot d σ k h = reboot-Steps d σ h

  -- When the driver programs what it is given into an erased sector: any sequence of staging and
  -- saving either half, and of reboots, gets the statuses that the registers promise, whatever the
  -- address parser accepts, and leaves a device that again refines the registers.
  pub handle_all-Refines :
      (qs : List Request) (d : Device) (σ : Registers)
      → All IsRequest qs
      → Refines ipaddr_aton d σ
      → let (responses, d') =
          handle_all flash_range_erase flash_range_program ipaddr_aton store qs d in
        let (expected, σ') = promise_all ipaddr_aton qs σ in
        (responses ≡ expected) × Refines ipaddr_aton d' σ'
  unfolding handle_all
  handle_all-Refines [] d σ k h = (refl, h)
  handle_all-Refines (q ∷ qs) d σ (k, ks) h =
      let (e, h') = handle-Steps q d σ k h in
      let (es, h'') = handle_all-Refines qs _ _ ks h' in ((λ i. e i ∷ es i), h'')
