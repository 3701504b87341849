-- ===== src/Settings/NetworkHalf.antt =====
-- romemul/sidetnfs_netconfig.c: what a staged network half makes of the settings.
use side_tnfs_firmware.Prelude.{
  take-all, ℕ, suc, ◌≤◌, ◌≡◌, refl, sym, ap, ◌∙◌, subst, inl, inr, Bool, true, false, not, ◌&&◌,
  ◌||◌, Bool-cases, List, [], ◌∷◌, map, ltb, ◌==◌, if◌then◌else◌, length, length-map, get_or, set,
  All, IsByte, arith, c_str, same_text, c_str-padded,
}
use side_tnfs_firmware.Names.{toupper}
use side_tnfs_firmware.Drives.Flash.{char_array}
use side_tnfs_firmware.Settings.{SystemSettings, force_nul_termination, is_nul_terminated, get}
use side_tnfs_firmware.Settings.Layout.{IsMember, IsShaped}
use side_tnfs_firmware.Settings.Network.{
  NetworkConfig, NetStatus, invalid_ssid, invalid_password, invalid_auth_mode, invalid_country,
  invalid_dhcp, is_net_ok, fresh_copy, copy_over, netconfig_get, valid_country, netconfig_validate,
  clean_network, with_network,
}
use side_tnfs_firmware.Settings.Fields.{
  clean_field, text, copy_over_lem, fresh_copy_lem, clean_field-set, clean_field-IsMember,
  set_bytes, text_kept, text-set,
}
use side_tnfs_firmware.Settings.Stored.{InRange, stored_state}
use side_tnfs_firmware.Settings.Spec.{net_view, requested_net, IsNetShaped}

-- A test passed.
passes :
    (b : Bool) (bad rest : NetStatus)
    → is_net_ok bad ≡ false
    → is_net_ok (if b then bad else rest) ≡ true
    → (b ≡ false) × (is_net_ok rest ≡ true)
passes true bad rest h e = absurd (ground (arith, h, e))
passes false bad rest h e = (refl, e)

-- What a request that is accepted fulfils.
pub record IsAccepted (cfg : NetworkConfig) : Type 0 where
  pub auth_mode : cfg.auth_mode ≤ 8
  pub use_dhcp : cfg.use_dhcp ≤ 1
  pub country : length (c_str cfg.country) ≡ 2

pub accepted_lem :
    (ipaddr_aton : List ℕ → Bool) (cfg : NetworkConfig)
    → is_net_ok (netconfig_validate ipaddr_aton cfg) ≡ true
    → IsAccepted cfg
unfolding netconfig_validate
accepted_lem ipaddr_aton cfg h =
    let (_, h1) =
      passes (not (is_nul_terminated cfg.ssid 36) || ltb 32 (length (c_str cfg.ssid))) invalid_ssid
        _ refl h in
    let (_, h2) =
      passes (not (is_nul_terminated cfg.password 68) || ltb 64 (length (c_str cfg.password)))
        invalid_password _ refl h1 in
    let (auth, h3) = passes (ltb 8 cfg.auth_mode) invalid_auth_mode _ refl h2 in
    let (country, h4) =
      passes (not (is_nul_terminated cfg.country 4) || not (length (c_str cfg.country) == 2))
        invalid_country _ refl h3 in
    let upper = map toupper (c_str cfg.country) in
    let (_, h5) = passes (not (same_text upper (valid_country upper))) invalid_country _ refl h4 in
    let (dhcp, _) =
      passes (not (cfg.use_dhcp == 0) && not (cfg.use_dhcp == 1)) invalid_dhcp _ refl h5 in
    record {
      auth_mode = ground (arith, auth);
      use_dhcp = ground (arith, dhcp);
      country = ground (arith, country);
    }

toupper-IsByte : (c : ℕ) → IsByte c → IsByte (toupper c)
unfolding toupper
toupper-IsByte c h = ground (arith, h)

toupper-nonzero : (c : ℕ) → (c == 0) ≡ false → (toupper c == 0) ≡ false
unfolding toupper
toupper-nonzero c h = ground (arith, h)

-- The country as `clean_network` leaves it.
clean_country : List ℕ → List ℕ
clean_country f =
    let terminated = set f 3 0 in
    let first = set terminated 0 (toupper (get_or terminated 0 0)) in
    set first 1 (toupper (get_or first 1 0))

clean_country_bytes : (f : List ℕ) → length f ≡ 4 → All IsByte f → All IsByte (clean_country f)
unfolding clean_country
clean_country_bytes [] l h = absurd (omega (arith, l))
clean_country_bytes (a ∷ []) l h = absurd (omega (arith, l))
clean_country_bytes (a ∷ b ∷ []) l h = absurd (omega (arith, l))
clean_country_bytes (a ∷ b ∷ c ∷ f) l (ha, (hb, (hc, hf))) =
    (toupper-IsByte a ha, (toupper-IsByte b hb, (hc, set_bytes f 0 hf)))

two_letters :
    (a b c : ℕ) (f : List ℕ)
    → length (c_str (a ∷ b ∷ c ∷ f)) ≡ 2
    → ((a == 0) ≡ false) × ((b == 0) ≡ false) × ((c == 0) ≡ true)
unfolding c_str
two_letters a b c f h = elim (Bool-cases (a == 0)) [
  | inl e ↦ absurd (let k = rw e at h in omega (arith, k))
  | inr e ↦ elim (Bool-cases (b == 0)) [
    | inl g ↦ absurd (let k = rw (e, g) at h in omega (arith, k))
    | inr g ↦ elim (Bool-cases (c == 0)) [
      | inl k ↦ (e, g, k)
      | inr k ↦ absurd (let j = rw (e, g, k) at h in omega (arith, j))
    ]
  ]
]

clean_country-text :
    (f : List ℕ)
    → length f ≡ 4
    → length (c_str f) ≡ 2
    → text 3 (clean_country f) ≡ map toupper (text 3 f)
unfolding clean_country c_str
clean_country-text [] l h = absurd (omega (arith, l))
clean_country-text (a ∷ []) l h = absurd (omega (arith, l))
clean_country-text (a ∷ b ∷ []) l h = absurd (omega (arith, l))
clean_country-text (a ∷ b ∷ c ∷ []) l h = absurd (omega (arith, l))
clean_country-text (a ∷ b ∷ c ∷ d ∷ f) l h =
    let (x, y, z) = two_letters a b c (d ∷ f) h in
    rw (x, y, z, toupper-nonzero a x, toupper-nonzero b y) refl

-- A field after it was copied over and terminated.
pub stored_field :
    (n : ℕ) (field src : List ℕ)
    → length field ≡ suc n
    → set (copy_over field src n) n 0 ≡ clean_field n src
stored_field n field src h =
    ap (λ f. set f n 0) (copy_over_lem n field src h) ∙ clean_field-set n src

pub copied_out :
    (n : ℕ) (field src : List ℕ)
    → length field ≡ suc n
    → c_str (fresh_copy (set (copy_over field src n) n 0) (suc n) n) ≡ text n src
copied_out n field src h =
    ap (λ f. c_str (fresh_copy f (suc n) n)) (stored_field n field src h)
    ∙ ap c_str (fresh_copy_lem n (clean_field n src))
    ∙ text_kept n src

pub copied :
    (n : ℕ) (field f : List ℕ)
    → length field ≡ suc n
    → length f ≡ suc n
    → c_str (fresh_copy (set (copy_over field (set f n 0) n) n 0) (suc n) n) ≡ text n f
copied n field f h k = copied_out n field (set f n 0) h ∙ text-set n f (omega (arith, k))

pub copy_over-IsMember :
    (n : ℕ) (field src : List ℕ)
    → length field ≡ suc n
    → All IsByte src
    → IsMember (suc n) (copy_over field src n)
copy_over-IsMember n field src h b =
    subst (IsMember (suc n)) (sym (copy_over_lem n field src h)) (clean_field-IsMember n src b)

module _ (s : SystemSettings) (cfg : NetworkConfig) (h : IsShaped s) (k : IsNetShaped cfg) where
  pub with_network-IsShaped : IsShaped (with_network s (clean_network cfg))
  unfolding with_network clean_network clean_country
  with_network-IsShaped = record {
    auth_mode = k.auth_mode;
    use_dhcp = k.use_dhcp;
    ssid =
        copy_over-IsMember 35 s.ssid (set cfg.ssid 35 0) h.ssid.0 (set_bytes cfg.ssid 35 k.ssid.1);
    password =
        copy_over-IsMember 67 s.password (set cfg.password 67 0) h.password.0
          (set_bytes cfg.password 67 k.password.1);
    ip_address =
        copy_over-IsMember 15 s.ip_address (set cfg.ip_address 15 0) h.ip_address.0
          (set_bytes cfg.ip_address 15 k.ip_address.1);
    netmask =
        copy_over-IsMember 15 s.netmask (set cfg.netmask 15 0) h.netmask.0
          (set_bytes cfg.netmask 15 k.netmask.1);
    gateway =
        copy_over-IsMember 15 s.gateway (set cfg.gateway 15 0) h.gateway.0
          (set_bytes cfg.gateway 15 k.gateway.1);
    primary_dns =
        copy_over-IsMember 15 s.primary_dns (set cfg.primary_dns 15 0) h.primary_dns.0
          (set_bytes cfg.primary_dns 15 k.primary_dns.1);
    country =
        copy_over-IsMember 3 s.country (clean_country cfg.country) h.country.0
          (clean_country_bytes cfg.country k.country.0 k.country.1);
    rtc_enabled = h.rtc_enabled;
    ntp_server = h.ntp_server;
    utc_offset = h.utc_offset;
    reserved = h.reserved;
  }

  pub with_network-InRange :
      InRange s → IsAccepted cfg → InRange (with_network s (clean_network cfg))
  unfolding with_network clean_network
  with_network-InRange r a = record {
    auth_mode = a.auth_mode;
    use_dhcp = a.use_dhcp;
    rtc_enabled = r.rtc_enabled;
  }

  stored_country :
      length (c_str cfg.country) ≡ 2
      → c_str (set (copy_over s.country (clean_country cfg.country) 3) 3 0)
        ≡ map toupper (text 3 cfg.country)
  stored_country a =
      ap c_str (stored_field 3 s.country (clean_country cfg.country) h.country.0)
      ∙ c_str-padded 3 (clean_country cfg.country) []
      ∙ clean_country-text cfg.country k.country.0 a

  -- What is read from the saved settings is what was asked for.
  pub netconfig_get-with_network :
      IsAccepted cfg
      → net_view (
          netconfig_get (stored_state (force_nul_termination (with_network s (clean_network cfg)))))
        ≡ requested_net cfg
  unfolding netconfig_get get force_nul_termination with_network clean_network clean_country
  netconfig_get-with_network a =
      let filled : ltb 0
            (length (c_str (set (copy_over s.country (clean_country cfg.country) 3) 3 0)))
          ≡ true =
        let size = ap (λ (l : List ℕ). length l) (stored_country a.country) in
        let same = length-map toupper (text 3 cfg.country) in
        let whole =
          ap (λ (l : List ℕ). length l)
            (take-all 3 (c_str cfg.country) (omega (arith, a.country))) in
        ground (arith, size, same, whole, a.country) in
      let country : c_str (
            fresh_copy
              (if ltb 0
                  (length (c_str (set (copy_over s.country (clean_country cfg.country) 3) 3 0)))
                then set (copy_over s.country (clean_country cfg.country) 3) 3 0
                else char_array 4 "XX")
              4 3)
          ≡ map toupper (text 3 cfg.country) =
        rw filled (
          copied_out 3 s.country (clean_country cfg.country) h.country.0
          ∙ clean_country-text cfg.country k.country.0 a.country) in
      λ i. record {
        auth_mode = cfg.auth_mode;
        use_dhcp = cfg.use_dhcp;
        ssid = copied 35 s.ssid cfg.ssid h.ssid.0 k.ssid.0 i;
        password = copied 67 s.password cfg.password h.password.0 k.password.0 i;
        ip_address = copied 15 s.ip_address cfg.ip_address h.ip_address.0 k.ip_address.0 i;
        netmask = copied 15 s.netmask cfg.netmask h.netmask.0 k.netmask.0 i;
        gateway = copied 15 s.gateway cfg.gateway h.gateway.0 k.gateway.0 i;
        primary_dns = copied 15 s.primary_dns cfg.primary_dns h.primary_dns.0 k.primary_dns.0 i;
        country = country i;
      }
