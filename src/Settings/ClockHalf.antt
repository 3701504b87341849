-- ===== src/Settings/ClockHalf.antt =====
-- romemul/sidetnfs_rtcconfig.c: what a staged clock half makes of the settings.
use side_tnfs_firmware.Prelude.{
  take-all, ℕ, suc, ◌≤◌, ◌≡◌, refl, sym, ap, ◌∙◌, Bool, true, false, not, ◌&&◌, Option, none, some,
  List, ◌==◌, if◌then◌else◌, length, take, set, arith, c_str, c_str-set,
}
use side_tnfs_firmware.Settings.{SystemSettings, force_nul_termination, is_nul_terminated, get}
use side_tnfs_firmware.Settings.Layout.{IsMember, IsShaped}
use side_tnfs_firmware.Settings.Network.{fresh_copy, copy_over}
use side_tnfs_firmware.Settings.Clock.{
  Offset, RtcConfig, RtcStatus, invalid_enabled, invalid_ntp_server, invalid_utc_offset, is_rtc_ok,
  parse_utc_offset, offset_text, write_offset, normalize_utc_offset, rtcconfig_get, has_space,
  is_some, rtcconfig_validate, clean_rtc, with_rtc,
}
use side_tnfs_firmware.Settings.Fields.{
  clean_field, text, fresh_copy_lem, clean_field-set, set-IsMember, set_bytes, text_kept, text-set,
}
use side_tnfs_firmware.Settings.Offset.{
  IsOffset, plain, offset_text-plain, parse_utc_offset-IsOffset, parse_utc_offset-text,
  write_text-text, short-text,
}
use side_tnfs_firmware.Settings.NetworkHalf.{stored_field, copy_over-IsMember}
use side_tnfs_firmware.Settings.Stored.{InRange, stored_state}
use side_tnfs_firmware.Settings.Spec.{rtc_view, requested_rtc, canonical, IsRtcShaped}

passes :
    (b : Bool) (bad rest : RtcStatus)
    → is_rtc_ok bad ≡ false
    → is_rtc_ok (if b then bad else rest) ≡ true
    → (b ≡ false) × (is_rtc_ok rest ≡ true)
passes true bad rest h e = absurd (ground (arith, h, e))
passes false bad rest h e = (refl, e)

some_offset : (o : Option Offset) → is_some o ≡ true → (offset : Offset) × (o ≡ some offset)
some_offset none h = absurd (ground (arith, h))
some_offset (some offset) h = (offset, refl)

-- What a request that is accepted fulfils.
pub record IsAccepted (cfg : RtcConfig) : Type 0 where
  pub enabled : cfg.enabled ≤ 1
  pub offset : Offset
  pub parsed : parse_utc_offset cfg.utc_offset 4 ≡ some offset

pub accepted_lem : (cfg : RtcConfig) → is_rtc_ok (rtcconfig_validate cfg) ≡ true → IsAccepted cfg
unfolding rtcconfig_validate
accepted_lem cfg h =
    let (enabled, h1) =
      passes (not (cfg.enabled == 0) && not (cfg.enabled == 1)) invalid_enabled _ refl h in
    let (_, h2) = passes (not (is_nul_terminated cfg.ntp_server 64)) invalid_ntp_server _ refl h1 in
    let (_, h3) =
      passes (cfg.enabled == 1 && length (c_str cfg.ntp_server) == 0) invalid_ntp_server _ refl
        h2 in
    let (_, h4) = passes (has_space (c_str cfg.ntp_server)) invalid_ntp_server _ refl h3 in
    let (offset, _) =
      passes (not (is_some (parse_utc_offset cfg.utc_offset 4))) invalid_utc_offset _ refl h4 in
    let (o, e) = some_offset (parse_utc_offset cfg.utc_offset 4) (ground (arith, offset)) in
    record { enabled = ground (arith, enabled); offset = o; parsed = e }

-- The validation looks at the offset only through its parse.
same_validation :
    (cfg : RtcConfig) (f : List ℕ) (o o' : Offset)
    → parse_utc_offset cfg.utc_offset 4 ≡ some o
    → parse_utc_offset f 4 ≡ some o'
    → rtcconfig_validate (record cfg { utc_offset = f }) ≡ rtcconfig_validate cfg
unfolding rtcconfig_validate
same_validation cfg f o o' e e' = rw (e, e') refl

-- A field that was normalised: it has the text of an offset.
pub record IsNormal (f : List ℕ) (o : Offset) : Type 0 where
  pub member : IsMember 4 f
  pub offset : IsOffset o
  pub spelled : c_str f ≡ offset_text o

pub normalize-IsNormal :
    (f : List ℕ) (o : Offset)
    → IsMember 4 f
    → parse_utc_offset f 4 ≡ some o
    → IsNormal (normalize_utc_offset f 4) o
unfolding normalize_utc_offset write_offset
normalize-IsNormal f o h e =
    let r = parse_utc_offset-IsOffset f 4 o e in
    let (member, spelled) = write_text-text f o h r in
    rw e (record { member = member; offset = r; spelled = spelled })

IsNormal-parsed : (f : List ℕ) (o : Offset) → IsNormal f o → parse_utc_offset f 4 ≡ some (plain o)
IsNormal-parsed f o h = parse_utc_offset-text f o h.member.0 h.offset h.spelled

-- A field of four characters that is parsed as an offset is, once it is normalised, parsed as that
-- offset without the sign of a zero, and its text is the one text of that offset, which normalising
-- it again keeps.
pub normalize_utc_offset_twice :
    (f : List ℕ) (o : Offset)
    → IsMember 4 f
    → parse_utc_offset f 4 ≡ some o
    → let g = normalize_utc_offset f 4 in
      (parse_utc_offset g 4 ≡ some (plain o))
      × (c_str g ≡ offset_text o)
      × (c_str (normalize_utc_offset g 4) ≡ c_str g)
normalize_utc_offset_twice f o h e =
    let n = normalize-IsNormal f o h e in
    let p = IsNormal-parsed (normalize_utc_offset f 4) o n in
    let m = normalize-IsNormal (normalize_utc_offset f 4) (plain o) n.member p in
    (p, n.spelled, m.spelled ∙ offset_text-plain o ∙ sym n.spelled)

-- Terminating and normalising it again keeps it normal.
again :
    (f : List ℕ) (o : Offset)
    → IsNormal f o
    → IsNormal (normalize_utc_offset (set f 3 0) 4) (plain o)
again f o h =
    let member = set-IsMember 3 f h.member in
    let spelled : c_str (set f 3 0) ≡ offset_text o =
      c_str-set f 3 (omega (arith, h.member.0))
      ∙ ap (take 3) h.spelled
      ∙ take-all 3 (offset_text o) (short-text o h.offset) in
    normalize-IsNormal (set f 3 0) (plain o) member
      (parse_utc_offset-text (set f 3 0) o member.0 h.offset spelled)

-- Staging leaves a request that is accepted again, and asks for the same.
pub staged_lem :
    (cfg : RtcConfig)
    → IsRtcShaped cfg
    → is_rtc_ok (rtcconfig_validate cfg) ≡ true
    → let staged = record cfg { utc_offset = normalize_utc_offset cfg.utc_offset 4 } in
      IsRtcShaped staged
      × (is_rtc_ok (rtcconfig_validate staged) ≡ true)
      × (requested_rtc staged ≡ requested_rtc cfg)
      × ((o : Offset) × IsNormal staged.utc_offset o)
staged_lem cfg s h =
    let a = accepted_lem cfg h in
    let o = a.offset in
    let n = normalize-IsNormal cfg.utc_offset o s.utc_offset a.parsed in
    let p = IsNormal-parsed (normalize_utc_offset cfg.utc_offset 4) o n in
    (
      record { enabled = s.enabled; ntp_server = s.ntp_server; utc_offset = n.member },
      ap is_rtc_ok
            (same_validation cfg (normalize_utc_offset cfg.utc_offset 4) o (plain o) a.parsed p)
          ∙ h,
      (λ i. record {
        enabled = cfg.enabled;
        ntp_server = text 63 cfg.ntp_server;
        utc_offset = (ap canonical p ∙ offset_text-plain o ∙ sym (ap canonical a.parsed)) i;
      }),
      (o, n),
    )

copied_terminated :
    (n : ℕ) (field src : List ℕ)
    → length field ≡ suc n
    → c_str (set (fresh_copy (set (copy_over field src n) n 0) (suc n) n) n 0) ≡ text n src
copied_terminated n field src h =
    ap (λ f. c_str (set (fresh_copy f (suc n) n) n 0)) (stored_field n field src h)
    ∙ ap (λ f. c_str (set f n 0)) (fresh_copy_lem n (clean_field n src))
    ∙ ap c_str (clean_field-set n (clean_field n src))
    ∙ text_kept n src

module _ (s : SystemSettings) (cfg : RtcConfig) (o : Offset) (h : IsShaped s) (k : IsRtcShaped cfg)
    (n : IsNormal cfg.utc_offset o) where
  pub with_rtc-IsShaped : IsShaped (with_rtc s (clean_rtc cfg))
  unfolding with_rtc clean_rtc
  with_rtc-IsShaped = record {
    auth_mode = h.auth_mode;
    use_dhcp = h.use_dhcp;
    ssid = h.ssid;
    password = h.password;
    country = h.country;
    ip_address = h.ip_address;
    netmask = h.netmask;
    gateway = h.gateway;
    primary_dns = h.primary_dns;
    rtc_enabled = k.enabled;
    ntp_server =
        copy_over-IsMember 63 s.ntp_server (set cfg.ntp_server 63 0) h.ntp_server.0
          (set_bytes cfg.ntp_server 63 k.ntp_server.1);
    utc_offset =
        copy_over-IsMember 3 s.utc_offset (normalize_utc_offset (set cfg.utc_offset 3 0) 4)
          h.utc_offset.0 (again cfg.utc_offset o n).member.1;
    reserved = h.reserved;
  }

  pub with_rtc-InRange : InRange s → IsAccepted cfg → InRange (with_rtc s (clean_rtc cfg))
  unfolding with_rtc clean_rtc
  with_rtc-InRange r a = record {
    auth_mode = r.auth_mode;
    use_dhcp = r.use_dhcp;
    rtc_enabled = a.enabled;
  }

  stored_offset :
      text 3 (normalize_utc_offset (set cfg.utc_offset 3 0) 4)
      ≡ canonical (parse_utc_offset cfg.utc_offset 4)
  stored_offset =
      let m = again cfg.utc_offset o n in
      ap (take 3) m.spelled
      ∙ take-all 3 (offset_text (plain o)) (short-text (plain o) m.offset)
      ∙ sym (ap canonical (IsNormal-parsed cfg.utc_offset o n))

  -- What is read from the saved settings is what was asked for.
  pub rtcconfig_get-with_rtc :
      rtc_view (rtcconfig_get (stored_state (force_nul_termination (with_rtc s (clean_rtc cfg)))))
      ≡ requested_rtc cfg
  unfolding rtcconfig_get get force_nul_termination with_rtc clean_rtc
  rtcconfig_get-with_rtc =
      let ntp : c_str (
            set (fresh_copy (set (copy_over s.ntp_server (set cfg.ntp_server 63 0) 63) 63 0) 64 63)
              63 0)
          ≡ text 63 cfg.ntp_server =
        copied_terminated 63 s.ntp_server (set cfg.ntp_server 63 0) h.ntp_server.0
        ∙ text-set 63 cfg.ntp_server (omega (arith, k.ntp_server.0)) in
      let offset = normalize_utc_offset (set cfg.utc_offset 3 0) 4 in
      let utc : c_str (set (fresh_copy (set (copy_over s.utc_offset offset 3) 3 0) 4 3) 3 0)
          ≡ canonical (parse_utc_offset cfg.utc_offset 4) =
        copied_terminated 3 s.utc_offset offset h.utc_offset.0 ∙ stored_offset in
      λ i. record { enabled = cfg.enabled; ntp_server = ntp i; utc_offset = utc i }
