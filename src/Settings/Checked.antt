-- ===== src/Settings/Checked.antt =====
-- romemul/sidetnfs_system_config.c: the structural check on texts that were terminated.
use side_tnfs_firmware.Prelude.{
  length-drop, ℕ, ◌+◌, ◌≤◌, ◌≡◌, refl, ◌∙◌, Bool, true, false, not, ◌&&◌, List, [], ◌∷◌, ltb, ◌==◌,
  if◌then◌else◌, length, length-take, drop, arith,
}
use side_tnfs_firmware.Settings.{
  SystemSettings, force_nul_termination, is_nul_terminated, validate_structure,
}
use side_tnfs_firmware.Settings.Layout.{member_sizes, split, of_members, decode}
use side_tnfs_firmware.Settings.Fields.{terminated_lem}

-- The arrays of the texts have their sizes.
pub record IsSized (s : SystemSettings) : Type 0 where
  pub ssid : length s.ssid ≡ 36
  pub password : length s.password ≡ 68
  pub country : length s.country ≡ 4
  pub ip_address : length s.ip_address ≡ 16
  pub netmask : length s.netmask ≡ 16
  pub gateway : length s.gateway ≡ 16
  pub primary_dns : length s.primary_dns ≡ 16
  pub ntp_server : length s.ntp_server ≡ 64
  pub utc_offset : length s.utc_offset ≡ 4

pub passes : (b r : Bool) → (if b then false else r) ≡ true → (b ≡ false) × (r ≡ true)
passes true r h = absurd (ground (arith, h))
passes false r h = (refl, h)

-- The tests of the numbers, which the check makes last.
unfoldable pub numbers : SystemSettings → Bool
numbers s =
    if not (s.use_dhcp == 0) && not (s.use_dhcp == 1)
    then false
    else if not (s.rtc_enabled == 0) && not (s.rtc_enabled == 1)
    then false
    else if ltb 8 s.auth_mode
    then false
    else true

-- On terminated texts the check is that of the numbers.
pub checked :
    (s : SystemSettings) → IsSized s → validate_structure (force_nul_termination s) ≡ numbers s
unfolding validate_structure force_nul_termination numbers
checked s h =
    rw
      (
        terminated_lem 35 s.ssid h.ssid,
        terminated_lem 67 s.password h.password,
        terminated_lem 3 s.country h.country,
        terminated_lem 15 s.ip_address h.ip_address,
        terminated_lem 15 s.netmask h.netmask,
        terminated_lem 15 s.gateway h.gateway,
        terminated_lem 15 s.primary_dns h.primary_dns,
        terminated_lem 63 s.ntp_server h.ntp_server,
        terminated_lem 3 s.utc_offset h.utc_offset,
      )
      refl

-- What passes the check has good numbers.
pub validate_structure-numbers :
    (s : SystemSettings) → validate_structure s ≡ true → numbers s ≡ true
unfolding validate_structure numbers
validate_structure-numbers s h =
    let (_, h1) = passes (not (is_nul_terminated s.ssid 36)) _ h in
    let (_, h2) = passes (not (is_nul_terminated s.password 68)) _ h1 in
    let (_, h3) = passes (not (is_nul_terminated s.country 4)) _ h2 in
    let (_, h4) = passes (not (is_nul_terminated s.ip_address 16)) _ h3 in
    let (_, h5) = passes (not (is_nul_terminated s.netmask 16)) _ h4 in
    let (_, h6) = passes (not (is_nul_terminated s.gateway 16)) _ h5 in
    let (_, h7) = passes (not (is_nul_terminated s.primary_dns 16)) _ h6 in
    let (_, h8) = passes (not (is_nul_terminated s.ntp_server 64)) _ h7 in
    (passes (not (is_nul_terminated s.utc_offset 4)) _ h8).1

-- Members that are cut from enough bytes have their sizes.
abbrev HasSizes : List ℕ → List (List ℕ) → Type 0
HasSizes [] ms = Unit
HasSizes (n ∷ ns) [] = ⊥
HasSizes (n ∷ ns) (m ∷ ms) = (length m ≡ n) × HasSizes ns ms

abbrev total : List ℕ → ℕ
total [] = 0
total (n ∷ ns) = n + total ns

split-HasSizes : (ns bs : List ℕ) → total ns ≤ length bs → HasSizes ns (split ns bs)
unfolding split
split-HasSizes [] bs h = tt
split-HasSizes (n ∷ ns) bs h = (
  length-take n bs ∙ omega (arith, h),
  split-HasSizes ns (drop n bs) (omega (arith, h, length-drop n bs)),
)

pub decode-IsSized : (sector : List ℕ) → 276 ≤ length sector → IsSized (decode sector).settings
unfolding decode of_members split
decode-IsSized sector h =
    let (_, (_, (_, (_, (a, (b, (c, (d, (e, (f, (g, (_, (i, (j, _)))))))))))))) =
      split-HasSizes member_sizes sector h in
    record {
      ssid = a;
      password = b;
      country = c;
      ip_address = d;
      netmask = e;
      gateway = f;
      primary_dns = g;
      ntp_server = i;
      utc_offset = j;
    }
