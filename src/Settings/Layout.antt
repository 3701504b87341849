-- ===== src/Settings/Layout.antt =====
-- The bytes of `sidetnfs_system_flash_t` (276), as the RP2040 lays them out: little-endian, with two
-- bytes of padding before the checksum.
use side_tnfs_firmware.Prelude.{
  sym, ℕ, ◌<◌, ◌^◌, ◌≡◌, refl, ap, ◌∙◌, List, [], ◌∷◌, ◌++◌, append_assoc, length, take, drop,
  take-append, drop-append, get_or, le16, le32, read_le16, read_le32, read_le16-le16,
  read_le32-le32, arith, All, IsByte, All-append,
}
use side_tnfs_firmware.Settings.{SystemSettings, SystemFlash}

-- The sizes of the members.
abbrev pub member_sizes : List ℕ
member_sizes = 4 ∷ 4 ∷ 2 ∷ 2 ∷ 36 ∷ 68 ∷ 4 ∷ 16 ∷ 16 ∷ 16 ∷ 16 ∷ 2 ∷ 64 ∷ 4 ∷ 16 ∷ 2 ∷ 4 ∷ []

unfoldable pub concat : List (List ℕ) → List ℕ
concat [] = []
concat (f ∷ fs) = f ++ concat fs

-- Members of these sizes, one behind the other.
unfoldable pub split : List ℕ → List ℕ → List (List ℕ)
split [] bs = []
split (n ∷ ns) bs = take n bs ∷ split ns (drop n bs)

-- The bytes before the checksum, by member.
unfoldable pub body_members : SystemFlash → List (List ℕ)
body_members f =
    le32 f.magic
    ∷ le32 f.version
    ∷ le16 f.settings.auth_mode
    ∷ le16 f.settings.use_dhcp
    ∷ f.settings.ssid
    ∷ f.settings.password
    ∷ f.settings.country
    ∷ f.settings.ip_address
    ∷ f.settings.netmask
    ∷ f.settings.gateway
    ∷ f.settings.primary_dns
    ∷ le16 f.settings.rtc_enabled
    ∷ f.settings.ntp_server
    ∷ f.settings.utc_offset
    ∷ f.settings.reserved
    ∷ f.padding
    ∷ []

unfoldable pub encode_body : SystemFlash → List ℕ
unfolding body_members concat
encode_body f = concat (body_members f)

unfoldable pub encode : SystemFlash → List ℕ
unfolding encode_body
encode f = encode_body f ++ le32 f.crc32

unfoldable pub of_members : List (List ℕ) → SystemFlash
of_members ms = record {
  magic = read_le32 (get_or ms 0 []);
  version = read_le32 (get_or ms 1 []);
  settings = record {
    auth_mode = read_le16 (get_or ms 2 []);
    use_dhcp = read_le16 (get_or ms 3 []);
    ssid = get_or ms 4 [];
    password = get_or ms 5 [];
    country = get_or ms 6 [];
    ip_address = get_or ms 7 [];
    netmask = get_or ms 8 [];
    gateway = get_or ms 9 [];
    primary_dns = get_or ms 10 [];
    rtc_enabled = read_le16 (get_or ms 11 []);
    ntp_server = get_or ms 12 [];
    utc_offset = get_or ms 13 [];
    reserved = get_or ms 14 [];
  };
  padding = get_or ms 15 [];
  crc32 = read_le32 (get_or ms 16 []);
}

-- `memcpy(&candidate, flash_ptr, sizeof(candidate))`
unfoldable pub decode : List ℕ → SystemFlash
unfolding split of_members
decode bs = of_members (split member_sizes bs)

-- A member of `n` bytes.
abbrev pub IsMember : ℕ → List ℕ → Type 0
IsMember n field = (length field ≡ n) × All IsByte field

-- Every member is within its C type.
pub record IsShaped (s : SystemSettings) : Type 0 where
  pub auth_mode : s.auth_mode < 2 ^ 16
  pub use_dhcp : s.use_dhcp < 2 ^ 16
  pub ssid : IsMember 36 s.ssid
  pub password : IsMember 68 s.password
  pub country : IsMember 4 s.country
  pub ip_address : IsMember 16 s.ip_address
  pub netmask : IsMember 16 s.netmask
  pub gateway : IsMember 16 s.gateway
  pub primary_dns : IsMember 16 s.primary_dns
  pub rtc_enabled : s.rtc_enabled < 2 ^ 16
  pub ntp_server : IsMember 64 s.ntp_server
  pub utc_offset : IsMember 4 s.utc_offset
  pub reserved : IsMember 16 s.reserved

-- Members have the sizes.
abbrev Fit : List ℕ → List (List ℕ) → Type 0
Fit [] [] = Unit
Fit (n ∷ ns) (m ∷ ms) = (length m ≡ n) × Fit ns ms
Fit _ _ = ⊥

split-concat :
    (ns : List ℕ) (ms : List (List ℕ)) (rest : List ℕ)
    → Fit ns ms
    → split ns (concat ms ++ rest) ≡ ms
unfolding split concat
split-concat [] [] rest h = refl
split-concat [] (m ∷ ms) rest h = absurd h
split-concat (n ∷ ns) [] rest h = absurd h
split-concat (n ∷ ns) (m ∷ ms) rest h =
    rw
      (
        append_assoc m (concat ms) rest,
        take-append m (concat ms ++ rest) n h.0,
        drop-append m (concat ms ++ rest) n h.0,
        split-concat ns ms rest h.1,
      )
      refl

concat-append : (ms ns : List (List ℕ)) → concat (ms ++ ns) ≡ concat ms ++ concat ns
unfolding concat
concat-append [] ns = refl
concat-append (m ∷ ms) ns =
    ap (λ t. m ++ t) (concat-append ms ns) ∙ sym (append_assoc m (concat ms) (concat ns))

concat-IsByte_members : (ms : List (List ℕ)) → All (All IsByte) ms → All IsByte (concat ms)
unfolding concat
concat-IsByte_members [] h = tt
concat-IsByte_members (m ∷ ms) h =
    All-append IsByte m (concat ms) h.0 (concat-IsByte_members ms h.1)

le16_bytes : (w : ℕ) → All IsByte (le16 w)
le16_bytes w = (omega arith, (omega arith, tt))

le32_bytes : (w : ℕ) → All IsByte (le32 w)
le32_bytes w = (omega arith, (omega arith, (omega arith, (omega arith, tt))))

-- A block whose members are within their C types.
pub record IsBlock (f : SystemFlash) : Type 0 where
  pub magic : f.magic < 2 ^ 32
  pub version : f.version < 2 ^ 32
  pub settings : IsShaped f.settings
  pub padding : IsMember 2 f.padding
  pub crc32 : f.crc32 < 2 ^ 32

pub encode_body_bytes :
    (f : SystemFlash) → IsShaped f.settings → IsMember 2 f.padding → All IsByte (encode_body f)
unfolding encode_body body_members
encode_body_bytes f s p = concat-IsByte_members (body_members f) (
  le32_bytes f.magic,
  (
    le32_bytes f.version,
    (
      le16_bytes f.settings.auth_mode,
      (
        le16_bytes f.settings.use_dhcp,
        (
          s.ssid.1,
          (
            s.password.1,
            (
              s.country.1,
              (
                s.ip_address.1,
                (
                  s.netmask.1,
                  (
                    s.gateway.1,
                    (
                      s.primary_dns.1,
                      (
                        le16_bytes f.settings.rtc_enabled,
                        (s.ntp_server.1, (s.utc_offset.1, (s.reserved.1, (p.1, tt)))),
                      ),
                    ),
                  ),
                ),
              ),
            ),
          ),
        ),
      ),
    ),
  ),
)

-- A block is read back as it was laid out, whatever stands behind it.
pub decode-encode : (f : SystemFlash) (rest : List ℕ) → IsBlock f → decode (encode f ++ rest) ≡ f
unfolding decode encode encode_body of_members body_members concat
decode-encode f rest b =
    let s = b.settings in
    let ms = body_members f ++ (le32 f.crc32 ∷ []) in
    let flat : encode f ≡ concat ms = sym (concat-append (body_members f) (le32 f.crc32 ∷ [])) in
    ap (λ t. of_members (split member_sizes (t ++ rest))) flat
    ∙ ap of_members (
        split-concat member_sizes ms rest (
          refl,
          (
            refl,
            (
              refl,
              (
                refl,
                (
                  s.ssid.0,
                  (
                    s.password.0,
                    (
                      s.country.0,
                      (
                        s.ip_address.0,
                        (
                          s.netmask.0,
                          (
                            s.gateway.0,
                            (
                              s.primary_dns.0,
                              (
                                refl,
                                (
                                  s.ntp_server.0,
                                  (s.utc_offset.0, (s.reserved.0, (b.padding.0, (refl, tt)))),
                                ),
                              ),
                            ),
                          ),
                        ),
                      ),
                    ),
                  ),
                ),
              ),
            ),
          ),
        ))
    ∙ (λ i. record {
      magic = read_le32-le32 f.magic b.magic i;
      version = read_le32-le32 f.version b.version i;
      settings = record f.settings {
        auth_mode = read_le16-le16 f.settings.auth_mode s.auth_mode i;
        use_dhcp = read_le16-le16 f.settings.use_dhcp s.use_dhcp i;
        rtc_enabled = read_le16-le16 f.settings.rtc_enabled s.rtc_enabled i;
      };
      padding = f.padding;
      crc32 = read_le32-le32 f.crc32 b.crc32 i;
    })
