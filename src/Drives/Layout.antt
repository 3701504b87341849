-- ===== src/Drives/Layout.antt =====
-- The bytes of `sidetnfs_drive_config_t` (192) and `sidetnfs_drive_flash_t` (1552), as the RP2040
-- lays them out: little-endian, and no padding, by the header's static assertions.
use side_tnfs_firmware.Prelude.{
  ℕ, zero, suc, ◌+◌, ◌*◌, ◌/◌, ◌%◌, ◌^◌, ◌<◌, ◌≡◌, refl, ap, ◌∙◌, append_assoc, read_le16-le16,
  read_le32-le32, List, [], ◌∷◌, ◌++◌, arith, length, length-append, take, drop, take-append,
  drop-append, get_or, All, IsByte, le16, le32, read_le16, read_le32,
}
use side_tnfs_firmware.Drives.{DriveConfig, DriveFlash}

unfoldable pub encode_drive : DriveConfig → List ℕ
encode_drive d =
    d.state
    ∷ d.drive_letter
    ∷ d.type
    ∷ d.transport
    ∷ (le16 d.port ++ (d.reserved0 ++ (d.nickname ++ (d.host ++ (d.mount_path ++ d.sd_path)))))

unfoldable pub encode_drives : List DriveConfig → List ℕ
encode_drives [] = []
encode_drives (d ∷ ds) = encode_drive d ++ encode_drives ds

-- The bytes before the checksum: `offsetof(sidetnfs_drive_flash_t, crc32)` of them.
unfoldable pub encode_body : DriveFlash → List ℕ
encode_body c =
    le32 c.magic
    ++ (le32 c.version
        ++ (c.config_drive_letter ∷ c.drive_count ∷ (c.reserved ++ encode_drives c.drives)))

unfoldable pub encode : DriveFlash → List ℕ
encode c = encode_body c ++ le32 c.crc32

unfoldable pub decode_drive : List ℕ → DriveConfig
decode_drive bs = record {
  state = get_or bs 0 0;
  drive_letter = get_or bs 1 0;
  type = get_or bs 2 0;
  transport = get_or bs 3 0;
  port = read_le16 (drop 4 bs);
  reserved0 = take 2 (drop 6 bs);
  nickname = take 24 (drop 8 bs);
  host = take 64 (drop 32 bs);
  mount_path = take 32 (drop 96 bs);
  sd_path = take 64 (drop 128 bs);
}

unfoldable pub decode_drives : ℕ → List ℕ → List DriveConfig
decode_drives zero bs = []
decode_drives (suc n) bs = decode_drive bs ∷ decode_drives n (drop 192 bs)

-- `memcpy(&candidate, flash_ptr, sizeof(candidate))`
unfoldable pub decode : List ℕ → DriveFlash
decode bs = record {
  magic = read_le32 bs;
  version = read_le32 (drop 4 bs);
  config_drive_letter = get_or bs 8 0;
  drive_count = get_or bs 9 0;
  reserved = take 2 (drop 10 bs);
  drives = decode_drives 8 (drop 12 bs);
  crc32 = read_le32 (drop 1548 bs);
}

-- A field of `n` characters.
abbrev pub IsField : ℕ → List ℕ → Type 0
IsField n field = (length field ≡ n) × All IsByte field

-- Every field of a drive is within its C type.
pub record IsDriveShaped (d : DriveConfig) : Type 0 where
  pub state : IsByte d.state
  pub drive_letter : IsByte d.drive_letter
  pub type : IsByte d.type
  pub transport : IsByte d.transport
  pub port : d.port < 2 ^ 16
  pub reserved0 : IsField 2 d.reserved0
  pub nickname : IsField 24 d.nickname
  pub host : IsField 64 d.host
  pub mount_path : IsField 32 d.mount_path
  pub sd_path : IsField 64 d.sd_path

pub record IsShaped (c : DriveFlash) : Type 0 where
  pub magic : c.magic < 2 ^ 32
  pub version : c.version < 2 ^ 32
  pub config_drive_letter : IsByte c.config_drive_letter
  pub drive_count : IsByte c.drive_count
  pub reserved : IsField 2 c.reserved
  pub slots : length c.drives ≡ 8
  pub drives : All IsDriveShaped c.drives
  pub crc32 : c.crc32 < 2 ^ 32

module _ {ℓ} {A : Type ℓ} where
  -- Past a known front.
  drop_past : (xs ys : List A) (k n : ℕ) → length xs ≡ k → drop (k + n) (xs ++ ys) ≡ drop n ys
  drop_past [] ys k n h = let e : k + n ≡ n = omega arith in rw e refl
  drop_past (x ∷ xs) ys zero n h = absurd (omega arith)
  drop_past (x ∷ xs) ys (suc k) n h =
      let e : suc k + n ≡ suc (k + n) = omega arith in rw e (drop_past xs ys k n (omega arith))

module _ (d : DriveConfig) (rest : List ℕ) (s : IsDriveShaped d) where
  open d use {reserved0, nickname, host, mount_path, sd_path}

  -- What follows the port.
  tail : List ℕ
  tail = reserved0 ++ (nickname ++ (host ++ (mount_path ++ (sd_path ++ rest))))

  tail_lem : (reserved0 ++ (nickname ++ (host ++ (mount_path ++ sd_path)))) ++ rest ≡ tail
  unfolding tail
  tail_lem = simp append_assoc

  at_reserved0 : take 2 tail ≡ reserved0
  unfolding tail
  at_reserved0 = take-append reserved0 _ 2 s.reserved0.0

  at_nickname : take 24 (drop 2 tail) ≡ nickname
  unfolding tail
  at_nickname =
      ap (take 24) (drop-append reserved0 _ 2 s.reserved0.0)
      ∙ take-append nickname _ 24 s.nickname.0

  at_host : take 64 (drop 26 tail) ≡ host
  unfolding tail
  at_host =
      ap (take 64)
        (drop_past reserved0 _ 2 24 s.reserved0.0 ∙ drop-append nickname _ 24 s.nickname.0)
      ∙ take-append host _ 64 s.host.0

  at_mount_path : take 32 (drop 90 tail) ≡ mount_path
  unfolding tail
  at_mount_path =
      ap (take 32) (
        drop_past reserved0 _ 2 88 s.reserved0.0
        ∙ drop_past nickname _ 24 64 s.nickname.0
        ∙ drop-append host _ 64 s.host.0)
      ∙ take-append mount_path _ 32 s.mount_path.0

  at_sd_path : take 64 (drop 122 tail) ≡ sd_path
  unfolding tail
  at_sd_path =
      ap (take 64) (
        drop_past reserved0 _ 2 120 s.reserved0.0
        ∙ drop_past nickname _ 24 96 s.nickname.0
        ∙ drop_past host _ 64 32 s.host.0
        ∙ drop-append mount_path _ 32 s.mount_path.0)
      ∙ take-append sd_path _ 64 s.sd_path.0

  front : List ℕ → List ℕ
  front t = d.state ∷ d.drive_letter ∷ d.type ∷ d.transport ∷ d.port % 256 ∷ d.port / 256 % 256 ∷ t

  pub decode-encode_drive : decode_drive (encode_drive d ++ rest) ≡ d
  unfolding decode_drive encode_drive front
  decode-encode_drive = ap (λ t. decode_drive (front t)) tail_lem ∙ (λ i. record {
    state = d.state;
    drive_letter = d.drive_letter;
    type = d.type;
    transport = d.transport;
    port = read_le16-le16 d.port s.port i;
    reserved0 = at_reserved0 i;
    nickname = at_nickname i;
    host = at_host i;
    mount_path = at_mount_path i;
    sd_path = at_sd_path i;
  })

length-encode_drive : (d : DriveConfig) → IsDriveShaped d → length (encode_drive d) ≡ 192
unfolding encode_drive
length-encode_drive d s = omega (
  arith,
  length-append d.reserved0 (d.nickname ++ (d.host ++ (d.mount_path ++ d.sd_path))),
  length-append d.nickname (d.host ++ (d.mount_path ++ d.sd_path)),
  length-append d.host (d.mount_path ++ d.sd_path),
  length-append d.mount_path d.sd_path,
  s.reserved0.0,
  s.nickname.0,
  s.host.0,
  s.mount_path.0,
  s.sd_path.0,
)

decode-encode_drives :
    (n : ℕ) (ds : List DriveConfig) (rest : List ℕ)
    → length ds ≡ n
    → All IsDriveShaped ds
    → decode_drives n (encode_drives ds ++ rest) ≡ ds
unfolding decode_drives encode_drives
decode-encode_drives zero [] rest l s = refl
decode-encode_drives zero (d ∷ ds) rest l s = absurd (omega arith)
decode-encode_drives (suc n) [] rest l s = absurd (omega arith)
decode-encode_drives (suc n) (d ∷ ds) rest l (s, ss) = rw (
  append_assoc (encode_drive d) (encode_drives ds) rest,
  decode-encode_drive d (encode_drives ds ++ rest) s,
  drop-append (encode_drive d) (encode_drives ds ++ rest) 192 (length-encode_drive d s),
  decode-encode_drives n ds rest (omega arith) ss,
)

length-encode_drives :
    (n : ℕ) (ds : List DriveConfig)
    → length ds ≡ n
    → All IsDriveShaped ds
    → length (encode_drives ds) ≡ n * 192
unfolding encode_drives
length-encode_drives n [] l s = omega arith
length-encode_drives zero (d ∷ ds) l s = absurd (omega arith)
length-encode_drives (suc n) (d ∷ ds) l (s, ss) = omega (
  arith,
  length-append (encode_drive d) (encode_drives ds),
  length-encode_drive d s,
  length-encode_drives n ds (omega arith) ss,
)

module _ (c : DriveFlash) (rest : List ℕ) (s : IsShaped c) where
  -- What follows the drive count.
  slots : List ℕ
  slots = c.reserved ++ (encode_drives c.drives ++ (le32 c.crc32 ++ rest))

  slots_lem : (c.reserved ++ encode_drives c.drives) ++ (le32 c.crc32 ++ rest) ≡ slots
  unfolding slots
  slots_lem = append_assoc c.reserved (encode_drives c.drives) (le32 c.crc32 ++ rest)

  encoded_length : length (encode_drives c.drives) ≡ 1536
  encoded_length = length-encode_drives 8 c.drives s.slots s.drives

  at_reserved : take 2 slots ≡ c.reserved
  unfolding slots
  at_reserved = take-append c.reserved _ 2 s.reserved.0

  at_drives : decode_drives 8 (drop 2 slots) ≡ c.drives
  unfolding slots
  at_drives =
      ap (decode_drives 8) (drop-append c.reserved _ 2 s.reserved.0)
      ∙ decode-encode_drives 8 c.drives (le32 c.crc32 ++ rest) s.slots s.drives

  at_crc32 : read_le32 (drop 1538 slots) ≡ c.crc32
  unfolding slots
  at_crc32 =
      ap read_le32 (
        drop_past c.reserved _ 2 1536 s.reserved.0
        ∙ drop-append (encode_drives c.drives) _ 1536 encoded_length)
      ∙ read_le32-le32 c.crc32 s.crc32

  -- The bytes of the record.
  ahead : List ℕ → List ℕ
  ahead t = le32 c.magic ++ (le32 c.version ++ (c.config_drive_letter ∷ c.drive_count ∷ t))

  -- What is laid out in flash is read back as it was: every field of the drive list, from the bytes
  -- of the record with anything behind them, where each field is within its C type.
  pub decode-encode : decode (encode c ++ rest) ≡ c
  unfolding decode encode encode_body ahead
  decode-encode =
      ap (λ t. decode (ahead t))
        (append_assoc (c.reserved ++ encode_drives c.drives) (le32 c.crc32) rest ∙ slots_lem)
      ∙ (λ i. record {
        magic = read_le32-le32 c.magic s.magic i;
        version = read_le32-le32 c.version s.version i;
        config_drive_letter = c.config_drive_letter;
        drive_count = c.drive_count;
        reserved = at_reserved i;
        drives = at_drives i;
        crc32 = at_crc32 i;
      })
