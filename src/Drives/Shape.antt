-- ===== src/Drives/Shape.antt =====
-- The image that `sidetnfs_config_save` builds is within its C types.
use side_tnfs_firmware.Prelude.{
  ℕ, zero, suc, length-replicate, ◌^◌, ◌<◌, ◌≡◌, inl, inr, ◌∙◌, List, [], ◌∷◌, ◌++◌, map, arith,
  length, length-map, length-set, set, replicate, All, All-append, IsByte, Bool-cases, ◌==◌, le16,
  le32,
}
use side_tnfs_firmware.Crc32.{crc32-lt}
use side_tnfs_firmware.Drives.{
  DriveConfig, DriveFlash, force_nul_termination, force_nul_drive, empty_drive, drive_slot_is_empty,
  drive_sd,
}
use side_tnfs_firmware.Drives.Commands.{zero_irrelevant}
use side_tnfs_firmware.Drives.Layout.{
  IsField, IsDriveShaped, IsShaped, encode_drive, encode_drives, encode_body,
}
use side_tnfs_firmware.Drives.Flash.{body_crc, with_crc, clean_drive, clean_image}

-- The shape of what is written.
All-set : (xs : List ℕ) (i v : ℕ) → All IsByte xs → IsByte v → All IsByte (set xs i v)
All-set [] i v h b = tt
All-set (x ∷ xs) zero v h b = (b, h.1)
All-set (x ∷ xs) (suc i) v h b = (h.0, All-set xs i v h.1 b)

IsField-set : (n i : ℕ) (f : List ℕ) → IsField n f → IsField n (set f i 0)
IsField-set n i f (l, b) = (length-set f i 0 ∙ l, All-set f i 0 b (omega arith))

pub force_nul_drive-IsDriveShaped :
    (d : DriveConfig) → IsDriveShaped d → IsDriveShaped (force_nul_drive d)
unfolding force_nul_drive
force_nul_drive-IsDriveShaped d s = record {
  state = s.state;
  drive_letter = s.drive_letter;
  type = s.type;
  transport = s.transport;
  port = s.port;
  reserved0 = s.reserved0;
  nickname = IsField-set 24 23 d.nickname s.nickname;
  host = IsField-set 64 63 d.host s.host;
  mount_path = IsField-set 32 31 d.mount_path s.mount_path;
  sd_path = IsField-set 64 63 d.sd_path s.sd_path;
}

pub zero_bytes : (n : ℕ) → All IsByte (replicate n 0)
zero_bytes zero = tt
zero_bytes (suc n) = (omega arith, zero_bytes n)

pub zeros-IsField : (n : ℕ) → IsField n (replicate n 0)
zeros-IsField n = (length-replicate n 0, zero_bytes n)

pub empty_drive-IsDriveShaped : IsDriveShaped empty_drive
empty_drive-IsDriveShaped = record {
  state = omega arith;
  drive_letter = omega arith;
  type = omega arith;
  transport = omega arith;
  port = omega arith;
  reserved0 = zeros-IsField 2;
  nickname = zeros-IsField 24;
  host = zeros-IsField 64;
  mount_path = zeros-IsField 32;
  sd_path = zeros-IsField 64;
}

zero_irrelevant-IsDriveShaped :
    (d : DriveConfig) → IsDriveShaped d → IsDriveShaped (zero_irrelevant d)
unfolding zero_irrelevant
zero_irrelevant-IsDriveShaped d s = elim (Bool-cases (d.type == drive_sd)) [
  | inl e ↦ rw e (record {
    state = s.state;
    drive_letter = s.drive_letter;
    type = s.type;
    transport = omega arith;
    port = omega arith;
    reserved0 = s.reserved0;
    nickname = s.nickname;
    host = zeros-IsField 64;
    mount_path = zeros-IsField 32;
    sd_path = s.sd_path;
  })
  | inr n ↦ rw n (record {
    state = s.state;
    drive_letter = s.drive_letter;
    type = s.type;
    transport = s.transport;
    port = s.port;
    reserved0 = s.reserved0;
    nickname = s.nickname;
    host = s.host;
    mount_path = s.mount_path;
    sd_path = zeros-IsField 64;
  })
]

with_reserved0 :
    (d : DriveConfig) → IsDriveShaped d → IsDriveShaped (record d { reserved0 = replicate 2 0 })
with_reserved0 d s = record {
  state = s.state;
  drive_letter = s.drive_letter;
  type = s.type;
  transport = s.transport;
  port = s.port;
  reserved0 = zeros-IsField 2;
  nickname = s.nickname;
  host = s.host;
  mount_path = s.mount_path;
  sd_path = s.sd_path;
}

clean_drive-IsDriveShaped : (d : DriveConfig) → IsDriveShaped d → IsDriveShaped (clean_drive d)
unfolding clean_drive
clean_drive-IsDriveShaped d s = elim (Bool-cases (drive_slot_is_empty d)) [
  | inl e ↦ rw e empty_drive-IsDriveShaped
  | inr n ↦ rw n (zero_irrelevant-IsDriveShaped _ (with_reserved0 d s))
]

pub All-map :
    (f : DriveConfig → DriveConfig) (ds : List DriveConfig)
    → ((d : DriveConfig) → IsDriveShaped d → IsDriveShaped (f d))
    → All IsDriveShaped ds
    → All IsDriveShaped (map f ds)
All-map f [] h s = tt
All-map f (d ∷ ds) h (s, ss) = (h d s, All-map f ds h ss)

-- The bytes of a shaped list.
pair_bytes : (w : ℕ) → All IsByte (le16 w)
pair_bytes w = (omega arith, (omega arith, tt))

quad_bytes : (w : ℕ) → All IsByte (le32 w)
quad_bytes w = (omega arith, (omega arith, (omega arith, (omega arith, tt))))

drive_bytes : (d : DriveConfig) → IsDriveShaped d → All IsByte (encode_drive d)
unfolding encode_drive
drive_bytes d s = (
  s.state,
  (
    s.drive_letter,
    (
      s.type,
      (
        s.transport,
        All-append IsByte (le16 d.port) _ (pair_bytes d.port) (
            All-append IsByte d.reserved0 _ s.reserved0.1 (
              All-append IsByte d.nickname _ s.nickname.1 (
                All-append IsByte d.host _ s.host.1
                  (All-append IsByte d.mount_path _ s.mount_path.1 s.sd_path.1)))),
      ),
    ),
  ),
)

drives_bytes : (ds : List DriveConfig) → All IsDriveShaped ds → All IsByte (encode_drives ds)
unfolding encode_drives
drives_bytes [] s = tt
drives_bytes (d ∷ ds) (s, ss) =
    All-append IsByte (encode_drive d) (encode_drives ds) (drive_bytes d s) (drives_bytes ds ss)

pub body_crc-lt :
    (c : DriveFlash)
    → IsByte c.config_drive_letter
    → IsByte c.drive_count
    → All IsByte c.reserved
    → All IsDriveShaped c.drives
    → body_crc c < 2 ^ 32
unfolding body_crc encode_body
body_crc-lt c l n r ds = crc32-lt (encode_body c) (
    All-append IsByte (le32 c.magic)
      (le32 c.version
        ++ (c.config_drive_letter ∷ c.drive_count ∷ (c.reserved ++ encode_drives c.drives)))
      (quad_bytes c.magic)
      (All-append IsByte (le32 c.version)
        (c.config_drive_letter ∷ c.drive_count ∷ (c.reserved ++ encode_drives c.drives))
        (quad_bytes c.version)
        (l, (n, All-append IsByte c.reserved _ r (drives_bytes c.drives ds)))))

-- The saved image is within its C types, the checksum included.
pub clean_image-IsShaped :
    (g : DriveFlash)
    → IsByte g.config_drive_letter
    → IsByte g.drive_count
    → length g.drives ≡ 8
    → All IsDriveShaped g.drives
    → IsShaped (clean_image g)
unfolding clean_image with_crc force_nul_termination body_crc encode_body
clean_image-IsShaped g l n len ds = record {
  magic = omega arith;
  version = omega arith;
  config_drive_letter = l;
  drive_count = n;
  reserved = zeros-IsField 2;
  slots =
      length-map force_nul_drive (map clean_drive g.drives) ∙ length-map clean_drive g.drives ∙ len;
  drives = rewritten;
  crc32 = body_crc-lt (clean_image g) l n (zero_bytes 2) rewritten;
}
  where
    rewritten : All IsDriveShaped (map force_nul_drive (map clean_drive g.drives))
    rewritten =
        All-map force_nul_drive _ force_nul_drive-IsDriveShaped
          (All-map clean_drive g.drives clean_drive-IsDriveShaped ds)
