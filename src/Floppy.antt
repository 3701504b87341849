-- ===== src/Floppy.antt =====
-- romemul/sidetnfs_floppy_emul.c and include/sidetnfs_floppy_emul.h: the emulated floppy drive, its
-- image on a TNFS server or on the SD card, and the candidate that replaces it. What the TNFS client
-- and FatFs answer is a `Media`; what they are asked to open and close is a log.
pub mod Volume
pub mod Open
pub mod Swap
pub mod Geometry
pub mod Commands
pub mod Handles
pub mod Balance
pub mod Settled
pub mod Sectors
mod Tests
use side_tnfs_firmware.Prelude.{
  ℕ, ◌+◌, ◌*◌, ◌/◌, ◌%◌, ◌^◌, Bool, true, false, not, ◌&&◌, ◌||◌, Option, none, some, List, [], ◌∷◌,
  ltb, leb, ◌==◌, if◌then◌else◌,
}

-- `sidetnfs_floppy_emul_status_t`
pub data FloppyStatus : Type 0 where
  floppy_ok : FloppyStatus
  invalid_source : FloppyStatus
  source_not_configured : FloppyStatus
  tnfs_not_connected : FloppyStatus
  tnfs_host_unreachable : FloppyStatus
  sd_not_present : FloppyStatus
  file_not_found : FloppyStatus
  access_denied : FloppyStatus
  path_too_long : FloppyStatus
  filesize_invalid : FloppyStatus
  bpb_invalid : FloppyStatus
  geometry_unsupported : FloppyStatus
  geometry_mismatch : FloppyStatus
  read_failed : FloppyStatus
  out_of_range : FloppyStatus
  backend_error : FloppyStatus
  not_open : FloppyStatus

unfoldable pub is_floppy_ok : FloppyStatus → Bool
is_floppy_ok floppy_ok = true
is_floppy_ok _ = false

-- `sidetnfs_floppy_geometry_t`
pub record FloppyGeometry : Type 0 where
  pub sides : ℕ
  pub sectors_per_track : ℕ
  pub tracks : ℕ
  pub bytes_per_sector : ℕ
  pub total_sectors : ℕ

abbrev pub no_geometry : FloppyGeometry
no_geometry = record {
  sides = 0;
  sectors_per_track = 0;
  tracks = 0;
  bytes_per_sector = 0;
  total_sectors = 0;
}

-- The checks in order: the status, and what is left in `out_geom`.
unfoldable pub validate_geometry : ℕ → ℕ → ℕ → ℕ → ℕ → FloppyStatus × FloppyGeometry
validate_geometry filesize bytes_per_sector total_sectors sectors_per_track sides =
    let from_filesize = filesize / 512 in
    let sides_x_spt = sides * sectors_per_track in
    let tracks = from_filesize / sides_x_spt in
    if (filesize == 0) || not (filesize % 512 == 0)
    then (filesize_invalid, no_geometry)
    else if not (bytes_per_sector == 512)
    then (bpb_invalid, no_geometry)
    else if not ((sides == 1) || (sides == 2))
        || ltb sectors_per_track 9
        || ltb 11 sectors_per_track
    then (geometry_unsupported, no_geometry)
    else if not (from_filesize % sides_x_spt == 0)
    then (geometry_mismatch, no_geometry)
    else if ltb tracks 80 || ltb 85 tracks
    then (geometry_unsupported, no_geometry)
    else if not (total_sectors == from_filesize)
    then (geometry_mismatch, no_geometry)
    else (
      floppy_ok,
      record {
        sides = sides % 256;
        sectors_per_track = sectors_per_track % 256;
        tracks = tracks % 256;
        bytes_per_sector = 512;
        total_sectors = from_filesize;
      },
    )
