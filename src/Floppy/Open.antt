-- ===== src/Floppy/Open.antt =====
-- romemul/sidetnfs_floppy_emul.c: opening an image and validating it.
use side_tnfs_firmware.Prelude.{
  ℕ, ◌+◌, ◌%◌, ◌^◌, Bool, true, not, ◌||◌, Option, none, some, List, ◌∷◌, ltb, ◌==◌, if◌then◌else◌,
  length, drop, read_le16,
}
use side_tnfs_firmware.Floppy.{
  FloppyStatus, floppy_ok, invalid_source, source_not_configured, tnfs_not_connected,
  tnfs_host_unreachable, sd_not_present, file_not_found, access_denied, path_too_long,
  filesize_invalid, read_failed, backend_error, validate_geometry, is_floppy_ok,
}
use side_tnfs_firmware.Floppy.Volume.{
  FloppyState, SourceBackend, FloppySource, floppy_slot, path_max, MountError, TnfsOpen, SdOpen,
  has_session, Media, Call, close_state, read_sector_raw_from, tnfs_backend, sd_backend,
  tnfs_source, sd_source, other_source, no_wifi, dns_failed, no_session, other_mount_error,
  tnfs_opened, tnfs_not_found, tnfs_open_error, sd_opened, no_file, no_path, denied, other_sd_error,
  tnfs_handle_of, sd_handle_of, populate_slot, opened,
}

-- What a step leaves: the status, the state and the calls, newest first.
abbrev pub Opening : Type 0
Opening = FloppyStatus × FloppyState × List Call

-- Every failure after the open closes the state again.
unfoldable pub fail_closed : FloppyStatus → FloppyState → List Call → Opening
fail_closed status st log = let (st', log') = close_state st log in (status, st', log')

-- The end of `open_into`: the size, sector 0 and the geometry.
unfoldable pub validate_image : Media → FloppyState → List Call → ℕ → Opening
validate_image m st log filesize =
    let (read_status, sector0) = read_sector_raw_from m st.backend 0 in
    let (status, geom) =
      validate_geometry filesize (read_le16 (drop 11 sector0)) (read_le16 (drop 19 sector0))
        (read_le16 (drop 24 sector0)) (read_le16 (drop 26 sector0)) in
    if (filesize == 0) || not (filesize % 512 == 0)
    then fail_closed filesize_invalid st log
    else if not (is_floppy_ok read_status)
    then fail_closed read_failed st log
    else if not (is_floppy_ok status)
    then fail_closed status (record st { geom = geom }) log
    else (floppy_ok, record st { geom = geom; ready = true }, log)

unfoldable pub mount_status : MountError → FloppyStatus
mount_status no_wifi = tnfs_not_connected
mount_status dns_failed = tnfs_not_connected
mount_status no_session = tnfs_not_connected
mount_status other_mount_error = tnfs_host_unreachable

-- The answer to the seek to the end, which is the size.
unfoldable pub tnfs_sized : Media → FloppyState → List Call → Option ℕ → Opening
tnfs_sized m st log none = fail_closed backend_error st log
tnfs_sized m st log (some filesize) = validate_image m st log filesize

-- The TNFS file is open; its size is the offset of its end.
unfoldable pub tnfs_file_opened : Media → FloppyState → List Call → TnfsOpen → Opening
tnfs_file_opened m st log (tnfs_opened handle) =
    let st' = record st {
      backend = tnfs_backend;
      tnfs_slot = floppy_slot;
      tnfs_handle = handle;
      handle_open = true;
    } in
    let log' = opened (tnfs_handle_of floppy_slot handle) ∷ log in tnfs_sized m st' log' m.tnfs_end
tnfs_file_opened m st log tnfs_not_found = (file_not_found, st, log)
tnfs_file_opened m st log tnfs_open_error = (backend_error, st, log)

-- The TNFS branch of `open_into`. The slot is populated again unless it has the session already.
unfoldable pub open_tnfs : Media → FloppyState → FloppySource → List ℕ → Bool → List Call → Opening
open_tnfs m st source image_path network_ok log =
    let log' =
      if has_session m.slot_context source
      then log
      else populate_slot source.host source.port ∷ log in
    if length source.host == 0
    then (source_not_configured, st, log)
    else if not m.mount
    then (mount_status (m.mount_error network_ok), st, log')
    else tnfs_file_opened m st log' (m.tnfs_open image_path)

unfoldable pub sd_file_opened : Media → FloppyState → List Call → SdOpen → Opening
sd_file_opened m st log (sd_opened file filesize) =
    validate_image m (record st { backend = sd_backend; sd_file = file; handle_open = true })
      (opened (sd_handle_of file) ∷ log) (filesize % 2 ^ 32)
sd_file_opened m st log no_file = (file_not_found, st, log)
sd_file_opened m st log no_path = (file_not_found, st, log)
sd_file_opened m st log denied = (access_denied, st, log)
sd_file_opened m st log other_sd_error = (backend_error, st, log)

-- `prefix_sd_drive`: "0:" before the path, if it fits.
unfoldable pub prefix_sd_drive : List ℕ → Option (List ℕ)
prefix_sd_drive image_path =
    if ltb (length image_path + 2) (path_max + 4) then some (b'0' ∷ b':' ∷ image_path) else none

unfoldable pub open_sd_path : Media → FloppyState → List Call → Option (List ℕ) → Opening
open_sd_path m st log none = (path_too_long, st, log)
open_sd_path m st log (some full_path) = sd_file_opened m st log (m.sd_open full_path)

-- The SD branch of `open_into`.
unfoldable pub open_sd : Media → FloppyState → List ℕ → List Call → Opening
open_sd m st image_path log =
    if not m.sd_ready
    then (sd_not_present, st, log)
    else open_sd_path m st log (prefix_sd_drive image_path)

unfoldable pub open_source :
    SourceBackend → Media → FloppyState → FloppySource → List ℕ → Bool → List Call → Opening
open_source tnfs_source m st source image_path network_ok log =
    open_tnfs m st source image_path network_ok log
open_source sd_source m st source image_path network_ok log = open_sd m st image_path log
open_source other_source m st source image_path network_ok log = (invalid_source, st, log)

-- `open_into`
unfoldable pub open_into : Media → FloppyState → FloppySource → List ℕ → Bool → List Call → Opening
open_into m st source image_path network_ok log =
    if length image_path == 0
    then (invalid_source, st, log)
    else open_source source.source_backend m st source image_path network_ok log
