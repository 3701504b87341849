-- ===== src/Floppy/Volume.antt =====
-- romemul/sidetnfs_floppy_emul.c: the state of an image, and reading and closing it.
use side_tnfs_firmware.Prelude.{
  ℕ, ◌*◌, ◌%◌, ◌^◌, Bool, false, not, ◌&&◌, Option, none, some, List, [], ◌∷◌, leb, ◌==◌,
  if◌then◌else◌, length, same_text, replicate,
}
use side_tnfs_firmware.Floppy.{
  FloppyStatus, floppy_ok, read_failed, out_of_range, not_open, FloppyGeometry, no_geometry,
}

-- `floppy_emul_backend_kind_t`
pub data FloppyBackend : Type 0 where
  no_backend : FloppyBackend
  tnfs_backend : FloppyBackend
  sd_backend : FloppyBackend

-- `floppy_emul_state_t`; `sd_file` is the file that FatFS has open behind the `FIL`.
pub record FloppyState : Type 0 where
  pub backend : FloppyBackend
  pub handle_open : Bool
  pub ready : Bool
  pub tnfs_slot : ℕ
  pub tnfs_handle : ℕ
  pub sd_file : ℕ
  pub geom : FloppyGeometry

abbrev pub zeroed : FloppyState
zeroed = record {
  backend = no_backend;
  handle_open = false;
  ready = false;
  tnfs_slot = 0;
  tnfs_handle = 0;
  sd_file = 0;
  geom = no_geometry;
}

-- `sidetnfs_floppy_source_t`, its host as the text before the NUL.
pub data SourceBackend : Type 0 where
  tnfs_source : SourceBackend
  sd_source : SourceBackend
  other_source : SourceBackend

pub record FloppySource : Type 0 where
  pub source_backend : SourceBackend
  pub port : ℕ
  pub host : List ℕ

-- `SIDETNFS_PROBE_FLOPPY_SLOT_BASE`
abbrev pub floppy_slot : ℕ
floppy_slot = 9

-- `SIDETNFS_FLOPPY_FAVORITE_PATH_MAX`
abbrev pub path_max : ℕ
path_max = 512

-- `SidetnfsDriveErrorCategory`, as far as it is told apart here.
pub data MountError : Type 0 where
  no_wifi : MountError
  dns_failed : MountError
  no_session : MountError
  other_mount_error : MountError

pub data TnfsOpen : Type 0 where
  tnfs_opened : ℕ → TnfsOpen
  tnfs_not_found : TnfsOpen
  tnfs_open_error : TnfsOpen

-- `FRESULT` of `f_open`, with the file and its size.
pub data SdOpen : Type 0 where
  sd_opened : ℕ → ℕ → SdOpen
  no_file : SdOpen
  no_path : SdOpen
  denied : SdOpen
  other_sd_error : SdOpen

-- `sidetnfs_slot_tnfs_context_t`, as far as it is compared.
pub record SlotContext : Type 0 where
  pub valid : Bool
  pub context_host : List ℕ
  pub context_port : ℕ
  pub mount_path : List ℕ

-- `!need_repopulate`: the slot holds the session of this source.
unfoldable pub has_session : Option SlotContext → FloppySource → Bool
has_session none source = false
has_session (some existing) source =
    existing.valid
    && same_text existing.context_host source.host
    && (existing.context_port == source.port)
    && same_text existing.mount_path (b'/' ∷ [])

-- What the TNFS client and FatFS answer. A seek to an offset, then a read of a sector there.
pub record Media : Type 0 where
  pub slot_context : Option SlotContext
  pub mount : Bool
  pub mount_error : Bool → MountError
  pub tnfs_open : List ℕ → TnfsOpen
  pub tnfs_end : Option ℕ
  pub tnfs_seek : ℕ → Bool
  pub tnfs_read : ℕ → Option (List ℕ)
  pub sd_ready : Bool
  pub sd_open : List ℕ → SdOpen
  pub sd_seek : ℕ → Bool
  pub sd_read : ℕ → Option (List ℕ)

-- A handle is one of the TNFS server's or one of FatFS's.
pub data Handle : Type 0 where
  tnfs_handle_of : ℕ → ℕ → Handle
  sd_handle_of : ℕ → Handle

pub data Call : Type 0 where
  populate_slot : List ℕ → ℕ → Call
  opened : Handle → Call
  closed : Handle → Call

-- The handle that a state keeps open.
unfoldable pub handle_of : FloppyBackend → ℕ → ℕ → ℕ → List Handle
handle_of no_backend slot handle file = []
handle_of tnfs_backend slot handle file = tnfs_handle_of slot handle ∷ []
handle_of sd_backend slot handle file = sd_handle_of file ∷ []

unfoldable pub close_calls : List Handle → List Call → List Call
close_calls [] log = log
close_calls (h ∷ _) log = closed h ∷ log

-- `close_state`, and `sidetnfs_floppy_emul_close` on the active state: the calls made, newest first,
-- and the zeroed state.
unfoldable pub close_state : FloppyState → List Call → FloppyState × List Call
close_state st log = (
  zeroed,
  if st.handle_open
      then close_calls (handle_of st.backend st.tnfs_slot st.tnfs_handle st.sd_file) log
      else log,
)

abbrev pub blank_sector : List ℕ
blank_sector = replicate 512 0

-- A read that is not a whole sector fails.
unfoldable pub whole_sector : Option (List ℕ) → FloppyStatus × List ℕ
whole_sector none = (read_failed, blank_sector)
whole_sector (some data_read) =
    if length data_read == 512 then (floppy_ok, data_read) else (read_failed, blank_sector)

-- `read_sector_raw_from`, and `raw_read_sector` on the active state, which has the same body. The
-- offset on TNFS is computed in 32 bits.
unfoldable pub read_sector_raw_from : Media → FloppyBackend → ℕ → FloppyStatus × List ℕ
read_sector_raw_from m tnfs_backend lba =
    if m.tnfs_seek (lba * 512 % 2 ^ 32)
    then whole_sector (m.tnfs_read (lba * 512 % 2 ^ 32))
    else (read_failed, blank_sector)
read_sector_raw_from m sd_backend lba =
    if m.sd_seek (lba * 512)
    then whole_sector (m.sd_read (lba * 512))
    else (read_failed, blank_sector)
read_sector_raw_from m no_backend lba = (not_open, blank_sector)

-- `sidetnfs_floppy_emul_read_sector`
unfoldable pub read_sector : Media → FloppyState → ℕ → FloppyStatus × List ℕ
read_sector m st lba =
    if not st.ready
    then (not_open, blank_sector)
    else if leb st.geom.total_sectors lba
    then (out_of_range, blank_sector)
    else read_sector_raw_from m st.backend lba
