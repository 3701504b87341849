-- ===== src/Files.antt =====
-- romemul/gemdrvemul.c and include/gemdrvemul.h: the table of open GEMDOS files, a linked list whose
-- nodes have one owner, newest first. A node that the caller allocated is an argument.
pub mod Free
pub mod Close
mod Tests
use side_tnfs_firmware.Prelude.{
  ℕ, zero, suc, ◌+◌, ◌-◌, ◌%◌, ◌^◌, Bool, true, false, Option, none, some, List, [], ◌∷◌, ◌++◌, map,
  ltb, leb, ◌==◌, ◌||◌, ◌&&◌, not, if◌then◌else◌, length, take, same_text, ◌>>=◌,
}

abbrev pub first_file_descriptor : ℕ
first_file_descriptor = 16384

-- `GemdriveFileBackend`
pub data FileBackend : Type 0 where
  sd_file : FileBackend
  tnfs_file : FileBackend
  config_flash : FileBackend
  net_err : FileBackend
  sd_error : FileBackend

-- `FileDescriptors`, without the link. `fobject` names the file that FatFs has open; the bytes that
-- `config_flash_data` points at are the list.
pub record FileDescriptor : Type 0 where
  pub fpath : List ℕ
  pub fd : ℕ
  pub fobject : ℕ
  pub offset : ℕ
  pub backend : FileBackend
  pub tnfs_handle : ℕ
  pub tnfs_writable : Bool
  pub runtime_slot : ℕ
  pub config_flash_data : List ℕ
  pub config_flash_size : ℕ

-- `memset(newFDescriptor, 0, sizeof(*newFDescriptor))`
abbrev pub zeroed : FileDescriptor
zeroed = record {
  fpath = [];
  fd = 0;
  fobject = 0;
  offset = 0;
  backend = sd_file;
  tnfs_handle = 0;
  tnfs_writable = false;
  runtime_slot = 0;
  config_flash_data = [];
  config_flash_size = 0;
}

-- What `add_file` does not set stays as `malloc` left it.
unfoldable pub add_file :
    List FileDescriptor → FileDescriptor → List ℕ → ℕ → ℕ → List FileDescriptor
add_file head new fpath fobject new_fd =
    record new {
      fpath = take 127 fpath;
      fobject = fobject;
      fd = new_fd;
      offset = 0;
      backend = sd_file;
      tnfs_handle = 0;
    }
    ∷ head

unfoldable pub add_tnfs_file : List FileDescriptor → List ℕ → ℕ → ℕ → Bool → ℕ → List FileDescriptor
add_tnfs_file head fpath tnfs_handle new_fd writable runtime_slot =
    record zeroed {
      fpath = take 127 fpath;
      fd = new_fd;
      backend = tnfs_file;
      tnfs_handle = tnfs_handle;
      tnfs_writable = writable;
      runtime_slot = runtime_slot;
    }
    ∷ head

unfoldable pub add_sd_file : List FileDescriptor → List ℕ → ℕ → ℕ → ℕ → List FileDescriptor
add_sd_file head fpath fobject new_fd runtime_slot =
    record zeroed {
      fpath = take 127 fpath;
      fobject = fobject;
      fd = new_fd;
      backend = sd_file;
      runtime_slot = runtime_slot;
    }
    ∷ head

unfoldable pub add_config_flash_file :
    List FileDescriptor → List ℕ → List ℕ → ℕ → ℕ → List FileDescriptor
add_config_flash_file head fpath bytes size new_fd =
    record zeroed {
      fpath = take 127 fpath;
      fd = new_fd;
      backend = config_flash;
      config_flash_data = bytes;
      config_flash_size = size;
    }
    ∷ head

unfoldable pub get_file_by_fpath : List FileDescriptor → List ℕ → Option FileDescriptor
get_file_by_fpath [] fpath = none
get_file_by_fpath (f ∷ rest) fpath =
    if same_text f.fpath fpath then some f else get_file_by_fpath rest fpath

unfoldable pub get_file_by_fdesc : List FileDescriptor → ℕ → Option FileDescriptor
get_file_by_fdesc [] fd = none
get_file_by_fdesc (f ∷ rest) fd = if f.fd == fd then some f else get_file_by_fdesc rest fd

-- Unlinks the first file of that path.
unfoldable pub delete_file_by_fpath : List FileDescriptor → List ℕ → List FileDescriptor
delete_file_by_fpath [] fpath = []
delete_file_by_fpath (f ∷ rest) fpath =
    if same_text f.fpath fpath then rest else f ∷ delete_file_by_fpath rest fpath

-- The rounds of the loop; `none` is a loop that has not ended. `current` and `prev` move on behind
-- the `return` only, so `prev` stays NULL and a file that differs is looked at again.
unfoldable pub delete_file_by_fdesc : ℕ → List FileDescriptor → ℕ → Option (List FileDescriptor)
delete_file_by_fdesc zero head fd = none
delete_file_by_fdesc (suc rounds) [] fd = some []
delete_file_by_fdesc (suc rounds) (f ∷ rest) fd =
    let again = delete_file_by_fdesc rounds (f ∷ rest) fd in if f.fd == fd then some rest else again

-- The loop of `delete_all_files`: the head, and the files that are still to be deleted.
unfoldable pub delete_all_loop :
    ℕ → List FileDescriptor → List FileDescriptor → Option (List FileDescriptor)
delete_all_loop rounds head [] = some head
delete_all_loop rounds head (f ∷ next) =
    delete_file_by_fdesc rounds head f.fd >>= λ left. delete_all_loop rounds left next

unfoldable pub delete_all_files : ℕ → List FileDescriptor → Option (List FileDescriptor)
unfolding delete_all_loop
delete_all_files rounds head = delete_all_loop rounds head head

-- What is asked of the TNFS server and of FatFs.
pub data CloseCall : Type 0 where
  tnfs_close : ℕ → ℕ → ℕ → CloseCall
  f_close : ℕ → CloseCall

unfoldable pub close_call : FileBackend → FileDescriptor → List CloseCall
close_call tnfs_file f = tnfs_close f.fd f.tnfs_handle f.runtime_slot ∷ []
close_call config_flash f = []
close_call net_err f = []
close_call sd_error f = []
close_call sd_file f = f_close f.fobject ∷ []

unfoldable pub close_all_files : List FileDescriptor → List CloseCall
close_all_files [] = []
close_all_files (f ∷ rest) = close_call f.backend f ++ close_all_files rest

unfoldable pub count_fdesc : List FileDescriptor → ℕ
count_fdesc [] = 0
count_fdesc (f ∷ rest) = count_fdesc rest + 1

abbrev pub fds : List FileDescriptor → List ℕ
fds = map (λ f. f.fd)

-- The smallest gap behind a sorted array's element, in `uint16_t`.
unfoldable pub first_gap : List ℕ → ℕ
first_gap [] = 0
first_gap (a ∷ []) = (a + 1) % 2 ^ 16
first_gap (a ∷ b ∷ rest) = if ltb 1 (b - a) then (a + 1) % 2 ^ 16 else first_gap (b ∷ rest)

-- `qsort` is the C library's; `allocated` says whether `malloc` found the memory for the array.
unfoldable pub get_first_available_fd : (List ℕ → List ℕ) → Bool → List FileDescriptor → ℕ
get_first_available_fd qsort allocated [] = first_file_descriptor
get_first_available_fd qsort allocated (f ∷ rest) =
    if not allocated then 65535 else first_gap (qsort (first_file_descriptor ∷ fds (f ∷ rest)))

-- `FRESULT` of `f_close`, as far as it is told apart.
pub data SdClose : Type 0 where
  closed_ok : SdClose
  invalid_object : SdClose
  other_failure : SdClose

-- The status that the handler writes for the Atari.
pub data FcloseStatus : Type 0 where
  gemdos_eok : FcloseStatus
  gemdos_eihndl : FcloseStatus
  gemdos_eintrn : FcloseStatus

unfoldable pub sd_status : SdClose → FcloseStatus
sd_status closed_ok = gemdos_eok
sd_status invalid_object = gemdos_eok
sd_status other_failure = gemdos_eintrn

abbrev pub max_runtime_drives : ℕ
max_runtime_drives = 9

abbrev pub FcloseResult : Type 0
FcloseResult = FcloseStatus × List FileDescriptor × List CloseCall

-- The file was found: it is closed by its backend, and then deleted whatever came of that. A slot
-- below 0 is not represented.
unfoldable pub fclose_found :
    FileBackend → FileDescriptor → (ℕ → SdClose) → ℕ → FcloseStatus × List CloseCall
fclose_found config_flash f answer drive_count = (gemdos_eok, [])
fclose_found net_err f answer drive_count = (gemdos_eok, [])
fclose_found sd_error f answer drive_count = (gemdos_eok, [])
fclose_found sd_file f answer drive_count = (sd_status (answer f.fobject), f_close f.fobject ∷ [])
fclose_found tnfs_file f answer drive_count = (
  gemdos_eok,
  if leb drive_count f.runtime_slot || leb max_runtime_drives f.runtime_slot
      then []
      else tnfs_close f.fd f.tnfs_handle f.runtime_slot ∷ [],
)

-- The handler on what the table has under the descriptor.
unfoldable pub fclose_file :
    ℕ → (ℕ → SdClose) → ℕ → List FileDescriptor → ℕ → Option FileDescriptor → Option FcloseResult
fclose_file rounds answer drive_count head fd none = some (gemdos_eihndl, head, [])
fclose_file rounds answer drive_count head fd (some f) =
    let (status, calls) = fclose_found f.backend f answer drive_count in
    delete_file_by_fdesc rounds head fd >>= λ left. some (status, left, calls)

-- `gemdrive_backend_fclose`, as built with the TNFS listing.
unfoldable pub gemdrive_backend_fclose :
    ℕ → (ℕ → SdClose) → ℕ → List FileDescriptor → ℕ → Option FcloseResult
unfolding fclose_file
gemdrive_backend_fclose rounds answer drive_count head fd =
    fclose_file rounds answer drive_count head fd (get_file_by_fdesc head fd)
