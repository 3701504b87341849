-- ===== src/Floppy/Settled.antt =====
-- What romemul/sidetnfs_floppy_emul.c keeps open is a validated image or nothing.
use side_tnfs_firmware.Prelude.{
  ◌⊎◌, ℕ, ◌/◌, ◌≡◌, refl, inl, inr, Bool-cases, Option, none, some, Bool, true, false, not, ◌||◌,
  List, [], ◌∷◌, ◌==◌, if◌then◌else◌, length, arith, drop, read_le16, ◌%◌, ◌^◌,
}
use side_tnfs_firmware.Floppy.{
  FloppyStatus, floppy_ok, filesize_invalid, read_failed, backend_error, is_floppy_ok,
  validate_geometry,
}
use side_tnfs_firmware.Floppy.Volume.{
  FloppyState, zeroed, FloppySource, SourceBackend, tnfs_source, sd_source, other_source, Media,
  MountError, no_wifi, TnfsOpen, tnfs_opened, tnfs_not_found, tnfs_open_error, SdOpen, sd_opened,
  no_file, no_path, denied, other_sd_error, tnfs_handle_of, sd_handle_of, Call, populate_slot,
  opened, close_state, read_sector_raw_from, has_session, floppy_slot,
}
use side_tnfs_firmware.Floppy.Open.{
  Opening, fail_closed, validate_image, mount_status, tnfs_file_opened, tnfs_sized, open_sd_path,
  open_tnfs, sd_file_opened, prefix_sd_drive, open_sd, open_source, open_into,
}
use side_tnfs_firmware.Floppy.Swap.{
  Floppy, set_boot_policy, close, init, emul_open, open_candidate, commit_candidate,
  discard_candidate,
}
use side_tnfs_firmware.Floppy.Commands.{
  Command, policy_command, init_command, close_command, open_command, candidate_command,
  commit_command, discard_command, execute, execute_all,
}
use side_tnfs_firmware.Floppy.Geometry.{IsDisk, disk_geometry, validate_geometry_iff}

-- An image is open, ready, and has the geometry of a disk.
pub record IsLoaded (st : FloppyState) : Type 0 where
  pub is_open : st.handle_open ≡ true
  pub is_ready : st.ready ≡ true
  pub filesize : ℕ
  pub sides : ℕ
  pub sectors_per_track : ℕ
  pub tracks : ℕ
  pub disk : IsDisk filesize 512 (filesize / 512) sectors_per_track sides tracks
  pub shape : st.geom ≡ disk_geometry sides sectors_per_track tracks

-- A state holds a validated image or nothing at all.
abbrev pub IsSettled : FloppyState → Type 0
IsSettled st = IsLoaded st ⊎ (st ≡ zeroed)

-- A success loads an image, and a failure leaves nothing.
unfoldable pub Settles : Opening → Type 0
Settles o = if is_floppy_ok o.0 then IsLoaded o.1 else (o.1 ≡ zeroed)

if-Settles : (b : Bool) (x y : Opening) → Settles x → Settles y → Settles (if b then x else y)
if-Settles true x y sx sy = sx
if-Settles false x y sx sy = sy

fail_closed-Settles :
    (status : FloppyStatus) (st : FloppyState) (log : List Call)
    → is_floppy_ok status ≡ false
    → Settles (fail_closed status st log)
unfolding fail_closed close_state Settles
fail_closed-Settles status st log e = rw e refl

floppy_ok-of : (s : FloppyStatus) → is_floppy_ok s ≡ true → s ≡ floppy_ok
unfolding is_floppy_ok
floppy_ok-of floppy_ok e = refl
floppy_ok-of _ e = absurd (cc)

IsLoaded-of :
    (filesize bps total spt sides : ℕ) (st : FloppyState)
    → st.handle_open ≡ true
    → is_floppy_ok (validate_geometry filesize bps total spt sides).0 ≡ true
    → IsLoaded
        (record st { geom = (validate_geometry filesize bps total spt sides).1; ready = true })
IsLoaded-of filesize bps total spt sides st h e =
    let verdict = validate_geometry filesize bps total spt sides in
    let passed : verdict ≡ (floppy_ok, verdict.1) = λ i. (floppy_ok-of verdict.0 e i, verdict.1) in
    let (tracks, disk, shape) =
      (validate_geometry_iff filesize bps total spt sides verdict.1).0 passed in
    record {
      is_open = h;
      is_ready = refl;
      filesize = filesize;
      sides = sides;
      sectors_per_track = spt;
      tracks = tracks;
      disk = record {
        one_or_two = disk.one_or_two;
        least_sectors = disk.least_sectors;
        most_sectors = disk.most_sectors;
        least_tracks = disk.least_tracks;
        most_tracks = disk.most_tracks;
        sector_size = refl;
        sector_count = omega (arith, disk.file_size, disk.sector_count);
        file_size = omega (arith, disk.file_size);
      };
      shape = shape;
    }

validate_image-Settles :
    (m : Media) (st : FloppyState) (log : List Call) (filesize : ℕ)
    → st.handle_open ≡ true
    → Settles (validate_image m st log filesize)
unfolding validate_image is_floppy_ok Settles
validate_image-Settles m st log filesize h =
    let read = read_sector_raw_from m st.backend 0 in
    let bps = read_le16 (drop 11 read.1) in
    let total = read_le16 (drop 19 read.1) in
    let spt = read_le16 (drop 24 read.1) in
    let sides = read_le16 (drop 26 read.1) in
    let verdict = validate_geometry filesize bps total spt sides in
    if-Settles ((filesize == 0) || not (filesize % 512 == 0)) _ _
      (fail_closed-Settles filesize_invalid st log refl)
      (if-Settles (not (is_floppy_ok read.0)) _ _ (fail_closed-Settles read_failed st log refl)
        (elim (Bool-cases (is_floppy_ok verdict.0)) [
          | inl e ↦ rw e (IsLoaded-of filesize bps total spt sides st h e)
          | inr e ↦ rw e (fail_closed-Settles verdict.0 (record st { geom = verdict.1 }) log e)
        ]))

tnfs_sized-Settles :
    (m : Media) (st : FloppyState) (log : List Call) (end : Option ℕ)
    → st.handle_open ≡ true
    → Settles (tnfs_sized m st log end)
unfolding tnfs_sized is_floppy_ok
tnfs_sized-Settles m st log none h = fail_closed-Settles backend_error st log refl
tnfs_sized-Settles m st log (some size) h = validate_image-Settles m st log size h

-- A status other than `floppy_ok` on a state that holds nothing.
refused-Settles :
    (status : FloppyStatus) (log : List Call)
    → is_floppy_ok status ≡ false
    → Settles (status, zeroed, log)
unfolding Settles
refused-Settles status log e = rw e refl

mount_status-fails : (e : MountError) → is_floppy_ok (mount_status e) ≡ false
unfolding mount_status is_floppy_ok
mount_status-fails no_wifi = refl
mount_status-fails _ = refl

tnfs_file_opened-Settles :
    (m : Media) (log : List Call) (o : TnfsOpen) → Settles (tnfs_file_opened m zeroed log o)
unfolding tnfs_file_opened Settles is_floppy_ok
tnfs_file_opened-Settles m log tnfs_not_found = refl
tnfs_file_opened-Settles m log tnfs_open_error = refl
tnfs_file_opened-Settles m log (tnfs_opened handle) =
    tnfs_sized-Settles m _ (opened (tnfs_handle_of floppy_slot handle) ∷ log) m.tnfs_end refl

sd_file_opened-Settles :
    (m : Media) (log : List Call) (o : SdOpen) → Settles (sd_file_opened m zeroed log o)
unfolding sd_file_opened Settles is_floppy_ok
sd_file_opened-Settles m log no_file = refl
sd_file_opened-Settles m log no_path = refl
sd_file_opened-Settles m log denied = refl
sd_file_opened-Settles m log other_sd_error = refl
sd_file_opened-Settles m log (sd_opened file filesize) =
    validate_image-Settles m _ (opened (sd_handle_of file) ∷ log) (filesize % 2 ^ 32) refl

open_sd_path-Settles :
    (m : Media) (log : List Call) (full_path : Option (List ℕ))
    → Settles (open_sd_path m zeroed log full_path)
unfolding open_sd_path is_floppy_ok Settles
open_sd_path-Settles m log none = refl
open_sd_path-Settles m log (some full_path) = sd_file_opened-Settles m log (m.sd_open full_path)

open_source-Settles :
    (b : SourceBackend) (m : Media) (source : FloppySource) (path : List ℕ) (net : Bool)
    (log : List Call)
    → Settles (open_source b m zeroed source path net log)
unfolding open_source open_tnfs open_sd Settles is_floppy_ok
open_source-Settles tnfs_source m source path net log =
    if-Settles (length source.host == 0) _ _ refl (
      if-Settles (not m.mount) _ _
        (refused-Settles _
          (if has_session m.slot_context source
            then log
            else populate_slot source.host source.port ∷ log)
          (mount_status-fails (m.mount_error net)))
        (tnfs_file_opened-Settles m _ (m.tnfs_open path)))
open_source-Settles sd_source m source path net log =
    if-Settles (not m.sd_ready) _ _ refl (open_sd_path-Settles m log (prefix_sd_drive path))
open_source-Settles other_source m source path net log = refl

open_into-Settles :
    (m : Media) (source : FloppySource) (path : List ℕ) (net : Bool) (log : List Call)
    → Settles (open_into m zeroed source path net log)
unfolding open_into Settles is_floppy_ok
open_into-Settles m source path net log =
    if-Settles (length path == 0) _ _ refl
      (open_source-Settles source.source_backend m source path net log)

Settles-IsSettled : (o : Opening) → Settles o → IsSettled o.1
unfolding Settles
Settles-IsSettled o s = elim (Bool-cases (is_floppy_ok o.0)) [
  | inl e ↦ inl (rw e at s)
  | inr e ↦ inr (rw e at s)
]

-- Both states of the drive.
pub record AreSettled (f : Floppy) : Type 0 where
  pub active_settled : IsSettled f.active
  pub candidate_settled : IsSettled f.candidate

execute-AreSettled : (c : Command) (f : Floppy) → AreSettled f → AreSettled (execute c f)
unfolding execute set_boot_policy init close emul_open open_candidate commit_candidate
    discard_candidate close_state
execute-AreSettled (policy_command gemdrive floppy) f s = record {
  active_settled = s.active_settled;
  candidate_settled = s.candidate_settled;
}
execute-AreSettled init_command f s = record {
  active_settled = inr refl;
  candidate_settled = s.candidate_settled;
}
execute-AreSettled close_command f s = record {
  active_settled = inr refl;
  candidate_settled = s.candidate_settled;
}
execute-AreSettled (open_command m source path net) f s = record {
  active_settled =
      Settles-IsSettled _ (open_into-Settles m source path net (close_state f.active f.log).1);
  candidate_settled = s.candidate_settled;
}
execute-AreSettled (candidate_command m source path net) f s = record {
  active_settled = s.active_settled;
  candidate_settled =
      Settles-IsSettled _ (open_into-Settles m source path net (close_state f.candidate f.log).1);
}
execute-AreSettled commit_command f s = record {
  active_settled = s.candidate_settled;
  candidate_settled = inr refl;
}
execute-AreSettled discard_command f s = record {
  active_settled = s.active_settled;
  candidate_settled = inr refl;
}

-- After any operations from power-on, each of the two states holds an open image whose geometry is
-- that of a disk, or nothing at all, whatever the TNFS server and the SD card answer.
pub execute_all-AreSettled :
    (cs : List Command) (f : Floppy) → AreSettled f → AreSettled (execute_all cs f)
unfolding execute_all
execute_all-AreSettled [] f s = s
execute_all-AreSettled (c ∷ cs) f s =
    execute_all-AreSettled cs (execute c f) (execute-AreSettled c f s)

-- Opening a candidate leaves the active image as it is. If it succeeds, the candidate is a validated
-- image, and committing it makes it the active one and leaves no candidate; if it fails, there is no
-- candidate, and neither a commit nor anything else is needed to close it.
pub open_candidate_swaps :
    (m : Media) (source : FloppySource) (path : List ℕ) (net : Bool) (f : Floppy)
    → let (status, f') = open_candidate m source path net f in
      (f'.active ≡ f.active)
      × (is_floppy_ok status ≡ true
          → IsLoaded (commit_candidate f').active
            × ((commit_candidate f').active ≡ f'.candidate)
            × ((commit_candidate f').candidate ≡ zeroed))
      × (is_floppy_ok status ≡ false → f'.candidate ≡ zeroed)
unfolding open_candidate commit_candidate Settles close_state
open_candidate_swaps m source path net f =
    let settles = open_into-Settles m source path net (close_state f.candidate f.log).1 in
    (refl, λ e. (rw e at settles, refl, refl), λ e. rw e at settles)
