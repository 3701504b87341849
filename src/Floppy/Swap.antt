-- ===== src/Floppy/Swap.antt =====
-- romemul/sidetnfs_floppy_emul.c: the active image, the candidate, and how they are swapped.
use side_tnfs_firmware.Prelude.{ℕ, Bool, true, false, List, if◌then◌else◌}
use side_tnfs_firmware.Floppy.{FloppyStatus}
use side_tnfs_firmware.Floppy.Volume.{FloppyState, zeroed, FloppySource, Media, Call, close_state}
use side_tnfs_firmware.Floppy.Open.{open_into}

-- The static variables of the file, the two words published to the Atari, and the calls made.
pub record Floppy : Type 0 where
  pub active : FloppyState
  pub candidate : FloppyState
  pub install_gemdrive : Bool
  pub install_floppy : Bool
  pub published : ℕ × ℕ
  pub log : List Call

unfoldable pub policy_word : Bool → ℕ
policy_word b = if b then 1 else 0

unfoldable pub set_boot_policy : Bool → Bool → Floppy → Floppy
set_boot_policy gemdrive floppy f = record f {
  install_gemdrive = gemdrive;
  install_floppy = floppy;
  published = (policy_word gemdrive, policy_word floppy);
}

unfoldable pub close : Floppy → Floppy
close f = let (st, log) = close_state f.active f.log in record f { active = st; log = log }

-- `sidetnfs_floppy_emul_init`: GEMDRIVE on, the floppy off.
unfoldable pub init : Floppy → Floppy
init f = set_boot_policy true false (close f)

-- `sidetnfs_floppy_emul_open`: closes first.
unfoldable pub emul_open : Media → FloppySource → List ℕ → Bool → Floppy → FloppyStatus × Floppy
emul_open m source image_path network_ok f =
    let (st, log) = close_state f.active f.log in
    let (status, st', log') = open_into m st source image_path network_ok log in
    (status, record f { active = st'; log = log' })

unfoldable pub open_candidate :
    Media → FloppySource → List ℕ → Bool → Floppy → FloppyStatus × Floppy
open_candidate m source image_path network_ok f =
    let (st, log) = close_state f.candidate f.log in
    let (status, st', log') = open_into m st source image_path network_ok log in
    (status, record f { candidate = st'; log = log' })

-- The candidate becomes active before the old image is closed.
unfoldable pub commit_candidate : Floppy → Floppy
commit_candidate f =
    let (old, log) = close_state f.active f.log in
    record f { active = f.candidate; candidate = zeroed; log = log }

unfoldable pub discard_candidate : Floppy → Floppy
discard_candidate f =
    let (st, log) = close_state f.candidate f.log in record f { candidate = st; log = log }
