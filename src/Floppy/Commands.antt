-- ===== src/Floppy/Commands.antt =====
-- romemul/sidetnfs_floppy_emul.c: its operations in any order.
use side_tnfs_firmware.Prelude.{ℕ, Bool, true, false, List, [], ◌∷◌}
use side_tnfs_firmware.Floppy.Volume.{zeroed, FloppySource, Media}
use side_tnfs_firmware.Floppy.Swap.{
  Floppy, set_boot_policy, close, init, emul_open, open_candidate, commit_candidate,
  discard_candidate,
}

-- The operations, with what the media answer to each.
pub data Command : Type 0 where
  policy_command : Bool → Bool → Command
  init_command : Command
  close_command : Command
  open_command : Media → FloppySource → List ℕ → Bool → Command
  candidate_command : Media → FloppySource → List ℕ → Bool → Command
  commit_command : Command
  discard_command : Command

unfoldable pub execute : Command → Floppy → Floppy
execute (policy_command gemdrive floppy) f = set_boot_policy gemdrive floppy f
execute init_command f = init f
execute close_command f = close f
execute (open_command m source path network_ok) f = (emul_open m source path network_ok f).1
execute (candidate_command m source path network_ok) f =
    (open_candidate m source path network_ok f).1
execute commit_command f = commit_candidate f
execute discard_command f = discard_candidate f

unfoldable pub execute_all : List Command → Floppy → Floppy
execute_all [] f = f
execute_all (c ∷ cs) f = execute_all cs (execute c f)

-- The static variables before the first call.
abbrev pub power_on : Floppy
power_on = record {
  active = zeroed;
  candidate = zeroed;
  install_gemdrive = true;
  install_floppy = false;
  published = (0, 0);
  log = [];
}
