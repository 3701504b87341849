-- ===== src/Floppy/Balance.antt =====
-- The handles of romemul/sidetnfs_floppy_emul.c over any sequence of operations.
use side_tnfs_firmware.Prelude.{ℕ, ◌+◌, ◌≡◌, refl, Bool, List, [], ◌∷◌, arith}
use side_tnfs_firmware.Floppy.Volume.{FloppyState, FloppySource, Media, Handle, Call, close_state}
use side_tnfs_firmware.Floppy.Open.{open_into}
use side_tnfs_firmware.Floppy.Swap.{
  Floppy, set_boot_policy, close, init, emul_open, open_candidate, commit_candidate,
  discard_candidate,
}
use side_tnfs_firmware.Floppy.Commands.{
  Command, policy_command, init_command, close_command, open_command, candidate_command,
  commit_command, discard_command, execute, execute_all,
}
use side_tnfs_firmware.Floppy.Handles.{
  opened_count, closed_count, kept, IsBalanced, opened_count-close_state, closed_count-close_state,
  open_into-Accounts, Accounts, AccountsFor,
}

module _ (h : Handle) where
  moved :
      (st : FloppyState) (log : List Call) (other : FloppyState)
      → opened_count h log ≡ closed_count h log + kept h st + kept h other
      → opened_count h (close_state st log).1 ≡ closed_count h (close_state st log).1 + kept h other
  moved st log other e =
      omega (arith, opened_count-close_state h st log, closed_count-close_state h st log)

  -- An opening on a closed state keeps the balance.
  reopened :
      (m : Media) (st : FloppyState) (source : FloppySource) (path : List ℕ) (net : Bool)
      (log : List Call) (other : FloppyState)
      → kept h st ≡ 0
      → opened_count h log ≡ closed_count h log + kept h other
      → opened_count h (open_into m st source path net log).2
        ≡ closed_count h (open_into m st source path net log).2
          + kept h (open_into m st source path net log).1
          + kept h other
  unfolding AccountsFor Accounts
  reopened m st source path net log other z e =
      omega (arith, open_into-Accounts h m st source path net log z)

kept-close_state :
    (h : Handle) (st : FloppyState) (log : List Call) → kept h (close_state st log).0 ≡ 0
unfolding close_state
kept-close_state h st log = refl

execute-IsBalanced : (c : Command) (f : Floppy) → IsBalanced f → IsBalanced (execute c f)
unfolding execute set_boot_policy init close emul_open open_candidate commit_candidate
    discard_candidate
execute-IsBalanced (policy_command gemdrive floppy) f b h = b h
execute-IsBalanced init_command f b h =
    let e = moved h f.active f.log f.candidate (b h) in
    omega (arith, e, kept-close_state h f.active f.log)
execute-IsBalanced close_command f b h =
    let e = moved h f.active f.log f.candidate (b h) in
    omega (arith, e, kept-close_state h f.active f.log)
execute-IsBalanced (open_command m source path net) f b h =
    let st = close_state f.active f.log in
    reopened h m st.0 source path net st.1 f.candidate (kept-close_state h f.active f.log)
      (moved h f.active f.log f.candidate (b h))
execute-IsBalanced (candidate_command m source path net) f b h =
    let st = close_state f.candidate f.log in
    let e =
      reopened h m st.0 source path net st.1 f.active (kept-close_state h f.candidate f.log)
        (moved h f.candidate f.log f.active (omega (arith, b h))) in
    omega (arith, e)
execute-IsBalanced commit_command f b h = omega (arith, moved h f.active f.log f.candidate (b h))
execute-IsBalanced discard_command f b h =
    let e = moved h f.candidate f.log f.active (omega (arith, b h)) in
    omega (arith, e, kept-close_state h f.candidate f.log)

-- If every handle was opened exactly as often as it was closed, and once more for each state that
-- keeps it, then so it is after any operations, whatever the TNFS server and the SD card answer: no
-- handle is leaked and none is closed twice.
pub execute_all-IsBalanced :
    (cs : List Command) (f : Floppy) → IsBalanced f → IsBalanced (execute_all cs f)
unfolding execute_all
execute_all-IsBalanced [] f b = b
execute_all-IsBalanced (c ∷ cs) f b =
    execute_all-IsBalanced cs (execute c f) (execute-IsBalanced c f b)
