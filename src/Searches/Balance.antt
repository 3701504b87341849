-- ===== src/Searches/Balance.antt =====
-- The directory handles of romemul/sidetnfs_probe.c over any sequence of searches.
use side_tnfs_firmware.Prelude.{
  ℕ, zero, suc, ◌<◌, inl, inr, refl, ◌∙◌, Bool, false, Option, none, some, List, [], ◌∷◌, ◌&&◌, not,
  if◌then◌else◌, length, length-set, get_or, arith, Bool-cases, same_text,
}
use side_tnfs_firmware.Searches.{
  DtaSearch, zeroed, Registry, Fsfirst, DirCall, opendir, is_for, lookup_tnfs_dta, tnfs_dta_slots,
  insert_tnfs_dta, insert_slot, new_search, tick, release_at, release_tnfs_dta,
}
use side_tnfs_firmware.Searches.Commands.{
  find_next_match, is_found, is_exact, dta_start, next_at, dta_next, release_loop, release_all,
  release_by_path, Command, start_command, next_command, release_command, release_by_path_command,
  release_all_command, execute, execute_all,
}
use side_tnfs_firmware.Searches.Rounds.{Answer, search_rounds}
use side_tnfs_firmware.Searches.Find.{find_index-cases, First-lt}
use side_tnfs_firmware.Searches.Handles.{
  IsAccounted, All-set, All-get_or, close_handle-IsCleared, insert_slot-IsCleared, kept_by-set,
}

-- Where a search that is put into the table stands, and what that makes of the calls.
insert_tnfs_dta-IsAccounted :
    (q : Fsfirst) (dir_handle : ℕ) (r : Registry)
    → IsAccounted r
    → IsAccounted
        (insert_tnfs_dta q dir_handle
          (record r { log = opendir q.runtime_slot dir_handle ∷ r.log })).1
unfolding insert_tnfs_dta new_search
insert_tnfs_dta-IsAccounted q dir_handle r b =
    let log = opendir q.runtime_slot dir_handle ∷ r.log in
    let c = insert_slot-IsCleared q.ndta r.searches log (omega (arith, b.size)) b.valid in
    let (i, log') = insert_slot (lookup_tnfs_dta q.ndta r.searches) r.searches log in
    let v = new_search q dir_handle (tick r.touch_counter) in
    record {
      size = length-set r.searches i v ∙ b.size;
      valid = All-set r.searches i v b.valid (λ e. refl);
      balance = λ slot handle. omega (
        arith,
        b.balance slot handle,
        c.no_opening slot handle,
        c.closing slot handle,
        kept_by-set slot handle r.searches i v c.bound,
      );
    }

insert_tnfs_dta-bound :
    (q : Fsfirst) (dir_handle : ℕ) (r : Registry) (log : List DirCall)
    → IsAccounted r
    → let (i, inserted) = insert_tnfs_dta q dir_handle (record r { log = log }) in
      i < length inserted.searches
unfolding insert_tnfs_dta
insert_tnfs_dta-bound q dir_handle r log b =
    let c = insert_slot-IsCleared q.ndta r.searches log (omega (arith, b.size)) b.valid in
    let (i, log') = insert_slot (lookup_tnfs_dta q.ndta r.searches) r.searches log in
    omega (arith, c.bound, length-set r.searches i (new_search q dir_handle (tick r.touch_counter)))

find_next_match-IsAccounted :
    (answer : Answer) (i : ℕ) (r : Registry)
    → IsAccounted r
    → i < length r.searches
    → IsAccounted (find_next_match answer i r).1
unfolding find_next_match
find_next_match-IsAccounted answer i r b h =
    let s = record (get_or r.searches i zeroed) { last_touched = tick r.touch_counter } in
    let v = record s { eof = (search_rounds answer s).1 } in
    record {
      size = length-set r.searches i v ∙ b.size;
      valid = All-set r.searches i v b.valid (All-get_or r.searches i b.valid);
      balance = λ slot handle.
          omega (arith, b.balance slot handle, kept_by-set slot handle r.searches i v h);
    }

release_tnfs_dta-IsAccounted :
    (ndta : ℕ) (r : Registry) → IsAccounted r → IsAccounted (release_tnfs_dta ndta r)
unfolding release_tnfs_dta release_at lookup_tnfs_dta
release_tnfs_dta-IsAccounted ndta r b = elim (find_index-cases (is_for ndta) r.searches) [
  | inr (e, n) ↦ rw e b
  | inl (i, e, f) ↦
      let bound = First-lt (is_for ndta) r.searches i f in
      let v = record (get_or r.searches i zeroed) { handle_valid = false; active = false } in
      let c = close_handle-IsCleared r.searches r.log i bound in
      rw e (record {
        size = length-set r.searches i v ∙ b.size;
        valid = All-set r.searches i v b.valid (λ k. ground (arith, k));
        balance = λ slot handle. omega (
          arith,
          b.balance slot handle,
          c.no_opening slot handle,
          c.closing slot handle,
          kept_by-set slot handle r.searches i v bound,
        );
      })
]

release_loop-IsAccounted :
    (test : DtaSearch → Bool) (n i : ℕ) (r : Registry)
    → IsAccounted r
    → IsAccounted (release_loop test n i r)
unfolding release_loop
release_loop-IsAccounted test zero i r b = b
release_loop-IsAccounted test (suc n) i r b =
    let s = get_or r.searches i zeroed in
    release_loop-IsAccounted test n (suc i) (if test s then release_tnfs_dta s.ndta r else r)
      (elim (Bool-cases (test s)) [
        | inl e ↦ rw e (release_tnfs_dta-IsAccounted s.ndta r b)
        | inr e ↦ rw e b
      ])

dta_start-IsAccounted :
    (answer : Answer) (q : Fsfirst) (opened : Option ℕ) (r : Registry)
    → IsAccounted r
    → IsAccounted (dta_start answer q opened r).1
unfolding dta_start
dta_start-IsAccounted answer q none r b = b
dta_start-IsAccounted answer q (some dir_handle) r b =
    let log = opendir q.runtime_slot dir_handle ∷ r.log in
    let (i, inserted) = insert_tnfs_dta q dir_handle (record r { log = log }) in
    let (result, searched) = find_next_match answer i inserted in
    let kept =
      find_next_match-IsAccounted answer i inserted (insert_tnfs_dta-IsAccounted q dir_handle r b)
        (insert_tnfs_dta-bound q dir_handle r log b) in
    let released = release_tnfs_dta-IsAccounted q.ndta searched kept in
    elim (Bool-cases (not (is_found result))) [
      | inl e ↦ rw e released
      | inr e ↦ elim (Bool-cases (is_exact q.pattern)) [
        | inl k ↦ rw (e, k) released
        | inr k ↦ rw (e, k) kept
      ]
    ]

dta_next-IsAccounted :
    (answer : Answer) (ndta : ℕ) (r : Registry)
    → IsAccounted r
    → IsAccounted (dta_next answer ndta r).1
unfolding dta_next next_at lookup_tnfs_dta
dta_next-IsAccounted answer ndta r b = elim (find_index-cases (is_for ndta) r.searches) [
  | inr (e, n) ↦ rw e b
  | inl (i, e, f) ↦
      let bound = First-lt (is_for ndta) r.searches i f in
      let (result, searched) = find_next_match answer i r in
      let kept = find_next_match-IsAccounted answer i r b bound in
      elim (Bool-cases (not (is_found result))) [
        | inl k ↦ rw (e, k) (release_tnfs_dta-IsAccounted ndta searched kept)
        | inr k ↦ rw (e, k) kept
      ]
]

execute-IsAccounted : (c : Command) (r : Registry) → IsAccounted r → IsAccounted (execute c r)
unfolding execute release_all release_by_path
execute-IsAccounted (start_command answer q opened) r b = dta_start-IsAccounted answer q opened r b
execute-IsAccounted (next_command answer ndta) r b = dta_next-IsAccounted answer ndta r b
execute-IsAccounted (release_command ndta) r b = release_tnfs_dta-IsAccounted ndta r b
execute-IsAccounted (release_by_path_command path) r b =
    release_loop-IsAccounted (λ s. s.active && same_text s.path path) tnfs_dta_slots 0 r b
execute-IsAccounted release_all_command r b =
    release_loop-IsAccounted (λ s. s.active) tnfs_dta_slots 0 r b

-- No directory handle is forgotten. If every handle that the server opened was handed on to
-- `tnfs_dta_closedir` or is kept by one of the eight searches, as often as it was opened, that is so
-- after any sequence of searches, continuations and releases.
pub execute_all-IsAccounted :
    (cs : List Command) (r : Registry) → IsAccounted r → IsAccounted (execute_all cs r)
unfolding execute_all
execute_all-IsAccounted [] r b = b
execute_all-IsAccounted (c ∷ cs) r b =
    execute_all-IsAccounted cs (execute c r) (execute-IsAccounted c r b)
