-- ===== src/Searches/Commands.antt =====
-- The operations on the searches of romemul/sidetnfs_probe.c, from the answer to OPENDIRX on.
use side_tnfs_firmware.Prelude.{
  ℕ, zero, suc, Bool, true, false, Option, none, some, List, [], ◌∷◌, ◌==◌, ◌&&◌, not,
  if◌then◌else◌, get_or, set, same_text,
}
use side_tnfs_firmware.Searches.{
  DtaSearch, zeroed, Registry, Fsfirst, opendir, tick, lookup_tnfs_dta, insert_tnfs_dta,
  release_tnfs_dta, tnfs_dta_slots,
}
use side_tnfs_firmware.Searches.Rounds.{
  Answer, SearchResult, dir_search_found, dir_search_error, search_rounds,
}

-- `tnfs_dta_find_next_match`
unfoldable pub find_next_match : Answer → ℕ → Registry → SearchResult × Registry
find_next_match answer i r =
    let s = record (get_or r.searches i zeroed) { last_touched = tick r.touch_counter } in
    let (result, eof) = search_rounds answer s in
    (
      result,
      record r {
        searches = set r.searches i (record s { eof = eof });
        touch_counter = tick r.touch_counter;
      },
    )

unfoldable pub is_found : SearchResult → Bool
is_found (dir_search_found entry) = true
is_found _ = false

-- `strchr(pattern, '*') == NULL && strchr(pattern, '?') == NULL`
unfoldable pub is_exact : List ℕ → Bool
is_exact [] = true
is_exact (c ∷ s) = not (c == b'*') && not (c == b'?') && is_exact s

-- `sidetnfs_tnfs_dta_start` from the answer to OPENDIRX on: the handle, if there is one.
unfoldable pub dta_start : Answer → Fsfirst → Option ℕ → Registry → SearchResult × Registry
dta_start answer q none r = (dir_search_error, r)
dta_start answer q (some dir_handle) r =
    let (i, inserted) =
      insert_tnfs_dta q dir_handle (record r { log = opendir q.runtime_slot dir_handle ∷ r.log }) in
    let (result, searched) = find_next_match answer i inserted in
    if not (is_found result)
    then (result, release_tnfs_dta q.ndta searched)
    else if is_exact q.pattern
    then (result, release_tnfs_dta q.ndta searched)
    else (result, searched)

unfoldable pub next_at : Answer → ℕ → Option ℕ → Registry → SearchResult × Registry
next_at answer ndta none r = (dir_search_error, r)
next_at answer ndta (some i) r =
    let (result, searched) = find_next_match answer i r in
    if not (is_found result) then (result, release_tnfs_dta ndta searched) else (result, searched)

-- `sidetnfs_tnfs_dta_next`
unfoldable pub dta_next : Answer → ℕ → Registry → SearchResult × Registry
unfolding next_at
dta_next answer ndta r = next_at answer ndta (lookup_tnfs_dta ndta r.searches) r

-- A loop over the table, `n` searches from `i` on, that releases the searches of a kind.
unfoldable pub release_loop : (DtaSearch → Bool) → ℕ → ℕ → Registry → Registry
release_loop test zero i r = r
release_loop test (suc n) i r =
    let s = get_or r.searches i zeroed in
    release_loop test n (suc i) (if test s then release_tnfs_dta s.ndta r else r)

-- `sidetnfs_tnfs_dta_release_all`
unfoldable pub release_all : Registry → Registry
release_all r = release_loop (λ s. s.active) tnfs_dta_slots 0 r

-- `sidetnfs_tnfs_dta_release_by_path`
unfoldable pub release_by_path : List ℕ → Registry → Registry
release_by_path path r = release_loop (λ s. s.active && same_text s.path path) tnfs_dta_slots 0 r

pub data Command : Type 0 where
  start_command : Answer → Fsfirst → Option ℕ → Command
  next_command : Answer → ℕ → Command
  release_command : ℕ → Command
  release_by_path_command : List ℕ → Command
  release_all_command : Command

unfoldable pub execute : Command → Registry → Registry
execute (start_command answer q opened) r = (dta_start answer q opened r).1
execute (next_command answer ndta) r = (dta_next answer ndta r).1
execute (release_command ndta) r = release_tnfs_dta ndta r
execute (release_by_path_command path) r = release_by_path path r
execute release_all_command r = release_all r

unfoldable pub execute_all : List Command → Registry → Registry
execute_all [] r = r
execute_all (c ∷ cs) r = execute_all cs (execute c r)
