-- ===== src/Searches/Tests.antt =====
-- Tests of the searches of romemul/sidetnfs_probe.c, and the theorems about them at concrete tables.
use side_tnfs_firmware.Prelude.{
  ◌<◌, zero, suc, ℕ, ◌≡◌, ◌≤◌, ◌⊎◌, refl, true, false, none, some, List, [], ◌∷◌, arith, All,
}
use side_tnfs_firmware.Searches.{
  DtaSearch, zeroed, Registry, no_searches, Fsfirst, is_for, new_search, insert_tnfs_dta, opendir,
  closedir, lookup_tnfs_dta, find_index, next_index, victim_index, victim_loop, insert_slot,
  alloc_tnfs_dta_slot, close_handle, release_tnfs_dta, release_at,
}
use side_tnfs_firmware.Searches.Commands.{
  Command, start_command, next_command, execute, execute_all, dta_start, dta_next, next_at,
  find_next_match, is_found, is_exact,
}
use side_tnfs_firmware.Searches.Rounds.{
  max_rounds, dir_search_found, Reply, replied, search_rounds, rounds_loop, take_reply, fits_search,
  is_yes,
}
use side_tnfs_firmware.Names.Entry.{AtariDirEntry, gemdos_attr_match}
use side_tnfs_firmware.Names.{
  gemdos_pattern_match, normalize_gemdos_pattern, drop_extension_star, wildcard_match_upper,
  wildcard_loop, fits, toupper, only_stars,
}
use side_tnfs_firmware.Searches.Lookup.{found_search, insert_tnfs_dta-keeps}
use side_tnfs_firmware.Searches.Handles.{IsAccounted}
use side_tnfs_firmware.Searches.Distinct.{IsDistinct, execute_all_released}
use side_tnfs_firmware.Searches.Served.{IsServed, IsPassed, search_rounds-IsServed}
use side_tnfs_firmware.Searches.Balance.{execute_all-IsAccounted}

-- The search of a DTA that was touched at a time.
abbrev search : ℕ → ℕ → DtaSearch
search ndta touched = record zeroed {
  active = true;
  ndta = ndta;
  dir_handle = ndta;
  handle_valid = true;
  last_touched = touched;
}

abbrev full : Registry
full = record {
  searches =
      search 10 9
      ∷ search 11 2
      ∷ search 12 3
      ∷ search 13 4
      ∷ search 14 5
      ∷ search 15 6
      ∷ search 16 7
      ∷ search 17 8
      ∷ [];
  touch_counter = 9;
  log = [];
}

-- "*.*" of the root
abbrev asked : Fsfirst
asked = record {
  ndta = 20;
  path = b'/' ∷ [];
  pattern = b'*' ∷ b'.' ∷ b'*' ∷ [];
  attribs = 16;
  runtime_slot = 1;
}

-- The oldest search makes room.
evicts : (insert_tnfs_dta asked 5 full).1.log ≡ closedir 0 11 ∷ []
unfolding insert_tnfs_dta insert_slot alloc_tnfs_dta_slot victim_index victim_loop lookup_tnfs_dta
    find_index next_index close_handle
evicts = refl

found_first : found_search 10 full.searches ≡ some (search 10 9)
unfolding lookup_tnfs_dta find_index next_index
found_first = refl

insert_tnfs_dta-keeps_example :
    (found_search 10 (insert_tnfs_dta asked 5 full).1.searches ≡ some (search 10 9))
    ⊎ (All (λ s. is_for 20 s ≡ false) full.searches
        × All (λ s. s.active ≡ true) full.searches
        × All (λ t. 9 ≤ t.last_touched) full.searches)
insert_tnfs_dta-keeps_example =
    insert_tnfs_dta-keeps asked 5 full 10 (search 10 9) refl (omega arith) found_first

idle : false ≡ true → false ≡ true
idle e = e

no_searches-IsAccounted : IsAccounted no_searches
no_searches-IsAccounted = record {
  size = refl;
  valid = (idle, (idle, (idle, (idle, (idle, (idle, (idle, (idle, tt))))))));
  balance = λ slot handle. refl;
}

-- "A.PRG"
abbrev entry : AtariDirEntry
entry = record {
  name = b'A' ∷ b'.' ∷ b'P' ∷ b'R' ∷ b'G' ∷ [];
  attr = 16;
  size = 0;
  date = 33;
  time = 0;
  valid = true;
  skipped = false;
}

-- A round without an entry, then one with it.
abbrev readdirx : ℕ → Reply
readdirx zero = replied 0 none
readdirx (suc i) = replied 0 (some entry)

abbrev commands : List Command
commands =
    start_command (record { slot_context = true; readdirx = readdirx }) asked (some 5)
    ∷ start_command (record { slot_context = true; readdirx = readdirx }) asked (some 6)
    ∷ next_command (record { slot_context = true; readdirx = λ i. replied 33 none }) 20
    ∷ []

-- The search of the commands finds the entry.
finds :
    (search_rounds (record { slot_context = true; readdirx = readdirx }) (new_search asked 5 1)).0
    ≡ dir_search_found entry
unfolding search_rounds rounds_loop take_reply fits_search is_yes gemdos_pattern_match
    gemdos_attr_match normalize_gemdos_pattern drop_extension_star wildcard_match_upper
    wildcard_loop fits toupper only_stars new_search
finds = refl

search_rounds-IsServed_example :
    (round : ℕ) × (round < max_rounds)
    × IsServed readdirx (new_search asked 5 1) round entry
    × ((k : ℕ) → k < round → IsPassed (new_search asked 5 1) (readdirx k))
search_rounds-IsServed_example =
    search_rounds-IsServed (record { slot_context = true; readdirx = readdirx })
      (new_search asked 5 1) entry finds

-- The second search of the DTA closes the first, and the end closes the second.
all_closed :
    (execute_all commands no_searches).log
    ≡ closedir 1 6 ∷ closedir 1 5 ∷ opendir 1 6 ∷ opendir 1 5 ∷ []
unfolding execute_all execute dta_start dta_next next_at insert_tnfs_dta insert_slot
    alloc_tnfs_dta_slot lookup_tnfs_dta find_index next_index close_handle find_next_match
    release_tnfs_dta release_at is_found is_exact search_rounds rounds_loop take_reply fits_search
    is_yes gemdos_pattern_match gemdos_attr_match normalize_gemdos_pattern drop_extension_star
    wildcard_match_upper wildcard_loop fits toupper only_stars
all_closed = refl

execute_all-IsAccounted_example : IsAccounted (execute_all commands no_searches)
execute_all-IsAccounted_example =
    execute_all-IsAccounted commands no_searches no_searches-IsAccounted

full-IsDistinct : IsDistinct full
full-IsDistinct = record {
  size = refl;
  unique = (
    λ e. (refl, (refl, (refl, (refl, (refl, (refl, (refl, tt))))))),
    (
      λ e. (refl, (refl, (refl, (refl, (refl, (refl, tt)))))),
      (
        λ e. (refl, (refl, (refl, (refl, (refl, tt))))),
        (
          λ e. (refl, (refl, (refl, (refl, tt)))),
          (
            λ e. (refl, (refl, (refl, tt))),
            (λ e. (refl, (refl, tt)), (λ e. (refl, tt), (λ e. tt, tt))),
          ),
        ),
      ),
    ),
  );
}

execute_all_released_example :
    IsDistinct (execute_all commands full)
    × (found_search 20 (release_tnfs_dta 20 (execute_all commands full)).searches ≡ none)
execute_all_released_example = execute_all_released commands 20 full full-IsDistinct
