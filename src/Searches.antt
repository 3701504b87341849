-- ===== src/Searches.antt =====
-- romemul/sidetnfs_probe.c: the table of the searches that Fsfirst opened on a TNFS server. A search
-- belongs to the address of the Atari's DTA, and keeps a directory handle of the server.
pub mod Rounds
pub mod Commands
pub mod Served
pub mod Find
pub mod Lookup
pub mod Handles
pub mod Balance
pub mod Unique
pub mod Distinct
mod Tests
use side_tnfs_firmware.Prelude.{
  ℕ, zero, suc, ◌+◌, ◌%◌, ◌^◌, Bool, true, false, Option, none, some, List, [], ◌∷◌, ltb, ◌==◌,
  ◌||◌, ◌&&◌, not, if◌then◌else◌, length, take, get_or, set, replicate, same_text,
}

-- `SIDETNFS_TNFS_DTA_SLOTS`
abbrev pub tnfs_dta_slots : ℕ
tnfs_dta_slots = 8

-- `SidetnfsTnfsDtaSearch`
pub record DtaSearch : Type 0 where
  pub active : Bool
  pub ndta : ℕ
  pub path : List ℕ
  pub pattern : List ℕ
  pub attribs : ℕ
  pub dir_handle : ℕ
  pub eof : Bool
  pub handle_valid : Bool
  pub runtime_slot : ℕ
  pub last_touched : ℕ

-- What `memset` to 0 leaves of a search.
abbrev pub zeroed : DtaSearch
zeroed = record {
  active = false;
  ndta = 0;
  path = [];
  pattern = [];
  attribs = 0;
  dir_handle = 0;
  eof = false;
  handle_valid = false;
  runtime_slot = 0;
  last_touched = 0;
}

-- OPENDIRX that the server answered with a handle, and `tnfs_dta_closedir`, which sends CLOSEDIR as
-- best it can: the runtime slot and the handle.
pub data DirCall : Type 0 where
  opendir : ℕ → ℕ → DirCall
  closedir : ℕ → ℕ → DirCall

-- The static variables, and the calls made, newest first.
pub record Registry : Type 0 where
  pub searches : List DtaSearch
  pub touch_counter : ℕ
  pub log : List DirCall

-- The variables at the start.
abbrev pub no_searches : Registry
no_searches = record { searches = replicate tnfs_dta_slots zeroed; touch_counter = 0; log = [] }

unfoldable pub next_index : Option ℕ → Option ℕ
next_index none = none
next_index (some i) = some (suc i)

-- A loop over the table that returns at the first search of a kind.
unfoldable pub find_index : (DtaSearch → Bool) → List DtaSearch → Option ℕ
unfolding next_index
find_index test [] = none
find_index test (s ∷ xs) =
    let rest = next_index (find_index test xs) in if test s then some 0 else rest

abbrev pub is_for : ℕ → DtaSearch → Bool
is_for ndta s = s.active && (s.ndta == ndta)

-- `lookupTnfsDTA`, as the index of what it points to.
unfoldable pub lookup_tnfs_dta : ℕ → List DtaSearch → Option ℕ
lookup_tnfs_dta ndta searches = find_index (is_for ndta) searches

-- The loop that looks for the victim: its index so far and when that was touched last.
unfoldable pub victim_loop : ℕ → ℕ → ℕ → List DtaSearch → ℕ
victim_loop i victim least [] = victim
victim_loop i victim least (s ∷ xs) =
    let kept = victim_loop (suc i) victim least xs in
    let changed = victim_loop (suc i) i s.last_touched xs in
    if ltb s.last_touched least then changed else kept

unfoldable pub victim_index : List DtaSearch → ℕ
unfolding victim_loop
victim_index [] = 0
victim_index (s ∷ xs) = victim_loop 1 0 s.last_touched xs

-- The handle is closed, if it is valid.
unfoldable pub close_handle : DtaSearch → List DirCall → List DirCall
close_handle s log = if s.handle_valid then closedir s.runtime_slot s.dir_handle ∷ log else log

-- `alloc_tnfs_dta_slot` on the first search that is not active: an index and the calls.
unfoldable pub alloc_tnfs_dta_slot : Option ℕ → List DtaSearch → List DirCall → ℕ × List DirCall
alloc_tnfs_dta_slot (some i) searches log = (i, log)
alloc_tnfs_dta_slot none searches log =
    (victim_index searches, close_handle (get_or searches (victim_index searches) zeroed) log)

-- Where `insertTnfsDTA` puts a search, after what `lookupTnfsDTA` found.
unfoldable pub insert_slot : Option ℕ → List DtaSearch → List DirCall → ℕ × List DirCall
unfolding alloc_tnfs_dta_slot
insert_slot (some i) searches log = (i, close_handle (get_or searches i zeroed) log)
insert_slot none searches log =
    alloc_tnfs_dta_slot (find_index (λ s. not s.active) searches) searches log

-- `++s_tnfs_dta_touch_counter`
abbrev pub tick : ℕ → ℕ
tick counter = (counter + 1) % 2 ^ 32

-- What an Fsfirst asks for.
pub record Fsfirst : Type 0 where
  pub ndta : ℕ
  pub path : List ℕ
  pub pattern : List ℕ
  pub attribs : ℕ
  pub runtime_slot : ℕ

unfoldable pub new_search : Fsfirst → ℕ → ℕ → DtaSearch
new_search q dir_handle touched = record {
  active = true;
  ndta = q.ndta;
  path = take 127 q.path;
  pattern = take 12 q.pattern;
  attribs = q.attribs;
  dir_handle = dir_handle;
  eof = false;
  handle_valid = true;
  runtime_slot = q.runtime_slot;
  last_touched = touched;
}

-- `insertTnfsDTA`: the registry, and the index of the search.
unfoldable pub insert_tnfs_dta : Fsfirst → ℕ → Registry → ℕ × Registry
unfolding insert_slot new_search
insert_tnfs_dta q dir_handle r =
    let (i, log) = insert_slot (lookup_tnfs_dta q.ndta r.searches) r.searches r.log in
    (
      i,
      record {
        searches = set r.searches i (new_search q dir_handle (tick r.touch_counter));
        touch_counter = tick r.touch_counter;
        log = log;
      },
    )

unfoldable pub release_at : Option ℕ → Registry → Registry
release_at none r = r
release_at (some i) r =
    let s = get_or r.searches i zeroed in
    record r {
      searches = set r.searches i (record s { handle_valid = false; active = false });
      log = close_handle s r.log;
    }

-- `releaseTnfsDTA`
unfoldable pub release_tnfs_dta : ℕ → Registry → Registry
unfolding release_at
release_tnfs_dta ndta r = release_at (lookup_tnfs_dta ndta r.searches) r
