-- ===== src/Browse.antt =====
-- romemul/sidetnfs_floppy_browse.c: the pages of a folder on a TNFS server, its folders before its
-- files. A page is fetched by one call or by several that take up the walk where the last one left it.
pub mod Rounds
pub mod Pages
pub mod Listing
pub mod Kept
pub mod Resume
mod Tests
use side_tnfs_firmware.Prelude.{
  ℕ, zero, suc, ◌+◌, ◌-◌, ◌*◌, ◌%◌, ◌^◌, Bool, true, false, not, ◌&&◌, List, [], ◌∷◌, ◌++◌, ltb,
  ◌==◌, if◌then◌else◌, length,
}

-- `FLOPPY_BROWSE_PAGE_ENTRIES`
abbrev pub page_entries : ℕ
page_entries = 15

-- `FLOPPY_BROWSE_TNFS_MAX_TOTAL_ROUNDS`
abbrev pub max_total_rounds : ℕ
max_total_rounds = 100000

-- `SidetnfsTnfsDirOpenResult`
pub data DirOpen : Type 0 where
  dir_ok : DirOpen
  dir_not_found : DirOpen
  dir_access_denied : DirOpen
  dir_path_too_long : DirOpen
  dir_error : DirOpen

-- A name, and whether it is a folder.
abbrev pub Slot : Type 0
Slot = List ℕ × Bool

-- What `sidetnfs_tnfs_raw_readdir` returns: below 0, 0 or an entry.
pub data RawReply : Type 0 where
  failed : RawReply
  end_of_directory : RawReply
  raw_entry : Slot → RawReply

-- What a round hears: from opening the folder, if it does that, and from reading it.
pub record Answer : Type 0 where
  pub opens : DirOpen
  pub reply : RawReply

-- `sidetnfs_floppy_browse_status_t`, those of a page.
pub data PageStatus : Type 0 where
  browse_ok : PageStatus
  browse_dir_not_found : PageStatus
  browse_access_denied : PageStatus
  browse_path_too_long : PageStatus
  browse_end_of_directory : PageStatus
  stale_generation : PageStatus
  backend_error : PageStatus
  not_open : PageStatus
  in_progress : PageStatus

-- The fields `walk_*` of `floppy_browse_state_t`, and the slots of the page that were written:
-- `walk_collected` is their number.
pub record Walk : Type 0 where
  pub active : Bool
  pub files_phase : Bool
  pub dirs_total : ℕ
  pub page_index : ℕ
  pub generation : ℕ
  pub matched : ℕ
  pub handle_open : Bool
  pub page : List Slot

-- How a round ends: the loop goes on, or ends with the page, with an error, or without the folder.
pub data Progress : Type 0 where
  going : Progress
  complete : Bool → Progress
  broken : Progress
  unopened : DirOpen → Progress

-- The entries to pass over in the current phase.
unfoldable pub phase_skip : ℕ → Walk → ℕ
phase_skip skip w =
    if w.files_phase then (if ltb w.dirs_total skip then skip - w.dirs_total else 0) else skip

-- An entry of the kind that the phase is about.
unfoldable pub take_entry : ℕ → Slot → Walk → Progress × Walk
unfolding phase_skip
take_entry skip entry w =
    if ltb w.matched (phase_skip skip w)
    then (going, record w { matched = w.matched + 1 })
    else if ltb (length w.page) page_entries
    then (going, record w { page = w.page ++ (entry ∷ []); matched = w.matched + 1 })
    else (complete true, w)

unfoldable pub same_kind : Bool → Bool → Bool
same_kind true b = b
same_kind false b = not b

-- A round behind the opening of the folder.
unfoldable pub take_reply : ℕ → RawReply → Walk → Progress × Walk
unfolding take_entry same_kind
take_reply skip failed w = (broken, w)
take_reply skip end_of_directory w =
    if w.files_phase then (complete false, record w { handle_open = false }) else (
      going,
      record w { handle_open = false; dirs_total = w.matched; files_phase = true; matched = 0 },
    )
take_reply skip (raw_entry (name, is_dir)) w =
    if same_kind is_dir (not w.files_phase) then take_entry skip (name, is_dir) w else (going, w)

unfoldable pub read_round : ℕ → RawReply → Walk → Progress × Walk
unfolding take_reply
read_round skip reply w =
    if ltb max_total_rounds w.matched then (broken, w) else take_reply skip reply w

unfoldable pub open_round : DirOpen → ℕ → RawReply → Walk → Progress × Walk
unfolding read_round
open_round dir_ok skip reply w = read_round skip reply (record w { handle_open = true })
open_round dir_not_found skip reply w = (unopened dir_not_found, record w { active = false })
open_round dir_access_denied skip reply w =
    (unopened dir_access_denied, record w { active = false })
open_round dir_path_too_long skip reply w =
    (unopened dir_path_too_long, record w { active = false })
open_round dir_error skip reply w = (unopened dir_error, record w { active = false })

-- A round of the loop.
unfoldable pub take_round : ℕ → Answer → Walk → Progress × Walk
unfolding open_round
take_round skip a w =
    if w.handle_open then read_round skip a.reply w else open_round a.opens skip a.reply w

abbrev pub is_going : Progress → Bool
is_going going = true
is_going _ = false

-- The loop, for as many rounds as its budget of time and rounds leaves it: one for each answer.
unfoldable pub take_rounds : ℕ → List Answer → Walk → Progress × Walk
take_rounds skip [] w = (going, w)
take_rounds skip (a ∷ answers) w =
    let (p, w') = take_round skip a w in
    let rest = take_rounds skip answers w' in if is_going p then rest else (p, w')

-- The walk that a new request starts.
unfoldable pub fresh_walk : ℕ → ℕ → Walk
fresh_walk generation page_index = record {
  active = true;
  files_phase = false;
  dirs_total = 0;
  page_index = page_index;
  generation = generation;
  matched = 0;
  handle_open = false;
  page = [];
}

unfoldable pub resuming : ℕ → ℕ → Walk → Bool
resuming generation page_index w =
    w.active && (w.generation == generation && w.page_index == page_index)

-- `floppy_browse_page_result_t`
pub record PageResult : Type 0 where
  pub status : PageStatus
  pub generation : ℕ
  pub page_index : ℕ
  pub count : ℕ
  pub has_prev : Bool
  pub has_next : Bool

abbrev pub plain_result : PageStatus → ℕ → ℕ → PageResult
plain_result status generation page_index = record {
  status = status;
  generation = generation;
  page_index = page_index;
  count = 0;
  has_prev = false;
  has_next = false;
}

unfoldable pub open_status : DirOpen → PageStatus
open_status dir_ok = browse_ok
open_status dir_not_found = browse_dir_not_found
open_status dir_access_denied = browse_access_denied
open_status dir_path_too_long = browse_path_too_long
open_status dir_error = backend_error

-- What a call makes of its loop.
unfoldable pub page_result : ℕ → ℕ → Progress → Walk → PageResult × Walk
unfolding open_status
page_result generation page_index going w = (plain_result in_progress generation page_index, w)
page_result generation page_index (unopened r) w =
    (plain_result (open_status r) generation page_index, w)
page_result generation page_index broken w = (
  plain_result backend_error generation page_index,
  record w { active = false; handle_open = false },
)
page_result generation page_index (complete has_next) w = (
  record {
    status = if length w.page == 0 && not has_next then browse_end_of_directory else browse_ok;
    generation = generation;
    page_index = page_index;
    count = length w.page;
    has_prev = ltb 0 page_index;
    has_next = has_next;
  },
  record w { active = false; handle_open = false },
)

-- The session as far as a page needs it.
pub record Session : Type 0 where
  pub is_open : Bool
  pub generation : ℕ
  pub walk : Walk

-- `sidetnfs_floppy_browse_get_page` on a TNFS server.
unfoldable pub get_page : ℕ → ℕ → List Answer → Session → PageResult × Session
unfolding take_rounds page_result fresh_walk resuming
get_page generation page_index answers s =
    let start =
      if resuming generation page_index s.walk then s.walk else fresh_walk generation page_index in
    let (p, w) = take_rounds (page_index * page_entries % 2 ^ 32) answers start in
    let (result, w') = page_result generation page_index p w in
    if not s.is_open
    then (plain_result not_open 0 page_index, s)
    else if not (generation == s.generation)
    then (plain_result stale_generation s.generation page_index, s)
    else (result, record s { walk = w' })
