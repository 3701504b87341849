-- ===== src/Searches/Rounds.antt =====
-- The rounds of READDIRX that look for the next entry of a search in romemul/sidetnfs_probe.c.
use side_tnfs_firmware.Prelude.{
  ℕ, zero, suc, Bool, true, false, Option, none, some, ◌==◌, ◌&&◌, not, if◌then◌else◌,
}
use side_tnfs_firmware.Names.{gemdos_pattern_match}
use side_tnfs_firmware.Names.Entry.{AtariDirEntry, gemdos_attr_match}
use side_tnfs_firmware.Searches.{DtaSearch}

-- `SidetnfsDirSearchResult`, with the entry that is put out.
pub data SearchResult : Type 0 where
  dir_search_found : AtariDirEntry → SearchResult
  dir_search_not_found : SearchResult
  dir_search_error : SearchResult

-- What a round of READDIRX gets: nothing, after the retries; or a code, and the entry if the answer
-- holds one that is not skipped.
pub data Reply : Type 0 where
  unanswered : Reply
  replied : ℕ → Option AtariDirEntry → Reply

-- Whether the slot has a session, and what each round gets.
pub record Answer : Type 0 where
  pub slot_context : Bool
  pub readdirx : ℕ → Reply

abbrev pub tnfs_ok : ℕ
tnfs_ok = 0

abbrev pub tnfs_eof : ℕ
tnfs_eof = 33

-- `SIDETNFS_TNFS_DTA_MAX_ROUNDS`
abbrev pub max_rounds : ℕ
max_rounds = 512

-- A match that has ended with yes.
unfoldable pub is_yes : Option Bool → Bool
is_yes (some b) = b
is_yes none = false

unfoldable pub fits_search : DtaSearch → AtariDirEntry → Bool
fits_search s entry =
    is_yes (gemdos_pattern_match entry.name s.pattern) && gemdos_attr_match entry.attr s.attribs

-- A round: the result and `eof`, or what the rounds after it come to.
unfoldable pub take_reply :
    DtaSearch → Reply → (SearchResult × Bool) → (SearchResult × Bool) → SearchResult × Bool
take_reply s unanswered rest rest_eof = (dir_search_error, false)
take_reply s (replied rc none) rest rest_eof =
    if rc == tnfs_ok then rest else if rc == tnfs_eof then rest_eof else (dir_search_error, false)
take_reply s (replied rc (some entry)) rest rest_eof =
    if rc == tnfs_ok
    then (if fits_search s entry then (dir_search_found entry, false) else rest)
    else if rc == tnfs_eof
    then (if fits_search s entry then (dir_search_found entry, true) else rest_eof)
    else (dir_search_error, false)

-- The rounds that are left, `n` of them from the round `i` on.
unfoldable pub rounds_loop : (ℕ → Reply) → DtaSearch → ℕ → ℕ → Bool → SearchResult × Bool
unfolding take_reply
rounds_loop readdirx s zero i eof = (dir_search_error, eof)
rounds_loop readdirx s (suc n) i true = (dir_search_not_found, true)
rounds_loop readdirx s (suc n) i false =
    let rest = rounds_loop readdirx s n (suc i) false in
    let rest_eof = rounds_loop readdirx s n (suc i) true in take_reply s (readdirx i) rest rest_eof

-- `tnfs_dta_find_next_match` behind the touch: the result, and `eof` of the search.
unfoldable pub search_rounds : Answer → DtaSearch → SearchResult × Bool
search_rounds answer s =
    if not answer.slot_context
    then (dir_search_error, s.eof)
    else rounds_loop answer.readdirx s max_rounds 0 s.eof
