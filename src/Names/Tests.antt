-- ===== src/Names/Tests.antt =====
-- Names and patterns at concrete inputs.
use side_tnfs_firmware.Prelude.{
  ℕ, ◌≤◌, ◌<◌, ◌≡◌, ◌≢◌, ◌↔◌, refl, true, false, Option, none, some, List, [], ◌∷◌, arith,
}
use side_tnfs_firmware.Names.{
  toupper, fits, only_stars, wildcard_loop, wildcard_match_upper, normalize_gemdos_pattern,
  gemdos_pattern_match, is_supported_83_name,
}
use side_tnfs_firmware.Names.Wildcard.{Matches, Decides, IsName, wildcard_match_upper-Decides}
use side_tnfs_firmware.Names.Eight3.{IsEight3, is_supported_83_name_iff}
use side_tnfs_firmware.Names.Entry.{
  Tm, IsTm, no_date, Encodes, unix_epoch_to_dos_datetime, unix_epoch_to_dos_datetime-Encodes,
  gemdos_attr_match,
}

-- GAME1.PRG
abbrev game : List ℕ
game = b'G' ∷ b'A' ∷ b'M' ∷ b'E' ∷ b'1' ∷ b'.' ∷ b'P' ∷ b'R' ∷ b'G' ∷ []

-- *m?1*.p*, which needs the loop to begin again behind both stars.
abbrev pattern_text : List ℕ
pattern_text = b'*' ∷ b'm' ∷ b'?' ∷ b'1' ∷ b'*' ∷ b'.' ∷ b'p' ∷ b'*' ∷ []

matched : wildcard_match_upper pattern_text game ≡ some true
unfolding wildcard_match_upper wildcard_loop fits only_stars toupper
matched = refl

-- GAME1.* loses its end, and then matches no name with an extension.
extension_star :
    gemdos_pattern_match game (b'G' ∷ b'A' ∷ b'M' ∷ b'E' ∷ b'1' ∷ b'.' ∷ b'*' ∷ []) ≡ some false
unfolding gemdos_pattern_match normalize_gemdos_pattern wildcard_match_upper wildcard_loop fits
    only_stars toupper
extension_star = refl

game-IsName : IsName game
game-IsName = omega arith

wildcard_match_upper-Decides_example :
    Decides (wildcard_match_upper pattern_text game) (Matches pattern_text game)
wildcard_match_upper-Decides_example = wildcard_match_upper-Decides pattern_text game game-IsName

is_supported_83_name_iff_example : (is_supported_83_name game ≡ true) ↔ IsEight3 game
is_supported_83_name_iff_example = is_supported_83_name_iff game

-- 2024-02-29, 23:59:58.
abbrev leap_day : Tm
leap_day = record { year = 2024; mon = 1; mday = 29; hour = 23; minute = 59; sec = 58 }

abbrev time : ℕ
time = 1709251198

abbrev gmtime : ℕ → Option Tm
gmtime _ = some leap_day

leap_day-IsTm : (t : Tm) → gmtime time ≡ some t → IsTm t
leap_day-IsTm t e = ground arith

unix_epoch_to_dos_datetime-Encodes_example :
    ((t : Tm)
      → time ≢ 0
      → gmtime time ≡ some t
      → 1980 ≤ t.year
      → Encodes t (unix_epoch_to_dos_datetime gmtime time))
    × (time ≡ 0 → unix_epoch_to_dos_datetime gmtime time ≡ no_date)
    × (gmtime time ≡ none → unix_epoch_to_dos_datetime gmtime time ≡ no_date)
    × ((t : Tm)
        → gmtime time ≡ some t
        → t.year < 1980
        → unix_epoch_to_dos_datetime gmtime time ≡ no_date)
unix_epoch_to_dos_datetime-Encodes_example =
    unix_epoch_to_dos_datetime-Encodes gmtime time leap_day-IsTm

-- A plain file is found by a search for archived files, a folder is not.
plain_file : gemdos_attr_match 0 32 ≡ true
unfolding gemdos_attr_match
plain_file = refl

folder : gemdos_attr_match 16 33 ≡ false
unfolding gemdos_attr_match
folder = refl
