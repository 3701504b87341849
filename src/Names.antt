-- ===== src/Names.antt =====
-- romemul/sidetnfs_probe.c: the names of files on a TNFS server as the Atari sees them, and the
-- patterns of its searches. A name is the list of its bytes before the NUL.
pub mod Wildcard
pub mod Eight3
pub mod Patterns
pub mod Entry
mod Tests
use side_tnfs_firmware.Prelude.{
  ℕ, zero, suc, ◌+◌, ◌-◌, ◌*◌, Bool, true, false, Option, none, some, List, [], ◌∷◌, ltb, leb, ◌==◌,
  ◌||◌, ◌&&◌, not, if◌then◌else◌, length, take, drop,
}

-- `toupper` of the C locale.
unfoldable pub toupper : ℕ → ℕ
toupper c = if leb b'a' c && leb c b'z' then c - 32 else c

-- The first test of the loop.
unfoldable pub fits : ℕ → ℕ → Bool
fits c d = c == b'?' || toupper c == toupper d

-- The loop over the stars that are left.
unfoldable pub only_stars : List ℕ → Bool
only_stars [] = true
only_stars (c ∷ p) = c == b'*' && only_stars p

-- The rounds of the loop of `wildcard_match_upper`; `none` is a loop that has not ended. `star` is the
-- pattern behind the last star that was met (`star_p + 1`), and `star_s`.
unfoldable pub wildcard_loop : ℕ → Option (List ℕ × List ℕ) → List ℕ → List ℕ → Option Bool
wildcard_loop zero star p s = none
wildcard_loop (suc n) star p [] = some (only_stars p)
wildcard_loop (suc n) none [] (d ∷ s) = some false
wildcard_loop (suc n) (some (sp, ss)) [] (d ∷ s) =
    wildcard_loop n (some (sp, drop 1 ss)) sp (drop 1 ss)
wildcard_loop (suc n) none (c ∷ p) (d ∷ s) =
    let next = wildcard_loop n none p s in
    let starred = wildcard_loop n (some (p, d ∷ s)) p (d ∷ s) in
    if fits c d then next else if c == b'*' then starred else some false
wildcard_loop (suc n) (some (sp, ss)) (c ∷ p) (d ∷ s) =
    let next = wildcard_loop n (some (sp, ss)) p s in
    let starred = wildcard_loop n (some (p, d ∷ s)) p (d ∷ s) in
    let again = wildcard_loop n (some (sp, drop 1 ss)) sp (drop 1 ss) in
    if fits c d then next else if c == b'*' then starred else again

-- Every round but a return moves the string on, moves the pattern on, or moves the last star's
-- attempt on and begins again.
abbrev pub rounds : List ℕ → List ℕ → ℕ
rounds p s = (length s + 2) * (length s + length p + 1)

unfoldable pub wildcard_match_upper : List ℕ → List ℕ → Option Bool
wildcard_match_upper p s = wildcard_loop (rounds p s) none p s

-- A trailing ".*" is dropped.
unfoldable pub drop_extension_star : List ℕ → List ℕ
drop_extension_star [] = []
drop_extension_star (a ∷ []) = a ∷ []
drop_extension_star (a ∷ b ∷ []) = if b == b'*' && a == b'.' then [] else a ∷ b ∷ []
drop_extension_star (a ∷ b ∷ c ∷ p) = a ∷ drop_extension_star (b ∷ c ∷ p)

-- `normalize_gemdos_pattern` into a buffer of `out_size` bytes.
unfoldable pub normalize_gemdos_pattern : List ℕ → ℕ → List ℕ
unfolding drop_extension_star
normalize_gemdos_pattern pattern out_size = drop_extension_star (take (out_size - 1) pattern)

-- `sidetnfs_gemdos_pattern_match`; a NULL pointer is not represented.
unfoldable pub gemdos_pattern_match : List ℕ → List ℕ → Option Bool
gemdos_pattern_match name83 pattern =
    wildcard_match_upper (normalize_gemdos_pattern pattern 13) name83

-- The characters that a FAT name cannot have, and lower case.
unfoldable pub is_forbidden : ℕ → Bool
is_forbidden c =
    ltb c 32
    || (c == b' '
        || c == b'/'
        || c == 92
        || c == b'<'
        || c == b'>'
        || c == b':'
        || c == 34
        || c == b'|'
        || c == b'?'
        || c == b'*')
    || (leb b'a' c && leb c b'z')

-- The loop over the characters: how many dots there are and where the last one is.
unfoldable pub scan_name : ℕ → ℕ → ℕ → List ℕ → Option (ℕ × ℕ)
scan_name i dot_count dot_pos [] = some (dot_count, dot_pos)
scan_name i dot_count dot_pos (c ∷ name) =
    let dotted = scan_name (i + 1) (dot_count + 1) i name in
    let plain = scan_name (i + 1) dot_count dot_pos name in
    if c == b'.' then dotted else if is_forbidden c then none else plain

-- The lengths of the two parts.
unfoldable pub fits_83 : ℕ → Option (ℕ × ℕ) → Bool
fits_83 len none = false
fits_83 len (some (dot_count, dot_pos)) =
    let base_len = if dot_count == 1 then dot_pos else len in
    let ext_len = if dot_count == 1 then len - dot_pos - 1 else 0 in
    if ltb 1 dot_count
    then false
    else if base_len == 0 || ltb 8 base_len
    then false
    else if dot_count == 1 && (ext_len == 0 || ltb 3 ext_len)
    then false
    else true

-- `sidetnfs_is_supported_83_name`
unfoldable pub is_supported_83_name : List ℕ → Bool
is_supported_83_name [] = false
is_supported_83_name (c ∷ name) =
    if c == b'.' then false else fits_83 (length (c ∷ name)) (scan_name 0 0 0 (c ∷ name))
