-- ===== src/Paths.antt =====
-- romemul/gemdrvemul.c: the paths that the Atari asks for. A path is the list of its bytes before the
-- NUL.
pub mod Canonical
pub mod Components
pub mod Join
pub mod Normalize
pub mod Last
pub mod Parent
mod Tests
use side_tnfs_firmware.Prelude.{
  ℕ, zero, suc, ◌+◌, ◌-◌, ◌*◌, Bool, true, false, Option, none, some, List, [], ◌∷◌, ◌++◌, map, ltb,
  leb, ◌==◌, ◌||◌, ◌&&◌, not, if◌then◌else◌, length, take, drop, same_text, ◌>>=◌,
}

abbrev pub max_folder_length : ℕ
max_folder_length = 128

abbrev pub slash : ℕ
slash = b'/'

abbrev pub backslash : ℕ
backslash = 92

-- Both separators become the forward one.
unfoldable pub forward : ℕ → ℕ
forward c = if c == backslash then slash else c

-- A token that has ended, unless it is empty.
unfoldable pub emit : List ℕ → List (List ℕ) → List (List ℕ)
emit [] tokens = tokens
emit (c ∷ tok) tokens = (c ∷ tok) ∷ tokens

-- The tokens that `strtok_r` gives for the delimiter "/", after the characters of the first.
unfoldable pub strtok : List ℕ → List ℕ → List (List ℕ)
strtok tok [] = emit tok []
strtok tok (c ∷ s) =
    let ended = strtok [] s in
    let longer = strtok (tok ++ (c ∷ [])) s in if c == slash then emit tok ended else longer

unfoldable pub drop_last : List (List ℕ) → List (List ℕ)
drop_last [] = []
drop_last (c ∷ []) = []
drop_last (c ∷ d ∷ cs) = c ∷ drop_last (d ∷ cs)

abbrev pub dot : List ℕ
dot = b'.' ∷ []

abbrev pub dot_dot : List ℕ
dot_dot = b'.' ∷ b'.' ∷ []

-- What a token does to the components.
unfoldable pub component_step : List (List ℕ) → List ℕ → List (List ℕ)
component_step components tok =
    if same_text tok dot
    then components
    else if same_text tok dot_dot
    then drop_last components
    else if ltb (length components) 64
    then components ++ (tok ∷ [])
    else components

unfoldable pub component_loop : List (List ℕ) → List (List ℕ) → List (List ℕ)
component_loop components [] = components
component_loop components (tok ∷ tokens) = component_loop (component_step components tok) tokens

-- A separator before all but the first component.
unfoldable pub joint : Bool → List ℕ → List ℕ
joint true c = c
joint false c = slash ∷ c

-- The loop that writes the components behind the first `pos` characters of the result.
unfoldable pub join_loop : ℕ → Bool → List (List ℕ) → Option (List ℕ)
join_loop pos first [] = some []
join_loop pos first (c ∷ components) =
    let next = pos + length (joint first c) in
    let rest = join_loop next false components in
    if leb max_folder_length next then none else rest >>= λ r. some (joint first c ++ r)

-- `normalize_gemdos_path`: the path for a buffer of `out_size` bytes, or `none` and the buffer as it
-- was.
unfoldable pub normalize_gemdos_path : List ℕ → ℕ → Option (List ℕ)
unfolding strtok component_loop join_loop
normalize_gemdos_path path out_size =
    if ltb out_size 2 || leb max_folder_length (length path)
    then none
    else join_loop 1 true (component_loop [] (strtok [] (map forward path))) >>= λ r.
        if ltb out_size (length r + 2) then none else some (slash ∷ r)

-- `strrchr(path, '/')`, as what stands before it.
unfoldable pub before_last_slash : List ℕ → Option (List ℕ)
before_last_slash [] = none
before_last_slash (c ∷ s) = elim (before_last_slash s) [
  | some r ↦ some (c ∷ r)
  | none ↦ if c == slash then some [] else none
]

-- A slash at the end is dropped.
unfoldable pub strip_last_slash : List ℕ → List ℕ
strip_last_slash [] = []
strip_last_slash (c ∷ []) = if c == slash then [] else c ∷ []
strip_last_slash (c ∷ d ∷ s) = c ∷ strip_last_slash (d ∷ s)

unfoldable pub parent_of : Option (List ℕ) → List ℕ
parent_of none = slash ∷ []
parent_of (some []) = slash ∷ []
parent_of (some (c ∷ s)) = c ∷ s

-- `tnfs_ddelete_parent_path`
unfoldable pub tnfs_ddelete_parent_path : List ℕ → ℕ → List ℕ
unfolding strip_last_slash before_last_slash parent_of
tnfs_ddelete_parent_path path out_size =
    let tmp = take (max_folder_length - 1) path in
    let bare = if ltb 1 (length tmp) then strip_last_slash tmp else tmp in
    take (out_size - 1) (parent_of (before_last_slash bare))
