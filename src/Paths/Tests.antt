-- ===== src/Paths/Tests.antt =====
-- Tests of the paths of romemul/gemdrvemul.c, and the theorems about them at concrete paths.
use side_tnfs_firmware.Prelude.{
  ℕ, ◌≡◌, refl, List, [], ◌∷◌, ◌++◌, none, some, length, ◌<◌, arith, same_text,
}
use side_tnfs_firmware.Paths.{
  normalize_gemdos_path, tnfs_ddelete_parent_path, max_folder_length, forward, emit, strtok,
  drop_last, component_step, component_loop, joint, join_loop, slash, dot_dot, before_last_slash,
  strip_last_slash, parent_of,
}
use side_tnfs_firmware.Paths.Canonical.{IsCanonical}
use side_tnfs_firmware.Paths.Normalize.{normalize_gemdos_path_sound}
use side_tnfs_firmware.Paths.Parent.{normalize_gemdos_path-parent}

-- "A\.//../B/C."
abbrev asked : List ℕ
asked = b'A' ∷ 92 ∷ b'.' ∷ b'/' ∷ b'/' ∷ b'.' ∷ b'.' ∷ b'/' ∷ b'B' ∷ b'/' ∷ b'C' ∷ b'.' ∷ []

-- "/B/C."
abbrev given : List ℕ
given = b'/' ∷ b'B' ∷ b'/' ∷ b'C' ∷ b'.' ∷ []

asked-given : normalize_gemdos_path asked max_folder_length ≡ some given
unfolding normalize_gemdos_path strtok component_loop component_step join_loop joint forward emit
    drop_last same_text
asked-given = refl

too_small : normalize_gemdos_path asked 5 ≡ none
unfolding normalize_gemdos_path strtok component_loop component_step join_loop joint forward emit
    drop_last same_text
too_small = refl

parent_of_given : tnfs_ddelete_parent_path given max_folder_length ≡ b'/' ∷ b'B' ∷ []
unfolding tnfs_ddelete_parent_path before_last_slash strip_last_slash parent_of
parent_of_given = refl

normalize_gemdos_path_sound_example :
    (length asked < max_folder_length)
    × (length given < max_folder_length)
    × (length given < max_folder_length)
    × IsCanonical given
normalize_gemdos_path_sound_example =
    normalize_gemdos_path_sound asked given max_folder_length asked-given

normalize_gemdos_path-parent_example :
    normalize_gemdos_path (given ++ (slash ∷ dot_dot)) max_folder_length
    ≡ some (tnfs_ddelete_parent_path given max_folder_length)
normalize_gemdos_path-parent_example =
    normalize_gemdos_path-parent given normalize_gemdos_path_sound_example.3 (omega arith)
