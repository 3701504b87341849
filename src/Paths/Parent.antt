-- ===== src/Paths/Parent.antt =====
-- romemul/gemdrvemul.c: the parent folder of a path is what the path gives with ".." behind it.
use side_tnfs_firmware.Prelude.{
  ℕ, ◌+◌, ◌≤◌, ◌<◌, ◌≡◌, refl, sym, ap, ◌∙◌, true, false, some, List, [], ◌∷◌, ◌++◌, map, ltb, leb,
  ◌||◌, ◌&&◌, not, length, length-append, arith, All, All-append, subst, same_text,
}
use side_tnfs_firmware.Paths.{
  max_folder_length, slash, forward, emit, strtok, drop_last, dot_dot, component_step,
  component_loop, normalize_gemdos_path, tnfs_ddelete_parent_path,
}
use side_tnfs_firmware.Paths.Canonical.{
  IsPlain, IsToken, IsComponent, slashed, path_of, IsCanonical, strtok-slashed,
}
use side_tnfs_firmware.Paths.Components.{
  component_loop-components, map-append, All-IsToken, forward-path_of, length-path_of,
}
use side_tnfs_firmware.Paths.Join.{normalize_gemdos_path-cases}
use side_tnfs_firmware.Paths.Last.{
  slashed-append, length-path_of-slashed, tnfs_ddelete_parent_path-components,
}

apart : IsPlain b'.'
apart = (λ e. ground (arith, e), λ e. ground (arith, e))

dot_dot-IsToken : IsToken dot_dot
dot_dot-IsToken = record { plain = (apart, (apart, tt)); not_empty = λ e. cc }

component_loop-append :
    (cs toks more : List (List ℕ))
    → component_loop cs (toks ++ more) ≡ component_loop (component_loop cs toks) more
unfolding component_loop
component_loop-append cs [] more = refl
component_loop-append cs (tok ∷ toks) more = component_loop-append (component_step cs tok) toks more

step-up : (cs : List (List ℕ)) → component_step cs dot_dot ≡ drop_last cs
unfolding component_step same_text
step-up cs = refl

component_loop-up : (cs : List (List ℕ)) → component_loop cs (dot_dot ∷ []) ≡ drop_last cs
unfolding component_loop
component_loop-up cs = step-up cs

strtok-up :
    (cs : List (List ℕ))
    → All IsToken cs
    → strtok [] (path_of cs ++ (slash ∷ dot_dot)) ≡ cs ++ (dot_dot ∷ [])
unfolding strtok emit
strtok-up [] h = refl
strtok-up (c ∷ cs) h =
    let whole = (c ∷ cs) ++ (dot_dot ∷ []) in
    ap (strtok []) (sym (slashed-append (c ∷ cs) (dot_dot ∷ [])))
    ∙ strtok-slashed [] whole (All-append IsToken (c ∷ cs) (dot_dot ∷ []) h (dot_dot-IsToken, tt))

forward-up : (s : List ℕ) → s ++ map forward (slash ∷ dot_dot) ≡ s ++ (slash ∷ dot_dot)
unfolding forward
forward-up s = refl

-- What the function takes the components of the path with "/.." behind it to be.
components-up :
    (cs : List (List ℕ))
    → All IsComponent cs
    → length cs ≤ 64
    → component_loop [] (strtok [] (map forward (path_of cs ++ (slash ∷ dot_dot)))) ≡ drop_last cs
components-up cs h k =
    let same : map forward (path_of cs ++ (slash ∷ dot_dot)) ≡ path_of cs ++ (slash ∷ dot_dot) =
      map-append (path_of cs) (slash ∷ dot_dot)
      ∙ rw (forward-path_of cs h) (forward-up (path_of cs)) in
    ap (λ t. component_loop [] (strtok [] t)) same
    ∙ ap (component_loop []) (strtok-up cs (All-IsToken cs h))
    ∙ component_loop-append [] cs (dot_dot ∷ [])
    ∙ ap (λ t. component_loop t (dot_dot ∷ []))
        (component_loop-components [] cs h (omega (arith, k)))
    ∙ component_loop-up cs

length-slashed-drop_last :
    (cs : List (List ℕ)) → length (slashed (drop_last cs)) ≤ length (slashed cs)
unfolding drop_last
length-slashed-drop_last [] = omega arith
length-slashed-drop_last (c ∷ []) = omega arith
length-slashed-drop_last (c ∷ d ∷ cs) = omega (
  arith,
  length-append c (slashed (drop_last (d ∷ cs))),
  length-append c (slashed (d ∷ cs)),
  length-slashed-drop_last (d ∷ cs),
)

length-slashed-path_of : (cs : List (List ℕ)) → length (slashed cs) ≤ length (path_of cs)
length-slashed-path_of [] = omega arith
length-slashed-path_of (c ∷ cs) = omega arith

normalize_gemdos_path-up :
    (cs : List (List ℕ))
    → All IsComponent cs
    → length (path_of cs) + 3 < max_folder_length
    → normalize_gemdos_path (path_of cs ++ (slash ∷ dot_dot)) max_folder_length
      ≡ some (path_of (drop_last cs))
normalize_gemdos_path-up cs h k =
    let path = path_of cs ++ (slash ∷ dot_dot) in
    let size : length path ≡ length (path_of cs) + 3 =
      length-append (path_of cs) (slash ∷ dot_dot) in
    let result : length (path_of (drop_last cs)) ≤ length (path_of cs) + 1 = omega (
      arith,
      length-path_of-slashed (drop_last cs),
      length-slashed-drop_last cs,
      length-slashed-path_of cs,
    ) in
    let a : (ltb max_folder_length 2 || leb max_folder_length (length path)) ≡ false =
      ground (arith, size, k) in
    let b : (ltb (length (path_of (drop_last cs))) max_folder_length
          && not (ltb max_folder_length (length (path_of (drop_last cs)) + 1)))
        ≡ true =
      ground (arith, result, k) in
    let e = components-up cs h (omega (arith, k, length-path_of cs (All-IsToken cs h))) in
    normalize_gemdos_path-cases path max_folder_length ∙ rw (a, e, b) refl

-- The two functions agree on what the parent of a folder is. For a canonical path with room for "/.."
-- behind it, the parent folder is what normalising the path with "/.." behind it gives.
pub normalize_gemdos_path-parent :
    (path : List ℕ)
    → IsCanonical path
    → length path + 3 < max_folder_length
    → normalize_gemdos_path (path ++ (slash ∷ dot_dot)) max_folder_length
      ≡ some (tnfs_ddelete_parent_path path max_folder_length)
normalize_gemdos_path-parent path canonical small =
    let cs = canonical.components in
    let fits : length (path_of cs) + 3 < max_folder_length =
      subst (λ r. length r + 3 < max_folder_length) canonical.text small in
    subst
      (λ r.
        normalize_gemdos_path (r ++ (slash ∷ dot_dot)) max_folder_length
        ≡ some (tnfs_ddelete_parent_path r max_folder_length))
      (sym canonical.text)
      (normalize_gemdos_path-up cs canonical.valid fits
        ∙ ap some
            (sym (tnfs_ddelete_parent_path-components cs canonical.valid (omega (arith, fits)))))
