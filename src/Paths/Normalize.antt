-- ===== src/Paths/Normalize.antt =====
-- romemul/gemdrvemul.c: normalising a path gives a canonical one, and keeps one that is canonical.
use side_tnfs_firmware.Prelude.{
  ℕ, ◌+◌, ◌<◌, ◌≡◌, refl, sym, ap, ◌∙◌, Bool, true, false, Option, none, some, List, [], map, ltb,
  leb, ◌||◌, ◌&&◌, not, if◌then◌else◌, length, arith, All, subst,
}
use side_tnfs_firmware.Paths.{
  max_folder_length, forward, strtok, component_loop, normalize_gemdos_path,
}
use side_tnfs_firmware.Paths.Canonical.{IsComponent, path_of, IsCanonical, strtok-All, forward-All}
use side_tnfs_firmware.Paths.Components.{component_loop-All, path_of-positive, components_of}
use side_tnfs_firmware.Paths.Join.{normalize_gemdos_path-cases}

guard_inv :
    {A : Type 0} (b : Bool) (x : Option A) (r : A)
    → (if b then none else x) ≡ some r
    → (b ≡ false) × (x ≡ some r)
guard_inv true x r h = absurd (ground arith)
guard_inv false x r h = (refl, h)

test_inv :
    {A : Type 0} (b : Bool) (x r : A) → (if b then some x else none) ≡ some r → (b ≡ true) × (x ≡ r)
test_inv true x r h = (refl, ground (arith, h))
test_inv false x r h = absurd (ground arith)

-- A path that is accepted is canonical, and fits the buffer with its NUL: the root, or names with one
-- slash before each, none of which is empty, "." or "..", or holds a separator.
pub normalize_gemdos_path_sound :
    (path out : List ℕ) (out_size : ℕ)
    → normalize_gemdos_path path out_size ≡ some out
    → (length path < max_folder_length)
      × (length out < max_folder_length)
      × (length out < out_size)
      × IsCanonical out
normalize_gemdos_path_sound path out out_size h =
    let toks = strtok-All [] (map forward path) tt (forward-All path) in
    let cs = component_loop [] (strtok [] (map forward path)) in
    let outer =
      guard_inv (ltb out_size 2 || leb max_folder_length (length path)) _ out
        (sym (normalize_gemdos_path-cases path out_size) ∙ h) in
    let inner =
      test_inv
        (ltb (length (path_of cs)) max_folder_length
          && not (ltb out_size (length (path_of cs) + 1)))
        (path_of cs) out outer.1 in
    let size : length (path_of cs) ≡ length out = ap (λ (l : List ℕ). length l) inner.1 in
    (
      ground (arith, outer.0),
      ground (arith, inner.0, size),
      ground (arith, inner.0, size),
      record { components = cs; valid = component_loop-All [] _ tt toks; text = sym inner.1 },
    )

normalize_gemdos_path-keeps :
    (cs : List (List ℕ)) (out_size : ℕ)
    → All IsComponent cs
    → length (path_of cs) < max_folder_length
    → length (path_of cs) < out_size
    → normalize_gemdos_path (path_of cs) out_size ≡ some (path_of cs)
normalize_gemdos_path-keeps cs out_size h small fits =
    let positive = path_of-positive cs in
    let a : (ltb out_size 2 || leb max_folder_length (length (path_of cs))) ≡ false =
      ground arith in
    let b : (ltb (length (path_of cs)) max_folder_length
          && not (ltb out_size (length (path_of cs) + 1)))
        ≡ true =
      ground arith in
    let e = components_of cs h small in
    normalize_gemdos_path-cases (path_of cs) out_size ∙ rw (a, e, b) refl

-- Normalising is idempotent: a path that is accepted is normalised to one that the function keeps.
pub normalize_gemdos_path-idempotent :
    (path out : List ℕ) (out_size : ℕ)
    → normalize_gemdos_path path out_size ≡ some out
    → normalize_gemdos_path out out_size ≡ some out
normalize_gemdos_path-idempotent path out out_size h =
    let (_, small, fits, canonical) = normalize_gemdos_path_sound path out out_size h in
    subst (λ r. normalize_gemdos_path r out_size ≡ some r) (sym canonical.text)
      (normalize_gemdos_path-keeps canonical.components out_size canonical.valid
        (omega (arith, small, ap (λ (l : List ℕ). length l) canonical.text))
        (omega (arith, fits, ap (λ (l : List ℕ). length l) canonical.text)))
