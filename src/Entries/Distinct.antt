-- ===== src/Entries/Distinct.antt =====
-- romemul/config.c: no two keys of the defaults are alike.
use side_tnfs_firmware.Prelude.{
  and_inv, ℕ, ◌≡◌, refl, Bool, true, false, not, ◌&&◌, List, [], ◌∷◌, ◌++◌, All, arith, same_text,
  c_str,
}
use side_tnfs_firmware.Entries.{default_entries, key_text, same_key}
use side_tnfs_firmware.Entries.Keys.{keys}

-- No key is like one before it.
abbrev pub IsNew : List ℕ → List (List ℕ) → Type 0
IsNew k ks = All (λ k'. same_text k' k ≡ false) ks

-- No key is empty, and no two are alike.
abbrev pub IsDistinct : List (List ℕ) → List (List ℕ) → Type 0
IsDistinct before [] = Unit
IsDistinct before (k ∷ ks) =
    (same_text k [] ≡ false) × IsNew k before × IsDistinct (before ++ (k ∷ [])) ks

is_new : List ℕ → List (List ℕ) → Bool
is_new k [] = true
is_new k (k' ∷ ks) = not (same_text k' k) && is_new k ks

is_distinct : List (List ℕ) → List (List ℕ) → Bool
is_distinct before [] = true
is_distinct before (k ∷ ks) =
    not (same_text k []) && (is_new k before && is_distinct (before ++ (k ∷ [])) ks)

not_inv : (a : Bool) → not a ≡ true → a ≡ false
not_inv true h = absurd (ground (arith, h))
not_inv false h = refl

is_new-IsNew : (k : List ℕ) (ks : List (List ℕ)) → is_new k ks ≡ true → IsNew k ks
unfolding is_new
is_new-IsNew k [] h = tt
is_new-IsNew k (k' ∷ ks) h =
    let (a, b) = and_inv (not (same_text k' k)) (is_new k ks) h in
    (not_inv (same_text k' k) a, is_new-IsNew k ks b)

is_distinct-IsDistinct :
    (before ks : List (List ℕ)) → is_distinct before ks ≡ true → IsDistinct before ks
unfolding is_distinct
is_distinct-IsDistinct before [] h = tt
is_distinct-IsDistinct before (k ∷ ks) h =
    let (a, r) = and_inv (not (same_text k [])) _ h in
    let (b, c) = and_inv (is_new k before) _ r in
    (
      not_inv (same_text k []) a,
      is_new-IsNew k before b,
      is_distinct-IsDistinct (before ++ (k ∷ [])) ks c,
    )

pub defaults-IsDistinct : IsDistinct [] (keys default_entries)
unfolding is_distinct is_new same_text c_str
defaults-IsDistinct = is_distinct-IsDistinct [] (keys default_entries) refl

pub differs : (a b : List ℕ) → same_text (key_text a) (key_text b) ≡ false → same_key a b ≡ false
unfolding same_key
differs a b h = h
