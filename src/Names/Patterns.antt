-- ===== src/Names/Patterns.antt =====
-- romemul/sidetnfs_probe.c: what a search pattern finds, its end cut off.
use side_tnfs_firmware.Prelude.{
  and_inv, ℕ, ◌≡◌, ◌≢◌, ◌⊎◌, inl, inr, refl, sym, ap, ◌∙◌, subst, ◌&&◌, Bool, Option, List, [], ◌∷◌,
  ◌++◌, ◌==◌, length, length-append, take, arith, Bool-cases,
}
use side_tnfs_firmware.Names.{gemdos_pattern_match, normalize_gemdos_pattern, drop_extension_star}
use side_tnfs_firmware.Names.Wildcard.{
  IsName, Matches, Decides, Decides-iff, wildcard_match_upper-Decides,
}

-- The end of a pattern that stands for any extension.
abbrev any_extension : List ℕ
any_extension = b'.' ∷ b'*' ∷ []

-- What a search for a pattern finds: a pattern that ends in ".*" finds the names that match what is
-- before that end, and any other pattern those that match it.
abbrev pub Finds : List ℕ → List ℕ → Type 0
Finds q name =
    ((front : List ℕ) × (q ≡ front ++ any_extension) × Matches front name)
    ⊎ (((front : List ℕ) → q ≢ front ++ any_extension) × Matches q name)

drop_extension_star_ended : (front : List ℕ) → drop_extension_star (front ++ any_extension) ≡ front
unfolding drop_extension_star
drop_extension_star_ended [] = refl
drop_extension_star_ended (a ∷ []) = refl
drop_extension_star_ended (a ∷ b ∷ []) = refl
drop_extension_star_ended (a ∷ b ∷ c ∷ front) =
    ap (λ l. a ∷ l) (drop_extension_star_ended (b ∷ c ∷ front))

drop_extension_star_cases :
    (q : List ℕ) → ((front : List ℕ) × (q ≡ front ++ any_extension)) ⊎ (drop_extension_star q ≡ q)
unfolding drop_extension_star
drop_extension_star_cases [] = inr refl
drop_extension_star_cases (a ∷ []) = inr refl
drop_extension_star_cases (a ∷ b ∷ []) = elim (Bool-cases (b == b'*' && a == b'.')) [
  | inl e ↦
      let (star, dot) = and_inv (b == b'*') (a == b'.') e in
      let bs : b ≡ b'*' = ground arith in
      let d : a ≡ b'.' = ground arith in inl ([], λ i. d i ∷ bs i ∷ [])
  | inr e ↦ inr (rw e refl)
]
drop_extension_star_cases (a ∷ b ∷ c ∷ q) = elim (drop_extension_star_cases (b ∷ c ∷ q)) [
  | inl (front, e) ↦ inl (a ∷ front, ap (λ l. a ∷ l) e)
  | inr e ↦ inr (ap (λ l. a ∷ l) e)
]

kept-not_ended :
    (q : List ℕ) → drop_extension_star q ≡ q → (front : List ℕ) → q ≢ front ++ any_extension
kept-not_ended q kept front e =
    let shorter : front ≡ front ++ any_extension =
      sym (drop_extension_star_ended front) ∙ ap drop_extension_star (sym e) ∙ kept ∙ e in
    let size = ap (λ (l : List ℕ). length l) shorter in
    absurd (omega (arith, size, length-append front any_extension))

-- The pattern without its end finds what the pattern finds.
drop_extension_star-Finds :
    (answer : Option Bool) (q name : List ℕ)
    → Decides answer (Matches (drop_extension_star q) name)
    → Decides answer (Finds q name)
drop_extension_star-Finds answer q name d = elim (drop_extension_star_cases q) [
  | inl (front, e) ↦
      let dropped : drop_extension_star q ≡ front =
        ap drop_extension_star e ∙ drop_extension_star_ended front in
      Decides-iff answer (Matches (drop_extension_star q) name) (Finds q name)
        (λ m. inl (front, e, subst (λ l. Matches l name) dropped m))
        (λ f. elim f [
          | inl (other, e', m) ↦
              subst (λ l. Matches l name)
                (sym (ap drop_extension_star e' ∙ drop_extension_star_ended other)) m
          | inr (not_ended, m) ↦ absurd (not_ended front e)
        ])
        d
  | inr kept ↦
      Decides-iff answer (Matches (drop_extension_star q) name) (Finds q name)
        (λ m. inr (kept-not_ended q kept, subst (λ l. Matches l name) kept m))
        (λ f. elim f [
          | inl (other, e, m) ↦ absurd (kept-not_ended q kept other e)
          | inr (not_ended, m) ↦ subst (λ l. Matches l name) (sym kept) m
        ])
        d
]

pub gemdos_pattern_match-Finds :
    (name pattern : List ℕ)
    → IsName name
    → Decides (gemdos_pattern_match name pattern) (Finds (take 12 pattern) name)
unfolding gemdos_pattern_match normalize_gemdos_pattern
gemdos_pattern_match-Finds name pattern h =
    drop_extension_star-Finds _ (take 12 pattern) name
      (wildcard_match_upper-Decides (drop_extension_star (take 12 pattern)) name h)
