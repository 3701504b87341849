-- ===== src/Paths/Canonical.antt =====
-- What romemul/gemdrvemul.c makes of a path: canonical paths, and nothing above the root.
use side_tnfs_firmware.Prelude.{
  ℕ, ◌≡◌, ◌≢◌, inl, inr, refl, sym, ap, ◌∙◌, false, List, [], ◌∷◌, ◌++◌, map, append-nil,
  append_assoc, ◌==◌, arith, Bool-cases, All, All-append,
}
use side_tnfs_firmware.Paths.{slash, backslash, forward, emit, strtok, dot, dot_dot}

-- A character inside a component.
abbrev pub IsPlain : ℕ → Type 0
IsPlain c = (c ≢ slash) × (c ≢ backslash)

-- What stands between two separators.
pub record IsToken (tok : List ℕ) : Type 0 where
  pub plain : All IsPlain tok
  pub not_empty : tok ≢ []

-- The name of a file or a folder.
pub record IsComponent (tok : List ℕ) : Type 0 where
  pub token : IsToken tok
  pub not_dot : tok ≢ dot
  pub not_dot_dot : tok ≢ dot_dot

-- A slash before each component.
abbrev pub slashed : List (List ℕ) → List ℕ
slashed [] = []
slashed (c ∷ cs) = slash ∷ (c ++ slashed cs)

abbrev pub path_of : List (List ℕ) → List ℕ
path_of [] = slash ∷ []
path_of (c ∷ cs) = slashed (c ∷ cs)

-- The root, or components with a slash before each.
pub record IsCanonical (path : List ℕ) : Type 0 where
  pub components : List (List ℕ)
  pub valid : All IsComponent components
  pub text : path ≡ path_of components

emit-cons : (tok : List ℕ) (tokens : List (List ℕ)) → tok ≢ [] → emit tok tokens ≡ tok ∷ tokens
unfolding emit
emit-cons [] tokens h = absurd (h refl)
emit-cons (c ∷ tok) tokens h = refl

strtok-plain : (tok c s : List ℕ) → All IsPlain c → strtok tok (c ++ s) ≡ strtok (tok ++ c) s
unfolding strtok
strtok-plain tok [] s h = ap (λ t. strtok t s) (sym (append-nil tok))
strtok-plain tok (d ∷ c) s h =
    let here : (d == slash) ≡ false = ground (arith, h.0.0) in
    rw here
      (strtok-plain (tok ++ (d ∷ [])) c s h.1 ∙ ap (λ t. strtok t s) (append_assoc tok (d ∷ []) c))

-- The tokens of separated tokens.
pub strtok-slashed :
    (tok : List ℕ) (cs : List (List ℕ)) → All IsToken cs → strtok tok (slashed cs) ≡ emit tok cs
unfolding strtok
strtok-slashed tok [] h = refl
strtok-slashed tok (c ∷ cs) h = ap (emit tok) (
    strtok-plain [] c (slashed cs) h.0.plain
    ∙ strtok-slashed c cs h.1
    ∙ emit-cons c cs h.0.not_empty)

emit-All :
    (tok : List ℕ) (tokens : List (List ℕ))
    → All IsPlain tok
    → All IsToken tokens
    → All IsToken (emit tok tokens)
unfolding emit
emit-All [] tokens p h = h
emit-All (c ∷ tok) tokens p h = (record { plain = p; not_empty = λ e. cc }, h)

pub strtok-All :
    (tok s : List ℕ) → All IsPlain tok → All (λ c. c ≢ backslash) s → All IsToken (strtok tok s)
unfolding strtok
strtok-All tok [] p h = emit-All tok [] p tt
strtok-All tok (c ∷ s) p h = elim (Bool-cases (c == slash)) [
  | inl e ↦ rw e (emit-All tok (strtok [] s) p (strtok-All [] s tt h.1))
  | inr e ↦ rw e (
      strtok-All (tok ++ (c ∷ [])) s
        (All-append IsPlain tok (c ∷ []) p ((λ k. ground (arith, k), h.0), tt)) h.1)
]

pub forward-All : (s : List ℕ) → All (λ c. c ≢ backslash) (map forward s)
unfolding forward
forward-All [] = tt
forward-All (c ∷ s) = (
  elim (Bool-cases (c == backslash)) [
    | inl e ↦ rw e (omega arith)
    | inr e ↦ rw e (λ k. ground (arith, k))
  ],
  forward-All s,
)
