-- ===== src/Names/Eight3.antt =====
-- The names that romemul/sidetnfs_probe.c shows to the Atari: those of the form NAME.EXT.
use side_tnfs_firmware.Prelude.{
  ℕ, suc, ◌+◌, ◌-◌, ◌≤◌, ◌<◌, ◌≡◌, ◌≢◌, ◌↔◌, ◌⊎◌, inl, inr, sym, ap, ◌∙◌, true, false, some, List,
  [], ◌∷◌, ◌++◌, ◌==◌, length, length-append, arith, Bool-cases, All, Option-cases, append-nil,
}
use side_tnfs_firmware.Names.{is_forbidden, scan_name, fits_83, is_supported_83_name}

-- A character of a part: printable, upper case if a letter, and none of the ten that FAT reserves.
pub record IsNameChar (c : ℕ) : Type 0 where
  pub printable : 33 ≤ c
  pub no_dot : c ≢ b'.'
  pub no_slash : c ≢ b'/'
  pub no_backslash : c ≢ 92
  pub no_less : c ≢ b'<'
  pub no_greater : c ≢ b'>'
  pub no_colon : c ≢ b':'
  pub no_quote : c ≢ 34
  pub no_bar : c ≢ b'|'
  pub no_question : c ≢ b'?'
  pub no_star : c ≢ b'*'
  pub upper_case : (c < b'a') ⊎ (b'z' < c)

-- One to eight characters, and perhaps a dot and one to three more.
pub record IsPart (least most : ℕ) (part : List ℕ) : Type 0 where
  pub characters : All IsNameChar part
  pub not_empty : least ≤ length part
  pub not_long : length part ≤ most

abbrev pub IsEight3 : List ℕ → Type 0
IsEight3 name =
    IsPart 1 8 name
    ⊎ ((base : List ℕ) × (ext : List ℕ) × IsPart 1 8 base
        × IsPart 1 3 ext
        × (name ≡ base ++ (b'.' ∷ ext)))

allowed : (c : ℕ) → (c == b'.') ≡ false → is_forbidden c ≡ false → IsNameChar c
unfolding is_forbidden
allowed c d f = ground arith

allowed_dot : (c : ℕ) → IsNameChar c → (c == b'.') ≡ false
allowed_dot c n = ground (arith, n.no_dot)

not_forbidden : (c : ℕ) → IsNameChar c → is_forbidden c ≡ false
unfolding is_forbidden
not_forbidden c n = ground (
  arith, n.no_dot, n.no_slash, n.no_backslash, n.no_less, n.no_greater, n.no_colon, n.no_quote,
  n.no_bar, n.no_question, n.no_star,
)

-- A part moves the scan on.
scan_name-part :
    (i dots pos : ℕ) (part rest : List ℕ)
    → All IsNameChar part
    → scan_name i dots pos (part ++ rest) ≡ scan_name (i + length part) dots pos rest
unfolding scan_name
scan_name-part i dots pos [] rest h =
    let e : i ≡ i + 0 = omega arith in ap (λ k. scan_name k dots pos rest) e
scan_name-part i dots pos (c ∷ part) rest h =
    rw (allowed_dot c h.0, not_forbidden c h.0, scan_name-part (i + 1) dots pos part rest h.1)
      (let e : i + 1 + length part ≡ i + suc (length part) = omega arith in
        ap (λ k. scan_name k dots pos rest) e)

-- What the scan saw: no dot, one dot, or more.
abbrev Scanned : ℕ → ℕ → ℕ → List ℕ → ℕ → ℕ → Type 0
Scanned i dots pos s dots' pos' =
    ((dots' ≡ dots) × (pos' ≡ pos) × All IsNameChar s)
    ⊎ (((base : List ℕ) × (ext : List ℕ) × All IsNameChar base
          × All IsNameChar ext
          × (s ≡ base ++ (b'.' ∷ ext))
          × (dots' ≡ dots + 1)
          × (pos' ≡ i + length base))
        ⊎ (dots + 2 ≤ dots'))

scan_name-Scanned :
    (i dots pos : ℕ) (s : List ℕ) (dots' pos' : ℕ)
    → scan_name i dots pos s ≡ some (dots', pos')
    → Scanned i dots pos s dots' pos'
unfolding scan_name
scan_name-Scanned i dots pos [] dots' pos' e = inl (ground arith, ground arith, tt)
scan_name-Scanned i dots pos (c ∷ s) dots' pos' e = elim (Bool-cases (c == b'.')) [
  | inl d ↦
      let dot : c ≡ b'.' = ground arith in
      elim (scan_name-Scanned (i + 1) (dots + 1) i s dots' pos' (rw d at e)) [
        | inl (one, at, all) ↦ inr (inl ([], s, tt, all, ap (λ x. x ∷ s) dot, one, omega arith))
        | inr (inl (base, ext, hb, he, es, two, at)) ↦ inr (inr (omega arith))
        | inr (inr more) ↦ inr (inr (omega arith))
      ]
  | inr d ↦ elim (Bool-cases (is_forbidden c)) [
    | inl f ↦ absurd (ground (arith, e))
    | inr f ↦
        let n = allowed c d f in
        elim (scan_name-Scanned (i + 1) dots pos s dots' pos' (rw (d, f) at e)) [
          | inl (none_yet, at, all) ↦ inl (none_yet, at, (n, all))
          | inr (inl (base, ext, hb, he, es, one, at)) ↦
              inr (inl (c ∷ base, ext, (n, hb), he, ap (λ x. c ∷ x) es, one, omega arith))
          | inr (inr more) ↦ inr (inr more)
        ]
  ]
]

fits_83-none : (len pos : ℕ) → (fits_83 len (some (0, pos)) ≡ true) ↔ ((1 ≤ len) × (len ≤ 8))
unfolding fits_83
fits_83-none len pos = (λ h. (ground arith, ground arith), λ h. ground arith)

fits_83-one :
    (len pos : ℕ)
    → (fits_83 len (some (1, pos)) ≡ true)
      ↔ ((1 ≤ pos) × (pos ≤ 8) × (1 ≤ len - pos - 1) × (len - pos - 1 ≤ 3))
unfolding fits_83
fits_83-one len pos =
    (λ h. (ground arith, ground arith, ground arith, ground arith), λ h. ground arith)

fits_83-more : (len dots pos : ℕ) → 2 ≤ dots → fits_83 len (some (dots, pos)) ≡ false
unfolding fits_83
fits_83-more len dots pos h = ground arith

Scanned-sound :
    (s : List ℕ) (dots pos : ℕ)
    → Scanned 0 0 0 s dots pos
    → fits_83 (length s) (some (dots, pos)) ≡ true
    → IsEight3 s
Scanned-sound s dots pos (inl (e, at, all)) h =
    let bounds = (fits_83-none (length s) pos).0 (rw (← e) h) in
    inl (record { characters = all; not_empty = bounds.0; not_long = bounds.1 })
Scanned-sound s dots pos (inr (inl (base, ext, hb, he, es, one, at))) h =
    let one' : dots ≡ 1 = omega arith in
    let (low, high, low', high') = (fits_83-one (length s) pos).0 (rw (← one') h) in
    let size : length s ≡ length base + suc (length ext) =
      ap length es ∙ length-append base (b'.' ∷ ext) in
    inr (
      base,
      ext,
      record { characters = hb; not_empty = omega arith; not_long = omega arith },
      record { characters = he; not_empty = omega arith; not_long = omega arith },
      es,
    )
Scanned-sound s dots pos (inr (inr more)) h = absurd (cc (fits_83-more (length s) dots pos more))

is_supported_83_name_sound : (name : List ℕ) → is_supported_83_name name ≡ true → IsEight3 name
unfolding is_supported_83_name fits_83
is_supported_83_name_sound [] h = absurd (cc)
is_supported_83_name_sound (c ∷ name) h = elim (Bool-cases (c == b'.')) [
  | inl d ↦ absurd (ground (arith, d, h))
  | inr d ↦ elim (Option-cases (scan_name 0 0 0 (c ∷ name))) [
    | inl e ↦ absurd (cc (d, e, h))
    | inr ((dots, pos), e) ↦
        Scanned-sound (c ∷ name) dots pos (scan_name-Scanned 0 0 0 (c ∷ name) dots pos e)
          (rw (d, e) at h)
  ]
]

scan_name-word : (s : List ℕ) → All IsNameChar s → scan_name 0 0 0 s ≡ some (0, 0)
unfolding scan_name
scan_name-word s h = ap (scan_name 0 0 0) (sym (append-nil s)) ∙ scan_name-part 0 0 0 s [] h

scan_name-dotted :
    (base ext : List ℕ)
    → All IsNameChar base
    → All IsNameChar ext
    → scan_name 0 0 0 (base ++ (b'.' ∷ ext)) ≡ some (1, length base)
unfolding scan_name
scan_name-dotted base ext hb he =
    let e : 0 + length base ≡ length base = omega arith in
    scan_name-part 0 0 0 base (b'.' ∷ ext) hb
    ∙ rw e (
        ap (scan_name (length base + 1) 1 (length base)) (sym (append-nil ext))
        ∙ scan_name-part (length base + 1) 1 (length base) ext [] he)

is_supported_83_name_complete : (name : List ℕ) → IsEight3 name → is_supported_83_name name ≡ true
unfolding is_supported_83_name
is_supported_83_name_complete [] (inl p) = absurd (omega (arith, p.not_empty))
is_supported_83_name_complete (c ∷ name) (inl p) =
    rw (allowed_dot c p.characters.0, scan_name-word (c ∷ name) p.characters)
      ((fits_83-none (length (c ∷ name)) 0).1 (p.not_empty, p.not_long))
is_supported_83_name_complete name (inr ([], ext, p, q, e)) = absurd (omega (arith, p.not_empty))
is_supported_83_name_complete name (inr (b ∷ base, ext, p, q, e)) =
    rw (e, allowed_dot b p.characters.0, scan_name-dotted (b ∷ base) ext p.characters q.characters)
      ((fits_83-one (length ((b ∷ base) ++ (b'.' ∷ ext))) (length (b ∷ base))).1 (
        p.not_empty,
        p.not_long,
        omega (arith, length-append (b ∷ base) (b'.' ∷ ext), q.not_empty),
        omega (arith, length-append (b ∷ base) (b'.' ∷ ext), q.not_long),
      ))

-- A name is accepted exactly if it has the form of a FAT name: one to eight characters, and perhaps
-- a dot and one to three more, all of them printable, upper case if they are letters, and none that
-- FAT reserves.
pub is_supported_83_name_iff : (name : List ℕ) → (is_supported_83_name name ≡ true) ↔ IsEight3 name
is_supported_83_name_iff name =
    (is_supported_83_name_sound name, is_supported_83_name_complete name)
