-- ===== src/Names/Wildcard.antt =====
-- The search patterns of romemul/sidetnfs_probe.c, against what a pattern means.
use side_tnfs_firmware.Prelude.{
  ℕ, zero, suc, ◌+◌, ◌*◌, ◌≤◌, ◌<◌, ◌≡◌, ◌≢◌, ◌⊎◌, inl, inr, refl, sym, Bool, true, false, Option,
  none, some, List, [], ◌∷◌, ◌==◌, if◌then◌else◌, length, arith, Bool-cases, All, subst,
}
use side_tnfs_firmware.Names.{
  toupper, fits, only_stars, wildcard_loop, rounds, wildcard_match_upper,
}

-- Somewhere in the string, and strictly behind its beginning.
abbrev pub Anywhere : (List ℕ → Type 0) → List ℕ → Type 0
Anywhere P [] = P []
Anywhere P (d ∷ s) = P (d ∷ s) ⊎ Anywhere P s

abbrev Later : (List ℕ → Type 0) → List ℕ → Type 0
Later P [] = ⊥
Later P (d ∷ s) = Anywhere P s

-- One character that fits, and then the rest.
abbrev pub One : ℕ → (List ℕ → Type 0) → List ℕ → Type 0
One c P [] = ⊥
One c P (d ∷ s) = (fits c d ≡ true) × P s

-- A star stands for any characters, a question mark for one, and any other character for itself,
-- in either case.
abbrev pub Matches : List ℕ → List ℕ → Type 0
Matches [] [] = Unit {0}
Matches [] (d ∷ s) = ⊥
Matches (c ∷ p) s = if c == b'*' then Anywhere (Matches p) s else One c (Matches p) s

abbrev pub Decides : Option Bool → Type 0 → Type 0
Decides answer P = ((answer ≡ some true) × P) ⊎ ((answer ≡ some false) × (¬ P))

pub Decides-iff :
    (answer : Option Bool) (P Q : Type 0) → (P → Q) → (Q → P) → Decides answer P → Decides answer Q
Decides-iff answer P Q to from (inl (e, p)) = inl (e, to p)
Decides-iff answer P Q to from (inr (e, p)) = inr (e, λ q. p (from q))

Anywhere-Later : (P : List ℕ → Type 0) (s : List ℕ) → Later P s → Anywhere P s
Anywhere-Later P [] l = absurd l
Anywhere-Later P (d ∷ s) l = inr l

Anywhere-here : (P : List ℕ → Type 0) (s : List ℕ) → P s → Anywhere P s
Anywhere-here P [] h = h
Anywhere-here P (d ∷ s) h = inl h

Anywhere-cases : (P : List ℕ → Type 0) (s : List ℕ) → Anywhere P s → P s ⊎ Later P s
Anywhere-cases P [] a = inl a
Anywhere-cases P (d ∷ s) a = a

-- Behind a place where one character fits.
Anywhere-One : (c : ℕ) (P : List ℕ → Type 0) (s : List ℕ) → Anywhere (One c P) s → Later P s
Anywhere-One c P [] a = a
Anywhere-One c P (d ∷ s) (inl h) = Anywhere-here P s h.1
Anywhere-One c P (d ∷ s) (inr a) = Anywhere-Later P s (Anywhere-One c P s a)

Anywhere-Anywhere : (P : List ℕ → Type 0) (s : List ℕ) → Anywhere (Anywhere P) s → Anywhere P s
Anywhere-Anywhere P [] a = a
Anywhere-Anywhere P (d ∷ s) (inl a) = a
Anywhere-Anywhere P (d ∷ s) (inr a) = inr (Anywhere-Anywhere P s a)

-- A star fits only a star.
fits-star : (d : ℕ) → fits b'*' d ≡ true → d ≡ b'*'
unfolding fits toupper
fits-star d h = ground arith

only_stars_lem : (p : List ℕ) → Decides (some (only_stars p)) (Matches p [])
unfolding only_stars
only_stars_lem [] = inl (refl, tt)
only_stars_lem (c ∷ p) = elim (Bool-cases (c == b'*')) [
  | inl e ↦ rw e (only_stars_lem p)
  | inr e ↦ rw e (inr (refl, λ h. h))
]

abbrev pub IsName : List ℕ → Type 0
IsName = All (λ d. d ≢ b'*')

Anywhere-map :
    (P Q : List ℕ → Type 0) (s : List ℕ) → ((t : List ℕ) → P t → Q t) → Anywhere P s → Anywhere Q s
Anywhere-map P Q [] f a = f [] a
Anywhere-map P Q (d ∷ s) f (inl a) = inl (f (d ∷ s) a)
Anywhere-map P Q (d ∷ s) f (inr a) = inr (Anywhere-map P Q s f a)

-- What a pattern's first character means.
module _ (c : ℕ) (p : List ℕ) where
  One-of : (s : List ℕ) → (c == b'*') ≡ false → Matches (c ∷ p) s → One c (Matches p) s
  One-of s e h = rw e at h

  of_One : (s : List ℕ) → (c == b'*') ≡ false → One c (Matches p) s → Matches (c ∷ p) s
  of_One s e h = rw e h

  star_of : (s : List ℕ) → (c == b'*') ≡ true → Matches (c ∷ p) s → Anywhere (Matches p) s
  star_of s e h = rw e at h

  of_star : (s : List ℕ) → (c == b'*') ≡ true → Anywhere (Matches p) s → Matches (c ∷ p) s
  of_star s e h = rw e h

  -- A character of a name fits no star.
  no_star : (d : ℕ) → d ≢ b'*' → fits c d ≡ true → (c == b'*') ≡ false
  no_star d n f = elim (Bool-cases (c == b'*')) [
    | inr e ↦ e
    | inl e ↦
        let star : c ≡ b'*' = ground arith in
        absurd (n (fits-star d (subst (λ k. fits k d ≡ true) star f)))
  ]

shorter : (a b k : ℕ) → a ≤ b → a * k ≤ b * k
shorter a b k h = grind arith

suc_mul : (a k : ℕ) → suc a * k ≡ a * k + k
suc_mul a k = omega arith

length-cons_mul : (d : ℕ) (s : List ℕ) (k : ℕ) → length (d ∷ s) * k ≡ length s * k + k
length-cons_mul d s k = suc_mul (length s) k

-- From a state of the loop behind a star: the attempt that is under way decides the one at its
-- beginning, and a later one that succeeds would succeed behind here.
wildcard_loop-star :
    (k n : ℕ) (sp ss p s : List ℕ)
    → IsName ss
    → IsName s
    → length s ≤ length ss
    → length p ≤ length sp
    → length ss + length sp < k
    → length ss * k + length s + length p < n
    → (Matches p s → Matches sp ss)
    → (Matches sp ss → Matches p s)
    → (Later (Matches sp) ss → Later (Matches p) s)
    → Decides (wildcard_loop n (some (sp, ss)) p s) (Anywhere (Matches sp) ss)
unfolding wildcard_loop
wildcard_loop-star k zero sp ss p s ns n hs hp hk hn a b l = absurd (omega arith)
wildcard_loop-star k (suc n) sp ss [] [] ns nm hs hp hk hn a b l =
    Decides-iff _ _ _ (λ h. Anywhere-here (Matches sp) ss (a h))
      (λ h. elim (Anywhere-cases (Matches sp) ss h) [ inl m ↦ b m | inr m ↦ absurd (l m) ])
      (only_stars_lem [])
wildcard_loop-star k (suc n) sp ss (c ∷ p) [] ns nm hs hp hk hn a b l =
    Decides-iff _ _ _ (λ h. Anywhere-here (Matches sp) ss (a h))
      (λ h. elim (Anywhere-cases (Matches sp) ss h) [ inl m ↦ b m | inr m ↦ absurd (l m) ])
      (only_stars_lem (c ∷ p))
wildcard_loop-star k (suc n) sp [] p (d ∷ s) ns nm hs hp hk hn a b l = absurd (omega arith)
wildcard_loop-star k (suc n) sp (x ∷ ss) [] (d ∷ s) ns nm hs hp hk hn a b l =
    Decides-iff _ _ _ (λ h. inr h) (elim [ inl h ↦ absurd (b h) | inr h ↦ h ])
      (wildcard_loop-star k n sp ss sp ss ns.1 ns.1 (omega arith) (omega arith) (omega arith)
        (omega arith) (λ h. h) (λ h. h) (λ h. h))
wildcard_loop-star k (suc n) sp (x ∷ ss) (c ∷ p) (d ∷ s) ns nm hs hp hk hn a b l =
    elim (Bool-cases (fits c d)) [
      | inl f ↦
          let e = no_star c p d nm.0 f in
          rw f (
            wildcard_loop-star k n sp (x ∷ ss) p s ns nm.1 (omega arith) (omega arith) (omega arith)
              (omega arith) (λ h. a (of_One c p (d ∷ s) e (f, h)))
              (λ h. (One-of c p (d ∷ s) e (b h)).1)
              (λ h. Anywhere-One c _ s (Anywhere-map _ _ s (λ t. One-of c p t e) (l h))))
      | inr f ↦ elim (Bool-cases (c == b'*')) [
        | inl e ↦
            rw (f, e)
              (Decides-iff _ _ _
                (λ h. Anywhere-here (Matches sp) (x ∷ ss) (a (of_star c p (d ∷ s) e h)))
                (elim [
                  | inl h ↦ star_of c p (d ∷ s) e (b h)
                  | inr h ↦ inr (
                      Anywhere-Anywhere (Matches p) s
                        (Anywhere-map _ _ s (λ t. star_of c p t e) (l h)))
                ])
                (wildcard_loop-star k n p (d ∷ s) p (d ∷ s) nm nm (omega arith) (omega arith)
                  (omega arith)
                  (omega (
                    arith,
                    shorter (length s) (length ss) k (omega arith),
                    length-cons_mul d s k,
                    length-cons_mul x ss k,
                  ))
                  (λ h. h) (λ h. h) (λ h. h)))
        | inr e ↦
            rw (f, e)
              (Decides-iff _ _ _ (λ h. inr h)
                (elim [ inl h ↦ absurd (cc (f, (One-of c p (d ∷ s) e (b h)).0)) | inr h ↦ h ])
                (wildcard_loop-star k n sp ss sp ss ns.1 ns.1 (omega arith) (omega arith)
                  (omega arith) (omega arith) (λ h. h) (λ h. h) (λ h. h)))
      ]
    ]

-- The same before any star was met.
wildcard_loop-none :
    (k n : ℕ) (p s : List ℕ)
    → IsName s
    → length s + length p < k
    → (length s + 1) * k + length s + length p < n
    → Decides (wildcard_loop n none p s) (Matches p s)
unfolding wildcard_loop
wildcard_loop-none k zero p s ns hk hn = absurd (omega arith)
wildcard_loop-none k (suc n) [] [] ns hk hn = only_stars_lem []
wildcard_loop-none k (suc n) (c ∷ p) [] ns hk hn = only_stars_lem (c ∷ p)
wildcard_loop-none k (suc n) [] (d ∷ s) ns hk hn = inr (refl, λ h. h)
wildcard_loop-none k (suc n) (c ∷ p) (d ∷ s) ns hk hn =
    let here = wildcard_loop (suc n) none (c ∷ p) (d ∷ s) in
    let M = Matches (c ∷ p) (d ∷ s) in
    elim (Bool-cases (fits c d)) [
      | inl f ↦
          let e = no_star c p d ns.0 f in
          let step : here ≡ wildcard_loop n none p s = rw f refl in
          subst (λ r. Decides r M) (sym step)
            (Decides-iff _ _ _ (λ h. of_One c p (d ∷ s) e (f, h)) (λ h. (One-of c p (d ∷ s) e h).1)
              (wildcard_loop-none k n p s ns.1 (omega arith) (omega arith)))
      | inr f ↦ elim (Bool-cases (c == b'*')) [
        | inl e ↦
            let step : here ≡ wildcard_loop n (some (p, d ∷ s)) p (d ∷ s) = rw (f, e) refl in
            subst (λ r. Decides r M) (sym step)
              (Decides-iff _ _ _ (of_star c p (d ∷ s) e) (star_of c p (d ∷ s) e) (
                wildcard_loop-star k n p (d ∷ s) p (d ∷ s) ns ns (omega arith) (omega arith)
                  (omega arith) (omega (arith, length-cons_mul d s k)) (λ h. h) (λ h. h) (λ h. h)))
        | inr e ↦
            let step : here ≡ some false = rw (f, e) refl in
            subst (λ r. Decides r M) (sym step)
              (inr (refl, λ h. cc (f, (One-of c p (d ∷ s) e h).0)))
      ]
    ]

-- The loop ends on every pattern and every name that holds no star, and answers whether the name
-- matches the pattern: a star stands for any characters, a question mark for one, and any other
-- character for itself in either case.
pub wildcard_match_upper-Decides :
    (p s : List ℕ) → IsName s → Decides (wildcard_match_upper p s) (Matches p s)
unfolding wildcard_match_upper
wildcard_match_upper-Decides p s ns =
    wildcard_loop-none (length s + length p + 1) (rounds p s) p s ns (omega arith) (omega arith)
