-- ===== src/Searches/Find.antt =====
-- The loops over the table of searches of romemul/sidetnfs_probe.c.
use side_tnfs_firmware.Prelude.{
  ℕ, zero, suc, ◌+◌, ◌≤◌, ◌<◌, ◌≡◌, ◌⊎◌, inl, inr, refl, sym, ap, Bool, true, false, Option, none,
  some, List, [], ◌∷◌, ltb, if◌then◌else◌, length, get_or, set, arith, Bool-cases, All, subst,
}
use side_tnfs_firmware.Searches.{
  DtaSearch, zeroed, next_index, find_index, victim_loop, victim_index,
}

-- The first search of a kind stands at the index.
pub data First (test : DtaSearch → Bool) : List DtaSearch → ℕ → Type 0 where
  at_head : {s : DtaSearch} {xs : List DtaSearch} → test s ≡ true → First test (s ∷ xs) 0
  behind :
      {s : DtaSearch} {xs : List DtaSearch} {i : ℕ}
      → test s ≡ false
      → First test xs i
      → First test (s ∷ xs) (suc i)

-- The search itself.
abbrev pub find : (DtaSearch → Bool) → List DtaSearch → Option DtaSearch
find test [] = none
find test (s ∷ xs) = if test s then some s else find test xs

here :
    (s : DtaSearch) (rest : Option DtaSearch) (e : DtaSearch) (b : Bool)
    → b ≡ true
    → (if b then some s else rest) ≡ some e
    → s ≡ e
here s rest e true t k = ground (arith, k)
here s rest e false t k = absurd (ground (arith, t))

skip :
    (s : DtaSearch) (rest : Option DtaSearch) (e : DtaSearch) (b : Bool)
    → b ≡ false
    → (if b then some s else rest) ≡ some e
    → rest ≡ some e
skip s rest e true t k = absurd (ground (arith, t))
skip s rest e false t k = k

module _ (test : DtaSearch → Bool) where
  abbrev pub None : List DtaSearch → Type 0
  None xs = All (λ s. test s ≡ false) xs

  pub find_index-cases :
      (xs : List DtaSearch)
      → ((i : ℕ) × (find_index test xs ≡ some i) × First test xs i)
        ⊎ ((find_index test xs ≡ none) × None xs)
  unfolding find_index next_index
  find_index-cases [] = inr (refl, tt)
  find_index-cases (s ∷ xs) = elim (Bool-cases (test s)) [
    | inl e ↦ inl (0, rw e refl, at_head e)
    | inr e ↦ elim (find_index-cases xs) [
      | inl (i, k, f) ↦ inl (suc i, rw (e, k) refl, behind e f)
      | inr (k, f) ↦ inr (rw (e, k) refl, (e, f))
    ]
  ]

  pub First-lt : (xs : List DtaSearch) (i : ℕ) → First test xs i → i < length xs
  First-lt [] i f = elim f [ ]
  First-lt (s ∷ xs) zero (at_head e) = omega arith
  First-lt (s ∷ xs) (suc i) (behind e f) = omega (arith, First-lt xs i f)

  pub First-get_or :
      (xs : List DtaSearch) (i : ℕ) → First test xs i → test (get_or xs i zeroed) ≡ true
  First-get_or [] i f = elim f [ ]
  First-get_or (s ∷ xs) zero (at_head e) = e
  First-get_or (s ∷ xs) (suc i) (behind e f) = First-get_or xs i f

  pub find-First :
      (xs : List DtaSearch) (i : ℕ) → First test xs i → find test xs ≡ some (get_or xs i zeroed)
  find-First [] i f = elim f [ ]
  find-First (s ∷ xs) zero (at_head e) = rw e refl
  find-First (s ∷ xs) (suc i) (behind e f) = rw e (find-First xs i f)

  pub find-None : (xs : List DtaSearch) → None xs → find test xs ≡ none
  find-None [] h = refl
  find-None (s ∷ xs) h = rw h.0 (find-None xs h.1)

  pub find-some : (xs : List DtaSearch) (e : DtaSearch) → find test xs ≡ some e → test e ≡ true
  find-some [] e h = absurd (ground (arith, h))
  find-some (s ∷ xs) e h = elim (Bool-cases (test s)) [
    | inl t ↦ subst (λ r. test r ≡ true) (here s (find test xs) e (test s) t h) t
    | inr t ↦ find-some xs e (skip s (find test xs) e (test s) t h)
  ]

  -- A search of the kind is found where it is put, if none stands before.
  pub find-set-First :
      (xs : List DtaSearch) (i : ℕ) (v : DtaSearch)
      → First test xs i
      → test v ≡ true
      → find test (set xs i v) ≡ some v
  find-set-First [] i v f h = elim f [ ]
  find-set-First (s ∷ xs) zero v (at_head e) h = rw h refl
  find-set-First (s ∷ xs) (suc i) v (behind e f) h = rw e (find-set-First xs i v f h)

  pub find-set-None :
      (xs : List DtaSearch) (i : ℕ) (v : DtaSearch)
      → None xs
      → i < length xs
      → test v ≡ true
      → find test (set xs i v) ≡ some v
  find-set-None [] i v n k h = absurd (ground (arith, k))
  find-set-None (s ∷ xs) zero v n k h = rw h refl
  find-set-None (s ∷ xs) (suc i) v n k h = rw n.0 (find-set-None xs i v n.1 (omega (arith, k)) h)

  -- Another search that is put somewhere hides what it replaces only.
  pub find-set_other :
      (xs : List DtaSearch) (i : ℕ) (v e : DtaSearch)
      → test v ≡ false
      → find test xs ≡ some e
      → (find test (set xs i v) ≡ some e) ⊎ (get_or xs i zeroed ≡ e)
  find-set_other [] i v e h k = inl k
  find-set_other (s ∷ xs) zero v e h k = elim (Bool-cases (test s)) [
    | inl t ↦ inr (here s (find test xs) e (test s) t k)
    | inr t ↦ inl (rw h (skip s (find test xs) e (test s) t k))
  ]
  find-set_other (s ∷ xs) (suc i) v e h k = elim (Bool-cases (test s)) [
    | inl t ↦ inl (rw t (ap some (here s (find test xs) e (test s) t k)))
    | inr t ↦ rw t (find-set_other xs i v e h (skip s (find test xs) e (test s) t k))
  ]

-- The victim of those at the indices from `i` on and of the victim so far.
victim_loop_lem :
    (i victim least : ℕ) (xs : List DtaSearch)
    → ((victim_loop i victim least xs ≡ victim) × All (λ t. least ≤ t.last_touched) xs)
      ⊎ ((j : ℕ) × (victim_loop i victim least xs ≡ i + j)
          × (j < length xs)
          × ((get_or xs j zeroed).last_touched < least)
          × All (λ t. (get_or xs j zeroed).last_touched ≤ t.last_touched) xs)
unfolding victim_loop
victim_loop_lem i victim least [] = inl (refl, tt)
victim_loop_lem i victim least (s ∷ xs) = elim (Bool-cases (ltb s.last_touched least)) [
  | inl e ↦ rw e (elim (victim_loop_lem (suc i) i s.last_touched xs) [
    | inl (k, h) ↦ inr (0, omega (arith, k), omega arith, ground arith, (omega arith, h))
    | inr (j, k, l, m, h) ↦
        inr (suc j, omega (arith, k), omega (arith, l), ground (arith, e, m), (omega (arith, m), h))
  ])
  | inr e ↦ rw e (elim (victim_loop_lem (suc i) victim least xs) [
    | inl (k, h) ↦ inl (k, (ground (arith, e), h))
    | inr (j, k, l, m, h) ↦
        inr (suc j, omega (arith, k), omega (arith, l), m, (ground (arith, e, m), h))
  ])
]

-- The search at an index is the one that was not touched for the longest time.
abbrev pub IsOldest : List DtaSearch → ℕ → Type 0
IsOldest xs k = (k < length xs) × All (λ t. (get_or xs k zeroed).last_touched ≤ t.last_touched) xs

pub victim_index-IsOldest : (xs : List DtaSearch) → 0 < length xs → IsOldest xs (victim_index xs)
unfolding victim_index
victim_index-IsOldest [] h = absurd (ground (arith, h))
victim_index-IsOldest (s ∷ xs) h = elim (victim_loop_lem 1 0 s.last_touched xs) [
  | inl (k, a) ↦ subst (IsOldest (s ∷ xs)) (sym k) (omega arith, (omega arith, a))
  | inr (j, k, l, m, a) ↦
      let e : suc j ≡ victim_loop 1 0 s.last_touched xs = omega (arith, k) in
      subst (IsOldest (s ∷ xs)) e (omega (arith, l), (omega (arith, m), a))
]
