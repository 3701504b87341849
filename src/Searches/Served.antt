-- ===== src/Searches/Served.antt =====
-- Which entry the rounds of READDIRX in romemul/sidetnfs_probe.c find.
use side_tnfs_firmware.Prelude.{
  ℕ, zero, suc, ◌+◌, ◌≤◌, ◌<◌, ◌≡◌, ◌⊎◌, inl, inr, refl, ap, ◌∙◌, subst, Bool, true, false, not,
  none, some, if◌then◌else◌, ◌==◌, arith, Bool-cases,
}
use side_tnfs_firmware.Names.Entry.{AtariDirEntry}
use side_tnfs_firmware.Searches.{DtaSearch}
use side_tnfs_firmware.Searches.Rounds.{
  SearchResult, dir_search_found, dir_search_error, Reply, unanswered, replied, Answer, tnfs_ok,
  tnfs_eof, max_rounds, fits_search, take_reply, rounds_loop, search_rounds,
}

-- An answer that the rounds pass over: no entry, or one that does not fit, and not the end.
abbrev pub IsPassed : DtaSearch → Reply → Type 0
IsPassed s unanswered = ⊥
IsPassed s (replied rc none) = rc ≡ tnfs_ok
IsPassed s (replied rc (some entry)) = (rc ≡ tnfs_ok) × (fits_search s entry ≡ false)

-- The entry is what the round got, and fits the search.
pub record IsServed (readdirx : ℕ → Reply) (s : DtaSearch) (round : ℕ) (entry : AtariDirEntry)
    : Type 0 where
  pub code : ℕ
  pub got : readdirx round ≡ replied code (some entry)
  pub fitting : fits_search s entry ≡ true

found-entry : (a b : AtariDirEntry) → dir_search_found a ≡ dir_search_found b → a ≡ b
found-entry a b h = cc

-- The code is the one of two that the answer was taken for.
by_code :
    (b c : Bool) (x y : SearchResult × Bool) (entry : AtariDirEntry)
    → (if b then x else if c then y else (dir_search_error, false)).0 ≡ dir_search_found entry
    → ((b ≡ true) × (x.0 ≡ dir_search_found entry)) ⊎ (y.0 ≡ dir_search_found entry)
by_code true c x y entry h = inl (refl, h)
by_code false true x y entry h = inr h
by_code false false x y entry h = absurd (ground (arith, h))

by_fit :
    (b eof : Bool) (found entry : AtariDirEntry) (rest : SearchResult × Bool)
    → (if b then (dir_search_found found, eof) else rest).0 ≡ dir_search_found entry
    → ((b ≡ true) × (found ≡ entry)) ⊎ ((b ≡ false) × (rest.0 ≡ dir_search_found entry))
by_fit true eof found entry rest h = inl (refl, found-entry found entry h)
by_fit false eof found entry rest h = inr (refl, h)

module _ (readdirx : ℕ → Reply) (s : DtaSearch) (entry : AtariDirEntry) where
  Outcome : ℕ → Reply → SearchResult × Bool → SearchResult × Bool → Type 0
  Outcome i reply rest rest_eof =
      IsServed readdirx s i entry
      ⊎ ((IsPassed s reply × (rest.0 ≡ dir_search_found entry))
          ⊎ (rest_eof.0 ≡ dir_search_found entry))

  served :
      (i rc : ℕ) (found : AtariDirEntry)
      → readdirx i ≡ replied rc (some found)
      → (fits_search s found ≡ true) × (found ≡ entry)
      → IsServed readdirx s i entry
  served i rc found e (f, same) = record {
    code = rc;
    got = e ∙ ap (λ r. replied rc (some r)) same;
    fitting = subst (λ r. fits_search s r ≡ true) same f;
  }

  reply_found :
      (i : ℕ) (reply : Reply) (rest rest_eof : SearchResult × Bool)
      → readdirx i ≡ reply
      → (take_reply s reply rest rest_eof).0 ≡ dir_search_found entry
      → Outcome i reply rest rest_eof
  unfolding take_reply Outcome
  reply_found i unanswered rest rest_eof e h = absurd (ground (arith, h))
  reply_found i (replied rc none) rest rest_eof e h =
      elim (by_code (rc == tnfs_ok) (rc == tnfs_eof) rest rest_eof entry h) [
        | inl (b, k) ↦ inr (inl (ground (arith, b), k))
        | inr k ↦ inr (inr k)
      ]
  reply_found i (replied rc (some found)) rest rest_eof e h =
      let fit = fits_search s found in
      elim (by_code (rc == tnfs_ok) (rc == tnfs_eof)
        (if fit then (dir_search_found found, false) else rest)
        (if fit then (dir_search_found found, true) else rest_eof) entry h) [
          | inl (b, k) ↦ elim (by_fit fit false found entry rest k) [
            | inl f ↦ inl (served i rc found e f)
            | inr (f, l) ↦ inr (inl ((ground (arith, b), f), l))
          ]
          | inr k ↦ elim (by_fit fit true found entry rest_eof k) [
            | inl f ↦ inl (served i rc found e f)
            | inr (f, l) ↦ inr (inr l)
          ]
        ]

  no_entry_behind : (n i : ℕ) → (rounds_loop readdirx s n i true).0 ≡ dir_search_found entry → ⊥
  unfolding rounds_loop
  no_entry_behind zero i h = ground (arith, h)
  no_entry_behind (suc n) i h = ground (arith, h)

  -- The round that served the entry, and those before it.
  abbrev ServedIn : ℕ → ℕ → Type 0
  ServedIn n i =
      (round : ℕ) × (i ≤ round)
      × (round < i + n)
      × IsServed readdirx s round entry
      × ((k : ℕ) → i ≤ k → k < round → IsPassed s (readdirx k))

  first_round :
      (i round : ℕ)
      → IsPassed s (readdirx i)
      → ((k : ℕ) → suc i ≤ k → k < round → IsPassed s (readdirx k))
      → (k : ℕ) → i ≤ k
      → k < round
      → IsPassed s (readdirx k)
  first_round i round p h k a b = elim (Bool-cases (i == k)) [
    | inl e ↦ subst (λ j. IsPassed s (readdirx j)) (ground (arith, e)) p
    | inr e ↦ h k (ground (arith, a, e)) b
  ]

  rounds_loop-served :
      (n i : ℕ) → (rounds_loop readdirx s n i false).0 ≡ dir_search_found entry → ServedIn n i
  unfolding rounds_loop Outcome
  rounds_loop-served zero i h = absurd (ground (arith, h))
  rounds_loop-served (suc n) i h =
      elim (reply_found i (readdirx i) (rounds_loop readdirx s n (suc i) false)
        (rounds_loop readdirx s n (suc i) true) refl h) [
          | inl f ↦ (i, omega arith, omega arith, f, λ k a b. absurd (omega (arith, a, b)))
          | inr (inl (p, k)) ↦
              let (round, low, high, f, before) = rounds_loop-served n (suc i) k in
              (round, omega (arith, low), omega (arith, high), f, first_round i round p before)
          | inr (inr k) ↦ absurd (no_entry_behind n (suc i) k)
        ]

  started :
      (context eof : Bool)
      → (if not context then (dir_search_error, eof) else rounds_loop readdirx s max_rounds 0 eof).0
        ≡ dir_search_found entry
      → ServedIn max_rounds 0
  started false eof h = absurd (ground (arith, h))
  started true true h = absurd (no_entry_behind max_rounds 0 h)
  started true false h = rounds_loop-served max_rounds 0 h

-- The entry that a search finds is the next one that fits: a round before the limit got it, it fits
-- the pattern and the attributes of the search, and every round before that got an answer without an
-- entry or with one that does not fit.
pub search_rounds-IsServed :
    (answer : Answer) (s : DtaSearch) (entry : AtariDirEntry)
    → (search_rounds answer s).0 ≡ dir_search_found entry
    → (round : ℕ) × (round < max_rounds)
      × IsServed answer.readdirx s round entry
      × ((k : ℕ) → k < round → IsPassed s (answer.readdirx k))
unfolding search_rounds
search_rounds-IsServed answer s entry h =
    let (round, low, high, served, before) =
      started answer.readdirx s entry answer.slot_context s.eof h in
    (round, omega (arith, high), served, λ k b. before k (omega arith) b)
