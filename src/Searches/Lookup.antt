-- ===== src/Searches/Lookup.antt =====
-- Which searches are found in the table of romemul/sidetnfs_probe.c.
use side_tnfs_firmware.Prelude.{
  ℕ, ◌≤◌, ◌<◌, ◌≡◌, ◌≢◌, ◌⊎◌, inl, inr, sym, ◌∙◌, true, false, Option, some, List, [], ◌∷◌, not,
  length, get_or, set, arith, All, subst, ◌>>=◌,
}
use side_tnfs_firmware.Searches.{
  DtaSearch, zeroed, Registry, Fsfirst, DirCall, is_for, lookup_tnfs_dta, tnfs_dta_slots,
  insert_tnfs_dta, insert_slot, alloc_tnfs_dta_slot, new_search, tick,
}
use side_tnfs_firmware.Searches.Find.{
  First, find, None, find_index-cases, First-lt, First-get_or, find-First, find-some, find-None,
  find-set-First, find-set-None, find-set_other, IsOldest, victim_index-IsOldest,
}

-- What `lookupTnfsDTA` points to.
abbrev pub found_search : ℕ → List DtaSearch → Option DtaSearch
found_search ndta xs = lookup_tnfs_dta ndta xs >>= λ i. some (get_or xs i zeroed)

pub found_search-find :
    (ndta : ℕ) (xs : List DtaSearch) → found_search ndta xs ≡ find (is_for ndta) xs
unfolding lookup_tnfs_dta
found_search-find ndta xs = elim (find_index-cases (is_for ndta) xs) [
  | inl (i, e, f) ↦ rw e (sym (find-First (is_for ndta) xs i f))
  | inr (e, n) ↦ rw e (sym (find-None (is_for ndta) xs n))
]

-- A search that is not active is for no DTA.
free_other : (ndta : ℕ) (s : DtaSearch) → not s.active ≡ true → is_for ndta s ≡ false
free_other ndta s h = ground arith

-- Where a search is put: over the one of the same DTA, over one that is not active, or else over the
-- oldest of eight that are.
pub data Place (ndta : ℕ) (xs : List DtaSearch) (i : ℕ) : Type 0 where
  replaced : First (is_for ndta) xs i → Place ndta xs i
  free :
      None (is_for ndta) xs → i < length xs → (get_or xs i zeroed).active ≡ false → Place ndta xs i
  evicted : None (is_for ndta) xs → All (λ s. s.active ≡ true) xs → IsOldest xs i → Place ndta xs i

All-not : (xs : List DtaSearch) → None (λ s. not s.active) xs → All (λ s. s.active ≡ true) xs
All-not [] h = tt
All-not (s ∷ xs) h = (ground (arith, h.0), All-not xs h.1)

pub insert_slot-Place :
    (ndta : ℕ) (xs : List DtaSearch) (log : List DirCall)
    → 0 < length xs
    → Place ndta xs (insert_slot (lookup_tnfs_dta ndta xs) xs log).0
unfolding insert_slot lookup_tnfs_dta alloc_tnfs_dta_slot
insert_slot-Place ndta xs log h = elim (find_index-cases (is_for ndta) xs) [
  | inl (i, e, f) ↦ rw e (replaced f)
  | inr (e, n) ↦ elim (find_index-cases (λ s. not s.active) xs) [
    | inl (i, k, f) ↦
        rw (e, k)
          (free n (First-lt (λ s. not s.active) xs i f)
            (ground (arith, First-get_or (λ s. not s.active) xs i f)))
    | inr (k, m) ↦ rw (e, k) (evicted n (All-not xs m) (victim_index-IsOldest xs h))
  ]
]

set-found :
    (ndta : ℕ) (xs : List DtaSearch) (i : ℕ) (v : DtaSearch)
    → Place ndta xs i
    → is_for ndta v ≡ true
    → find (is_for ndta) (set xs i v) ≡ some v
set-found ndta xs i v (replaced f) h = find-set-First (is_for ndta) xs i v f h
set-found ndta xs i v (free n l a) h = find-set-None (is_for ndta) xs i v n l h
set-found ndta xs i v (evicted n a (l, o)) h = find-set-None (is_for ndta) xs i v n l h

-- Once a search is put into the table, the lookup of its DTA finds it, with the directory handle that
-- was opened for it.
pub insert_tnfs_dta-found :
    (q : Fsfirst) (dir_handle : ℕ) (r : Registry)
    → length r.searches ≡ tnfs_dta_slots
    → found_search q.ndta (insert_tnfs_dta q dir_handle r).1.searches
      ≡ some (new_search q dir_handle (tick r.touch_counter))
unfolding insert_tnfs_dta new_search
insert_tnfs_dta-found q dir_handle r h =
    let i = (insert_slot (lookup_tnfs_dta q.ndta r.searches) r.searches r.log).0 in
    let v = new_search q dir_handle (tick r.touch_counter) in
    found_search-find q.ndta (set r.searches i v)
    ∙ set-found q.ndta r.searches i v (insert_slot-Place q.ndta r.searches r.log (omega (arith, h)))
        (ground arith)

-- What is lost is the oldest of the table.
abbrev IsLost : ℕ → List DtaSearch → DtaSearch → Type 0
IsLost ndta xs e =
    None (is_for ndta) xs
    × All (λ s. s.active ≡ true) xs
    × All (λ t. e.last_touched ≤ t.last_touched) xs

pub is_for-ndta : (ndta : ℕ) (s : DtaSearch) → is_for ndta s ≡ true → s.ndta ≡ ndta
is_for-ndta ndta s h = ground (arith, h)

inactive-is_for : (ndta : ℕ) (s : DtaSearch) → is_for ndta s ≡ true → s.active ≢ false
inactive-is_for ndta s h = λ k. ground (arith, h, k)

set-keeps :
    (ndta other : ℕ) (xs : List DtaSearch) (i : ℕ) (v e : DtaSearch)
    → Place ndta xs i
    → is_for other v ≡ false
    → other ≢ ndta
    → find (is_for other) xs ≡ some e
    → is_for other e ≡ true
    → (find (is_for other) (set xs i v) ≡ some e) ⊎ IsLost ndta xs e
set-keeps ndta other xs i v e p h n k a = elim (find-set_other (is_for other) xs i v e h k) [
  | inl g ↦ inl g
  | inr g ↦ elim p [
    | replaced f ↦ absurd (
        n (
          sym (is_for-ndta other e a)
          ∙ is_for-ndta ndta e
              (subst (λ s. is_for ndta s ≡ true) g (First-get_or (is_for ndta) xs i f))))
    | free m l b ↦ absurd (inactive-is_for other e a (subst (λ s. s.active ≡ false) g b))
    | evicted m b (l, o) ↦
        inr (m, b, subst (λ s. All (λ t. s.last_touched ≤ t.last_touched) xs) g o)
  ]
]

-- Putting a search into the table keeps the searches of the other DTAs, but for one: if all eight are
-- active and none is for the DTA, the search that was not touched for the longest time is lost.
pub insert_tnfs_dta-keeps :
    (q : Fsfirst) (dir_handle : ℕ) (r : Registry) (other : ℕ) (e : DtaSearch)
    → length r.searches ≡ tnfs_dta_slots
    → other ≢ q.ndta
    → found_search other r.searches ≡ some e
    → (found_search other (insert_tnfs_dta q dir_handle r).1.searches ≡ some e)
      ⊎ (All (λ s. is_for q.ndta s ≡ false) r.searches
          × All (λ s. s.active ≡ true) r.searches
          × All (λ t. e.last_touched ≤ t.last_touched) r.searches)
unfolding insert_tnfs_dta new_search
insert_tnfs_dta-keeps q dir_handle r other e h n k =
    let i = (insert_slot (lookup_tnfs_dta q.ndta r.searches) r.searches r.log).0 in
    let v = new_search q dir_handle (tick r.touch_counter) in
    let before = sym (found_search-find other r.searches) ∙ k in
    elim (set-keeps q.ndta other r.searches i v e
      (insert_slot-Place q.ndta r.searches r.log (omega (arith, h))) (ground (arith, n)) n before
      (find-some (is_for other) r.searches e before)) [
        | inl kept ↦ inl (found_search-find other (set r.searches i v) ∙ kept)
        | inr lost ↦ inr lost
      ]
