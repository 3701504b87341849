-- ===== src/Searches/Handles.antt =====
-- The directory handles of romemul/sidetnfs_probe.c: which the table keeps, and who closes them.
use side_tnfs_firmware.Prelude.{
  ℕ, zero, suc, ◌+◌, ◌<◌, ◌≡◌, inl, inr, refl, true, List, [], ◌∷◌, ◌==◌, ◌&&◌, not, if◌then◌else◌,
  length, get_or, set, arith, Bool-cases, All,
}
use side_tnfs_firmware.Searches.{
  DtaSearch, zeroed, victim_index, Registry, DirCall, opendir, closedir, is_for, lookup_tnfs_dta,
  tnfs_dta_slots, insert_slot, alloc_tnfs_dta_slot, close_handle,
}
use side_tnfs_firmware.Searches.Find.{
  find_index-cases, First-lt, First-get_or, victim_index-IsOldest,
}

-- How often a handle of a runtime slot was opened and closed.
abbrev pub same : ℕ → ℕ → ℕ → ℕ → ℕ
same slot handle slot' handle' = if (slot == slot') && (handle == handle') then 1 else 0

abbrev pub opened_count : ℕ → ℕ → List DirCall → ℕ
opened_count slot handle [] = 0
opened_count slot handle (opendir s h ∷ log) = same slot handle s h + opened_count slot handle log
opened_count slot handle (closedir s h ∷ log) = opened_count slot handle log

abbrev pub closed_count : ℕ → ℕ → List DirCall → ℕ
closed_count slot handle [] = 0
closed_count slot handle (opendir s h ∷ log) = closed_count slot handle log
closed_count slot handle (closedir s h ∷ log) = same slot handle s h + closed_count slot handle log

-- How often a search, and the table, keeps it.
abbrev pub kept : ℕ → ℕ → DtaSearch → ℕ
kept slot handle s = if s.handle_valid then same slot handle s.runtime_slot s.dir_handle else 0

abbrev pub kept_by : ℕ → ℕ → List DtaSearch → ℕ
kept_by slot handle [] = 0
kept_by slot handle (s ∷ xs) = kept slot handle s + kept_by slot handle xs

-- The handle of a search is valid only while the search is active.
abbrev pub IsActive : DtaSearch → Type 0
IsActive s = s.handle_valid ≡ true → s.active ≡ true

-- Eight searches, and every handle that was opened was closed since, or is kept by one of them.
pub record IsAccounted (r : Registry) : Type 0 where
  pub size : length r.searches ≡ tnfs_dta_slots
  pub valid : All IsActive r.searches
  pub balance :
      (slot handle : ℕ)
      → opened_count slot handle r.log
        ≡ closed_count slot handle r.log + kept_by slot handle r.searches

module _ (slot handle : ℕ) where
  pub opened_count-close_handle :
      (s : DtaSearch) (log : List DirCall)
      → opened_count slot handle (close_handle s log) ≡ opened_count slot handle log
  unfolding close_handle
  opened_count-close_handle s log = elim (Bool-cases s.handle_valid) [
    | inl e ↦ rw e refl
    | inr e ↦ rw e refl
  ]

  pub closed_count-close_handle :
      (s : DtaSearch) (log : List DirCall)
      → closed_count slot handle (close_handle s log)
        ≡ closed_count slot handle log + kept slot handle s
  unfolding close_handle
  closed_count-close_handle s log = elim (Bool-cases s.handle_valid) [
    | inl e ↦ rw e (omega arith)
    | inr e ↦ rw e (omega arith)
  ]

  pub kept_by-set :
      (xs : List DtaSearch) (i : ℕ) (v : DtaSearch)
      → i < length xs
      → kept_by slot handle (set xs i v) + kept slot handle (get_or xs i zeroed)
        ≡ kept_by slot handle xs + kept slot handle v
  kept_by-set [] i v h = absurd (ground (arith, h))
  kept_by-set (s ∷ xs) zero v h = omega arith
  kept_by-set (s ∷ xs) (suc i) v h = omega (arith, kept_by-set xs i v (omega (arith, h)))

pub All-set :
    (xs : List DtaSearch) (i : ℕ) (v : DtaSearch)
    → All IsActive xs
    → IsActive v
    → All IsActive (set xs i v)
All-set [] i v h a = h
All-set (s ∷ xs) zero v h a = (a, h.1)
All-set (s ∷ xs) (suc i) v h a = (h.0, All-set xs i v h.1 a)

pub All-get_or : (xs : List DtaSearch) (i : ℕ) → All IsActive xs → IsActive (get_or xs i zeroed)
All-get_or [] i h = λ e. ground (arith, e)
All-get_or (s ∷ xs) zero h = h.0
All-get_or (s ∷ xs) (suc i) h = All-get_or xs i h.1

kept_free :
    (slot handle : ℕ) (s : DtaSearch) → not s.active ≡ true → IsActive s → kept slot handle s ≡ 0
kept_free slot handle s h a = elim (Bool-cases s.handle_valid) [
  | inl e ↦ absurd (ground (arith, h, a e))
  | inr e ↦ rw e refl
]

-- The calls from one log to another close what the place in the table keeps.
pub record IsCleared (xs : List DtaSearch) (log : List DirCall) (i : ℕ) (log' : List DirCall)
    : Type 0 where
  pub bound : i < length xs
  pub no_opening : (slot handle : ℕ) → opened_count slot handle log' ≡ opened_count slot handle log
  pub closing :
      (slot handle : ℕ)
      → closed_count slot handle log'
        ≡ closed_count slot handle log + kept slot handle (get_or xs i zeroed)

pub close_handle-IsCleared :
    (xs : List DtaSearch) (log : List DirCall) (i : ℕ)
    → i < length xs
    → IsCleared xs log i (close_handle (get_or xs i zeroed) log)
close_handle-IsCleared xs log i h = record {
  bound = h;
  no_opening = λ slot handle. opened_count-close_handle slot handle (get_or xs i zeroed) log;
  closing = λ slot handle. closed_count-close_handle slot handle (get_or xs i zeroed) log;
}

pub insert_slot-IsCleared :
    (ndta : ℕ) (xs : List DtaSearch) (log : List DirCall)
    → 0 < length xs
    → All IsActive xs
    → let (i, log') = insert_slot (lookup_tnfs_dta ndta xs) xs log in IsCleared xs log i log'
unfolding insert_slot lookup_tnfs_dta alloc_tnfs_dta_slot
insert_slot-IsCleared ndta xs log h a = elim (find_index-cases (is_for ndta) xs) [
  | inl (i, e, f) ↦ rw e (close_handle-IsCleared xs log i (First-lt (is_for ndta) xs i f))
  | inr (e, n) ↦ elim (find_index-cases (λ s. not s.active) xs) [
    | inl (i, k, f) ↦
        rw (e, k)
          (record {
            bound = First-lt (λ s. not s.active) xs i f;
            no_opening = λ slot handle. refl;
            closing = λ slot handle. omega (
              arith,
              kept_free slot handle (get_or xs i zeroed) (First-get_or (λ s. not s.active) xs i f)
                  (All-get_or xs i a),
            );
          })
    | inr (k, m) ↦
        rw (e, k) (close_handle-IsCleared xs log (victim_index xs) (victim_index-IsOldest xs h).0)
  ]
]
