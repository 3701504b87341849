-- ===== src/Searches/Distinct.antt =====
-- What every operation on the searches of romemul/sidetnfs_probe.c leaves: one search for a DTA.
use side_tnfs_firmware.Prelude.{
  ℕ, zero, suc, ◌≡◌, inl, inr, refl, ◌∙◌, Bool, false, Option, none, some, List, [], ◌∷◌, ◌&&◌, not,
  if◌then◌else◌, length, length-set, get_or, arith, Bool-cases, same_text,
}
use side_tnfs_firmware.Searches.{
  DtaSearch, zeroed, Registry, Fsfirst, opendir, is_for, lookup_tnfs_dta, tnfs_dta_slots,
  insert_tnfs_dta, insert_slot, new_search, tick, release_at, release_tnfs_dta,
}
use side_tnfs_firmware.Searches.Commands.{
  find_next_match, is_found, is_exact, dta_start, next_at, dta_next, release_loop, release_all,
  release_by_path, Command, start_command, next_command, release_command, release_by_path_command,
  release_all_command, execute, execute_all,
}
use side_tnfs_firmware.Searches.Rounds.{Answer, search_rounds}
use side_tnfs_firmware.Searches.Find.{None, find_index-cases, find-None}
use side_tnfs_firmware.Searches.Lookup.{found_search, found_search-find, insert_slot-Place}
use side_tnfs_firmware.Searches.Unique.{
  Unique, First-NoneBut, Place-NoneBut, Unique-NoneBut, None-set, Unique-set,
}

-- Eight searches, each for another DTA.
pub record IsDistinct (r : Registry) : Type 0 where
  pub size : length r.searches ≡ tnfs_dta_slots
  pub unique : Unique r.searches

insert_tnfs_dta-IsDistinct :
    (q : Fsfirst) (dir_handle : ℕ) (r : Registry)
    → IsDistinct r
    → IsDistinct (insert_tnfs_dta q dir_handle r).1
unfolding insert_tnfs_dta new_search
insert_tnfs_dta-IsDistinct q dir_handle r d =
    let (i, log) = insert_slot (lookup_tnfs_dta q.ndta r.searches) r.searches r.log in
    let v = new_search q dir_handle (tick r.touch_counter) in
    let place = insert_slot-Place q.ndta r.searches r.log (omega (arith, d.size)) in
    record {
      size = length-set r.searches i v ∙ d.size;
      unique =
          Unique-set r.searches i v d.unique
            (λ a. Place-NoneBut q.ndta r.searches i place d.unique);
    }

find_next_match-IsDistinct :
    (answer : Answer) (i : ℕ) (r : Registry)
    → IsDistinct r
    → IsDistinct (find_next_match answer i r).1
unfolding find_next_match
find_next_match-IsDistinct answer i r d =
    let s = record (get_or r.searches i zeroed) { last_touched = tick r.touch_counter } in
    let v = record s { eof = (search_rounds answer s).1 } in
    record {
      size = length-set r.searches i v ∙ d.size;
      unique = Unique-set r.searches i v d.unique (Unique-NoneBut r.searches i d.unique);
    }

release_tnfs_dta-IsDistinct :
    (ndta : ℕ) (r : Registry) → IsDistinct r → IsDistinct (release_tnfs_dta ndta r)
unfolding release_tnfs_dta release_at lookup_tnfs_dta
release_tnfs_dta-IsDistinct ndta r d = elim (find_index-cases (is_for ndta) r.searches) [
  | inr (e, n) ↦ rw e d
  | inl (i, e, f) ↦
      let v = record (get_or r.searches i zeroed) { handle_valid = false; active = false } in
      rw e (record {
        size = length-set r.searches i v ∙ d.size;
        unique = Unique-set r.searches i v d.unique (λ a. absurd (ground (arith, a)));
      })
]

release_loop-IsDistinct :
    (test : DtaSearch → Bool) (n i : ℕ) (r : Registry)
    → IsDistinct r
    → IsDistinct (release_loop test n i r)
unfolding release_loop
release_loop-IsDistinct test zero i r d = d
release_loop-IsDistinct test (suc n) i r d =
    let s = get_or r.searches i zeroed in
    release_loop-IsDistinct test n (suc i) (if test s then release_tnfs_dta s.ndta r else r)
      (elim (Bool-cases (test s)) [
        | inl e ↦ rw e (release_tnfs_dta-IsDistinct s.ndta r d)
        | inr e ↦ rw e d
      ])

dta_start-IsDistinct :
    (answer : Answer) (q : Fsfirst) (opened : Option ℕ) (r : Registry)
    → IsDistinct r
    → IsDistinct (dta_start answer q opened r).1
unfolding dta_start
dta_start-IsDistinct answer q none r d = d
dta_start-IsDistinct answer q (some dir_handle) r d =
    let r' = record r { log = opendir q.runtime_slot dir_handle ∷ r.log } in
    let (i, inserted) = insert_tnfs_dta q dir_handle r' in
    let (result, searched) = find_next_match answer i inserted in
    let kept =
      find_next_match-IsDistinct answer i inserted (
        insert_tnfs_dta-IsDistinct q dir_handle r' (record { size = d.size; unique = d.unique })) in
    let released = release_tnfs_dta-IsDistinct q.ndta searched kept in
    elim (Bool-cases (not (is_found result))) [
      | inl e ↦ rw e released
      | inr e ↦ elim (Bool-cases (is_exact q.pattern)) [
        | inl k ↦ rw (e, k) released
        | inr k ↦ rw (e, k) kept
      ]
    ]

dta_next-IsDistinct :
    (answer : Answer) (ndta : ℕ) (r : Registry)
    → IsDistinct r
    → IsDistinct (dta_next answer ndta r).1
unfolding dta_next next_at lookup_tnfs_dta
dta_next-IsDistinct answer ndta r d = elim (find_index-cases (is_for ndta) r.searches) [
  | inr (e, n) ↦ rw e d
  | inl (i, e, f) ↦
      let (result, searched) = find_next_match answer i r in
      let kept = find_next_match-IsDistinct answer i r d in
      elim (Bool-cases (not (is_found result))) [
        | inl k ↦ rw (e, k) (release_tnfs_dta-IsDistinct ndta searched kept)
        | inr k ↦ rw (e, k) kept
      ]
]

execute-IsDistinct : (c : Command) (r : Registry) → IsDistinct r → IsDistinct (execute c r)
unfolding execute release_all release_by_path
execute-IsDistinct (start_command answer q opened) r d = dta_start-IsDistinct answer q opened r d
execute-IsDistinct (next_command answer ndta) r d = dta_next-IsDistinct answer ndta r d
execute-IsDistinct (release_command ndta) r d = release_tnfs_dta-IsDistinct ndta r d
execute-IsDistinct (release_by_path_command path) r d =
    release_loop-IsDistinct (λ s. s.active && same_text s.path path) tnfs_dta_slots 0 r d
execute-IsDistinct release_all_command r d =
    release_loop-IsDistinct (λ s. s.active) tnfs_dta_slots 0 r d

execute_all-IsDistinct :
    (cs : List Command) (r : Registry) → IsDistinct r → IsDistinct (execute_all cs r)
unfolding execute_all
execute_all-IsDistinct [] r d = d
execute_all-IsDistinct (c ∷ cs) r d =
    execute_all-IsDistinct cs (execute c r) (execute-IsDistinct c r d)

gone :
    (ndta : ℕ) (r : Registry) → IsDistinct r → None (is_for ndta) (release_tnfs_dta ndta r).searches
unfolding release_tnfs_dta release_at lookup_tnfs_dta
gone ndta r d = elim (find_index-cases (is_for ndta) r.searches) [
  | inr (e, n) ↦ rw e n
  | inl (i, e, f) ↦
      let v = record (get_or r.searches i zeroed) { handle_valid = false; active = false } in
      rw e (None-set ndta r.searches i v (First-NoneBut ndta r.searches i f d.unique) refl)
]

-- A search that is released is gone. If no DTA has two active searches in the table of eight, that is
-- so after any sequence of searches, continuations and releases; and when a DTA is released then, the
-- lookup finds no search for it.
pub execute_all_released :
    (cs : List Command) (ndta : ℕ) (r : Registry)
    → IsDistinct r
    → IsDistinct (execute_all cs r)
      × (found_search ndta (release_tnfs_dta ndta (execute_all cs r)).searches ≡ none)
execute_all_released cs ndta r d =
    let after = execute_all-IsDistinct cs r d in
    let left = (release_tnfs_dta ndta (execute_all cs r)).searches in
    (
      after,
      found_search-find ndta left
          ∙ find-None (is_for ndta) left (gone ndta (execute_all cs r) after),
    )
