-- ===== src/Browse/Kept.antt =====
-- romemul/sidetnfs_floppy_browse.c: the rounds keep the request, and can be split.
use side_tnfs_firmware.Prelude.{
  ℕ, ◌≡◌, refl, sym, ap, ◌∙◌, inl, inr, true, false, not, Bool-cases, List, [], ◌∷◌, ◌++◌, ltb,
  if◌then◌else◌, length, arith,
}
use side_tnfs_firmware.Browse.{
  page_entries, max_total_rounds, DirOpen, dir_ok, dir_not_found, dir_access_denied,
  dir_path_too_long, dir_error, Slot, RawReply, failed, end_of_directory, raw_entry, Answer, Walk,
  Progress, going, complete, broken, unopened, phase_skip, take_entry, same_kind, take_reply,
  read_round, open_round, take_round, is_going, take_rounds,
}

-- The walk of a request.
abbrev pub IsStarted : ℕ → ℕ → Walk → Type 0
IsStarted generation page_index w =
    (w.active ≡ true) × (w.generation ≡ generation) × (w.page_index ≡ page_index)

-- A loop that goes on leaves a walk of the same request.
abbrev pub IsKept : ℕ → ℕ → Progress × Walk → Type 0
IsKept generation page_index (going, w) = IsStarted generation page_index w
IsKept generation page_index (complete more, w) = Unit
IsKept generation page_index (broken, w) = Unit
IsKept generation page_index (unopened r, w) = Unit

module _ (generation page_index skip : ℕ) where
  take_entry-IsKept :
      (e : Slot) (w : Walk)
      → IsStarted generation page_index w
      → IsKept generation page_index (take_entry skip e w)
  unfolding take_entry
  take_entry-IsKept e w h = elim (Bool-cases (ltb w.matched (phase_skip skip w))) [
    | inl a ↦ rw a h
    | inr a ↦ elim (Bool-cases (ltb (length w.page) page_entries)) [
      | inl c ↦ rw (a, c) h
      | inr c ↦ rw (a, c) tt
    ]
  ]

  take_reply-IsKept :
      (reply : RawReply) (w : Walk)
      → IsStarted generation page_index w
      → IsKept generation page_index (take_reply skip reply w)
  unfolding take_reply
  take_reply-IsKept failed w h = tt
  take_reply-IsKept end_of_directory w h = elim (Bool-cases w.files_phase) [
    | inl a ↦ rw a tt
    | inr a ↦ rw a h
  ]
  take_reply-IsKept (raw_entry (name, is_dir)) w h =
      elim (Bool-cases (same_kind is_dir (not w.files_phase))) [
        | inl a ↦ rw a (take_entry-IsKept (name, is_dir) w h)
        | inr a ↦ rw a h
      ]

  read_round-IsKept :
      (reply : RawReply) (w : Walk)
      → IsStarted generation page_index w
      → IsKept generation page_index (read_round skip reply w)
  unfolding read_round
  read_round-IsKept reply w h = elim (Bool-cases (ltb max_total_rounds w.matched)) [
    | inl a ↦ rw a tt
    | inr a ↦ rw a (take_reply-IsKept reply w h)
  ]

  open_round-IsKept :
      (r : DirOpen) (reply : RawReply) (w : Walk)
      → IsStarted generation page_index w
      → IsKept generation page_index (open_round r skip reply w)
  unfolding open_round
  open_round-IsKept dir_ok reply w h = read_round-IsKept reply (record w { handle_open = true }) h
  open_round-IsKept dir_not_found reply w h = tt
  open_round-IsKept dir_access_denied reply w h = tt
  open_round-IsKept dir_path_too_long reply w h = tt
  open_round-IsKept dir_error reply w h = tt

  take_round-IsKept :
      (a : Answer) (w : Walk)
      → IsStarted generation page_index w
      → IsKept generation page_index (take_round skip a w)
  unfolding take_round
  take_round-IsKept a w h = elim (Bool-cases w.handle_open) [
    | inl e ↦ rw e (read_round-IsKept a.reply (record w { handle_open = true }) h)
    | inr e ↦ rw e (open_round-IsKept a.opens a.reply (record w { handle_open = false }) h)
  ]

  pub take_rounds-IsKept :
      (answers : List Answer) (w : Walk)
      → IsStarted generation page_index w
      → IsKept generation page_index (take_rounds skip answers w)
  unfolding take_rounds
  take_rounds-IsKept [] w h = h
  take_rounds-IsKept (a ∷ answers) w h =
      rest_kept (λ w' k. take_rounds-IsKept answers w' k) (take_round skip a w).0
        (take_round skip a w).1 (take_round-IsKept a w h)
    where
      rest_kept :
          ((w' : Walk)
            → IsStarted generation page_index w'
            → IsKept generation page_index (take_rounds skip answers w'))
          → (p : Progress) (w' : Walk) → IsKept generation page_index (p, w')
          → IsKept generation page_index
              (if is_going p then take_rounds skip answers w' else (p, w'))
      rest_kept keeps going w' k = keeps w' k
      rest_kept keeps (complete more) w' k = tt
      rest_kept keeps broken w' k = tt
      rest_kept keeps (unopened r) w' k = tt

not_going :
    {w w' : Walk} (p : Progress)
    → is_going p ≡ false
    → ◌≡◌ {A = Progress × Walk} (p, w) (going, w')
    → ⊥
not_going p g h =
    let e = sym (ap (λ (pw : Progress × Walk). is_going pw.0) h) ∙ g in ground (arith, e)

-- Answers behind those that leave the loop going on.
pub take_rounds-append :
    (skip : ℕ) (answers more : List Answer) (w w' : Walk)
    → take_rounds skip answers w ≡ (going, w')
    → take_rounds skip (answers ++ more) w ≡ take_rounds skip more w'
unfolding take_rounds
take_rounds-append skip [] more w w' h =
    let e : w ≡ w' = ap (λ (pw : Progress × Walk). pw.1) h in ap (take_rounds skip more) e
take_rounds-append skip (a ∷ answers) more w w' h =
    behind (λ w1 k. take_rounds-append skip answers more w1 w' k) (take_round skip a w).0
      (take_round skip a w).1 h
  where
    behind :
        ((w1 : Walk)
          → take_rounds skip answers w1 ≡ (going, w')
          → take_rounds skip (answers ++ more) w1 ≡ take_rounds skip more w')
        → (p : Progress) (w1 : Walk)
        → (if is_going p then take_rounds skip answers w1 else (p, w1)) ≡ (going, w')
        → (if is_going p then take_rounds skip (answers ++ more) w1 else (p, w1))
          ≡ take_rounds skip more w'
    behind ih going w1 k = ih w1 k
    behind ih (complete b) w1 k = absurd (not_going (complete b) refl k)
    behind ih broken w1 k = absurd (not_going broken refl k)
    behind ih (unopened r) w1 k = absurd (not_going (unopened r) refl k)
