-- ===== src/Browse/Rounds.antt =====
-- romemul/sidetnfs_floppy_browse.c: the rounds of a page on a folder whose entries stay the same.
use side_tnfs_firmware.Prelude.{
  ℕ, ◌+◌, ◌-◌, ◌≤◌, ◌≡◌, refl, Bool, true, false, not, List, [], ◌∷◌, ◌++◌, ltb, if◌then◌else◌,
  length, take, arith,
}
use side_tnfs_firmware.Browse.{
  page_entries, max_total_rounds, dir_ok, Slot, RawReply, end_of_directory, raw_entry, Answer, Walk,
  Progress, going, complete, phase_skip, take_entry, same_kind, take_reply, read_round, take_round,
  take_rounds,
}

-- What reading a folder that has these entries left replies.
abbrev pub reply_of : List Slot → RawReply
reply_of [] = end_of_directory
reply_of (e ∷ r) = raw_entry e

abbrev pub after_reply : List Slot → List Slot
after_reply [] = []
after_reply (e ∷ r) = r

-- The entries left for a round: a folder that is opened starts from its first.
abbrev pub left : List Slot → Walk → List Slot → List Slot
left listing w rest = if w.handle_open then rest else listing

-- The answers are those of a server whose folder has this listing, of which these entries are left.
abbrev pub Serves : List Slot → ℕ → List Answer → List Slot → Walk → Type 0
Serves listing skip [] rest w = Unit
Serves listing skip (a ∷ answers) rest w =
    (a.opens ≡ dir_ok)
    × (a.reply ≡ reply_of (left listing w rest))
    × Serves listing skip answers (after_reply (left listing w rest)) (take_round skip a w).1

-- The entries of a kind: the folders, or the files.
unfoldable pub of_kind : Bool → List Slot → List Slot
of_kind want [] = []
of_kind want ((name, is_dir) ∷ r) =
    let rest = of_kind want r in if same_kind is_dir want then (name, is_dir) ∷ rest else rest

-- The loop ended with a page of what there is from its start on.
abbrev pub IsPage : List Slot → Progress × Walk → Type 0
IsPage xs (p, w) = (w.page ≡ take page_entries xs) × (p ≡ complete (ltb page_entries (length xs)))

-- A walk whose folder is open.
abbrev pub walking : Walk → Bool → ℕ → ℕ → List Slot → Walk
walking b files_phase dirs_total matched page = record b {
  files_phase = files_phase;
  dirs_total = dirs_total;
  matched = matched;
  page = page;
  handle_open = true;
}

pub rounds-going :
    (skip : ℕ) (a : Answer) (answers : List Answer) (w w' : Walk)
    → take_round skip a w ≡ (going, w')
    → take_rounds skip (a ∷ answers) w ≡ take_rounds skip answers w'
unfolding take_rounds
rounds-going skip a answers w w' h = rw h refl

pub rounds-complete :
    (skip : ℕ) (a : Answer) (answers : List Answer) (w w' : Walk) (more : Bool)
    → take_round skip a w ≡ (complete more, w')
    → take_rounds skip (a ∷ answers) w ≡ (complete more, w')
unfolding take_rounds
rounds-complete skip a answers w w' more h = rw h refl

phase_skip-files :
    (skip dirs_total : ℕ)
    → (if ltb dirs_total skip then skip - dirs_total else 0) ≡ skip - dirs_total
phase_skip-files skip dirs_total = ground arith

-- The entries that a phase passes over.
abbrev pub passed_over : ℕ → Bool → ℕ → ℕ
passed_over skip true dirs_total = skip - dirs_total
passed_over skip false dirs_total = skip

passed_over_lem :
    (skip : ℕ) (b : Walk) (ph : Bool) (dt m : ℕ) (page : List Slot)
    → phase_skip skip (walking b ph dt m page) ≡ passed_over skip ph dt
unfolding phase_skip
passed_over_lem skip b true dt m page = phase_skip-files skip dt
passed_over_lem skip b false dt m page = refl

module _ (skip : ℕ) (b : Walk) (ph : Bool) (dt : ℕ) (a : Answer) (m : ℕ) (page : List Slot)
    (limit : m ≤ max_total_rounds) where
  pub in_limit : ltb max_total_rounds m ≡ false
  in_limit = ground (arith, limit)

  pub round-other :
      (name : List ℕ) (is_dir : Bool)
      → a.reply ≡ raw_entry (name, is_dir)
      → same_kind is_dir (not ph) ≡ false
      → take_round skip a (walking b ph dt m page) ≡ (going, walking b ph dt m page)
  unfolding take_round read_round take_reply
  round-other name is_dir r k = rw (r, in_limit, k) refl

  pub round-passed :
      (name : List ℕ) (is_dir : Bool)
      → a.reply ≡ raw_entry (name, is_dir)
      → same_kind is_dir (not ph) ≡ true
      → ltb m (passed_over skip ph dt) ≡ true
      → take_round skip a (walking b ph dt m page) ≡ (going, walking b ph dt (m + 1) page)
  unfolding take_round read_round take_reply take_entry
  round-passed name is_dir r k t = rw (r, in_limit, k, passed_over_lem skip b ph dt m page, t) refl

  pub round-shown :
      (name : List ℕ) (is_dir : Bool)
      → a.reply ≡ raw_entry (name, is_dir)
      → same_kind is_dir (not ph) ≡ true
      → ltb m (passed_over skip ph dt) ≡ false
      → ltb (length page) page_entries ≡ true
      → take_round skip a (walking b ph dt m page)
        ≡ (going, walking b ph dt (m + 1) (page ++ ((name, is_dir) ∷ [])))
  unfolding take_round read_round take_reply take_entry
  round-shown name is_dir r k t l =
      rw (r, in_limit, k, passed_over_lem skip b ph dt m page, t, l) refl

  pub round-full :
      (name : List ℕ) (is_dir : Bool)
      → a.reply ≡ raw_entry (name, is_dir)
      → same_kind is_dir (not ph) ≡ true
      → ltb m (passed_over skip ph dt) ≡ false
      → ltb (length page) page_entries ≡ false
      → take_round skip a (walking b ph dt m page) ≡ (complete true, walking b ph dt m page)
  unfolding take_round read_round take_reply take_entry
  round-full name is_dir r k t l =
      rw (r, in_limit, k, passed_over_lem skip b ph dt m page, t, l) refl
