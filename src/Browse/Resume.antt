-- ===== src/Browse/Resume.antt =====
-- romemul/sidetnfs_floppy_browse.c: a request that is made again takes up the walk of the last one, and
-- a request with enough rounds gets its page.
use side_tnfs_firmware.Prelude.{
  and_inv, ℕ, suc, ◌+◌, ◌*◌, ◌%◌, ◌^◌, ◌≤◌, ◌<◌, ◌≡◌, ◌≢◌, refl, sym, ap, ◌∙◌, subst, inl, inr,
  Bool, true, false, not, ◌&&◌, Bool-cases, List, [], ◌∷◌, ◌++◌, ltb, ◌==◌, if◌then◌else◌, length,
  take, drop, arith,
}
use side_tnfs_firmware.Browse.{
  page_entries, max_total_rounds, dir_ok, dir_not_found, dir_access_denied, dir_path_too_long,
  dir_error, Slot, Answer, Walk, Progress, going, complete, broken, unopened, take_rounds,
  fresh_walk, resuming, PageStatus, browse_ok, browse_end_of_directory, in_progress, PageResult,
  open_status, page_result, Session, get_page,
}
use side_tnfs_firmware.Browse.Rounds.{Serves, IsPage}
use side_tnfs_firmware.Browse.Kept.{IsStarted, IsKept, take_rounds-IsKept, take_rounds-append}
use side_tnfs_firmware.Browse.Listing.{in_order, take_rounds-IsPage}

abbrev is_in_progress : PageStatus → Bool
is_in_progress in_progress = true
is_in_progress _ = false

other_status : (st : PageStatus) → is_in_progress st ≡ false → st ≢ in_progress
other_status st h e = let k = sym (ap is_in_progress e) ∙ h in ground (arith, k)

-- Only a loop that goes on is in progress.
in_progress-going :
    (generation page_index : ℕ) (p : Progress) (w : Walk)
    → (page_result generation page_index p w).0.status ≡ in_progress
    → p ≡ going
unfolding page_result open_status
in_progress-going generation page_index going w h = refl
in_progress-going generation page_index (complete more) w h =
    elim (Bool-cases (length w.page == 0 && not more)) [
      | inl e ↦ absurd (other_status browse_end_of_directory refl (let k = rw e at h in k))
      | inr e ↦ absurd (other_status browse_ok refl (let k = rw e at h in k))
    ]
in_progress-going generation page_index broken w h = absurd (other_status _ refl h)
in_progress-going generation page_index (unopened dir_ok) w h = absurd (other_status _ refl h)
in_progress-going generation page_index (unopened dir_not_found) w h =
    absurd (other_status _ refl h)
in_progress-going generation page_index (unopened dir_access_denied) w h =
    absurd (other_status _ refl h)
in_progress-going generation page_index (unopened dir_path_too_long) w h =
    absurd (other_status _ refl h)
in_progress-going generation page_index (unopened dir_error) w h = absurd (other_status _ refl h)

-- The walk that a call starts from.
abbrev start_walk : ℕ → ℕ → Walk → Walk
start_walk generation page_index w =
    if resuming generation page_index w then w else fresh_walk generation page_index

start_walk-IsStarted :
    (generation page_index : ℕ) (w : Walk)
    → IsStarted generation page_index (start_walk generation page_index w)
unfolding resuming fresh_walk
start_walk-IsStarted generation page_index w =
    elim (Bool-cases (resuming generation page_index w)) [
      | inr e ↦ rw e (refl, refl, refl)
      | inl e ↦
          let (a, r) = and_inv w.active _ e in
          let (g, p) = and_inv (w.generation == generation) _ r in
          rw e (a, ground (arith, g), ground (arith, p))
    ]

IsStarted-resuming :
    (generation page_index : ℕ) (w : Walk)
    → IsStarted generation page_index w
    → resuming generation page_index w ≡ true
unfolding resuming
IsStarted-resuming generation page_index w (a, g, p) = ground (arith, a, g, p)

idle_fresh :
    (generation page_index : ℕ) (w : Walk)
    → w.active ≡ false
    → start_walk generation page_index w ≡ fresh_walk generation page_index
unfolding resuming
idle_fresh generation page_index w h = rw h refl

-- The skip of a page.
abbrev pub skip_of : ℕ → ℕ
skip_of page_index = page_index * page_entries % 2 ^ 32

-- A call on an open session with its generation.
called :
    (generation page_index : ℕ) (answers : List Answer) (s : Session)
    → s.is_open ≡ true
    → generation ≡ s.generation
    → get_page generation page_index answers s ≡ (
        let (p, w) =
          take_rounds (skip_of page_index) answers (start_walk generation page_index s.walk) in
        let (result, w') = page_result generation page_index p w in
        (result, record s { walk = w' }))
unfolding get_page
called generation page_index answers s o g =
    let same : (generation == s.generation) ≡ true = ground (arith, g) in rw (o, same) refl

-- A request that is in progress, made again with the rounds of some more answers, comes to what one
-- request with the rounds of all the answers comes to: its result, its page and its session.
pub get_page-resumed :
    (generation page_index : ℕ) (answers more : List Answer) (s : Session)
    → s.is_open ≡ true
    → generation ≡ s.generation
    → (get_page generation page_index answers s).0.status ≡ in_progress
    → get_page generation page_index more (get_page generation page_index answers s).1
      ≡ get_page generation page_index (answers ++ more) s
unfolding page_result
get_page-resumed generation page_index answers more s o g h =
    let skip = skip_of page_index in
    let w0 = start_walk generation page_index s.walk in
    let w1 = (take_rounds skip answers w0).1 in
    let first = called generation page_index answers s o g in
    let status = sym (ap (λ (rs : PageResult × Session). rs.0.status) first) ∙ h in
    let goes = in_progress-going generation page_index (take_rounds skip answers w0).0 w1 status in
    let whole : take_rounds skip answers w0 ≡ (going, w1) = λ i. (goes i, w1) in
    let started =
      take_rounds-IsKept generation page_index skip answers w0
        (start_walk-IsStarted generation page_index s.walk) in
    let kept : IsStarted generation page_index w1 =
      subst (IsKept generation page_index) whole started in
    let session : (get_page generation page_index answers s).1 ≡ record s { walk = w1 } =
      ap (λ (rs : PageResult × Session). rs.1) first
      ∙ ap (λ p. record s { walk = (page_result generation page_index p w1).1 }) goes in
    let again : start_walk generation page_index w1 ≡ w1 =
      rw (IsStarted-resuming generation page_index w1 kept) refl in
    ap (get_page generation page_index more) session
    ∙ called generation page_index more (record s { walk = w1 }) o g
    ∙ ap
        (λ (pw : Progress × Walk).
          let (result, w') = page_result generation page_index pw.0 pw.1 in
          (result, record s { walk = w' }))
        (ap (take_rounds skip more) again ∙ sym (take_rounds-append skip answers more w0 w1 whole))
    ∙ sym (called generation page_index (answers ++ more) s o g)

result-IsPage :
    (generation page_index : ℕ) (xs : List Slot) (p : Progress) (w : Walk)
    → IsPage xs (p, w)
    → let (r, w') = page_result generation page_index p w in
      (w'.page ≡ take page_entries xs)
      × (r.count ≡ length (take page_entries xs))
      × (r.has_next ≡ ltb page_entries (length xs))
      × (r.status ≡ (if length xs == 0 then browse_end_of_directory else browse_ok))
unfolding page_result
result-IsPage generation page_index xs p w (e, c) = rw (c, e) (refl, refl, refl, status xs)
  where
    status :
        (ys : List Slot)
        → (if length (take page_entries ys) == 0 && not (ltb page_entries (length ys))
            then browse_end_of_directory
            else browse_ok)
          ≡ (if length ys == 0 then browse_end_of_directory else browse_ok)
    status [] = refl
    status (y ∷ ys) =
        let a : (suc (length (take 14 ys)) == 0) ≡ false = ground arith in
        let c : (suc (length ys) == 0) ≡ false = ground arith in rw (a, c) refl

-- The page that a call made shows these entries, up to 15 of them, says that a page follows exactly
-- if there are more, and that the folder ended exactly if there are none.
abbrev pub Shows : List Slot → PageResult × Session → Type 0
Shows xs (r, s) =
    (s.walk.page ≡ take page_entries xs)
    × (r.count ≡ length (take page_entries xs))
    × (r.has_next ≡ ltb page_entries (length xs))
    × (r.status ≡ (if length xs == 0 then browse_end_of_directory else browse_ok))

-- On an open session, for the present generation and without a walk to take up, let the answers be
-- those of a folder with a fixed listing of at most 100000 entries, and the rounds enough for reading
-- it twice. If 15 times the page number is below 2^32, the request shows the listing, folders first,
-- from that entry on. From 2^32 on it does not show the empty page that is behind the listing: it shows
-- the listing from the entry that is left of the product in 32 bits.
pub get_page-Serves :
    (listing : List Slot) (generation page_index : ℕ) (answers : List Answer) (s : Session)
    → s.is_open ≡ true
    → generation ≡ s.generation
    → s.walk.active ≡ false
    → length listing ≤ max_total_rounds
    → 2 * length listing + 2 ≤ length answers
    → Serves listing (skip_of page_index) answers [] (fresh_walk generation page_index)
    → let start = page_index * page_entries in
      let page = get_page generation page_index answers s in
      (start < 2 ^ 32 → Shows (drop start (in_order listing)) page)
      × (2 ^ 32 ≤ start → Shows (drop (start % 2 ^ 32) (in_order listing)) page)
get_page-Serves listing generation page_index answers s o g idle size enough serves =
    let skip = skip_of page_index in
    let fresh = idle_fresh generation page_index s.walk idle in
    let page = take_rounds-IsPage listing skip generation page_index answers size enough serves in
    let pw = take_rounds skip answers (fresh_walk generation page_index) in
    let facts = result-IsPage generation page_index (drop skip (in_order listing)) pw.0 pw.1 page in
    let shown : Shows (drop skip (in_order listing)) (get_page generation page_index answers s) =
      rw (called generation page_index answers s o g, fresh) facts in
    (
      λ below.
          let exact : skip ≡ page_index * page_entries = omega (arith, below) in
          subst (λ n. Shows (drop n (in_order listing)) (get_page generation page_index answers s))
            exact shown,
      λ above. shown,
    )
