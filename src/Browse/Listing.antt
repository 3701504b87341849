-- ===== src/Browse/Listing.antt =====
-- romemul/sidetnfs_floppy_browse.c: the two phases of a page, over a listing that stays the same.
use side_tnfs_firmware.Prelude.{
  take-all, drop-nil, ℕ, zero, suc, ◌+◌, ◌-◌, ◌*◌, ◌≤◌, ◌<◌, ◌≡◌, refl, sym, ap, ◌∙◌, subst, inl,
  inr, Bool, true, false, Bool-cases, List, [], ◌∷◌, ◌++◌, append-nil, ltb, length, take, drop,
  arith,
}
use side_tnfs_firmware.Browse.{
  page_entries, max_total_rounds, dir_ok, Slot, Answer, Walk, Progress, going, complete, same_kind,
  take_reply, read_round, open_round, take_round, take_rounds, fresh_walk,
}
use side_tnfs_firmware.Browse.Rounds.{
  after_reply, Serves, of_kind, IsPage, walking, rounds-going, rounds-complete, in_limit,
}
use side_tnfs_firmware.Browse.Pages.{entry_lem}

-- The last page, when there is no more.
last-IsPage :
    (w : Walk) (page xs : List Slot)
    → w.page ≡ page
    → length page ≤ page_entries
    → xs ≡ page
    → IsPage xs (complete false, w)
last-IsPage w page xs h l e = (
  h ∙ sym (ap (take page_entries) e ∙ take-all page_entries page l),
  (let size = ap (λ (s : List Slot). length s) e in
      let b : ltb page_entries (length xs) ≡ false = ground (arith, size, l) in
      ap complete (sym b)),
)

-- A walk between its two phases, or before the first.
abbrev closed : Walk → Bool → ℕ → ℕ → List Slot → Walk
closed b ph dt m page = record (walking b ph dt m page) { handle_open = false }

-- A round that opens the folder does what it does when the folder is open.
opening :
    (skip : ℕ) (a : Answer) (b : Walk) (ph : Bool) (dt m : ℕ) (page : List Slot)
    → a.opens ≡ dir_ok
    → take_round skip a (closed b ph dt m page) ≡ take_round skip a (walking b ph dt m page)
unfolding take_round open_round
opening skip a b ph dt m page h = rw h refl

opened :
    (listing : List Slot) (skip : ℕ) (answers : List Answer) (b : Walk) (ph : Bool) (dt m : ℕ)
    (page rest : List Slot)
    → 0 < length answers
    → Serves listing skip answers rest (closed b ph dt m page)
    → Serves listing skip answers listing (walking b ph dt m page)
      × (take_rounds skip answers (closed b ph dt m page)
          ≡ take_rounds skip answers (walking b ph dt m page))
unfolding take_rounds
opened listing skip [] b ph dt m page rest l h = absurd (omega (arith, l))
opened listing skip (a ∷ answers) b ph dt m page rest l (o, r, h) =
    let e = opening skip a b ph dt m page o in
    (
      (
        o,
        r,
        subst (λ (pw : Progress × Walk). Serves listing skip answers (after_reply listing) pw.1) e
            h,
      ),
      rw e refl,
    )

-- The files from an open folder on.
files_lem :
    (listing : List Slot) (skip : ℕ) (b : Walk) (dt : ℕ) (r : List Slot) (answers : List Answer)
    (m : ℕ) (page : List Slot)
    → Serves listing skip answers r (walking b true dt m page)
    → length r + 1 ≤ length answers
    → m + length (of_kind false r) ≤ max_total_rounds
    → length page ≤ page_entries
    → IsPage
        ((page ++ drop (skip - dt - m) (of_kind false r)) ++ [])
        (take_rounds skip answers (walking b true dt m page))
unfolding of_kind take_round read_round take_reply
files_lem listing skip b dt r [] m page s l limit size = absurd (omega (arith, l))
files_lem listing skip b dt [] (a ∷ answers) m page (o, h, s) l limit size =
    let w = walking b true dt m page in
    let bound = in_limit skip b true dt a m page (omega (arith, limit)) in
    let step : take_round skip a w ≡ (complete false, record w { handle_open = false }) =
      rw (h, bound) refl in
    let none =
      append-nil (page ++ drop (skip - dt - m) [])
      ∙ ap (λ xs. page ++ xs) (drop-nil (skip - dt - m))
      ∙ append-nil page in
    rw (rounds-complete skip a answers w _ false step)
      (last-IsPage (record w { handle_open = false }) page _ refl size none)
files_lem listing skip b dt ((name, is_dir) ∷ r) (a ∷ answers) m page (o, h, s) l limit size =
    entry_lem listing skip b true dt answers r [] name is_dir a m page (omega (arith, limit)) size h
      s
      (λ m' page' e size' s'.
        files_lem listing skip b dt r answers m' page' s' (omega (arith, l))
          (subst (λ n. n ≤ max_total_rounds) (sym e) limit) size')

-- The folders from an open folder on, and the files behind them.
dirs_lem :
    (listing : List Slot) (skip : ℕ) (b : Walk) (dt : ℕ) (r : List Slot) (answers : List Answer)
    (m : ℕ) (page : List Slot)
    → Serves listing skip answers r (walking b false dt m page)
    → length r + 1 + (length listing + 1) ≤ length answers
    → m + length (of_kind true r) ≤ max_total_rounds
    → length (of_kind false listing) ≤ max_total_rounds
    → length page ≤ page_entries
    → IsPage
        ((page ++ drop (skip - m) (of_kind true r))
          ++ drop (skip - (m + length (of_kind true r))) (of_kind false listing))
        (take_rounds skip answers (walking b false dt m page))
unfolding of_kind take_round read_round take_reply
dirs_lem listing skip b dt r [] m page s l limit files size = absurd (omega (arith, l))
dirs_lem listing skip b dt [] (a ∷ answers) m page (o, h, s) l limit files size =
    let w = walking b false dt m page in
    let bound = in_limit skip b false dt a m page (omega (arith, limit)) in
    let step : take_round skip a w ≡ (going, closed b true m 0 page) = rw (h, bound) refl in
    let s' = rw step at s in
    let (s2, same) = opened listing skip answers b true m 0 page [] (omega (arith, l)) s' in
    let done =
      files_lem listing skip b m listing answers 0 page s2 (omega (arith, l)) (omega (arith, files))
        size in
    let front : page ++ drop (skip - m) [] ≡ page =
      ap (λ xs. page ++ xs) (drop-nil (skip - m)) ∙ append-nil page in
    let amount : skip - m - 0 ≡ skip - (m + 0) = omega arith in
    let list =
      append-nil (page ++ drop (skip - m - 0) (of_kind false listing))
      ∙ ap (λ n. page ++ drop n (of_kind false listing)) amount in
    rw (rounds-going skip a answers w _ step, same, front) (rw list at done)
dirs_lem listing skip b dt ((name, is_dir) ∷ r) (a ∷ answers) m page (o, h, s) l limit files size =
    let all = m + length (of_kind true ((name, is_dir) ∷ r)) in
    entry_lem listing skip b false dt answers r (drop (skip - all) (of_kind false listing)) name
      is_dir a m page (omega (arith, limit)) size h s
      (λ m' page' e size' s'.
        let done =
          dirs_lem listing skip b dt r answers m' page' s' (omega (arith, l))
            (subst (λ n. n ≤ max_total_rounds) (sym e) limit) files size' in
        subst
          (λ n.
            IsPage
              ((page' ++ drop (skip - m') (of_kind true r))
                ++ drop (skip - n) (of_kind false listing))
              (take_rounds skip answers (walking b false dt m' page')))
          e done)

length-of_kind : (want : Bool) (r : List Slot) → length (of_kind want r) ≤ length r
unfolding of_kind
length-of_kind want [] = omega arith
length-of_kind want ((name, is_dir) ∷ r) = elim (Bool-cases (same_kind is_dir want)) [
  | inl e ↦ rw e (omega (arith, length-of_kind want r))
  | inr e ↦ rw e (omega (arith, length-of_kind want r))
]

drop-both : (n : ℕ) (xs ys : List Slot) → drop n xs ++ drop (n - length xs) ys ≡ drop n (xs ++ ys)
drop-both zero xs ys = let e : 0 - length xs ≡ 0 = omega arith in ap (λ k. xs ++ drop k ys) e
drop-both (suc n) [] ys = let e : suc n - 0 ≡ suc n = omega arith in ap (λ k. drop k ys) e
drop-both (suc n) (x ∷ xs) ys =
    let e : suc n - suc (length xs) ≡ n - length xs = omega arith in
    ap (λ k. drop n xs ++ drop k ys) e ∙ drop-both n xs ys

-- The folders of a listing, and then its files.
abbrev pub in_order : List Slot → List Slot
in_order listing = of_kind true listing ++ of_kind false listing

-- A walk over a listing ends with a cut of it.
pub take_rounds-IsPage :
    (listing : List Slot) (skip generation page_index : ℕ) (answers : List Answer)
    → length listing ≤ max_total_rounds
    → 2 * length listing + 2 ≤ length answers
    → Serves listing skip answers [] (fresh_walk generation page_index)
    → IsPage
        (drop skip (in_order listing))
        (take_rounds skip answers (fresh_walk generation page_index))
unfolding fresh_walk
take_rounds-IsPage listing skip generation page_index answers size l s =
    let b = fresh_walk generation page_index in
    let dirs = length-of_kind true listing in
    let files = length-of_kind false listing in
    let (s', same) = opened listing skip answers b false 0 0 [] [] (omega (arith, l)) s in
    let done =
      dirs_lem listing skip b 0 listing answers 0 [] s' (omega (arith, l))
        (omega (arith, dirs, size)) (omega (arith, files, size)) (omega arith) in
    let front : skip - 0 ≡ skip = omega arith in
    let behind : 0 + length (of_kind true listing) ≡ length (of_kind true listing) = omega arith in
    let cut =
      rw (front, behind, drop-both skip (of_kind true listing) (of_kind false listing)) at done in
    rw same cut
