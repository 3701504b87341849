-- ===== src/Browse/Pages.antt =====
-- romemul/sidetnfs_floppy_browse.c: a page is a cut of the folders and then the files of the listing.
use side_tnfs_firmware.Prelude.{
  ℕ, suc, ◌+◌, ◌-◌, ◌≤◌, ◌≡◌, refl, sym, ap, ◌∙◌, inl, inr, Bool, true, false, not, Bool-cases,
  List, [], ◌∷◌, ◌++◌, append_assoc, ltb, length, length-append, take, take-append, drop, arith,
}
use side_tnfs_firmware.Browse.{
  page_entries, max_total_rounds, Slot, raw_entry, Answer, Walk, complete, same_kind, take_round,
  take_rounds,
}
use side_tnfs_firmware.Browse.Rounds.{
  Serves, of_kind, IsPage, walking, passed_over, rounds-going, rounds-complete, round-other,
  round-passed, round-shown, round-full,
}

-- A full page is the page, whatever comes after it.
full-IsPage :
    (w : Walk) (page more tail : List Slot) (e : Slot)
    → w.page ≡ page
    → length page ≡ page_entries
    → IsPage ((page ++ (e ∷ more)) ++ tail) (complete true, w)
full-IsPage w page more tail e h l = (
  h
      ∙ sym (
          ap (take page_entries) (append_assoc page (e ∷ more) tail)
          ∙ take-append page ((e ∷ more) ++ tail) page_entries l),
  (let size = length-append (page ++ (e ∷ more)) tail in
      let front = length-append page (e ∷ more) in
      let b : ltb page_entries (length ((page ++ (e ∷ more)) ++ tail)) ≡ true =
        ground (arith, size, front, l) in
      ap complete (sym b)),
)

drop-skip :
    (t m : ℕ) (e : Slot) (k : List Slot)
    → ltb m t ≡ true
    → drop (t - m) (e ∷ k) ≡ drop (t - (m + 1)) k
drop-skip t m e k h =
    let n : t - m ≡ suc (t - (m + 1)) = ground (arith, h) in ap (λ i. drop i (e ∷ k)) n

drop-none : (t m : ℕ) (k : List Slot) → ltb m t ≡ false → drop (t - m) k ≡ k
drop-none t m k h = let n : t - m ≡ 0 = ground (arith, h) in ap (λ i. drop i k) n

module _ (listing : List Slot) (skip : ℕ) (b : Walk) (ph : Bool) (dt : ℕ) (answers : List Answer)
    (r tail : List Slot) where
  -- What the rest of the phase does from any walk that is as far.
  abbrev Continues : ℕ → Type 0
  Continues all =
      (m : ℕ) (page : List Slot)
      → m + length (of_kind (not ph) r) ≡ all
      → length page ≤ page_entries
      → Serves listing skip answers r (walking b ph dt m page)
      → IsPage ((page ++ drop (passed_over skip ph dt - m) (of_kind (not ph) r)) ++ tail)
          (take_rounds skip answers (walking b ph dt m page))

  -- A round on an entry, and the rest.
  pub entry_lem :
      (name : List ℕ) (is_dir : Bool) (a : Answer) (m : ℕ) (page : List Slot)
      → m ≤ max_total_rounds
      → length page ≤ page_entries
      → a.reply ≡ raw_entry (name, is_dir)
      → Serves listing skip answers r (take_round skip a (walking b ph dt m page)).1
      → Continues (m + length (of_kind (not ph) ((name, is_dir) ∷ r)))
      → IsPage
          ((page ++ drop (passed_over skip ph dt - m) (of_kind (not ph) ((name, is_dir) ∷ r)))
            ++ tail)
          (take_rounds skip (a ∷ answers) (walking b ph dt m page))
  unfolding of_kind
  entry_lem name is_dir a m page limit l h s continues =
      let w = walking b ph dt m page in
      let t = passed_over skip ph dt in
      let k = of_kind (not ph) r in
      elim (Bool-cases (same_kind is_dir (not ph))) [
        | inr other ↦
            let step = round-other skip b ph dt a m page limit name is_dir h other in
            let s' = rw step at s in
            let c = rw other at continues in
            rw (other, rounds-going skip a answers w w step) (c m page refl l s')
        | inl same ↦ elim (Bool-cases (ltb m t)) [
          | inl passed ↦
              let step = round-passed skip b ph dt a m page limit name is_dir h same passed in
              let s' = rw step at s in
              let c = rw same at continues in
              rw
                (
                  same,
                  rounds-going skip a answers w (walking b ph dt (m + 1) page) step,
                  drop-skip t m (name, is_dir) k passed,
                )
                (c (m + 1) page (omega arith) l s')
          | inr shown ↦ elim (Bool-cases (ltb (length page) page_entries)) [
            | inl room ↦
                let page' = page ++ ((name, is_dir) ∷ []) in
                let step = round-shown skip b ph dt a m page limit name is_dir h same shown room in
                let s' = rw step at s in
                let c = rw same at continues in
                let size : length page' ≤ page_entries =
                  ground (arith, room, length-append page ((name, is_dir) ∷ [])) in
                let done = c (m + 1) page' (omega arith) size s' in
                let next : drop (t - (m + 1)) k ≡ k =
                  drop-none t (m + 1) k (ground (arith, shown)) in
                let whole = rw (next, append_assoc page ((name, is_dir) ∷ []) k) at done in
                rw
                  (
                    same,
                    rounds-going skip a answers w (walking b ph dt (m + 1) page') step,
                    drop-none t m ((name, is_dir) ∷ k) shown,
                  )
                  whole
            | inr full ↦
                let step = round-full skip b ph dt a m page limit name is_dir h same shown full in
                rw
                  (
                    same,
                    rounds-complete skip a answers w w true step,
                    drop-none t m ((name, is_dir) ∷ k) shown,
                  )
                  (full-IsPage w page k tail (name, is_dir) refl (ground (arith, full, l)))
          ]
        ]
      ]
