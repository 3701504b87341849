-- ===== src/Drives/Accept.antt =====
-- Which records `sidetnfs_config_set_drive` accepts, and what it writes.
use side_tnfs_firmware.Prelude.{
  ℕ, zero, suc, ◌+◌, ◌<◌, ◌≡◌, ◌≢◌, ◌↔◌, ◌⊎◌, refl, ap, sym, true, false, some, List, [], ◌∷◌,
  arith, length, get_elem?, get_or, get_or-set_ne, set,
}
use side_tnfs_firmware.Drives.{
  DriveConfig, DriveFlash, ConfigStatus, ok, is_ok, validate_drive_record, force_nul_drive,
  recompute_drive_count, empty_drive,
}
use side_tnfs_firmware.Drives.Commands.{
  letter_taken, candidate_of, zero_irrelevant, store_drive, set_drive, set_drive_state, drive_at,
}
use side_tnfs_firmware.Drives.Spec.{IsRecord, IsConfigured, IsValid}
use side_tnfs_firmware.Drives.Validate.{record_sound, record_complete}
use side_tnfs_firmware.Drives.Preserve.{letter_taken-false}

-- The letter is free for a slot: neither the settings drive nor another configured slot has it.
abbrev pub IsFree : ℕ → ℕ → DriveFlash → Type 0
IsFree index letter g =
    (letter ≢ g.config_drive_letter)
    × ((j : ℕ) (e : DriveConfig)
        → index ≢ j
        → get_elem? g.drives j ≡ some e
        → IsConfigured e
        → e.drive_letter ≢ letter)

letter_untaken :
    (skip l i : ℕ) (ds : List DriveConfig)
    → ((j : ℕ) (e : DriveConfig)
        → i + j ≢ skip
        → get_elem? ds j ≡ some e
        → IsConfigured e
        → e.drive_letter ≢ l)
    → letter_taken skip l i ds ≡ false
unfolding letter_taken
letter_untaken skip l i [] h = refl
letter_untaken skip l i (d ∷ ds) h = ground (
  arith,
  λ (p : i ≢ skip). h 0 d (omega arith) refl,
  letter_untaken skip l (suc i) ds (λ j e n. h (suc j) e (omega arith)),
)

candidate-IsRecord : (d : DriveConfig) → IsRecord (candidate_of d) ↔ IsRecord d
unfolding candidate_of force_nul_drive
candidate-IsRecord d =
    rw
      (
        get_or-set_ne d.host 63 0 0 0 (omega arith),
        get_or-set_ne d.mount_path 31 0 0 0 (omega arith),
        get_or-set_ne d.sd_path 63 0 0 0 (omega arith),
      )
      (λ r. r, λ r. r)

store_drive_tests :
    (index : ℕ) (d : DriveConfig) (g : DriveFlash)
    → (store_drive index d g).0 ≡ ok
    → (is_ok (validate_drive_record d) ≡ true)
      × (d.drive_letter ≢ g.config_drive_letter)
      × (letter_taken index d.drive_letter 0 g.drives ≡ false)
unfolding store_drive
store_drive_tests index d g h = ground arith

store_drive-accepts :
    (index : ℕ) (d : DriveConfig) (g : DriveFlash)
    → (store_drive index d g).0 ≡ ok
    → IsRecord d × IsFree index d.drive_letter g
store_drive-accepts index d g h =
    let (good, settings, clear) = store_drive_tests index d g h in
    (
      record_sound d good,
      (
        settings,
        λ j e n old c.
            letter_taken-false index d.drive_letter 0 g.drives j e clear (omega arith) old c,
      ),
    )

store_drive_of :
    (index : ℕ) (d : DriveConfig) (g : DriveFlash)
    → IsRecord d
    → IsFree index d.drive_letter g
    → store_drive index d g
      ≡ (ok, recompute_drive_count (record g { drives = set g.drives index (zero_irrelevant d) }))
unfolding store_drive
store_drive_of index d g r f = ground (
  arith,
  record_complete d r,
  f.0,
  letter_untaken index d.drive_letter 0 g.drives (λ j e n. f.1 j e (omega arith)),
)

set_drive-eq-store :
    (index : ℕ) (d : DriveConfig) (g : DriveFlash)
    → index < 8
    → (d.state ≡ 1) ⊎ (d.state ≡ 2)
    → set_drive index d g ≡ store_drive index (candidate_of d) g
unfolding set_drive
set_drive-eq-store index d g h s = ground arith

-- For a slot of the list, a record that asks for DISABLED or ENABLED is accepted exactly if it is
-- complete for its type and its letter is free, and then its slot holds it, with its strings
-- terminated and the fields of the other type zeroed.
pub set_drive_accepts_iff :
    (index : ℕ) (d : DriveConfig) (g : DriveFlash)
    → index < 8
    → (d.state ≡ 1) ⊎ (d.state ≡ 2)
    → ((set_drive index d g).0 ≡ ok → IsRecord d × IsFree index d.drive_letter g)
      × (IsRecord d × IsFree index d.drive_letter g
          → set_drive index d g ≡ (
            ok,
            recompute_drive_count
                (record g { drives = set g.drives index (zero_irrelevant (candidate_of d)) }),
          ))
unfolding candidate_of force_nul_drive
set_drive_accepts_iff index d g h s = rw (set_drive-eq-store index d g h s) (
  λ e.
      let (r, f) = store_drive-accepts index (candidate_of d) g e in
      ((candidate-IsRecord d).0 r, f),
  λ a. store_drive_of index (candidate_of d) g ((candidate-IsRecord d).1 a.0) a.1,
)

drive_at-get_elem? :
    (ds : List DriveConfig) (i : ℕ)
    → i < length ds
    → get_elem? ds i ≡ some (get_or ds i empty_drive)
drive_at-get_elem? [] i h = absurd (omega arith)
drive_at-get_elem? (d ∷ ds) zero h = refl
drive_at-get_elem? (d ∷ ds) (suc i) h = drive_at-get_elem? ds i (omega arith)

set_drive_state-eq-set :
    (index s : ℕ) (g : DriveFlash)
    → index < 8
    → (s ≡ 1) ⊎ (s ≡ 2)
    → IsConfigured (drive_at g index)
    → set_drive_state index s g ≡ set_drive index (record (drive_at g index) { state = s }) g
unfolding set_drive_state
set_drive_state-eq-set index s g h k c = ground arith

-- In a valid list any configured drive can be switched to DISABLED or to ENABLED.
pub set_drive_state_switches :
    (index s : ℕ) (g : DriveFlash)
    → IsValid g
    → index < 8
    → (s ≡ 1) ⊎ (s ≡ 2)
    → IsConfigured (drive_at g index)
    → (set_drive_state index s g).0 ≡ ok
set_drive_state_switches index s g v h k c = rw (set_drive_state-eq-set index s g h k c) (
    ap (λ (r : ConfigStatus × DriveFlash). r.0)
      ((set_drive_accepts_iff index (record (drive_at g index) { state = s }) g h k).1
        (kept, free)))
  where
    here : get_elem? g.drives index ≡ some (drive_at g index)
    here = drive_at-get_elem? g.drives index (omega (arith, v.slots))

    kept : IsRecord (drive_at g index)
    kept = (v.each index (drive_at g index) here).complete c

    free : IsFree index (drive_at g index).drive_letter g
    free = (
      (v.each index (drive_at g index) here).not_settings c,
      λ j e n old ce. v.distinct j index e (drive_at g index) (λ p. n (sym p)) old here ce c,
    )
