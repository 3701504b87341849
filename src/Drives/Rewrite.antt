-- ===== src/Drives/Rewrite.antt =====
-- Rewriting every slot alike, as the termination of the strings and the clean image do.
use side_tnfs_firmware.Prelude.{
  ℕ, suc, ◌≡◌, inl, inr, refl, sym, ap, ◌∙◌, subst, true, some, List, [], ◌∷◌, map, arith, length,
  length-map, get_elem?, get_elem?-map_inv, get_or-set_ne, Bool-cases, replicate,
}
use side_tnfs_firmware.Drives.{
  DriveConfig, DriveFlash, drive_slot_is_configured, drive_slot_is_empty, count_configured,
  force_nul_drive, empty_drive,
}
use side_tnfs_firmware.Drives.Commands.{zero_irrelevant}
use side_tnfs_firmware.Drives.Spec.{IsConfigured, IsSlot, IsValid}
use side_tnfs_firmware.Drives.Validate.{IsConfigured-nonempty}
use side_tnfs_firmware.Drives.Preserve.{
  zero_irrelevant-IsRecord, zero_irrelevant-letter, zero_irrelevant-state, empty_drive-IsSlot,
}
use side_tnfs_firmware.Drives.Flash.{clean_drive}

-- A rewriting that keeps slots as slots, and the letters of the configured ones.
pub record IsHarmless (f : DriveConfig → DriveConfig) : Type 0 where
  pub slot : (l : ℕ) (d : DriveConfig) → IsSlot l d → IsSlot l (f d)
  pub same :
      (l : ℕ) (d : DriveConfig)
      → IsSlot l d
      → drive_slot_is_configured (f d) ≡ drive_slot_is_configured d
  pub letter :
      (l : ℕ) (d : DriveConfig) → IsSlot l d → IsConfigured d → (f d).drive_letter ≡ d.drive_letter

module _ (f : DriveConfig → DriveConfig) (h : IsHarmless f) where
  count_configured-map :
      (l : ℕ) (ds : List DriveConfig)
      → ((i : ℕ) (d : DriveConfig) → get_elem? ds i ≡ some d → IsSlot l d)
      → count_configured (map f ds) ≡ count_configured ds
  unfolding count_configured
  count_configured-map l [] each = refl
  count_configured-map l (d ∷ ds) each =
      ground (arith, h.same l d (each 0 d refl), count_configured-map l ds (λ i. each (suc i)))

  pub map-IsValid :
      (c c' : DriveFlash)
      → c'.drives ≡ map f c.drives
      → c'.config_drive_letter ≡ c.config_drive_letter
      → c'.drive_count ≡ c.drive_count
      → IsValid c
      → IsValid c'
  map-IsValid c c' ed el en v = record {
    slots = ap length ed ∙ length-map f c.drives ∙ v.slots;
    letter = rw el v.letter;
    each = λ i d e.
        let (x, old, p) = get_elem?-map_inv f c.drives i (ap (λ l. get_elem? l i) (sym ed) ∙ e) in
        rw el (
          subst (IsSlot c.config_drive_letter) p (h.slot c.config_drive_letter x (v.each i x old)));
    distinct = λ i j d e n hd he cd ce.
        let (x, old, p) = get_elem?-map_inv f c.drives i (ap (λ l. get_elem? l i) (sym ed) ∙ hd) in
        let (y, old', q) = get_elem?-map_inv f c.drives j (ap (λ l. get_elem? l j) (sym ed) ∙ he) in
        let sx = v.each i x old in
        let sy = v.each j y old' in
        let cx : IsConfigured x =
          sym (h.same c.config_drive_letter x sx) ∙ ap drive_slot_is_configured p ∙ cd in
        let cy : IsConfigured y =
          sym (h.same c.config_drive_letter y sy) ∙ ap drive_slot_is_configured q ∙ ce in
        λ r. v.distinct i j x y n old old' cx cy (
          sym (h.letter c.config_drive_letter x sx cx)
          ∙ ap (λ (z : DriveConfig). z.drive_letter) p
          ∙ r
          ∙ ap (λ (z : DriveConfig). z.drive_letter) (sym q)
          ∙ h.letter c.config_drive_letter y sy cy);
    count =
        en
        ∙ v.count
        ∙ sym (count_configured-map c.config_drive_letter c.drives v.each)
        ∙ ap count_configured (sym ed);
  }

force_nul_drive-IsSlot : (l : ℕ) (d : DriveConfig) → IsSlot l d → IsSlot l (force_nul_drive d)
unfolding force_nul_drive drive_slot_is_configured
force_nul_drive-IsSlot l d s = record {
  state = s.state;
  complete = λ c.
      rw
        (
          get_or-set_ne d.host 63 0 0 0 (omega arith),
          get_or-set_ne d.mount_path 31 0 0 0 (omega arith),
          get_or-set_ne d.sd_path 63 0 0 0 (omega arith),
        )
        (s.complete c);
  not_settings = s.not_settings;
}

pub force_nul_drive-IsHarmless : IsHarmless force_nul_drive
unfolding force_nul_drive drive_slot_is_configured
force_nul_drive-IsHarmless = record {
  slot = force_nul_drive-IsSlot;
  same = λ l d s. refl;
  letter = λ l d s c. refl;
}

empty_same :
    (d : DriveConfig)
    → drive_slot_is_empty d ≡ true
    → drive_slot_is_configured empty_drive ≡ drive_slot_is_configured d
unfolding drive_slot_is_empty drive_slot_is_configured
empty_same d e = ground arith

configured_by_state :
    (d e : DriveConfig)
    → d.state ≡ e.state
    → drive_slot_is_configured d ≡ drive_slot_is_configured e
unfolding drive_slot_is_configured
configured_by_state d e h = ground arith

abbrev tidy : DriveConfig → DriveConfig
tidy d = zero_irrelevant (record d { reserved0 = replicate 2 0 })

tidy-IsSlot : (l : ℕ) (d : DriveConfig) → IsSlot l d → IsConfigured d → IsSlot l (tidy d)
tidy-IsSlot l d s c = record {
  state = rw (zero_irrelevant-state (record d { reserved0 = replicate 2 0 })) s.state;
  complete = λ _. zero_irrelevant-IsRecord (record d { reserved0 = replicate 2 0 }) (s.complete c);
  not_settings =
      λ _. rw (zero_irrelevant-letter (record d { reserved0 = replicate 2 0 })) (s.not_settings c);
}

pub clean_drive-IsHarmless : IsHarmless clean_drive
unfolding clean_drive
clean_drive-IsHarmless = record {
  slot = λ l d s. elim (Bool-cases (drive_slot_is_empty d)) [
    | inl e ↦ rw e (empty_drive-IsSlot l)
    | inr n ↦ rw n (tidy-IsSlot l d s ((IsConfigured-nonempty d s.state).0 n))
  ];
  same = λ l d s. elim (Bool-cases (drive_slot_is_empty d)) [
    | inl e ↦ rw e (empty_same d e)
    | inr n ↦ rw n (
        configured_by_state (tidy d) d
          (zero_irrelevant-state (record d { reserved0 = replicate 2 0 })))
  ];
  letter = λ l d s c.
      rw ((IsConfigured-nonempty d s.state).1 c)
        (zero_irrelevant-letter (record d { reserved0 = replicate 2 0 }));
}
