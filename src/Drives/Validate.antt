-- ===== src/Drives/Validate.antt =====
-- `sidetnfs_config_validate_structure` accepts exactly the valid drive lists.
use side_tnfs_firmware.Prelude.{
  ℕ, zero, suc, ◌+◌, ◌≤◌, ◌≡◌, ◌≢◌, ◌↔◌, ◌⊎◌, inl, inr, refl, ap, sym, subst, not, true, false,
  some, List, [], ◌∷◌, arith, length, get_elem?, Bool-cases, if◌then◌else◌, ◌==◌,
}
use side_tnfs_firmware.Drives.{
  DriveConfig, DriveFlash, ok, too_many_drives, is_ok, is_valid_drive_letter, drive_slot_is_empty,
  drive_slot_is_configured, validate_drive_record, letter_used, check_slot, count_configured, Scan,
  counted, failed, validate_drives, validate_structure,
}
use side_tnfs_firmware.Drives.Spec.{IsDriveLetter, IsRecord, IsConfigured, IsSlot, IsValid}

pub letter_iff : (l : ℕ) → (is_valid_drive_letter l ≡ true) ↔ IsDriveLetter l
unfolding is_valid_drive_letter
letter_iff l = ground arith

pub record_sound : (d : DriveConfig) → is_ok (validate_drive_record d) ≡ true → IsRecord d
unfolding validate_drive_record
record_sound d h = ground (arith, letter_iff d.drive_letter)

pub record_complete : (d : DriveConfig) → IsRecord d → is_ok (validate_drive_record d) ≡ true
unfolding validate_drive_record
record_complete d h = ground (arith, letter_iff d.drive_letter)

pub IsConfigured-nonempty :
    (d : DriveConfig) → d.state ≤ 2 → (drive_slot_is_empty d ≡ false) ↔ IsConfigured d
unfolding drive_slot_is_empty drive_slot_is_configured
IsConfigured-nonempty d h = ground arith

pub letter_used-false :
    (l : ℕ) (ds : List DriveConfig) (j : ℕ) (e : DriveConfig)
    → letter_used l ds ≡ false
    → get_elem? ds j ≡ some e
    → IsConfigured e
    → e.drive_letter ≢ l
unfolding letter_used
letter_used-false l [] j e h g c = cc
letter_used-false l (d ∷ ds) zero e h g c = ground arith
letter_used-false l (d ∷ ds) (suc j) e h g c = letter_used-false l ds j e (ground arith) g c

letter_unused :
    (l : ℕ) (ds : List DriveConfig)
    → ((j : ℕ) (e : DriveConfig) → get_elem? ds j ≡ some e → IsConfigured e → e.drive_letter ≢ l)
    → letter_used l ds ≡ false
unfolding letter_used
letter_unused l [] h = refl
letter_unused l (d ∷ ds) h = ground (arith, h 0 d refl, letter_unused l ds (λ j e. h (suc j) e))

check_slot_sound :
    (l : ℕ) (d : DriveConfig) (ds : List DriveConfig)
    → is_ok (check_slot l d ds) ≡ true
    → IsSlot l d × (IsConfigured d → letter_used d.drive_letter ds ≡ false)
unfolding check_slot drive_slot_is_configured drive_slot_is_empty
check_slot_sound l d ds h = (
  record {
    state = ground arith;
    complete = λ c. record_sound d (ground arith);
    not_settings = λ c. ground arith;
  },
  λ c. ground arith,
)

check_slot_complete :
    (l : ℕ) (d : DriveConfig) (ds : List DriveConfig)
    → IsSlot l d
    → (IsConfigured d → letter_used d.drive_letter ds ≡ false)
    → is_ok (check_slot l d ds) ≡ true
unfolding check_slot drive_slot_is_empty
check_slot_complete l d ds s u = elim (Bool-cases (drive_slot_is_configured d)) [
  | inl c ↦ ground (arith, record_complete d (s.complete c), s.not_settings c, u c, s.state)
  | inr n ↦ ground (arith, s.state, IsConfigured-nonempty d s.state)
]

-- The loop's view: every slot is right, and no configured letter comes back behind it.
abbrev pub Scanned : ℕ → List DriveConfig → Type 0
Scanned l [] = Unit
Scanned l (d ∷ ds) =
    IsSlot l d × (IsConfigured d → letter_used d.drive_letter ds ≡ false) × Scanned l ds

validate_drives_sound :
    (l count : ℕ) (ds : List DriveConfig) (n : ℕ)
    → validate_drives l count ds ≡ counted n
    → Scanned l ds × (n ≡ count + count_configured ds)
unfolding validate_drives count_configured
validate_drives_sound l count [] n h = (tt, ground arith)
validate_drives_sound l count (d ∷ ds) n h = elim (Bool-cases (is_ok (check_slot l d ds))) [
  | inl e ↦
      let (s, u) = check_slot_sound l d ds e in
      let k = if drive_slot_is_empty d then count else count + 1 in
      let (g, m) = validate_drives_sound l k ds n (ground arith) in
      ((s, u, g), ground (arith, IsConfigured-nonempty d s.state))
  | inr e ↦ absurd (ground arith)
]

validate_drives_complete :
    (l count : ℕ) (ds : List DriveConfig)
    → Scanned l ds
    → validate_drives l count ds ≡ counted (count + count_configured ds)
unfolding validate_drives count_configured
validate_drives_complete l count [] g = ground arith
validate_drives_complete l count (d ∷ ds) (s, u, g) = ground (
  arith,
  check_slot_complete l d ds s u,
  IsConfigured-nonempty d s.state,
  validate_drives_complete l count ds g,
  validate_drives_complete l (count + 1) ds g,
)

Scanned-each :
    (l : ℕ) (ds : List DriveConfig) (i : ℕ) (d : DriveConfig)
    → Scanned l ds
    → get_elem? ds i ≡ some d
    → IsSlot l d
Scanned-each l [] i d g h = absurd (ground arith)
Scanned-each l (x ∷ ds) zero d g h = subst (IsSlot l) (ground arith) g.0
Scanned-each l (x ∷ ds) (suc i) d g h = Scanned-each l ds i d g.2 h

Scanned-distinct :
    (l : ℕ) (ds : List DriveConfig) (i j : ℕ) (d e : DriveConfig)
    → Scanned l ds
    → i ≢ j
    → get_elem? ds i ≡ some d
    → get_elem? ds j ≡ some e
    → IsConfigured d
    → IsConfigured e
    → d.drive_letter ≢ e.drive_letter
Scanned-distinct l [] i j d e g n hd he cd ce = absurd (ground arith)
Scanned-distinct l (x ∷ ds) zero zero d e g n hd he cd ce = absurd (n refl)
Scanned-distinct l (x ∷ ds) zero (suc j) d e (s, u, g) n hd he cd ce =
    let same : x ≡ d = ground arith in
    ground (arith, same, letter_used-false x.drive_letter ds j e (u (rw same cd)) he ce)
Scanned-distinct l (x ∷ ds) (suc i) zero d e (s, u, g) n hd he cd ce =
    let same : x ≡ e = ground arith in
    ground (arith, same, letter_used-false x.drive_letter ds i d (u (rw same ce)) hd cd)
Scanned-distinct l (x ∷ ds) (suc i) (suc j) d e g n hd he cd ce =
    Scanned-distinct l ds i j d e g.2 (λ p. n (ap suc p)) hd he cd ce

Scanned-of :
    (l : ℕ) (ds : List DriveConfig)
    → ((i : ℕ) (d : DriveConfig) → get_elem? ds i ≡ some d → IsSlot l d)
    → ((i j : ℕ) (d e : DriveConfig)
        → i ≢ j
        → get_elem? ds i ≡ some d
        → get_elem? ds j ≡ some e
        → IsConfigured d
        → IsConfigured e
        → d.drive_letter ≢ e.drive_letter)
    → Scanned l ds
Scanned-of l [] each distinct = tt
Scanned-of l (d ∷ ds) each distinct = (
  each 0 d refl,
  λ c.
      letter_unused d.drive_letter ds
        (λ j e g ce p. distinct 0 (suc j) d e (λ z. omega arith) refl g c ce (sym p)),
  Scanned-of l ds (λ i. each (suc i))
      (λ i j x y n. distinct (suc i) (suc j) x y (λ p. n (omega arith))),
)

pub count_configured-le : (ds : List DriveConfig) → count_configured ds ≤ length ds
unfolding count_configured
count_configured-le [] = omega arith
count_configured-le (d ∷ ds) = ground (arith, count_configured-le ds)

scan_is_ok :
    (scan : Scan) (count : ℕ)
    → elim scan [ failed e ↦ e | counted n ↦ if not (n == count) then too_many_drives else ok ] ≡ ok
    → (scan ≡ failed ok) ⊎ (scan ≡ counted count)
scan_is_ok (failed e) count h = inl (ap failed h)
scan_is_ok (counted n) count h = inr (ground arith)

-- The loop fails with an error, never with the status for success.
validate_drives-ne-failed :
    (l count : ℕ) (ds : List DriveConfig) → validate_drives l count ds ≢ failed ok
unfolding validate_drives
validate_drives-ne-failed l count [] h = cc
validate_drives-ne-failed l count (d ∷ ds) h =
    ground (arith, validate_drives-ne-failed l count ds, validate_drives-ne-failed l (count + 1) ds)

validate_structure-scan :
    (c : DriveFlash)
    → validate_structure c ≡ ok
    → IsDriveLetter c.config_drive_letter
      × (validate_drives c.config_drive_letter 0 c.drives ≡ counted c.drive_count)
unfolding validate_structure
validate_structure-scan c h = ground (
  arith,
  letter_iff c.config_drive_letter,
  scan_is_ok (validate_drives c.config_drive_letter 0 c.drives) c.drive_count,
  validate_drives-ne-failed c.config_drive_letter 0 c.drives,
)

pub validate_structure_sound :
    (c : DriveFlash) → length c.drives ≡ 8 → validate_structure c ≡ ok → IsValid c
validate_structure_sound c len h =
    let (l, e) = validate_structure-scan c h in
    let (g, n) = validate_drives_sound c.config_drive_letter 0 c.drives c.drive_count e in
    record {
      slots = len;
      letter = l;
      each = λ i d. Scanned-each c.config_drive_letter c.drives i d g;
      distinct = λ i j d e k. Scanned-distinct c.config_drive_letter c.drives i j d e g k;
      count = omega (arith, n);
    }

pub validate_structure_complete : (c : DriveFlash) → IsValid c → validate_structure c ≡ ok
unfolding validate_structure
validate_structure_complete c v = ground (
  arith,
  letter_iff c.config_drive_letter,
  v.letter,
  v.count,
  v.slots,
  count_configured-le c.drives,
  validate_drives_complete c.config_drive_letter 0 c.drives
      (Scanned-of c.config_drive_letter c.drives v.each v.distinct),
)

-- Of a list of eight slots the structural check accepts exactly the valid ones: the settings letter
-- and every configured letter from C to Z and all different, every slot in a known state, every
-- configured record complete for its type, and the stored count the number of configured slots.
pub validate_structure_iff :
    (c : DriveFlash) → length c.drives ≡ 8 → (validate_structure c ≡ ok) ↔ IsValid c
validate_structure_iff c len = (validate_structure_sound c len, validate_structure_complete c)
