-- ===== src/Drives/Preserve.antt =====
-- The operations on the copy in RAM keep the drive list valid, and an error changes nothing.
use side_tnfs_firmware.Prelude.{
  ℕ, zero, suc, ◌+◌, ◌≤◌, ◌<◌, ◌≡◌, ◌≢◌, ◌⊎◌, inl, inr, refl, ap, sym, ◌∙◌, subst, true, false,
  some, List, [], ◌∷◌, arith, length, length-set, get_elem?, get_elem?-set, set, Bool-cases, ◌==◌,
}
use side_tnfs_firmware.Drives.{
  DriveConfig, DriveFlash, ok, is_ok, drive_slot_is_configured, is_valid_drive_letter,
  validate_drive_record, letter_used, force_nul_drive, recompute_drive_count, drive_sd, empty_drive,
}
use side_tnfs_firmware.Drives.Commands.{
  letter_taken, candidate_of, zero_irrelevant, store_drive, set_drive, set_drive_state,
  delete_drive, set_config_drive_letter, drive_at, Command, set_drive_cmd, set_state_cmd,
  delete_cmd, set_letter_cmd, execute, execute_all,
}
use side_tnfs_firmware.Drives.Spec.{IsRecord, IsConfigured, IsSlot, IsValid}
use side_tnfs_firmware.Drives.Validate.{letter_iff, record_sound, letter_used-false}

-- A slot of a list after a write: the new drive, or an old one elsewhere.
get_elem?-set_inv :
    (ds : List DriveConfig) (i j : ℕ) (v d : DriveConfig)
    → i < length ds
    → get_elem? (set ds i v) j ≡ some d
    → ((i ≡ j) × (v ≡ d)) ⊎ ((i ≢ j) × (get_elem? ds j ≡ some d))
get_elem?-set_inv ds i j v d h e = ground (arith, get_elem?-set ds i j v h)

module _ (g : DriveFlash) (v : IsValid g) (index : ℕ) (new : DriveConfig) (bound : index < 8)
    (slot : IsSlot g.config_drive_letter new)
    (apart : (j : ℕ) (e : DriveConfig)
      → index ≢ j
      → get_elem? g.drives j ≡ some e
      → IsConfigured new
      → IsConfigured e
      → e.drive_letter ≢ new.drive_letter) where
  written : DriveFlash
  written = recompute_drive_count (record g { drives = set g.drives index new })

  in_array : index < length g.drives
  in_array = omega (arith, v.slots)

  written-each :
      (j : ℕ) (d : DriveConfig)
      → get_elem? (set g.drives index new) j ≡ some d
      → IsSlot g.config_drive_letter d
  written-each j d h = elim (get_elem?-set_inv g.drives index j new d in_array h) [
    | inl (_, e) ↦ subst (IsSlot g.config_drive_letter) e slot
    | inr (_, old) ↦ v.each j d old
  ]

  written-distinct :
      (i j : ℕ) (d e : DriveConfig)
      → i ≢ j
      → get_elem? (set g.drives index new) i ≡ some d
      → get_elem? (set g.drives index new) j ≡ some e
      → IsConfigured d
      → IsConfigured e
      → d.drive_letter ≢ e.drive_letter
  written-distinct i j d e n hd he cd ce =
      elim (get_elem?-set_inv g.drives index i new d in_array hd) [
        | inl (p, same) ↦ elim (get_elem?-set_inv g.drives index j new e in_array he) [
          | inl (q, _) ↦ absurd (n (sym p ∙ q))
          | inr (q, old) ↦ λ r.
              apart j e q old (rw same cd) ce
                (sym r ∙ ap (λ (x : DriveConfig). x.drive_letter) (sym same))
        ]
        | inr (p, old) ↦ elim (get_elem?-set_inv g.drives index j new e in_array he) [
          | inl (q, same) ↦ λ r.
              apart i d p old (rw same ce) cd
                (r ∙ ap (λ (x : DriveConfig). x.drive_letter) (sym same))
          | inr (q, old') ↦ v.distinct i j d e n old old' cd ce
        ]
      ]

  written-IsValid : IsValid (recompute_drive_count (record g { drives = set g.drives index new }))
  unfolding recompute_drive_count
  written-IsValid = record {
    slots = length-set g.drives index new ∙ v.slots;
    letter = v.letter;
    each = written-each;
    distinct = written-distinct;
    count = refl;
  }

pub empty_drive-IsSlot : (l : ℕ) → IsSlot l empty_drive
unfolding drive_slot_is_configured
empty_drive-IsSlot l = record { state = omega arith; complete = λ c. cc; not_settings = λ c. cc }

empty_not_configured : (d : DriveConfig) → IsConfigured empty_drive → ⊥
unfolding drive_slot_is_configured
empty_not_configured d c = cc

-- Emptying a slot.
cleared-IsValid :
    (g : DriveFlash) (index : ℕ)
    → IsValid g
    → index < 8
    → IsValid (recompute_drive_count (record g { drives = set g.drives index empty_drive }))
cleared-IsValid g index v h =
    written-IsValid g v index empty_drive h (empty_drive-IsSlot g.config_drive_letter)
      (λ j e n old c ce. absurd (empty_not_configured e c))

pub letter_taken-false :
    (skip l i : ℕ) (ds : List DriveConfig) (j : ℕ) (e : DriveConfig)
    → letter_taken skip l i ds ≡ false
    → i + j ≢ skip
    → get_elem? ds j ≡ some e
    → IsConfigured e
    → e.drive_letter ≢ l
unfolding letter_taken
letter_taken-false skip l i [] j e h n g c = absurd (ground arith)
letter_taken-false skip l i (d ∷ ds) zero e h n g c = ground arith
letter_taken-false skip l i (d ∷ ds) (suc j) e h n g c =
    letter_taken-false skip l (suc i) ds j e (ground arith) (omega arith) g c

pub zero_irrelevant-letter : (d : DriveConfig) → (zero_irrelevant d).drive_letter ≡ d.drive_letter
unfolding zero_irrelevant
zero_irrelevant-letter d = ground arith

pub zero_irrelevant-state : (d : DriveConfig) → (zero_irrelevant d).state ≡ d.state
unfolding zero_irrelevant
zero_irrelevant-state d = ground arith

pub zero_irrelevant-IsRecord : (d : DriveConfig) → IsRecord d → IsRecord (zero_irrelevant d)
unfolding zero_irrelevant
zero_irrelevant-IsRecord d (l, inl t) =
    let e : (d.type == drive_sd) ≡ false = ground arith in rw e (l, inl t)
zero_irrelevant-IsRecord d (l, inr t) =
    let e : (d.type == drive_sd) ≡ true = ground arith in rw e (l, inr t)

store_drive-IsValid :
    (index : ℕ) (d : DriveConfig) (g : DriveFlash)
    → IsValid g
    → index < 8
    → d.state ≤ 2
    → IsValid (store_drive index d g).1
unfolding store_drive
store_drive-IsValid index d g v h s = elim (Bool-cases (is_ok (validate_drive_record d))) [
  | inr bad ↦ rw bad v
  | inl good ↦ elim (Bool-cases (d.drive_letter == g.config_drive_letter)) [
    | inl same ↦ rw (good, same) v
    | inr free ↦ elim (Bool-cases (letter_taken index d.drive_letter 0 g.drives)) [
      | inl taken ↦ rw (good, free, taken) v
      | inr clear ↦
          rw (good, free, clear)
            (written-IsValid g v index (zero_irrelevant d) h
              (record {
                state = rw zero_irrelevant-state s;
                complete = λ _. zero_irrelevant-IsRecord d (record_sound d good);
                not_settings = λ _. rw zero_irrelevant-letter (ground arith);
              })
              (λ j e n old c ce. rw zero_irrelevant-letter (
                letter_taken-false index d.drive_letter 0 g.drives j e clear (omega arith) old ce)))
    ]
  ]
]

candidate_of-state : (d : DriveConfig) → (candidate_of d).state ≡ d.state
unfolding candidate_of force_nul_drive
candidate_of-state d = refl

set_drive-IsValid :
    (index : ℕ) (d : DriveConfig) (g : DriveFlash) → IsValid g → IsValid (set_drive index d g).1
unfolding set_drive
set_drive-IsValid index d g v = ground (
  arith,
  cleared-IsValid g index v,
  candidate_of-state d,
  store_drive-IsValid index (candidate_of d) g v,
)

set_drive_state-IsValid :
    (index s : ℕ) (g : DriveFlash) → IsValid g → IsValid (set_drive_state index s g).1
unfolding set_drive_state
set_drive_state-IsValid index s g v = ground (
  arith,
  set_drive-IsValid index empty_drive g v,
  set_drive-IsValid index (record (drive_at g index) { state = s }) g v,
)

delete_drive-IsValid : (index : ℕ) (g : DriveFlash) → IsValid g → IsValid (delete_drive index g).1
unfolding delete_drive
delete_drive-IsValid index g v = ground (arith, cleared-IsValid g index v)

set_config_drive_letter-IsValid :
    (l : ℕ) (g : DriveFlash) → IsValid g → IsValid (set_config_drive_letter l g).1
unfolding set_config_drive_letter
set_config_drive_letter-IsValid l g v = elim (Bool-cases (is_valid_drive_letter l)) [
  | inr bad ↦ rw bad v
  | inl good ↦ elim (Bool-cases (letter_used l g.drives)) [
    | inl used ↦ rw (good, used) v
    | inr free ↦
        rw (good, free)
          (record {
            slots = v.slots;
            letter = (letter_iff l).0 good;
            each = λ i d h. record {
              state = (v.each i d h).state;
              complete = (v.each i d h).complete;
              not_settings = λ c. letter_used-false l g.drives i d free h c;
            };
            distinct = v.distinct;
            count = v.count;
          })
  ]
]

execute-IsValid : (c : Command) (g : DriveFlash) → IsValid g → IsValid (execute c g).1
unfolding execute
execute-IsValid (set_drive_cmd i d) g v = set_drive-IsValid i d g v
execute-IsValid (set_state_cmd i s) g v = set_drive_state-IsValid i s g v
execute-IsValid (delete_cmd i) g v = delete_drive-IsValid i g v
execute-IsValid (set_letter_cmd l) g v = set_config_drive_letter-IsValid l g v

-- Whatever commands the Atari sends, and whatever they carry, a valid drive list stays valid.
pub execute_all-IsValid :
    (cs : List Command) (g : DriveFlash) → IsValid g → IsValid (execute_all cs g)
unfolding execute_all
execute_all-IsValid [] g v = v
execute_all-IsValid (c ∷ cs) g v = execute_all-IsValid cs (execute c g).1 (execute-IsValid c g v)

store_drive-error :
    (index : ℕ) (d : DriveConfig) (g : DriveFlash)
    → (store_drive index d g).0 ≢ ok
    → (store_drive index d g).1 ≡ g
unfolding store_drive
store_drive-error index d g h = ground arith

set_drive-error :
    (index : ℕ) (d : DriveConfig) (g : DriveFlash)
    → (set_drive index d g).0 ≢ ok
    → (set_drive index d g).1 ≡ g
unfolding set_drive
set_drive-error index d g h = ground (arith, store_drive-error index (candidate_of d) g)

-- A command that reports an error leaves the drive list as it was.
pub execute-error : (c : Command) (g : DriveFlash) → (execute c g).0 ≢ ok → (execute c g).1 ≡ g
unfolding execute set_drive_state delete_drive set_config_drive_letter
execute-error (set_drive_cmd i d) g h = set_drive-error i d g h
execute-error (set_state_cmd i s) g h = ground (
  arith,
  set_drive-error i empty_drive g,
  set_drive-error i (record (drive_at g i) { state = s }) g,
)
execute-error (delete_cmd i) g h = ground arith
execute-error (set_letter_cmd l) g h = ground arith
