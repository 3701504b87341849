-- ===== src/Entries/Written.antt =====
-- romemul/config.c: the entry that a put leaves.
use side_tnfs_firmware.Prelude.{
  length-drop, ℕ, zero, suc, ◌≡◌, refl, ap, ◌∙◌, inl, inr, Bool-cases, List, [], ◌∷◌, ◌==◌, length,
  length-append, take, drop, set, arith, c_str, strncpy, padded, length-padded, c_str-padded,
  take-append,
}
use side_tnfs_firmware.Settings.Network.{copy_over}
use side_tnfs_firmware.Settings.Fields.{clean_field, copy_over_lem}
use side_tnfs_firmware.Entries.{ConfigEntry, key_text, write_value, write_entry}
use side_tnfs_firmware.Entries.Update.{IsEntry}

stored_value :
    (value field : List ℕ)
    → length field ≡ 64
    → set (strncpy field value 63) 63 0 ≡ clean_field 63 value
unfolding copy_over
stored_value value field h = copy_over_lem 63 field value h

length-clean_field : (n : ℕ) (src : List ℕ) → length (clean_field n src) ≡ suc n
length-clean_field n src =
    length-append (padded n src) (0 ∷ []) ∙ omega (arith, length-padded n src)

pub write_value-IsEntry :
    (data_type : ℕ) (value : List ℕ) (e : ConfigEntry)
    → IsEntry e
    → IsEntry (write_value data_type value e)
unfolding write_value
write_value-IsEntry data_type value e s = record {
  key = s.key;
  value =
      ap (λ (l : List ℕ). length l) (stored_value value e.value s.value)
      ∙ length-clean_field 63 value;
}

-- The text of a value that was written.
pub write_value-text :
    (data_type : ℕ) (value : List ℕ) (e : ConfigEntry)
    → IsEntry e
    → c_str (write_value data_type value e).value ≡ take 63 (c_str value)
unfolding write_value
write_value-text data_type value e s =
    ap c_str (stored_value value e.value s.value) ∙ c_str-padded 63 value []

pub text-padded : (n : ℕ) (src : List ℕ) → c_str (padded n src) ≡ c_str (take n src)
unfolding c_str padded
text-padded zero src = refl
text-padded (suc n) [] = refl
text-padded (suc n) (c ∷ s) = elim (Bool-cases (c == 0)) [
  | inl e ↦ rw e refl
  | inr e ↦ rw e (ap (λ t. c ∷ t) (text-padded n s))
]

written_key :
    (key field : List ℕ)
    → length field ≡ 20
    → (length (strncpy field key 20) ≡ 20) × (key_text (strncpy field key 20) ≡ key_text key)
unfolding strncpy
written_key key field h = (
  length-append (padded 20 key) (drop 20 field)
      ∙ omega (arith, length-padded 20 key, length-drop 20 field, h),
  ap c_str (take-append (padded 20 key) (drop 20 field) 20 (length-padded 20 key))
      ∙ text-padded 20 key,
)

pub write_entry-IsEntry :
    (key : List ℕ) (data_type : ℕ) (value : List ℕ) (e : ConfigEntry)
    → IsEntry e
    → IsEntry (write_entry key data_type value e)
unfolding write_entry
write_entry-IsEntry key data_type value e s =
    write_value-IsEntry data_type value (record e { key = strncpy e.key key 20 })
      (record { key = (written_key key e.key s.key).0; value = s.value })

pub write_entry-text :
    (key : List ℕ) (data_type : ℕ) (value : List ℕ) (e : ConfigEntry)
    → IsEntry e
    → (c_str (write_entry key data_type value e).value ≡ take 63 (c_str value))
      × (key_text (write_entry key data_type value e).key ≡ key_text key)
unfolding write_entry write_value
write_entry-text key data_type value e s = (
  ap c_str (stored_value value e.value s.value) ∙ c_str-padded 63 value [],
  (written_key key e.key s.key).1,
)
