-- ===== src/Entries/Puts.antt =====
-- romemul/config.c: puts of values under keys, and the map from keys to values that they keep.
use side_tnfs_firmware.Prelude.{
  ℕ, suc, ◌+◌, ◌≤◌, ◌<◌, ◌≡◌, ◌≢◌, ◌⊎◌, ◌↔◌, refl, sym, ap, ◌∙◌, subst, inl, inr, Bool, true, false,
  Bool-cases, Option, none, some, Option-cases, List, [], ◌∷◌, ◌++◌, ltb, if◌then◌else◌, length,
  take, All, arith, c_str, padded, c_str-padded,
}
use side_tnfs_firmware.Settings.Fields.{take-take}
use side_tnfs_firmware.Entries.{
  ConfigEntry, ConfigData, max_entries, type_bool, type_string, type_int, same_key, find_in,
  find_entry, write_value, write_entry, AddStatus, added, add_entry, bool_text, put_bool,
  put_string, int_text, put_integer,
}
use side_tnfs_firmware.Entries.Update.{
  IsEntry, change_in-none, change_in-some, change_at-some, change_at-none,
}
use side_tnfs_firmware.Entries.Written.{
  write_value-IsEntry, write_value-text, write_entry-IsEntry, write_entry-text,
}

-- The arrays have their sizes.
pub record IsStore (d : ConfigData) : Type 0 where
  pub size : length d.entries ≡ max_entries
  pub count : d.count ≤ max_entries
  pub entries : All IsEntry d.entries

-- The type and the text of a value.
abbrev pub Value : Type 0
Value = ℕ × List ℕ

abbrev pub view : Option ConfigEntry → Option Value
view none = none
view (some e) = some (e.data_type, c_str e.value)

abbrev pub lookup : List ℕ → ConfigData → Option Value
lookup key d = view (find_entry key d)

-- What was put is found, under keys like its key.
abbrev pub IsPut : List ℕ → Value → ConfigData → ConfigData → Type 0
IsPut key v d d' =
    (key' : List ℕ) → lookup key' d' ≡ (if same_key key key' then some v else lookup key' d)

view-changed :
    (b : Bool) (e : ConfigEntry) (o : Option ConfigEntry)
    → view (if b then some e else o) ≡ (if b then view (some e) else view o)
view-changed true e o = refl
view-changed false e o = refl

-- A key that is found has its value replaced.
add_entry-known :
    (key : List ℕ) (data_type : ℕ) (value : List ℕ) (d : ConfigData) (e : ConfigEntry)
    → IsStore d
    → find_entry key d ≡ some e
    → (d' : ConfigData) × (add_entry key data_type value d ≡ some (added, d'))
      × IsStore d'
      × (d'.count ≡ d.count)
      × IsPut key (data_type, take 63 (c_str value)) d d'
unfolding add_entry find_entry write_value
add_entry-known key data_type value d e s h =
    let (se, (es', c, changed)) =
      change_in-some key (write_value data_type value) (write_value-IsEntry data_type value)
        (λ _. refl) d.count d.entries e s.entries h in
    let room : ltb max_entries d.count ≡ false = let k = s.count in ground (arith, k) in
    (
      record d { entries = es' },
      rw (room, c) refl,
      record { size = changed.size ∙ s.size; count = s.count; entries = changed.entries },
      refl,
      λ key'.
          ap view (changed.found key')
          ∙ view-changed (same_key key key') _ _
          ∙ ap
              (λ t.
                if same_key key key'
                then some (data_type, t)
                else view (find_in d.count key' d.entries))
              (write_value-text data_type value e se),
    )

-- A key that is not found gets an entry behind the others.
add_entry-new :
    (key : List ℕ) (data_type : ℕ) (value : List ℕ) (d : ConfigData)
    → IsStore d
    → d.count < max_entries
    → find_entry key d ≡ none
    → (d' : ConfigData) × (add_entry key data_type value d ≡ some (added, d'))
      × IsStore d'
      × (d'.count ≡ d.count + 1)
      × IsPut key (data_type, take 63 (c_str value)) d d'
unfolding add_entry find_entry write_entry write_value
add_entry-new key data_type value d s l h =
    let (e, se, (es', c, changed)) =
      change_at-some key (write_entry key data_type value) (write_entry-IsEntry key data_type value)
        (λ e' s'. (write_entry-text key data_type value e' s').1) d.count d.entries s.entries
        (let k = s.size in omega (arith, k, l)) h in
    let room : ltb max_entries d.count ≡ false = let k = s.count in ground (arith, k) in
    let count : suc d.count ≡ d.count + 1 = omega arith in
    let none_yet = change_in-none d.count key (write_value data_type value) d.entries h in
    (
      record d { entries = es'; count = d.count + 1 },
      rw (room, none_yet, c) refl,
      record { size = changed.size ∙ s.size; count = omega (arith, l); entries = changed.entries },
      refl,
      λ key'.
          ap (λ n. view (find_in n key' es')) (sym count)
          ∙ ap view (changed.found key')
          ∙ view-changed (same_key key key') _ _
          ∙ ap
              (λ t.
                if same_key key key'
                then some (data_type, t)
                else view (find_in d.count key' d.entries))
              (write_entry-text key data_type value e se).0,
    )

-- The two cases, and the third.
add_entry-full :
    (key : List ℕ) (data_type : ℕ) (value : List ℕ) (d : ConfigData)
    → IsStore d
    → d.count ≡ max_entries
    → find_entry key d ≡ none
    → add_entry key data_type value d ≡ none
unfolding add_entry find_entry
add_entry-full key data_type value d s l h =
    let room : ltb max_entries d.count ≡ false = let k = s.count in ground (arith, k) in
    let a = change_in-none d.count key (write_value data_type value) d.entries h in
    let b =
      change_at-none d.count (write_entry key data_type value) d.entries
        (let k = s.size in omega (arith, k, l)) in
    rw (room, a, b) refl

-- Calls of the three functions.
pub data Put : Type 0 where
  bool : List ℕ → Bool → Put
  string : List ℕ → List ℕ → Put
  integer : List ℕ → Bool × ℕ → Put

unfoldable pub execute_put : Put → ConfigData → Option (AddStatus × ConfigData)
execute_put (bool key value) d = put_bool key value d
execute_put (string key value) d = put_string key value d
execute_put (integer key value) d = put_integer key value d

abbrev pub key_of : Put → List ℕ
key_of (bool key value) = key
key_of (string key value) = key
key_of (integer key value) = key

abbrev pub asked : Put → Value
asked (bool key value) = (type_bool, take 63 (c_str (bool_text value)))
asked (string key value) = (type_string, take 63 (c_str value))
asked (integer key value) = (type_int, take 63 (c_str (int_text value)))

-- A put is one call of `add_entry`, with a value that has the text that is asked for.
one_call :
    (p : Put)
    → (data_type : ℕ) × (value : List ℕ) × ((d : ConfigData)
        → execute_put p d ≡ add_entry (key_of p) data_type value d)
      × (◌≡◌ {A = Value} (data_type, take 63 (c_str value)) (asked p))
unfolding execute_put put_bool put_string put_integer
one_call (bool key value) = (type_bool, bool_text value, (λ d. refl), refl)
one_call (string key value) = (
  type_string,
  padded 63 value ++ (0 ∷ []),
  (λ d. refl),
  ap (λ t. (type_string, t)) (ap (take 63) (c_str-padded 63 value []) ∙ take-take 63 (c_str value)),
)
one_call (integer key value) = (type_int, int_text value, (λ d. refl), refl)

-- There is an entry for the key of a put, or room for one.
abbrev pub Fits : Put → ConfigData → Type 0
Fits p d = (find_entry (key_of p) d ≢ none) ⊎ (d.count < max_entries)

-- A put that fits succeeds: the value that was asked for is found under each key like its key, every
-- other key keeps its value, and there is one more entry only when the key had none.
pub execute_put_lem :
    (p : Put) (d : ConfigData)
    → IsStore d
    → Fits p d
    → (d' : ConfigData) × (execute_put p d ≡ some (added, d'))
      × IsStore d'
      × ((find_entry (key_of p) d ≢ none → d'.count ≡ d.count)
          × (find_entry (key_of p) d ≡ none → d'.count ≡ d.count + 1))
      × IsPut (key_of p) (asked p) d d'
execute_put_lem p d s f =
    let (data_type, value, call, text) = one_call p in
    elim (Option-cases (find_entry (key_of p) d)) [
      | inl h ↦
          let (d', e, s', c, put) = add_entry-new (key_of p) data_type value d s (room f h) h in
          (
            d',
            call d ∙ e,
            s',
            ((λ k. absurd (k h)), (λ _. c)),
            subst (λ v. IsPut (key_of p) v d d') text put,
          )
      | inr (x, h) ↦
          let (d', e, s', c, put) = add_entry-known (key_of p) data_type value d x s h in
          (
            d',
            call d ∙ e,
            s',
            ((λ _. c), (λ k. absurd (let j = sym h ∙ k in ground (arith, j)))),
            subst (λ v. IsPut (key_of p) v d d') text put,
          )
    ]
  where
    room : Fits p d → find_entry (key_of p) d ≡ none → d.count < max_entries
    room (inl k) h = absurd (k h)
    room (inr k) h = k

-- A put writes outside the array exactly when all the entries are used and none has its key.
pub execute_put_overruns_iff :
    (p : Put) (d : ConfigData)
    → IsStore d
    → (execute_put p d ≡ none) ↔ ((find_entry (key_of p) d ≡ none) × (d.count ≡ max_entries))
execute_put_overruns_iff p d s = (
  (λ h. elim (Option-cases (find_entry (key_of p) d)) [
    | inl k ↦ elim (Bool-cases (ltb d.count max_entries)) [
      | inl l ↦ absurd (
          let (d', e, _, _, _) = execute_put_lem p d s (inr (ground (arith, l))) in
          let j = sym h ∙ e in ground (arith, j))
      | inr l ↦ (k, let j = s.count in ground (arith, l, j))
    ]
    | inr (x, k) ↦ absurd (
        let (d', e, _, _, _) =
          execute_put_lem p d s (inl (λ j. let i = sym k ∙ j in ground (arith, i))) in
        let j = sym h ∙ e in ground (arith, j))
  ]),
  (λ (h, l).
      let (data_type, value, call, text) = one_call p in
      call d ∙ add_entry-full (key_of p) data_type value d s l h),
)
