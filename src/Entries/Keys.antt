-- ===== src/Entries/Keys.antt =====
-- romemul/config.c: whatever is in flash, loading keeps the keys of the defaults.
use Prim.Native.String.{String}
use side_tnfs_firmware.Prelude.{
  length-drop, ℕ, zero, suc, ◌+◌, ◌*◌, ◌≤◌, ◌<◌, ◌≡◌, refl, sym, ap, ◌∙◌, subst, inl, inr, not,
  Bool-cases, Option, none, some, Option-cases, List, [], ◌∷◌, ◌++◌, map, ◌==◌, length,
  length-append, length-take, length-map, length-replicate, replicate, read_le32, drop, get_or, All,
  arith, c_str, padded, length-padded, take-append, same_text,
}
use side_tnfs_firmware.Drives.Flash.{codes, char_array}
use side_tnfs_firmware.Entries.{
  ConfigEntry, ConfigData, max_entries, default_entries, default_entry, default_rows,
  load_default_entries, config_magic, config_magic_4kb, key_text, same_key, behind, change_in,
}
use side_tnfs_firmware.Entries.Flash.{
  read_entry, kept_or, overlay, load_loop, strcpy, replace_text, replace_bad_domain,
  with_good_domain, replace_bad_domain_entries, load_from, load_all_entries,
}
use side_tnfs_firmware.Entries.Update.{IsEntry, same_key-text}
use side_tnfs_firmware.Entries.Written.{text-padded}
use side_tnfs_firmware.Entries.Puts.{IsStore}

abbrev pub keys : List ConfigEntry → List (List ℕ)
keys es = map (λ e. key_text e.key) es

-- A change of entries that keeps keys and sizes.
record IsLike (es es' : List ConfigEntry) : Type 0 where
  same : keys es' ≡ keys es
  entries : All IsEntry es'

some-list : {a b : List ConfigEntry} → some a ≡ some b → a ≡ b
some-list h = cc

behind_inv :
    (e : ConfigEntry) (o : Option (List ConfigEntry)) (es' : List ConfigEntry)
    → behind e o ≡ some es'
    → (rest : List ConfigEntry) × (o ≡ some rest) × (e ∷ rest ≡ es')
behind_inv e none es' h = absurd (ground (arith, h))
behind_inv e (some rest) es' h = (rest, refl, some-list h)

cons-IsLike :
    (e : ConfigEntry) (es es' : List ConfigEntry)
    → IsEntry e
    → IsLike es es'
    → IsLike (e ∷ es) (e ∷ es')
cons-IsLike e es es' s h = record {
  same = ap (λ ks. key_text e.key ∷ ks) h.same;
  entries = (s, h.entries);
}

change_in-IsLike :
    (n : ℕ) (key : List ℕ) (entry : ConfigEntry) (es es' : List ConfigEntry)
    → IsEntry entry
    → key_text entry.key ≡ key_text key
    → All IsEntry es
    → change_in n key (λ _. entry) es ≡ some es'
    → IsLike es es'
unfolding change_in
change_in-IsLike zero key entry es es' s k h e = absurd (ground (arith, e))
change_in-IsLike (suc n) key entry [] es' s k h e = absurd (ground (arith, e))
change_in-IsLike (suc n) key entry (e0 ∷ es) es' s k (h0, h) e =
    elim (Bool-cases (same_key e0.key key)) [
      | inl b ↦ subst (IsLike (e0 ∷ es)) (some-list (let g = rw b at e in g)) (record {
        same = ap (λ t. t ∷ keys es) (k ∙ sym (same_key-text e0.key key b));
        entries = (s, h);
      })
      | inr b ↦
          let g = rw b at e in
          let (rest, r, c) = behind_inv e0 _ es' g in
          subst (IsLike (e0 ∷ es)) c
            (cons-IsLike e0 es rest h0 (change_in-IsLike n key entry es rest s k h r))
    ]

-- `keyStr` has the text of the key.
pub key_str_text : (key : List ℕ) → key_text key ≡ key_text (padded 20 key ++ (0 ∷ []))
key_str_text key =
    sym (text-padded 20 key)
    ∙ ap c_str (sym (take-append (padded 20 key) (0 ∷ []) 20 (length-padded 20 key)))

read_entry-IsEntry : (bs : List ℕ) → 86 ≤ length bs → IsEntry (read_entry bs)
unfolding read_entry
read_entry-IsEntry bs h = record {
  key = length-take 20 bs ∙ omega (arith, h);
  value = length-take 64 (drop 22 bs) ∙ omega (arith, h, length-drop 22 bs);
}

-- What loading keeps of the defaults.
pub record IsLoaded (d : ConfigData) : Type 0 where
  pub store : IsStore d
  pub count : d.count ≡ max_entries
  pub same : keys d.entries ≡ keys default_entries

length-keys : (es : List ConfigEntry) → length (keys es) ≡ length es
length-keys es = length-map (λ (e : ConfigEntry). key_text e.key) es

with_entries-IsLoaded :
    (d : ConfigData) (es : List ConfigEntry)
    → IsLoaded d
    → IsLike d.entries es
    → IsLoaded (record d { entries = es })
with_entries-IsLoaded d es h l = record {
  store = record {
    size =
        sym (length-keys es)
        ∙ ap (λ (ks : List (List ℕ)). length ks) l.same
        ∙ length-keys d.entries
        ∙ h.store.size;
    count = h.store.count;
    entries = l.entries;
  };
  count = h.count;
  same = l.same ∙ h.same;
}

overlay-IsLoaded :
    (entry : ConfigEntry) (d : ConfigData) → IsEntry entry → IsLoaded d → IsLoaded (overlay entry d)
unfolding overlay kept_or
overlay-IsLoaded entry d s h =
    elim (Option-cases
      (change_in d.count (padded 20 entry.key ++ (0 ∷ [])) (λ _. entry) d.entries)) [
        | inl e ↦ rw e h
        | inr (es, e) ↦ rw e (
            with_entries-IsLoaded d es h (
              change_in-IsLike d.count (padded 20 entry.key ++ (0 ∷ [])) entry d.entries es s
                (key_str_text entry.key) h.store.entries e))
      ]

load_loop-IsLoaded :
    (n : ℕ) (bs : List ℕ) (d : ConfigData)
    → n * 86 ≤ length bs
    → IsLoaded d
    → IsLoaded (load_loop n bs d)
unfolding load_loop
load_loop-IsLoaded zero bs d l h = h
load_loop-IsLoaded (suc n) bs d l h = elim (Bool-cases (get_or (read_entry bs).key 0 0 == 0)) [
  | inl e ↦ rw e h
  | inr e ↦ rw e (
      load_loop-IsLoaded n (drop 86 bs) (overlay (read_entry bs) d)
        (omega (arith, l, length-drop 86 bs))
        (overlay-IsLoaded (read_entry bs) d (read_entry-IsEntry bs (omega (arith, l))) h))
]

replace_text-size :
    (bad good : String) (value : List ℕ)
    → length (codes good) < 64
    → length value ≡ 64
    → length (replace_text bad good value) ≡ 64
unfolding replace_text strcpy
replace_text-size bad good value l h = elim (Bool-cases (same_text (c_str value) (codes bad))) [
  | inl e ↦ rw e (
      length-append (codes good) (0 ∷ drop (length (codes good) + 1) value)
      ∙ omega (arith, l, h, length-drop (length (codes good) + 1) value))
  | inr e ↦ rw e h
]

replace_bad_domain-size :
    (value : List ℕ) → length value ≡ 64 → length (replace_bad_domain value) ≡ 64
unfolding replace_bad_domain
replace_bad_domain-size value h =
    replace_text-size "http://atarist.sidecart.xyz/version.txt" _ _ (omega arith) (
      replace_text-size "http://atarist.sidecart.xyz/beta.txt" _ _ (omega arith) (
        replace_text-size "http://roms.sidecart.xyz/roms.json" _ _ (omega arith)
          (replace_text-size "http://ataristdb.sidecart.xyz" _ value (omega arith) h)))

char_array-size : (n : ℕ) (s : String) → length (char_array n s) ≡ n
char_array-size n s =
    length-take n (codes s ++ replicate n 0)
    ∙ omega (arith, length-append (codes s) (replicate n 0), length-replicate {A = ℕ} n 0)

pub default_entries-IsEntry :
    (rows : List (String × ℕ × String)) → All IsEntry (map default_entry rows)
default_entries-IsEntry [] = tt
default_entries-IsEntry ((key, data_type, value) ∷ rows) = (
  record { key = char_array-size 20 key; value = char_array-size 64 value },
  default_entries-IsEntry rows,
)

pub default-IsLoaded : IsLoaded load_default_entries
default-IsLoaded = record {
  store = record {
    size = refl;
    count = omega arith;
    entries = default_entries-IsEntry default_rows;
  };
  count = refl;
  same = refl;
}

with_good_domain-IsEntry : (e : ConfigEntry) → IsEntry e → IsEntry (with_good_domain e)
with_good_domain-IsEntry e s = record {
  key = s.key;
  value = replace_bad_domain-size e.value s.value;
}

good-IsLike : (es : List ConfigEntry) → All IsEntry es → IsLike es (map with_good_domain es)
good-IsLike [] s = record { same = refl; entries = tt }
good-IsLike (e ∷ es) (s0, s) =
    let rest = good-IsLike es s in
    record {
      same = ap (λ ks. key_text e.key ∷ ks) rest.same;
      entries = (with_good_domain-IsEntry e s0, rest.entries);
    }

replace_bad_domain_entries-IsLoaded :
    (d : ConfigData) → IsLoaded d → IsLoaded (replace_bad_domain_entries d)
unfolding replace_bad_domain_entries
replace_bad_domain_entries-IsLoaded d h =
    with_entries-IsLoaded d (map with_good_domain d.entries) h
      (good-IsLike d.entries h.store.entries)

load_from-IsLoaded :
    (bs : List ℕ) (most : ℕ) → 4 + most * 86 ≤ length bs → IsLoaded (load_from bs most)
unfolding load_from
load_from-IsLoaded bs most h =
    replace_bad_domain_entries-IsLoaded (load_loop most (drop 4 bs) load_default_entries) (
      load_loop-IsLoaded most (drop 4 bs) load_default_entries (omega (arith, h, length-drop 4 bs))
        default-IsLoaded)

-- Whatever the 8 KB of flash hold, the store is full after loading, and its keys are those of the
-- defaults, in their order.
pub load_all_entries-IsLoaded :
    (flash : List ℕ) → length flash ≡ 8192 → IsLoaded (load_all_entries flash).1
unfolding load_all_entries
load_all_entries-IsLoaded flash h = elim (Bool-cases (not (read_le32 flash == config_magic))) [
  | inr e ↦ rw e (load_from-IsLoaded flash max_entries (omega (arith, h)))
  | inl e ↦ elim (Bool-cases (not (read_le32 (drop 4096 flash) == config_magic_4kb))) [
    | inl f ↦ rw (e, f) default-IsLoaded
    | inr f ↦
        rw (e, f)
          (load_from-IsLoaded (drop 4096 flash) 47 (omega (arith, h, length-drop 4096 flash)))
  ]
]
