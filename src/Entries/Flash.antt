-- ===== src/Entries/Flash.antt =====
-- romemul/config.c: loading the entries from flash, and writing them.
use Prim.Native.String.{String}
use side_tnfs_firmware.Prelude.{
  ℕ, zero, suc, ◌+◌, ◌*◌, Bool, true, false, not, Option, none, some, List, [], ◌∷◌, ◌++◌, map, ltb,
  ◌==◌, if◌then◌else◌, length, take, drop, get_or, replicate, le16, le32, read_le16, read_le32,
  c_str, padded, same_text,
}
use side_tnfs_firmware.Drives.Flash.{codes}
use side_tnfs_firmware.Entries.{
  ConfigEntry, ConfigData, config_magic, config_magic_4kb, max_entries, change_in,
  load_default_entries,
}

-- `memcpy` of an entry of 86 bytes.
unfoldable pub read_entry : List ℕ → ConfigEntry
read_entry bs = record {
  key = take 20 bs;
  data_type = read_le16 (drop 20 bs);
  value = take 64 (drop 22 bs);
}

unfoldable pub kept_or : ConfigData → Option (List ConfigEntry) → ConfigData
kept_or d none = d
kept_or d (some entries) = record d { entries = entries }

-- An entry of the flash takes the place of that with its key; `keyStr` is its key and a NUL.
unfoldable pub overlay : ConfigEntry → ConfigData → ConfigData
unfolding kept_or
overlay entry d =
    kept_or d (change_in d.count (padded 20 entry.key ++ (0 ∷ [])) (λ _. entry) d.entries)

-- The loop of `load_all_entries`, for this many more entries.
unfoldable pub load_loop : ℕ → List ℕ → ConfigData → ConfigData
load_loop zero bs d = d
load_loop (suc n) bs d =
    let rest = load_loop n (drop 86 bs) (overlay (read_entry bs) d) in
    if get_or (read_entry bs).key 0 0 == 0 then d else rest

-- `strcpy`
unfoldable pub strcpy : List ℕ → List ℕ → List ℕ
strcpy dst src = src ++ (0 ∷ drop (length src + 1) dst)

unfoldable pub replace_text : String → String → List ℕ → List ℕ
unfolding strcpy
replace_text bad good value =
    if same_text (c_str value) (codes bad) then strcpy value (codes good) else value

unfoldable pub replace_bad_domain : List ℕ → List ℕ
replace_bad_domain value =
    let v1 =
      replace_text "http://ataristdb.sidecart.xyz" "http://ataristdb.sidecartridge.com" value in
    let v2 =
      replace_text "http://roms.sidecart.xyz/roms.json" "http://roms.sidecartridge.com/roms.json"
        v1 in
    let v3 =
      replace_text "http://atarist.sidecart.xyz/beta.txt"
        "http://atarist.sidecartridge.com/beta.txt" v2 in
    replace_text "http://atarist.sidecart.xyz/version.txt"
      "http://atarist.sidecartridge.com/version.txt" v3

abbrev pub with_good_domain : ConfigEntry → ConfigEntry
with_good_domain e = record e { value = replace_bad_domain e.value }

-- `replace_bad_domain_entries`, over the whole array.
unfoldable pub replace_bad_domain_entries : ConfigData → ConfigData
replace_bad_domain_entries d = record d { entries = map with_good_domain d.entries }

-- The entries behind the magic number: where they start, and how many at most.
unfoldable pub load_from : List ℕ → ℕ → ConfigData
unfolding replace_bad_domain_entries
load_from bs most = replace_bad_domain_entries (load_loop most (drop 4 bs) load_default_entries)

-- `load_all_entries` on the 8 KB of the store: whether real entries were found, and the entries.
unfoldable pub load_all_entries : List ℕ → Bool × ConfigData
load_all_entries flash =
    let magic = read_le32 flash in
    let old_magic = read_le32 (drop 4096 flash) in
    if not (magic == config_magic)
    then (if not (old_magic == config_magic_4kb)
        then (false, load_default_entries)
        else (true, load_from (drop 4096 flash) 47))
    else (true, load_from flash max_entries)

unfoldable pub encode_entry : ConfigEntry → List ℕ
encode_entry e = e.key ++ le16 e.data_type ++ e.value

unfoldable pub encode_entries : List ConfigEntry → List ℕ
unfolding encode_entry
encode_entries [] = []
encode_entries (e ∷ entries) = encode_entry e ++ encode_entries entries

-- The bytes of `configData`.
unfoldable pub encode_data : ConfigData → List ℕ
unfolding encode_entries
encode_data d = le32 d.magic ++ encode_entries d.entries ++ le32 d.count

-- `clear_config`
unfoldable pub clear_config : ConfigData
clear_config = record {
  magic = 0;
  entries =
      replicate max_entries
        (record { key = replicate 20 0; data_type = 0; value = replicate 64 0 });
  count = 0;
}

module _ (flash_range_erase : List ℕ → List ℕ)
    (flash_range_program : List ℕ → List ℕ → List ℕ) where
  -- `write_all_entries`: whether it wrote, and the flash; `program_buf` has 4352 bytes.
  unfoldable pub write_all_entries : ConfigData → List ℕ → Bool × List ℕ
  write_all_entries d flash =
      if ltb 8192 (d.count * 86)
      then (false, flash)
      else (true, flash_range_program (flash_range_erase flash) (encode_data d ++ replicate 216 0))

  -- `reset_config_default`
  unfoldable pub reset_config_default : List ℕ → ConfigData × List ℕ
  reset_config_default flash =
      (load_default_entries, (write_all_entries load_default_entries (flash_range_erase flash)).1)
