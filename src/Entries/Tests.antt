-- ===== src/Entries/Tests.antt =====
-- The store of entries at concrete inputs.
use side_tnfs_firmware.Prelude.{
  ℕ, ◌<◌, ◌^◌, ◌≡◌, ◌≢◌, refl, ap, true, none, some, List, [], ◌∷◌, ◌++◌, map, length, replicate,
  All, arith, same_text, c_str, drop, drop-replicate, length-replicate,
}
use Prim.Native.String.{String}
use side_tnfs_firmware.Drives.Flash.{codes, char_array}
use side_tnfs_firmware.Entries.{
  ConfigData, default_entry, default_rows, load_default_entries, find_in, find_entry, same_key,
  added, int_text,
}
use side_tnfs_firmware.Entries.Flash.{
  load_all_entries, write_all_entries, replace_bad_domain_entries,
}
use side_tnfs_firmware.Entries.Puts.{IsStore, IsPut, lookup, Put, string, asked, execute_put}
use side_tnfs_firmware.Entries.Sequence.{put_all, promised, put_all-Refines}
use side_tnfs_firmware.Entries.Keys.{default-IsLoaded, default_entries-IsEntry}
use side_tnfs_firmware.Entries.Loaded.{find_entry-default, load_then_put}
use side_tnfs_firmware.Entries.Stored.{IsWritable, Programs, write_then_load}

-- A blank flash.
abbrev blank : List ℕ
blank = replicate 8192 255

abbrev hostname : List ℕ
hostname = codes "HOSTNAME"

abbrev rename_host : Put
rename_host = string hostname (codes "atari")

default_hostname : lookup hostname load_default_entries ≢ none
unfolding find_entry find_in same_key same_text c_str
default_hostname h = ground (arith, h)

put_all-Refines_example :
    (d' : ConfigData) × (put_all (rename_host ∷ rename_host ∷ []) load_default_entries ≡ some d')
    × IsStore d'
    × ((key : List ℕ)
        → lookup key d'
          ≡ promised (rename_host ∷ rename_host ∷ []) (λ k. lookup k load_default_entries) key)
put_all-Refines_example =
    put_all-Refines (rename_host ∷ rename_host ∷ []) load_default_entries default-IsLoaded.store
      (default_hostname, (default_hostname, tt))

blank-length : length blank ≡ 8192
blank-length = length-replicate {A = ℕ} 8192 255

find_entry-default_example :
    find_entry (char_array 20 "BOOT_FEATURE") (load_all_entries blank).1 ≢ none
find_entry-default_example = find_entry-default blank 0 _ blank-length refl

load_then_put_example :
    let (_, d) = load_all_entries blank in
    (find_entry hostname load_default_entries ≢ none
      → (d' : ConfigData) × (execute_put rename_host d ≡ some (added, d'))
        × IsPut hostname (asked rename_host) d d')
    × (find_entry hostname load_default_entries ≡ none → execute_put rename_host d ≡ none)
load_then_put_example = load_then_put blank rename_host blank-length

abbrev erase_store : List ℕ → List ℕ
erase_store _ = replicate 8192 255

abbrev program_store : List ℕ → List ℕ → List ℕ
program_store flash buffer = buffer ++ drop (length buffer) flash

program_store-Programs : Programs erase_store program_store
program_store-Programs flash buffer =
    ap (λ l. buffer ++ l) (drop-replicate {A = ℕ} (length buffer) 8192 255)

rows-IsWritable :
    (rows : List (String × ℕ × String))
    → All (λ row. let (_, data_type, _) = row in data_type < 2 ^ 16) rows
    → All IsWritable (map default_entry rows)
rows-IsWritable [] h = tt
rows-IsWritable ((key, data_type, value) ∷ rows) (h0, h) = (
  record { sized = (default_entries-IsEntry ((key, data_type, value) ∷ [])).0; data_type = h0 },
  rows-IsWritable rows h,
)

write_then_load_example :
    let (written, flash) = write_all_entries erase_store program_store load_default_entries blank in
    (written ≡ true)
    × (load_all_entries flash ≡ (true, replace_bad_domain_entries load_default_entries))
write_then_load_example =
    write_then_load erase_store program_store program_store-Programs load_default_entries blank
      default-IsLoaded refl (rows-IsWritable default_rows (omega arith))

integers : int_text (true, 1200) ≡ codes "-1200"
unfolding int_text
integers = refl
