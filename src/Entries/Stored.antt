-- ===== src/Entries/Stored.antt =====
-- romemul/config.c: entries that are written are loaded by the next boot.
use side_tnfs_firmware.Prelude.{
  ℕ, zero, suc, ◌+◌, ◌*◌, ◌-◌, ◌≤◌, ◌<◌, ◌^◌, ◌≡◌, refl, sym, ap, ◌∙◌, subst, inl, inr, true, false,
  Bool-cases, some, List, [], ◌∷◌, ◌++◌, append_assoc, ltb, ◌==◌, length, take, drop, length-append,
  padded, take-append, drop-append, get_or, replicate, All, le16, le32, read_le16, read_le32,
  read_le16-le16, read_le32-le32, arith, same_text, c_str,
}
use side_tnfs_firmware.Entries.{
  ConfigEntry, ConfigData, max_entries, config_magic, default_entries, load_default_entries,
  key_text, same_key, change_in,
}
use side_tnfs_firmware.Entries.Flash.{
  read_entry, overlay, load_loop, encode_entry, encode_entries, encode_data, kept_or,
  replace_bad_domain_entries, load_from, load_all_entries, write_all_entries,
}
use side_tnfs_firmware.Entries.Update.{IsEntry, text-same_key}
use side_tnfs_firmware.Entries.Distinct.{IsNew, IsDistinct, defaults-IsDistinct, differs}
use side_tnfs_firmware.Entries.Keys.{keys, IsLoaded, key_str_text}

-- The entry at a place takes the place of the one there, when no key before it is alike.
change_in-at :
    (n : ℕ) (key : List ℕ) (entry e0 : ConfigEntry) (pre ds : List ConfigEntry)
    → IsNew (key_text key) (keys pre)
    → same_key e0.key key ≡ true
    → length pre < n
    → change_in n key (λ _. entry) (pre ++ (e0 ∷ ds)) ≡ some (pre ++ (entry ∷ ds))
unfolding change_in
change_in-at zero key entry e0 pre ds h k l = absurd (omega (arith, l))
change_in-at (suc n) key entry e0 [] ds h k l = rw k refl
change_in-at (suc n) key entry e0 (p ∷ pre) ds (h0, h) k l =
    let other : same_key p.key key ≡ false = differs p.key key h0 in
    rw (other, change_in-at n key entry e0 pre ds h k (omega (arith, l))) refl

filled_key : (f : List ℕ) → same_text (key_text f) [] ≡ false → (get_or f 0 0 == 0) ≡ false
unfolding c_str same_text
filled_key [] h = absurd (ground (arith, h))
filled_key (c ∷ f) h = elim (Bool-cases (c == 0)) [
  | inl e ↦ absurd (let k = rw e at h in ground (arith, k))
  | inr e ↦ e
]

-- An entry within its C type.
pub record IsWritable (e : ConfigEntry) : Type 0 where
  pub sized : IsEntry e
  pub data_type : e.data_type < 2 ^ 16

length-encode_entry : (e : ConfigEntry) → IsEntry e → length (encode_entry e) ≡ 86
unfolding encode_entry
length-encode_entry e h =
    length-append (e.key ++ le16 e.data_type) e.value
    ∙ omega (arith, length-append e.key (le16 e.data_type), h.key, h.value)

read_entry-encode_entry :
    (e : ConfigEntry) (rest : List ℕ) → IsWritable e → read_entry (encode_entry e ++ rest) ≡ e
unfolding read_entry encode_entry
read_entry-encode_entry e rest h =
    let k = e.key in
    let both : encode_entry e ++ rest ≡ (k ++ le16 e.data_type) ++ (e.value ++ rest) =
      append_assoc (k ++ le16 e.data_type) e.value rest in
    let front : encode_entry e ++ rest ≡ k ++ (le16 e.data_type ++ (e.value ++ rest)) =
      both ∙ append_assoc k (le16 e.data_type) (e.value ++ rest) in
    let key : take 20 (encode_entry e ++ rest) ≡ k =
      ap (take 20) front ∙ take-append k _ 20 h.sized.key in
    let data_type : read_le16 (drop 20 (encode_entry e ++ rest)) ≡ e.data_type =
      ap (λ bs. read_le16 (drop 20 bs)) front
      ∙ ap read_le16 (drop-append k (le16 e.data_type ++ (e.value ++ rest)) 20 h.sized.key)
      ∙ read_le16-le16 e.data_type h.data_type in
    let value : take 64 (drop 22 (encode_entry e ++ rest)) ≡ e.value =
      ap (λ bs. take 64 (drop 22 bs)) both
      ∙ ap (take 64) (
          drop-append (k ++ le16 e.data_type) (e.value ++ rest) 22
            (length-append k (le16 e.data_type) ∙ omega (arith, h.sized.key)))
      ∙ take-append e.value rest 64 h.sized.value in
    λ i. record { key = key i; data_type = data_type i; value = value i }

abbrev with_entries : ConfigData → List ConfigEntry → ConfigData
with_entries d es = record d { entries = es }

cons_inv : (a b : List ℕ) (s t : List (List ℕ)) → a ∷ s ≡ b ∷ t → (a ≡ b) × (s ≡ t)
cons_inv a b s t h = (cc, cc)

overlay-at :
    (d : ConfigData) (entry e0 : ConfigEntry) (pre ds : List ConfigEntry)
    → IsNew (key_text entry.key) (keys pre)
    → key_text e0.key ≡ key_text entry.key
    → length pre < d.count
    → overlay entry (with_entries d (pre ++ (e0 ∷ ds))) ≡ with_entries d (pre ++ (entry ∷ ds))
unfolding overlay kept_or
overlay-at d entry e0 pre ds new same l =
    let str = padded 20 entry.key ++ (0 ∷ []) in
    let text = key_str_text entry.key in
    let found = text-same_key e0.key str (same ∙ text) in
    rw (change_in-at d.count str entry e0 pre ds (subst (λ k. IsNew k (keys pre)) text new) found l)
      refl

keys-append : (es fs : List ConfigEntry) → keys (es ++ fs) ≡ keys es ++ keys fs
keys-append [] fs = refl
keys-append (e ∷ es) fs = ap (λ ks. key_text e.key ∷ ks) (keys-append es fs)

-- The loop over the entries that were written.
load_loop-entries :
    (es ds pre : List ConfigEntry) (rest : List ℕ) (d : ConfigData)
    → All IsWritable es
    → keys ds ≡ keys es
    → IsDistinct (keys pre) (keys es)
    → length pre + length es ≤ d.count
    → load_loop (length es) (encode_entries es ++ rest) (with_entries d (pre ++ ds))
      ≡ with_entries d (pre ++ es)
unfolding load_loop encode_entries
load_loop-entries [] [] pre rest d w same h l = refl
load_loop-entries [] (e0 ∷ ds) pre rest d w same h l =
    absurd (let k = ap (λ (ks : List (List ℕ)). length ks) same in omega (arith, k))
load_loop-entries (e ∷ es) [] pre rest d w same h l =
    absurd (let k = ap (λ (ks : List (List ℕ)). length ks) same in omega (arith, k))
load_loop-entries (e ∷ es) (e0 ∷ ds) pre rest d (we, w) same (filled, new, h) l =
    let (first, others) = cons_inv (key_text e0.key) (key_text e.key) (keys ds) (keys es) same in
    let tail = encode_entries es ++ rest in
    let bytes : (encode_entry e ++ encode_entries es) ++ rest ≡ encode_entry e ++ tail =
      append_assoc (encode_entry e) (encode_entries es) rest in
    let read = ap read_entry bytes ∙ read_entry-encode_entry e tail we in
    let dropped =
      ap (drop 86) bytes ∙ drop-append (encode_entry e) tail 86 (length-encode_entry e we.sized) in
    let head = filled_key e.key filled in
    let put = overlay-at d e e0 pre ds new first (omega (arith, l)) in
    let next : load_loop (length es) tail (with_entries d ((pre ++ (e ∷ [])) ++ ds))
        ≡ with_entries d ((pre ++ (e ∷ [])) ++ es) =
      load_loop-entries es ds (pre ++ (e ∷ [])) rest d w others
        (subst (λ ks. IsDistinct ks (keys es)) (sym (keys-append pre (e ∷ []))) h)
        (omega (arith, l, length-append pre (e ∷ []))) in
    rw (read, head, dropped, put)
      (ap (λ fs. load_loop (length es) tail (with_entries d fs))
          (sym (append_assoc pre (e ∷ []) ds))
        ∙ next
        ∙ ap (with_entries d) (append_assoc pre (e ∷ []) es))

-- What the flash driver does, as documented, on the 8 KB of the store.
abbrev pub Programs : (List ℕ → List ℕ) → (List ℕ → List ℕ → List ℕ) → Type 0
Programs flash_range_erase flash_range_program =
    (flash buffer : List ℕ)
    → flash_range_program (flash_range_erase flash) buffer
      ≡ buffer ++ replicate (8192 - length buffer) 255

-- The bytes of a store, with others behind.
encoded :
    (d : ConfigData) (rest : List ℕ)
    → d.magic ≡ config_magic
    → (read_le32 (encode_data d ++ rest) ≡ config_magic)
      × (drop 4 (encode_data d ++ rest) ≡ encode_entries d.entries ++ (le32 d.count ++ rest))
unfolding encode_data
encoded d rest h = (
  read_le32-le32 d.magic (omega (arith, h)) ∙ h,
  append_assoc (encode_entries d.entries) (le32 d.count) rest,
)

load_from-encoded :
    (d : ConfigData) (rest : List ℕ)
    → IsLoaded d
    → d.magic ≡ config_magic
    → All IsWritable d.entries
    → load_from (encode_data d ++ rest) max_entries ≡ replace_bad_domain_entries d
unfolding load_from
load_from-encoded d rest l m w =
    let (_, bytes) = encoded d rest m in
    let whole : with_entries load_default_entries d.entries ≡ d =
      λ i. record { magic = sym m i; entries = d.entries; count = sym l.count i } in
    let loop =
      load_loop-entries d.entries default_entries [] (le32 d.count ++ rest) load_default_entries w
        (sym l.same) (subst (IsDistinct []) (sym l.same) defaults-IsDistinct)
        (let k = l.store.size in omega (arith, k)) in
    ap replace_bad_domain_entries (
      ap (λ bs. load_loop max_entries bs load_default_entries) bytes
      ∙ ap
          (λ n.
            load_loop n (encode_entries d.entries ++ (le32 d.count ++ rest)) load_default_entries)
          (sym l.store.size)
      ∙ loop
      ∙ whole)

module _ (flash_range_erase : List ℕ → List ℕ) (flash_range_program : List ℕ → List ℕ → List ℕ)
    (programs : Programs flash_range_erase flash_range_program) where
  -- When the driver programs what it is given into erased flash: a store with the magic number and
  -- the keys of the defaults, every type within 16 bits, is written, and the next boot loads it, with
  -- the addresses of the old domains replaced.
  pub write_then_load :
      (d : ConfigData) (flash : List ℕ)
      → IsLoaded d
      → d.magic ≡ config_magic
      → All IsWritable d.entries
      → let (written, flash') = write_all_entries flash_range_erase flash_range_program d flash in
        (written ≡ true) × (load_all_entries flash' ≡ (true, replace_bad_domain_entries d))
  unfolding write_all_entries load_all_entries
  write_then_load d flash l m w =
      let room : ltb 8192 (d.count * 86) ≡ false = let c = l.count in ground (arith, c) in
      let buffer = encode_data d ++ replicate 216 0 in
      let ones = replicate (8192 - length buffer) 255 in
      let bytes = programs flash buffer ∙ append_assoc (encode_data d) (replicate 216 0) ones in
      let (magic, _) = encoded d (replicate 216 0 ++ ones) m in
      rw (room, bytes, magic)
        (refl, ap (λ c. (true, c)) (load_from-encoded d (replicate 216 0 ++ ones) l m w))
