-- ===== src/Entries/Loaded.antt =====
-- romemul/config.c: what is found, and what can be put, after any boot.
use side_tnfs_firmware.Prelude.{
  ℕ, zero, suc, ◌<◌, ◌≡◌, ◌≢◌, refl, sym, ap, ◌∙◌, inl, inr, Bool-cases, none, some, List, [], ◌∷◌,
  length, get_elem?, get_elem?-lt, arith,
}
use side_tnfs_firmware.Entries.{
  ConfigEntry, ConfigData, max_entries, default_entries, load_default_entries, key_text, same_key,
  find_in, find_entry, added,
}
use side_tnfs_firmware.Entries.Flash.{load_all_entries}
use side_tnfs_firmware.Entries.Update.{same_key-left, text-same_key}
use side_tnfs_firmware.Entries.Puts.{
  IsPut, Put, key_of, asked, execute_put, execute_put_lem, execute_put_overruns_iff,
}
use side_tnfs_firmware.Entries.Keys.{keys, IsLoaded, load_all_entries-IsLoaded}

keys_inv :
    (e e' : ConfigEntry) (es es' : List ConfigEntry)
    → keys (e ∷ es) ≡ keys (e' ∷ es')
    → (key_text e.key ≡ key_text e'.key) × (keys es ≡ keys es')
keys_inv e e' es es' h = (cc, cc)

-- What is not found depends on the keys only.
find_in-keys :
    (n : ℕ) (key : List ℕ) (es es' : List ConfigEntry)
    → keys es ≡ keys es'
    → find_in n key es ≡ none
    → find_in n key es' ≡ none
unfolding find_in
find_in-keys zero key es es' h k = refl
find_in-keys (suc n) key [] [] h k = refl
find_in-keys (suc n) key [] (e' ∷ es') h k =
    absurd (let l = ap (λ (ks : List (List ℕ)). length ks) h in omega (arith, l))
find_in-keys (suc n) key (e ∷ es) [] h k = refl
find_in-keys (suc n) key (e ∷ es) (e' ∷ es') h k =
    let (first, rest) = keys_inv e e' es es' h in
    let same = same_key-left e.key e'.key key first in
    elim (Bool-cases (same_key e'.key key)) [
      | inl b ↦ absurd (let j = rw (same, b) at k in ground (arith, j))
      | inr b ↦ let j = rw (same, b) at k in rw b (find_in-keys n key es es' rest j)
    ]

-- An entry is found under its own key, or another one before it is.
own_key-found :
    (n i : ℕ) (es : List ConfigEntry) (e : ConfigEntry)
    → get_elem? es i ≡ some e
    → i < n
    → find_in n e.key es ≢ none
unfolding find_in
own_key-found zero i es e h l k = omega (arith, l)
own_key-found (suc n) i [] e h l k = ground (arith, h)
own_key-found (suc n) zero (e0 ∷ es) e h l k =
    let same : e0 ≡ e = cc in
    let b = text-same_key e0.key e.key (ap (λ (x : ConfigEntry). key_text x.key) same) in
    let j = rw b at k in ground (arith, j)
own_key-found (suc n) (suc i) (e0 ∷ es) e h l k = elim (Bool-cases (same_key e0.key e.key)) [
  | inl b ↦ let j = rw b at k in ground (arith, j)
  | inr b ↦ let j = rw b at k in own_key-found n i es e h (omega (arith, l)) j
]

-- Whatever the 8 KB of flash hold: after loading, an entry is found under the key of every default.
pub find_entry-default :
    (flash : List ℕ) (i : ℕ) (e : ConfigEntry)
    → length flash ≡ 8192
    → get_elem? default_entries i ≡ some e
    → find_entry e.key (load_all_entries flash).1 ≢ none
unfolding find_entry
find_entry-default flash i e h g k =
    let l = load_all_entries-IsLoaded flash h in
    let full = ap (λ n. find_in n e.key (load_all_entries flash).1.entries) (sym l.count) ∙ k in
    own_key-found max_entries i default_entries e g (get_elem?-lt default_entries i g)
      (find_in-keys max_entries e.key _ default_entries l.same full)

same_missing :
    (d : ConfigData) (key : List ℕ)
    → IsLoaded d
    → find_entry key load_default_entries ≡ none
    → find_entry key d ≡ none
unfolding find_entry
same_missing d key l h =
    ap (λ n. find_in n key d.entries) l.count
    ∙ find_in-keys max_entries key default_entries d.entries (sym l.same) h

same_present :
    (d : ConfigData) (key : List ℕ)
    → IsLoaded d
    → find_entry key load_default_entries ≢ none
    → find_entry key d ≢ none
unfolding find_entry
same_present d key l h k = h (
    find_in-keys max_entries key d.entries default_entries l.same
      (ap (λ n. find_in n key d.entries) (sym l.count) ∙ k))

-- Whatever the 8 KB of flash hold: after loading, a put to the key of a default succeeds, and what it
-- asked for is found then, while a put to any other key writes outside the array.
pub load_then_put :
    (flash : List ℕ) (p : Put)
    → length flash ≡ 8192
    → let (_, d) = load_all_entries flash in
      (find_entry (key_of p) load_default_entries ≢ none
        → (d' : ConfigData) × (execute_put p d ≡ some (added, d'))
          × IsPut (key_of p) (asked p) d d')
      × (find_entry (key_of p) load_default_entries ≡ none → execute_put p d ≡ none)
load_then_put flash p h =
    let (_, d) = load_all_entries flash in
    let l = load_all_entries-IsLoaded flash h in
    (
      (λ k.
          let (d', e, _, _, put) =
            execute_put_lem p d l.store (inl (same_present d (key_of p) l k)) in
          (d', e, put)),
      (λ k. (execute_put_overruns_iff p d l.store).1 (same_missing d (key_of p) l k, l.count)),
    )
