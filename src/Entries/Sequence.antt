-- ===== src/Entries/Sequence.antt =====
-- romemul/config.c: sequences of puts, and the map that they promise.
use side_tnfs_firmware.Prelude.{
  ℕ, ◌≡◌, ◌≢◌, refl, sym, ap, ◌∙◌, inl, inr, Bool-cases, Option, none, some, ◌>>=◌, List, [], ◌∷◌,
  if◌then◌else◌, All, arith,
}
use side_tnfs_firmware.Entries.{ConfigEntry, ConfigData, same_key, find_entry}
use side_tnfs_firmware.Entries.Puts.{
  IsStore, Value, view, lookup, IsPut, Put, execute_put, key_of, asked, execute_put_lem,
}

-- A run of puts, which ends where one writes outside the array.
unfoldable pub put_all : List Put → ConfigData → Option ConfigData
put_all [] d = some d
put_all (p ∷ ps) d = execute_put p d >>= λ (status, d'). put_all ps d'

-- What a map from keys to values promises: the last put to a key counts.
abbrev pub promised : List Put → (List ℕ → Option Value) → List ℕ → Option Value
promised [] σ key = σ key
promised (p ∷ ps) σ key =
    promised ps (λ k. if same_key (key_of p) k then some (asked p) else σ k) key

-- An entry has the key of a put.
abbrev pub IsKnown : ConfigData → Put → Type 0
IsKnown d p = lookup (key_of p) d ≢ none

view-none : (o : Option ConfigEntry) → view o ≢ none → o ≢ none
view-none none h k = h refl
view-none (some e) h k = absurd (ground (arith, k))

-- A key that was known stays known.
IsKnown-kept :
    (key : List ℕ) (v : Value) (d d' : ConfigData)
    → IsPut key v d d'
    → (p : Put) → IsKnown d p
    → IsKnown d' p
IsKnown-kept key v d d' put p h k = elim (Bool-cases (same_key key (key_of p))) [
  | inl b ↦ let j = sym k ∙ put (key_of p) in let i = rw b at j in ground (arith, i)
  | inr b ↦ let j = sym k ∙ put (key_of p) in let i = rw b at j in h (sym i)
]

all-IsKnown :
    (d d' : ConfigData)
    → ((p : Put) → IsKnown d p → IsKnown d' p)
    → (ps : List Put) → All (IsKnown d) ps
    → All (IsKnown d') ps
all-IsKnown d d' keeps [] h = tt
all-IsKnown d d' keeps (p ∷ ps) (h, hs) = (keeps p h, all-IsKnown d d' keeps ps hs)

promised_ext :
    (ps : List Put) (σ τ : List ℕ → Option Value)
    → ((key : List ℕ) → σ key ≡ τ key)
    → (key : List ℕ) → promised ps σ key ≡ promised ps τ key
promised_ext [] σ τ h key = h key
promised_ext (p ∷ ps) σ τ h key =
    promised_ext ps _ _ (λ k. ap (λ o. if same_key (key_of p) k then some (asked p) else o) (h k))
      key

-- Any sequence of puts to keys that have entries succeeds, and the entries then hold, for every key,
-- what a map from keys to values promises after those puts.
pub put_all-Refines :
    (ps : List Put) (d : ConfigData)
    → IsStore d
    → All (IsKnown d) ps
    → (d' : ConfigData) × (put_all ps d ≡ some d')
      × IsStore d'
      × ((key : List ℕ) → lookup key d' ≡ promised ps (λ k. lookup k d) key)
unfolding put_all
put_all-Refines [] d s h = (d, refl, s, λ key. refl)
put_all-Refines (p ∷ ps) d s (h, hs) =
    let (d1, e, s1, _, put) = execute_put_lem p d s (inl (view-none (find_entry (key_of p) d) h)) in
    let known = all-IsKnown d d1 (IsKnown-kept (key_of p) (asked p) d d1 put) ps hs in
    let (d', es, s', found) = put_all-Refines ps d1 s1 known in
    (d', rw e es, s', λ key. found key ∙ promised_ext ps (λ k. lookup k d1) _ put key)
