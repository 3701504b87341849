-- ===== src/Entries/Update.antt =====
-- romemul/config.c: what putting a value does to the entries, seen through `find_entry`.
use side_tnfs_firmware.Prelude.{
  ℕ, zero, suc, ◌≤◌, ◌<◌, ◌≡◌, refl, sym, ap, ◌∙◌, subst, inl, inr, true, false, Bool-cases, none,
  some, List, [], ◌∷◌, if◌then◌else◌, length, All, arith, same_text, same_text_iff,
}
use side_tnfs_firmware.Entries.{ConfigEntry, key_text, same_key, find_in, change_in, change_at}

-- The arrays of an entry have their sizes.
pub record IsEntry (e : ConfigEntry) : Type 0 where
  pub key : length e.key ≡ 20
  pub value : length e.value ≡ 64

pub same_key-text : (a b : List ℕ) → same_key a b ≡ true → key_text a ≡ key_text b
unfolding same_key
same_key-text a b h = (same_text_iff (key_text a) (key_text b)).0 h

pub same_key-left : (a b c : List ℕ) → key_text a ≡ key_text b → same_key a c ≡ same_key b c
unfolding same_key
same_key-left a b c h = ap (λ t. same_text t (key_text c)) h

pub text-same_key : (a b : List ℕ) → key_text a ≡ key_text b → same_key a b ≡ true
unfolding same_key
text-same_key a b h = (same_text_iff (key_text a) (key_text b)).1 h

-- A key that is like one of two that differ is not like the other.
same_key-other :
    (a key key' : List ℕ)
    → same_key a key ≡ false
    → same_key a key' ≡ true
    → same_key key key' ≡ false
same_key-other a key key' h k = elim (Bool-cases (same_key key key')) [
  | inl e ↦ absurd (
      let same = text-same_key a key (same_key-text a key' k ∙ sym (same_key-text key key' e)) in
      ground (arith, same, h))
  | inr e ↦ e
]

-- The loop that finds and the loop that changes agree on whether there is an entry.
pub change_in-none :
    (n : ℕ) (key : List ℕ) (change : ConfigEntry → ConfigEntry) (es : List ConfigEntry)
    → find_in n key es ≡ none
    → change_in n key change es ≡ none
unfolding find_in change_in
change_in-none zero key change es h = refl
change_in-none (suc n) key change [] h = refl
change_in-none (suc n) key change (e ∷ es) h = elim (Bool-cases (same_key e.key key)) [
  | inl b ↦ absurd (let k = rw b at h in ground (arith, k))
  | inr b ↦ let k = rw b at h in rw (b, change_in-none n key change es k) refl
]

-- The entry of a key is a new one: the first `m` entries are searched where `n` were before.
pub record IsChanged (n m : ℕ) (key : List ℕ) (new : ConfigEntry) (es es' : List ConfigEntry)
    : Type 0 where
  pub size : length es' ≡ length es
  pub entries : All IsEntry es'
  pub found :
      (key' : List ℕ)
      → find_in m key' es' ≡ (if same_key key key' then some new else find_in n key' es)

-- Behind an entry that has another key.
behind-IsChanged :
    (n m : ℕ) (key : List ℕ) (new e : ConfigEntry) (es es' : List ConfigEntry)
    → same_key e.key key ≡ false
    → IsEntry e
    → IsChanged n m key new es es'
    → IsChanged (suc n) (suc m) key new (e ∷ es) (e ∷ es')
unfolding find_in
behind-IsChanged n m key new e es es' h s c = record {
  size = ap suc c.size;
  entries = (s, c.entries);
  found = λ key'. elim (Bool-cases (same_key e.key key')) [
    | inl b ↦ rw (b, same_key-other e.key key key' h b) refl
    | inr b ↦ rw b (c.found key')
  ];
}

some-entry : {a b : ConfigEntry} → some a ≡ some b → a ≡ b
some-entry h = cc

module _ (key : List ℕ) (change : ConfigEntry → ConfigEntry)
    (sized : (e : ConfigEntry) → IsEntry e → IsEntry (change e)) where
  pub change_in-some :
      ((e : ConfigEntry) → key_text (change e).key ≡ key_text e.key)
      → (n : ℕ) (es : List ConfigEntry) (e : ConfigEntry) → All IsEntry es
      → find_in n key es ≡ some e
      → IsEntry e
        × ((es' : List ConfigEntry) × (change_in n key change es ≡ some es')
            × IsChanged n n key (change e) es es')
  unfolding find_in change_in
  change_in-some keeps zero es e s h = absurd (ground (arith, h))
  change_in-some keeps (suc n) [] e s h = absurd (ground (arith, h))
  change_in-some keeps (suc n) (e0 ∷ es) e (s0, s) h = elim (Bool-cases (same_key e0.key key)) [
    | inl b ↦
        let same : e0 ≡ e = some-entry (let k = rw b at h in k) in
        let found : (key' : List ℕ)
            → (if same_key (change e0).key key' then some (change e0) else find_in n key' es) ≡ (
                if same_key key key'
                then some (change e0)
                else (if same_key e0.key key' then some e0 else find_in n key' es)) =
          λ key'.
            let x =
              same_key-left (change e0).key key key' (keeps e0 ∙ same_key-text e0.key key b) in
            let y = same_key-left e0.key key key' (same_key-text e0.key key b) in
            elim (Bool-cases (same_key key key')) [
              | inl c ↦ rw (x, y, c) refl
              | inr c ↦ rw (x, y, c) refl
            ] in
        (
          subst IsEntry same s0,
          (
            (change e0 ∷ es),
            rw b refl,
            subst (λ w. IsChanged (suc n) (suc n) key (change w) (e0 ∷ es) (change e0 ∷ es)) same
                (record { size = refl; entries = (sized e0 s0, s); found = found }),
          ),
        )
    | inr b ↦
        let k = rw b at h in
        let (s', (es', c, changed)) = change_in-some keeps n es e s k in
        (
          s',
          ((e0 ∷ es'), rw (b, c) refl, behind-IsChanged n n key (change e) e0 es es' b s0 changed),
        )
  ]

  -- A new entry at the end of those that are searched.
  pub change_at-some :
      ((e : ConfigEntry) → IsEntry e → key_text (change e).key ≡ key_text key)
      → (n : ℕ) (es : List ConfigEntry) → All IsEntry es
      → n < length es
      → find_in n key es ≡ none
      → (e : ConfigEntry) × IsEntry e
        × ((es' : List ConfigEntry) × (change_at n change es ≡ some es')
            × IsChanged n (suc n) key (change e) es es')
  unfolding find_in change_at
  change_at-some writes n [] s l h = absurd (omega (arith, l))
  change_at-some writes zero (e0 ∷ es) (s0, s) l h = (
    e0,
    s0,
    (
      (change e0 ∷ es),
      refl,
      record {
        size = refl;
        entries = (sized e0 s0, s);
        found = λ key'. rw (same_key-left (change e0).key key key' (writes e0 s0)) refl;
      },
    ),
  )
  change_at-some writes (suc n) (e0 ∷ es) (s0, s) l h = elim (Bool-cases (same_key e0.key key)) [
    | inl b ↦ absurd (let k = rw b at h in ground (arith, k))
    | inr b ↦
        let k = rw b at h in
        let (e, s', (es', c, changed)) = change_at-some writes n es s (omega (arith, l)) k in
        (
          e,
          s',
          ((e0 ∷ es'), rw c refl, behind-IsChanged n (suc n) key (change e) e0 es es' b s0 changed),
        )
  ]

pub change_at-none :
    (n : ℕ) (change : ConfigEntry → ConfigEntry) (es : List ConfigEntry)
    → length es ≤ n
    → change_at n change es ≡ none
unfolding change_at
change_at-none n change [] h = refl
change_at-none zero change (e ∷ es) h = absurd (omega (arith, h))
change_at-none (suc n) change (e ∷ es) h = rw (change_at-none n change es (omega (arith, h))) refl
