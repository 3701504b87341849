-- ===== src/Paths/Last.antt =====
-- romemul/gemdrvemul.c: the folder above a path whose components are known.
use side_tnfs_firmware.Prelude.{
  ℕ, zero, suc, ◌+◌, ◌≤◌, ◌<◌, ◌≡◌, ◌≢◌, ◌⊎◌, inl, inr, refl, sym, ap, ◌∙◌, true, false, none, some,
  List, [], ◌∷◌, ◌++◌, append-nil, append_assoc, ltb, ◌==◌, length, length-append, take, arith, All,
  subst,
}
use side_tnfs_firmware.Paths.{
  max_folder_length, slash, drop_last, before_last_slash, strip_last_slash, parent_of,
  tnfs_ddelete_parent_path,
}
use side_tnfs_firmware.Paths.Canonical.{IsPlain, IsComponent, slashed, path_of}

-- A component at the end, or none at all.
last_component :
    (cs : List (List ℕ))
    → (cs ≡ []) ⊎ ((init : List (List ℕ)) × (c : List ℕ) × (cs ≡ init ++ (c ∷ [])))
last_component [] = inl refl
last_component (c ∷ cs) = elim (last_component cs) [
  | inl e ↦ inr ([], c, ap (λ r. c ∷ r) e)
  | inr e ↦ inr (c ∷ e.0, e.1, ap (λ r. c ∷ r) e.2)
]

drop_last-snoc : (cs : List (List ℕ)) (c : List ℕ) → drop_last (cs ++ (c ∷ [])) ≡ cs
unfolding drop_last
drop_last-snoc [] c = refl
drop_last-snoc (d ∷ []) c = refl
drop_last-snoc (d ∷ e ∷ cs) c = ap (λ r. d ∷ r) (drop_last-snoc (e ∷ cs) c)

pub slashed-append : (cs ds : List (List ℕ)) → slashed (cs ++ ds) ≡ slashed cs ++ slashed ds
slashed-append [] ds = refl
slashed-append (c ∷ cs) ds =
    rw (slashed-append cs ds) (ap (λ r. slash ∷ r) (sym (append_assoc c (slashed cs) (slashed ds))))

before_last_slash-plain : (c : List ℕ) → All IsPlain c → before_last_slash c ≡ none
unfolding before_last_slash
before_last_slash-plain [] h = refl
before_last_slash-plain (d ∷ c) h =
    let e : (d == slash) ≡ false = ground (arith, h.0.0) in
    rw (before_last_slash-plain c h.1, e) refl

before_last_slash-append :
    (s c : List ℕ) → All IsPlain c → before_last_slash (s ++ (slash ∷ c)) ≡ some s
unfolding before_last_slash
before_last_slash-append [] c h = rw (before_last_slash-plain c h) refl
before_last_slash-append (d ∷ s) c h = rw (before_last_slash-append s c h) refl

strip_last_slash-plain : (c : List ℕ) → All IsPlain c → strip_last_slash c ≡ c
unfolding strip_last_slash
strip_last_slash-plain [] h = refl
strip_last_slash-plain (d ∷ []) h =
    let e : (d == slash) ≡ false = ground (arith, h.0.0) in rw e refl
strip_last_slash-plain (d ∷ e ∷ c) h = ap (λ r. d ∷ r) (strip_last_slash-plain (e ∷ c) h.1)

-- Only the last character counts.
strip_last_slash-append :
    (s c : List ℕ) → All IsPlain c → c ≢ [] → strip_last_slash (s ++ c) ≡ s ++ c
unfolding strip_last_slash
strip_last_slash-append [] c h k = strip_last_slash-plain c h
strip_last_slash-append (d ∷ []) [] h k = absurd (k refl)
strip_last_slash-append (d ∷ []) (e ∷ c) h k =
    ap (λ r. d ∷ r) (strip_last_slash-append [] (e ∷ c) h k)
strip_last_slash-append (d ∷ e ∷ s) c h k = ap (λ r. d ∷ r) (strip_last_slash-append (e ∷ s) c h k)

take-all : (n : ℕ) (s : List ℕ) → length s ≤ n → take n s ≡ s
take-all zero [] h = refl
take-all zero (c ∷ s) h = absurd (ground (arith, h))
take-all (suc n) [] h = refl
take-all (suc n) (c ∷ s) h = ap (λ r. c ∷ r) (take-all n s (ground (arith, h)))

length-positive : (c : List ℕ) → c ≢ [] → 0 < length c
length-positive [] h = absurd (h refl)
length-positive (d ∷ c) h = omega arith

strip_last_slash-component :
    (s c : List ℕ) → All IsPlain c → c ≢ [] → strip_last_slash (s ++ (slash ∷ c)) ≡ s ++ (slash ∷ c)
strip_last_slash-component s c h k =
    subst (λ r. strip_last_slash r ≡ r) (append_assoc s (slash ∷ []) c)
      (strip_last_slash-append (s ++ (slash ∷ [])) c h k)

drop_last-empty : [] ≡ drop_last []
unfolding drop_last
drop_last-empty = refl

parent_of-slashed : (cs : List (List ℕ)) → parent_of (some (slashed cs)) ≡ path_of cs
unfolding parent_of
parent_of-slashed [] = refl
parent_of-slashed (c ∷ cs) = refl

slashed-path_of :
    (cs : List (List ℕ)) (c : List ℕ) → path_of (cs ++ (c ∷ [])) ≡ slashed (cs ++ (c ∷ []))
slashed-path_of [] c = refl
slashed-path_of (d ∷ cs) c = refl

slashed-snoc :
    (cs : List (List ℕ)) (c : List ℕ) → slashed (cs ++ (c ∷ [])) ≡ slashed cs ++ (slash ∷ c)
slashed-snoc cs c = slashed-append cs (c ∷ []) ∙ ap (λ r. slashed cs ++ (slash ∷ r)) (append-nil c)

pub length-path_of-slashed : (cs : List (List ℕ)) → length (path_of cs) ≤ length (slashed cs) + 1
length-path_of-slashed [] = omega arith
length-path_of-slashed (c ∷ cs) = omega arith

All-snoc : (cs : List (List ℕ)) (c : List ℕ) → All IsComponent (cs ++ (c ∷ [])) → IsComponent c
All-snoc [] c h = h.0
All-snoc (d ∷ cs) c h = All-snoc cs c h.1

tnfs_ddelete_parent_path-snoc :
    (cs : List (List ℕ)) (c : List ℕ)
    → IsComponent c
    → length (path_of (cs ++ (c ∷ []))) < max_folder_length
    → tnfs_ddelete_parent_path (path_of (cs ++ (c ∷ []))) max_folder_length ≡ path_of cs
unfolding tnfs_ddelete_parent_path
tnfs_ddelete_parent_path-snoc cs c h k =
    let text : path_of (cs ++ (c ∷ [])) ≡ slashed cs ++ (slash ∷ c) =
      slashed-path_of cs c ∙ slashed-snoc cs c in
    let size : length (path_of (cs ++ (c ∷ []))) ≡ length (slashed cs) + (1 + length c) =
      omega (arith, ap (λ (l : List ℕ). length l) text, length-append (slashed cs) (slash ∷ c)) in
    let long : ltb 1 (length (path_of (cs ++ (c ∷ [])))) ≡ true =
      ground (arith, size, length-positive c h.token.not_empty) in
    rw
      (
        take-all 127 (path_of (cs ++ (c ∷ []))) (ground (arith, k)),
        long,
        text,
        strip_last_slash-component (slashed cs) c h.token.plain h.token.not_empty,
        before_last_slash-append (slashed cs) c h.token.plain,
        parent_of-slashed cs,
      )
      (take-all 127 (path_of cs)
        (omega (arith, k, size, length-path_of-slashed cs, length-positive c h.token.not_empty)))

tnfs_ddelete_parent_path-root : tnfs_ddelete_parent_path (path_of []) max_folder_length ≡ path_of []
unfolding tnfs_ddelete_parent_path before_last_slash
tnfs_ddelete_parent_path-root = refl

-- The parent of a canonical path has all its components but the last; the root is its own parent.
pub tnfs_ddelete_parent_path-components :
    (cs : List (List ℕ))
    → All IsComponent cs
    → length (path_of cs) < max_folder_length
    → tnfs_ddelete_parent_path (path_of cs) max_folder_length ≡ path_of (drop_last cs)
tnfs_ddelete_parent_path-components cs h k = elim (last_component cs) [
  | inl e ↦ rw e (tnfs_ddelete_parent_path-root ∙ ap path_of drop_last-empty)
  | inr (init, c, e) ↦
      let known : All IsComponent (init ++ (c ∷ [])) = subst (All IsComponent) e h in
      let small : length (path_of (init ++ (c ∷ []))) < max_folder_length =
        subst (λ r. length (path_of r) < max_folder_length) e k in
      rw e (
        tnfs_ddelete_parent_path-snoc init c (All-snoc init c known) small
        ∙ ap path_of (sym (drop_last-snoc init c)))
]
