-- ===== src/Paths/Components.antt =====
-- romemul/gemdrvemul.c: the components that are found in a path, and those of a canonical path.
use side_tnfs_firmware.Prelude.{
  ℕ, ◌+◌, ◌*◌, ◌≤◌, ◌<◌, ◌≡◌, inl, inr, refl, sym, ap, ◌∙◌, true, false, List, [], ◌∷◌, ◌++◌, map,
  append-nil, append_assoc, ltb, ◌==◌, length, length-append, arith, Bool-cases, All, All-append,
  same_text, same_text_iff,
}
use side_tnfs_firmware.Paths.{
  max_folder_length, slash, backslash, forward, emit, strtok, drop_last, dot, dot_dot,
  component_step, component_loop,
}
use side_tnfs_firmware.Paths.Canonical.{
  IsPlain, IsToken, IsComponent, slashed, path_of, strtok-slashed,
}

drop_last-All : (cs : List (List ℕ)) → All IsComponent cs → All IsComponent (drop_last cs)
unfolding drop_last
drop_last-All [] h = tt
drop_last-All (c ∷ []) h = tt
drop_last-All (c ∷ d ∷ cs) h = (h.0, drop_last-All (d ∷ cs) h.1)

component_step-All :
    (cs : List (List ℕ)) (tok : List ℕ)
    → All IsComponent cs
    → IsToken tok
    → All IsComponent (component_step cs tok)
unfolding component_step
component_step-All cs tok h t = elim (Bool-cases (same_text tok dot)) [
  | inl d ↦ rw d h
  | inr d ↦ elim (Bool-cases (same_text tok dot_dot)) [
    | inl e ↦ rw (d, e) (drop_last-All cs h)
    | inr e ↦ elim (Bool-cases (ltb (length cs) 64)) [
      | inr f ↦ rw (d, e, f) h
      | inl f ↦
          rw (d, e, f)
            (All-append IsComponent cs (tok ∷ []) h (
              record {
                token = t;
                not_dot = λ k. cc (d, (same_text_iff tok dot).1 k);
                not_dot_dot = λ k. cc (e, (same_text_iff tok dot_dot).1 k);
              },
              tt,
            ))
    ]
  ]
]

pub component_loop-All :
    (cs toks : List (List ℕ))
    → All IsComponent cs
    → All IsToken toks
    → All IsComponent (component_loop cs toks)
unfolding component_loop
component_loop-All cs [] h t = h
component_loop-All cs (tok ∷ toks) h t =
    component_loop-All (component_step cs tok) toks (component_step-All cs tok h t.0) t.1

component_step-component :
    (cs : List (List ℕ)) (tok : List ℕ)
    → IsComponent tok
    → length cs < 64
    → component_step cs tok ≡ cs ++ (tok ∷ [])
unfolding component_step
component_step-component cs tok c h = elim (Bool-cases (same_text tok dot)) [
  | inl d ↦ absurd (c.not_dot ((same_text_iff tok dot).0 d))
  | inr d ↦ elim (Bool-cases (same_text tok dot_dot)) [
    | inl e ↦ absurd (c.not_dot_dot ((same_text_iff tok dot_dot).0 e))
    | inr e ↦ let room : ltb (length cs) 64 ≡ true = ground arith in rw (d, e, room) refl
  ]
]

-- Components are kept as they are while there is room for them.
pub component_loop-components :
    (cs toks : List (List ℕ))
    → All IsComponent toks
    → length cs + length toks ≤ 64
    → component_loop cs toks ≡ cs ++ toks
unfolding component_loop
component_loop-components cs [] h k = sym (append-nil cs)
component_loop-components cs (tok ∷ toks) h k =
    rw (component_step-component cs tok h.0 (omega arith)) (
      component_loop-components (cs ++ (tok ∷ [])) toks h.1
        (omega (arith, length-append cs (tok ∷ [])))
      ∙ append_assoc cs (tok ∷ []) toks)

forward-plain : (c : List ℕ) → All IsPlain c → map forward c ≡ c
unfolding forward
forward-plain [] h = refl
forward-plain (d ∷ c) h =
    let e : (d == backslash) ≡ false = ground (arith, h.0.1) in
    rw e (ap (λ t. d ∷ t) (forward-plain c h.1))

pub map-append : (s t : List ℕ) → map forward (s ++ t) ≡ map forward s ++ map forward t
map-append [] t = refl
map-append (c ∷ s) t = ap (λ r. forward c ∷ r) (map-append s t)

forward-slash : forward slash ≡ slash
unfolding forward
forward-slash = refl

forward-slashed : (cs : List (List ℕ)) → All IsComponent cs → map forward (slashed cs) ≡ slashed cs
forward-slashed [] h = refl
forward-slashed (c ∷ cs) h =
    rw
      (
        forward-slash,
        map-append c (slashed cs),
        forward-plain c h.0.token.plain,
        forward-slashed cs h.1,
      )
      refl

pub All-IsToken : (cs : List (List ℕ)) → All IsComponent cs → All IsToken cs
All-IsToken [] h = tt
All-IsToken (c ∷ cs) h = (h.0.token, All-IsToken cs h.1)

length-slashed : (cs : List (List ℕ)) → All IsToken cs → 2 * length cs ≤ length (slashed cs)
length-slashed [] h = omega arith
length-slashed ([] ∷ cs) h = absurd (h.0.not_empty refl)
length-slashed ((d ∷ c) ∷ cs) h = omega (arith, length-slashed cs h.1, length-append c (slashed cs))

pub forward-path_of :
    (cs : List (List ℕ)) → All IsComponent cs → map forward (path_of cs) ≡ path_of cs
forward-path_of [] h = ap (λ c. c ∷ []) forward-slash
forward-path_of (c ∷ cs) h = forward-slashed (c ∷ cs) h

strtok-path_of : (cs : List (List ℕ)) → All IsToken cs → strtok [] (path_of cs) ≡ cs
unfolding strtok emit
strtok-path_of [] h = refl
strtok-path_of (c ∷ cs) h = strtok-slashed [] (c ∷ cs) h

pub length-path_of : (cs : List (List ℕ)) → All IsToken cs → 2 * length cs ≤ length (path_of cs)
length-path_of [] h = omega arith
length-path_of (c ∷ cs) h = length-slashed (c ∷ cs) h

pub path_of-positive : (cs : List (List ℕ)) → 0 < length (path_of cs)
path_of-positive [] = omega arith
path_of-positive (c ∷ cs) = omega arith

-- The components of a canonical path that is short enough.
pub components_of :
    (cs : List (List ℕ))
    → All IsComponent cs
    → length (path_of cs) < max_folder_length
    → component_loop [] (strtok [] (map forward (path_of cs))) ≡ cs
components_of cs h k =
    ap (λ t. component_loop [] (strtok [] t)) (forward-path_of cs h)
    ∙ ap (λ t. component_loop [] t) (strtok-path_of cs (All-IsToken cs h))
    ∙ component_loop-components [] cs h (omega (arith, k, length-path_of cs (All-IsToken cs h)))
