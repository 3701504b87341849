-- ===== src/Paths/Join.antt =====
-- romemul/gemdrvemul.c: the result that is written from the components of a path.
use side_tnfs_firmware.Prelude.{
  ℕ, ◌+◌, ◌<◌, ◌≡◌, inl, inr, refl, ap, Bool, true, false, none, some, List, [], ◌∷◌, ◌++◌, map,
  ltb, leb, ◌||◌, ◌&&◌, not, if◌then◌else◌, length, length-append, arith, Bool-cases, ◌>>=◌,
}
use side_tnfs_firmware.Paths.{
  max_folder_length, slash, forward, strtok, component_loop, joint, join_loop,
  normalize_gemdos_path,
}
use side_tnfs_firmware.Paths.Canonical.{slashed, path_of}

-- The result behind its first slash.
abbrev pub joined : Bool → List (List ℕ) → List ℕ
joined true [] = []
joined true (c ∷ cs) = c ++ slashed cs
joined false cs = slashed cs

joined-cons :
    (first : Bool) (c : List ℕ) (cs : List (List ℕ))
    → joint first c ++ joined false cs ≡ joined first (c ∷ cs)
unfolding joint
joined-cons true c cs = refl
joined-cons false c cs = refl

-- The components are written exactly if the result fits.
join_loop_lem :
    (pos : ℕ) (first : Bool) (cs : List (List ℕ))
    → pos < max_folder_length
    → join_loop pos first cs ≡ (
        if ltb (pos + length (joined first cs)) max_folder_length
        then some (joined first cs)
        else none)
unfolding join_loop
join_loop_lem pos true [] h =
    let e : ltb (pos + 0) max_folder_length ≡ true = ground arith in rw e refl
join_loop_lem pos false [] h =
    let e : ltb (pos + 0) max_folder_length ≡ true = ground arith in rw e refl
join_loop_lem pos first (c ∷ cs) h =
    let next = pos + length (joint first c) in
    let size : pos + length (joined first (c ∷ cs)) ≡ next + length (slashed cs) = omega (
      arith,
      ap (λ (l : List ℕ). length l) (joined-cons first c cs),
      length-append (joint first c) (slashed cs),
    ) in
    elim (Bool-cases (leb max_folder_length next)) [
      | inl over ↦
          let out : ltb (next + length (slashed cs)) max_folder_length ≡ false = ground arith in
          rw (over, size, out) refl
      | inr within ↦
          let rest = join_loop_lem next false cs (ground arith) in
          elim (Bool-cases (ltb (next + length (slashed cs)) max_folder_length)) [
            | inl e ↦ rw (within, rest, size, e) (ap some (joined-cons first c cs))
            | inr e ↦ rw (within, rest, size, e) refl
          ]
    ]

joined-path_of : (cs : List (List ℕ)) → slash ∷ joined true cs ≡ path_of cs
joined-path_of [] = refl
joined-path_of (c ∷ cs) = refl

write_out_lem :
    (out_size : ℕ) (cs : List (List ℕ))
    → (join_loop 1 true cs >>= λ r. if ltb out_size (length r + 2) then none else some (slash ∷ r))
      ≡ (if ltb (length (path_of cs)) max_folder_length
            && not (ltb out_size (length (path_of cs) + 1))
          then some (path_of cs)
          else none)
write_out_lem out_size cs =
    let size : length (path_of cs) ≡ 1 + length (joined true cs) =
      omega (arith, ap (λ (l : List ℕ). length l) (joined-path_of cs)) in
    elim (Bool-cases (ltb (1 + length (joined true cs)) max_folder_length)) [
      | inr e ↦ rw (join_loop_lem 1 true cs (omega arith), size, e) refl
      | inl e ↦ elim (Bool-cases (ltb out_size (length (joined true cs) + 2))) [
        | inl f ↦
            let f' : ltb out_size (1 + length (joined true cs) + 1) ≡ true = ground arith in
            rw (join_loop_lem 1 true cs (omega arith), size, e, f, f') refl
        | inr f ↦
            let f' : ltb out_size (1 + length (joined true cs) + 1) ≡ false = ground arith in
            rw (join_loop_lem 1 true cs (omega arith), size, e, f, f') (ap some (joined-path_of cs))
      ]
    ]

-- The result of the function on every path.
pub normalize_gemdos_path-cases :
    (path : List ℕ) (out_size : ℕ)
    → let cs = component_loop [] (strtok [] (map forward path)) in
      normalize_gemdos_path path out_size ≡ (
        if ltb out_size 2 || leb max_folder_length (length path)
        then none
        else if ltb (length (path_of cs)) max_folder_length
            && not (ltb out_size (length (path_of cs) + 1))
        then some (path_of cs)
        else none)
unfolding normalize_gemdos_path
normalize_gemdos_path-cases path out_size =
    let cs = component_loop [] (strtok [] (map forward path)) in
    elim (Bool-cases (ltb out_size 2 || leb max_folder_length (length path))) [
      | inl e ↦ rw e refl
      | inr e ↦ rw e (write_out_lem out_size cs)
    ]
