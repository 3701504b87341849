-- ===== src/Files/Free.antt =====
-- The descriptors that romemul/gemdrvemul.c gives to new files.
use side_tnfs_firmware.Prelude.{
  ℕ, ◌+◌, ◌-◌, ◌%◌, ◌^◌, ◌≤◌, ◌<◌, ◌≡◌, ◌↔◌, ◌⊎◌, inl, inr, refl, sym, Bool, true, false, some,
  List, [], ◌∷◌, ltb, ◌==◌, arith, Bool-cases, All, subst,
}
use side_tnfs_firmware.Files.{
  FileDescriptor, first_file_descriptor, fds, first_gap, get_first_available_fd, add_file,
  add_tnfs_file, add_sd_file, add_config_flash_file, get_file_by_fdesc,
}

-- Membership, with the place forgotten.
abbrev pub IsIn : ℕ → List ℕ → Type 0
IsIn x [] = ⊥
IsIn x (y ∷ ys) = (x ≡ y) ⊎ IsIn x ys

abbrev pub IsOrdered : List ℕ → Type 0
IsOrdered [] = Unit {0}
IsOrdered (x ∷ xs) = All (λ y. x ≤ y) xs × IsOrdered xs

-- What the C library promises of `qsort` on an array of integers.
pub record Sorts (qsort : List ℕ → List ℕ) : Type 0 where
  pub ordered : (xs : List ℕ) → IsOrdered (qsort xs)
  pub same : (xs : List ℕ) (x : ℕ) → IsIn x xs ↔ IsIn x (qsort xs)

All-IsIn : (P : ℕ → Type 0) (xs : List ℕ) (x : ℕ) → All P xs → IsIn x xs → P x
All-IsIn P [] x h m = absurd m
All-IsIn P (y ∷ ys) x h (inl e) = rw e h.0
All-IsIn P (y ∷ ys) x h (inr m) = All-IsIn P ys x h.1 m

All-of : (P : ℕ → Type 0) (xs : List ℕ) → ((x : ℕ) → IsIn x xs → P x) → All P xs
All-of P [] h = tt
All-of P (y ∷ ys) h = (h y (inl refl), All-of P ys (λ x m. h x (inr m)))

-- The number after the run of consecutive numbers that begins a sorted array.
pub record IsGap (a : ℕ) (xs : List ℕ) (v : ℕ) : Type 0 where
  pub above : a < v
  pub free : ¬ (IsIn v xs)
  pub least : (w : ℕ) → a < w → w < v → IsIn w xs

small_suc : (a : ℕ) → a < 65535 → (a + 1) % 2 ^ 16 ≡ a + 1
small_suc a h = omega arith

IsGap-after :
    (a : ℕ) (xs : List ℕ)
    → All (λ y. a + 1 < y) xs
    → a < 65535
    → IsGap a (a ∷ xs) ((a + 1) % 2 ^ 16)
IsGap-after a xs h s = rw (small_suc a s) (record {
  above = omega arith;
  free = elim [
    | inl e ↦ omega arith
    | inr m ↦ let k = All-IsIn (λ y. a + 1 < y) xs (a + 1) h m in omega arith
  ];
  least = λ w low high. absurd (omega arith);
})

All-above : (a b : ℕ) (xs : List ℕ) → a < b → All (λ y. b ≤ y) xs → All (λ y. a < y) xs
All-above a b [] h k = tt
All-above a b (x ∷ xs) h k = (omega (arith, k.0), All-above a b xs h k.1)

first_gap-IsGap :
    (a : ℕ) (xs : List ℕ)
    → IsOrdered (a ∷ xs)
    → All (λ y. y < 65535) (a ∷ xs)
    → IsGap a (a ∷ xs) (first_gap (a ∷ xs))
unfolding first_gap
first_gap-IsGap a [] o s = IsGap-after a [] tt s.0
first_gap-IsGap a (b ∷ xs) o s = elim (Bool-cases (ltb 1 (b - a))) [
  | inl e ↦
      let far : a + 1 < b = ground arith in
      rw e (IsGap-after a (b ∷ xs) (far, All-above (a + 1) b xs far o.1.0) s.0)
  | inr e ↦
      let near : b ≤ a + 1 = ground arith in
      let g = first_gap-IsGap b xs o.1 s.1 in
      rw e (record {
        above = omega (arith, g.above, o.0.0);
        free = elim [ inl same ↦ omega (arith, g.above, o.0.0) | inr m ↦ g.free m ];
        least = λ w low high. elim (Bool-cases (w == b)) [
          | inl at_b ↦ inr (inl (ground arith))
          | inr off ↦ inr (g.least w (ground arith) high)
        ];
      })
]

-- The descriptors in use.
pub record IsTable (head : List FileDescriptor) : Type 0 where
  pub from_first : All (λ y. first_file_descriptor ≤ y) (fds head)
  pub below_last : All (λ y. y < 65535) (fds head)

sorted-IsGap :
    (first : ℕ) (xs sorted : List ℕ)
    → IsOrdered sorted
    → ((x : ℕ) → IsIn x (first ∷ xs) ↔ IsIn x sorted)
    → first < 65535
    → All (λ y. first ≤ y) xs
    → All (λ y. y < 65535) xs
    → IsGap first (first ∷ xs) (first_gap sorted)
sorted-IsGap first xs [] o same f low high = absurd ((same first).0 (inl refl))
sorted-IsGap first xs (a ∷ more) o same f low high =
    let below : a ≤ first =
      All-IsIn (λ y. a ≤ y) (a ∷ more) first (omega arith, o.0) ((same first).0 (inl refl)) in
    let above : first ≤ a =
      All-IsIn (λ y. first ≤ y) (first ∷ xs) a (omega arith, low) ((same a).1 (inl refl)) in
    let small =
      All-of (λ y. y < 65535) (a ∷ more)
        (λ x m. All-IsIn (λ y. y < 65535) (first ∷ xs) x (f, high) ((same x).1 m)) in
    let g = first_gap-IsGap a more o small in
    record {
      above = omega (arith, g.above);
      free = λ m. g.free ((same (first_gap (a ∷ more))).0 m);
      least = λ w l h. (same w).1 (g.least w (omega arith) h);
    }

-- The descriptor for a new file while others are open, if `malloc` finds the memory and the open
-- files have descriptors from 16384 to 65534: the least number above 16384 that no open file has, so
-- never 16384 itself.
pub get_first_available_fd-IsGap :
    (qsort : List ℕ → List ℕ) (s : Sorts qsort) (f : FileDescriptor) (rest : List FileDescriptor)
    → IsTable (f ∷ rest)
    → let fd = get_first_available_fd qsort true (f ∷ rest) in
      IsGap first_file_descriptor (first_file_descriptor ∷ fds (f ∷ rest)) fd
unfolding get_first_available_fd
get_first_available_fd-IsGap qsort s f rest t =
    let xs = fds (f ∷ rest) in
    sorted-IsGap first_file_descriptor xs (qsort (first_file_descriptor ∷ xs))
      (s.ordered (first_file_descriptor ∷ xs)) (s.same (first_file_descriptor ∷ xs)) (omega arith)
      t.from_first t.below_last

IsIn-found :
    (head : List FileDescriptor) (fd : ℕ) (g : FileDescriptor)
    → get_file_by_fdesc head fd ≡ some g
    → IsIn fd (fds head)
unfolding get_file_by_fdesc
IsIn-found [] fd g e = absurd (cc)
IsIn-found (f ∷ rest) fd g e = elim (Bool-cases (f.fd == fd)) [
  | inl same ↦ inl (ground arith)
  | inr differs ↦ inr (IsIn-found rest fd g (rw differs at e))
]

-- A file whose descriptor was chosen for the table hides no file that was found before.
keeps_found :
    (qsort : List ℕ → List ℕ) (s : Sorts qsort) (head : List FileDescriptor) (fd : ℕ)
    (g : FileDescriptor)
    → IsTable head
    → get_file_by_fdesc head fd ≡ some g
    → (get_first_available_fd qsort true head == fd) ≡ false
unfolding get_file_by_fdesc
keeps_found qsort s [] fd g t e = absurd (cc)
keeps_found qsort s (f ∷ rest) fd g t e =
    elim (Bool-cases (get_first_available_fd qsort true (f ∷ rest) == fd)) [
      | inr differs ↦ differs
      | inl same ↦
          let gap = get_first_available_fd-IsGap qsort s f rest t in
          let eq : get_first_available_fd qsort true (f ∷ rest) ≡ fd = ground arith in
          absurd (
            gap.free (
              subst (λ x. IsIn x (first_file_descriptor ∷ fds (f ∷ rest))) (sym eq)
                (inr (IsIn-found (f ∷ rest) fd g e))))
    ]

-- A file that is found by its descriptor is still found after another file was opened with the
-- descriptor that the table gives, whichever backend opened it.
pub get_file_by_fdesc-add :
    (qsort : List ℕ → List ℕ) (s : Sorts qsort) (head : List FileDescriptor) (fd : ℕ)
    (g new : FileDescriptor) (fpath bytes : List ℕ) (handle slot : ℕ) (writable : Bool)
    → IsTable head
    → get_file_by_fdesc head fd ≡ some g
    → let free = get_first_available_fd qsort true head in
      (get_file_by_fdesc (add_file head new fpath handle free) fd ≡ some g)
      × (get_file_by_fdesc (add_tnfs_file head fpath handle free writable slot) fd ≡ some g)
      × (get_file_by_fdesc (add_sd_file head fpath handle free slot) fd ≡ some g)
      × (get_file_by_fdesc (add_config_flash_file head fpath bytes slot free) fd ≡ some g)
unfolding get_file_by_fdesc add_file add_tnfs_file add_sd_file add_config_flash_file
get_file_by_fdesc-add qsort s head fd g new fpath bytes handle slot writable t e =
    let differs = keeps_found qsort s head fd g t e in
    (rw differs e, rw differs e, rw differs e, rw differs e)
