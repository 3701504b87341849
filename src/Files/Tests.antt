-- ===== src/Files/Tests.antt =====
-- The table of open files at concrete tables.
use side_tnfs_firmware.Prelude.{
  ℕ, ◌≤◌, ◌≡◌, ◌≢◌, ◌↔◌, inl, inr, refl, true, none, some, List, [], ◌∷◌, leb, if◌then◌else◌, arith,
  Bool-cases, All,
}
use side_tnfs_firmware.Files.{
  FileDescriptor, fds, first_gap, get_first_available_fd, get_file_by_fdesc, zeroed,
  gemdrive_backend_fclose, SdClose, closed_ok, FcloseStatus, CloseCall, tnfs_close, gemdos_eok,
  gemdos_eihndl, fclose_found, fclose_file, delete_file_by_fdesc, tnfs_file,
}
use side_tnfs_firmware.Files.Free.{
  IsIn, IsOrdered, Sorts, IsTable, IsGap, get_first_available_fd-IsGap,
}
use side_tnfs_firmware.Files.Close.{Closes, fclose_cases}

insert : ℕ → List ℕ → List ℕ
insert x [] = x ∷ []
insert x (y ∷ ys) = if leb x y then x ∷ y ∷ ys else y ∷ insert x ys

-- A `qsort`.
sort : List ℕ → List ℕ
unfolding insert
sort [] = []
sort (x ∷ xs) = insert x (sort xs)

insert-All : (P : ℕ → Type 0) (x : ℕ) (ys : List ℕ) → P x → All P ys → All P (insert x ys)
unfolding insert
insert-All P x [] p h = (p, tt)
insert-All P x (y ∷ ys) p h = elim (Bool-cases (leb x y)) [
  | inl e ↦ rw e (p, h)
  | inr e ↦ rw e (h.0, insert-All P x ys p h.1)
]

All-le : (x y : ℕ) (ys : List ℕ) → x ≤ y → All (λ z. y ≤ z) ys → All (λ z. x ≤ z) ys
All-le x y [] h k = tt
All-le x y (z ∷ zs) h k = (omega (arith, k.0), All-le x y zs h k.1)

insert-IsOrdered : (x : ℕ) (ys : List ℕ) → IsOrdered ys → IsOrdered (insert x ys)
unfolding insert
insert-IsOrdered x [] o = (tt, tt)
insert-IsOrdered x (y ∷ ys) o = elim (Bool-cases (leb x y)) [
  | inl e ↦ let le : x ≤ y = ground arith in rw e ((le, All-le x y ys le o.0), o)
  | inr e ↦ rw e (insert-All (λ z. y ≤ z) x ys (ground arith) o.0, insert-IsOrdered x ys o.1)
]

sort-IsOrdered : (xs : List ℕ) → IsOrdered (sort xs)
unfolding sort
sort-IsOrdered [] = tt
sort-IsOrdered (x ∷ xs) = insert-IsOrdered x (sort xs) (sort-IsOrdered xs)

IsIn-insert : (x z : ℕ) (ys : List ℕ) → IsIn z (x ∷ ys) → IsIn z (insert x ys)
unfolding insert
IsIn-insert x z [] m = m
IsIn-insert x z (y ∷ ys) m = elim (Bool-cases (leb x y)) [
  | inl e ↦ rw e m
  | inr e ↦ rw e (elim m [
    | inl at_x ↦ inr (IsIn-insert x z ys (inl at_x))
    | inr (inl at_y) ↦ inl at_y
    | inr (inr deep) ↦ inr (IsIn-insert x z ys (inr deep))
  ])
]

insert-IsIn : (x z : ℕ) (ys : List ℕ) → IsIn z (insert x ys) → IsIn z (x ∷ ys)
unfolding insert
insert-IsIn x z [] m = m
insert-IsIn x z (y ∷ ys) m = elim (Bool-cases (leb x y)) [
  | inl e ↦ rw e at m
  | inr e ↦
      let m' : IsIn z (y ∷ insert x ys) = rw e at m in
      elim m' [
        | inl at_y ↦ inr (inl at_y)
        | inr deep ↦ elim (insert-IsIn x z ys deep) [
          | inl at_x ↦ inl at_x
          | inr deeper ↦ inr (inr deeper)
        ]
      ]
]

IsIn-sort : (xs : List ℕ) (z : ℕ) → IsIn z xs ↔ IsIn z (sort xs)
unfolding sort
IsIn-sort [] z = (λ m. m, λ m. m)
IsIn-sort (x ∷ xs) z = (
  λ m.
      IsIn-insert x z (sort xs)
        (elim m [ inl e ↦ inl e | inr deep ↦ inr ((IsIn-sort xs z).0 deep) ]),
  λ m. elim (insert-IsIn x z (sort xs) m) [
    | inl e ↦ inl e
    | inr deep ↦ inr ((IsIn-sort xs z).1 deep)
  ],
)

sort-Sorts : Sorts sort
sort-Sorts = record { ordered = sort-IsOrdered; same = IsIn-sort }

-- Three files of which the middle one has the highest descriptor.
abbrev first : FileDescriptor
first = record zeroed { fd = 16386; backend = tnfs_file; tnfs_handle = 7; runtime_slot = 1 }

abbrev second : FileDescriptor
second = record zeroed { fd = 16388; fobject = 4 }

abbrev third : FileDescriptor
third = record zeroed { fd = 16385 }

abbrev table : List FileDescriptor
table = first ∷ second ∷ third ∷ []

table-IsTable : IsTable table
table-IsTable = record { from_first = omega arith; below_last = omega arith }

next_descriptor : get_first_available_fd sort true table ≡ 16387
unfolding get_first_available_fd first_gap sort
next_descriptor = refl

get_first_available_fd-IsGap_example :
    let fd = get_first_available_fd sort true table in IsGap 16384 (16384 ∷ fds table) fd
get_first_available_fd-IsGap_example =
    get_first_available_fd-IsGap sort sort-Sorts first (second ∷ third ∷ []) table-IsTable

second_found : get_file_by_fdesc table 16388 ≡ some second
unfolding get_file_by_fdesc
second_found = refl

abbrev answer : ℕ → SdClose
answer _ = closed_ok

-- Closing the file opened last, on its server.
first_closed :
    gemdrive_backend_fclose 1 answer 3 table 16386
    ≡ some (gemdos_eok, second ∷ third ∷ [], tnfs_close 16386 7 1 ∷ [])
unfolding gemdrive_backend_fclose get_file_by_fdesc fclose_file fclose_found delete_file_by_fdesc
first_closed = refl

-- Closing the file opened second: the handler does not return.
fclose_cases_example :
    let fclose = λ (n : ℕ). gemdrive_backend_fclose n answer 3 table 16388 in
    (first.fd ≡ 16388
      → (status : FcloseStatus) × (calls : List CloseCall) × Closes answer 3 first status calls
        × (fclose 100 ≡ some (status, second ∷ third ∷ [], calls)))
    × (first.fd ≢ 16388
        → get_file_by_fdesc (second ∷ third ∷ []) 16388 ≡ none
        → fclose 100 ≡ some (gemdos_eihndl, table, []))
    × (first.fd ≢ 16388
        → (g : FileDescriptor) → get_file_by_fdesc (second ∷ third ∷ []) 16388 ≡ some g
        → fclose 99 ≡ none)
fclose_cases_example = fclose_cases 99 answer 3 first (second ∷ third ∷ []) 16388
