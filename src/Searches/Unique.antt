-- ===== src/Searches/Unique.antt =====
-- No DTA has two searches in the table of romemul/sidetnfs_probe.c.
use side_tnfs_firmware.Prelude.{
  ℕ, zero, suc, ◌≡◌, inl, inr, refl, true, false, List, [], ◌∷◌, get_or, set, arith, Bool-cases,
  subst,
}
use side_tnfs_firmware.Searches.{DtaSearch, zeroed, is_for}
use side_tnfs_firmware.Searches.Find.{First, at_head, behind, None}
use side_tnfs_firmware.Searches.Lookup.{Place, replaced, free, evicted, is_for-ndta}

-- At most one active search for each DTA.
abbrev pub Unique : List DtaSearch → Type 0
Unique [] = Unit
Unique (s ∷ xs) = (s.active ≡ true → None (is_for s.ndta) xs) × Unique xs

-- No search for the DTA but at the index.
abbrev NoneBut : ℕ → List DtaSearch → ℕ → Type 0
NoneBut ndta [] i = Unit
NoneBut ndta (s ∷ xs) zero = None (is_for ndta) xs
NoneBut ndta (s ∷ xs) (suc i) = (is_for ndta s ≡ false) × NoneBut ndta xs i

pub First-NoneBut :
    (ndta : ℕ) (xs : List DtaSearch) (i : ℕ)
    → First (is_for ndta) xs i
    → Unique xs
    → NoneBut ndta xs i
First-NoneBut ndta [] i f u = tt
First-NoneBut ndta (s ∷ xs) zero (at_head e) u =
    subst (λ d. None (is_for d) xs) (is_for-ndta ndta s e) (u.0 (ground (arith, e)))
First-NoneBut ndta (s ∷ xs) (suc i) (behind e f) u = (e, First-NoneBut ndta xs i f u.1)

None-NoneBut : (ndta : ℕ) (xs : List DtaSearch) (i : ℕ) → None (is_for ndta) xs → NoneBut ndta xs i
None-NoneBut ndta [] i n = tt
None-NoneBut ndta (s ∷ xs) zero n = n.1
None-NoneBut ndta (s ∷ xs) (suc i) n = (n.0, None-NoneBut ndta xs i n.1)

pub Place-NoneBut :
    (ndta : ℕ) (xs : List DtaSearch) (i : ℕ) → Place ndta xs i → Unique xs → NoneBut ndta xs i
Place-NoneBut ndta xs i (replaced f) u = First-NoneBut ndta xs i f u
Place-NoneBut ndta xs i (free n l a) u = None-NoneBut ndta xs i n
Place-NoneBut ndta xs i (evicted n a o) u = None-NoneBut ndta xs i n

None-get_or :
    (ndta : ℕ) (xs : List DtaSearch) (i : ℕ)
    → None (is_for ndta) xs
    → is_for ndta (get_or xs i zeroed) ≡ false
None-get_or ndta [] i n = refl
None-get_or ndta (s ∷ xs) zero n = n.0
None-get_or ndta (s ∷ xs) (suc i) n = None-get_or ndta xs i n.1

pub Unique-NoneBut :
    (xs : List DtaSearch) (i : ℕ)
    → Unique xs
    → (get_or xs i zeroed).active ≡ true
    → NoneBut (get_or xs i zeroed).ndta xs i
Unique-NoneBut [] i u a = tt
Unique-NoneBut (s ∷ xs) zero u a = u.0 a
Unique-NoneBut (s ∷ xs) (suc i) u a =
    let e = get_or xs i zeroed in
    (
      elim (Bool-cases (is_for e.ndta s)) [
        | inr k ↦ k
        | inl k ↦ absurd (ground (arith, a, k, None-get_or s.ndta xs i (u.0 (ground (arith, k)))))
      ],
      Unique-NoneBut xs i u.1 a,
    )

pub None-set :
    (ndta : ℕ) (xs : List DtaSearch) (i : ℕ) (v : DtaSearch)
    → NoneBut ndta xs i
    → is_for ndta v ≡ false
    → None (is_for ndta) (set xs i v)
None-set ndta [] i v n h = tt
None-set ndta (s ∷ xs) zero v n h = (h, n)
None-set ndta (s ∷ xs) (suc i) v n h = (n.0, None-set ndta xs i v n.1 h)

apart :
    (s v : DtaSearch)
    → s.active ≡ true
    → (v.active ≡ true → is_for v.ndta s ≡ false)
    → is_for s.ndta v ≡ false
apart s v a n = elim (Bool-cases v.active) [
  | inl e ↦ ground (arith, a, e, n e)
  | inr e ↦ ground (arith, e)
]

pub Unique-set :
    (xs : List DtaSearch) (i : ℕ) (v : DtaSearch)
    → Unique xs
    → (v.active ≡ true → NoneBut v.ndta xs i)
    → Unique (set xs i v)
Unique-set [] i v u n = tt
Unique-set (s ∷ xs) zero v u n = (n, u.1)
Unique-set (s ∷ xs) (suc i) v u n = (
  λ a. None-set s.ndta xs i v (None-NoneBut s.ndta xs i (u.0 a)) (apart s v a (λ b. (n b).0)),
  Unique-set xs i v u.1 (λ a. (n a).1),
)
