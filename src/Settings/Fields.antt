-- ===== src/Settings/Fields.antt =====
-- The character fields of the settings: what copying and terminating them leaves.
use side_tnfs_firmware.Prelude.{
  take-all, ℕ, zero, suc, ◌-◌, ◌≤◌, ◌<◌, ◌≡◌, refl, ap, ◌∙◌, inl, inr, true, Bool-cases, List, [],
  ◌∷◌, ◌++◌, ◌==◌, length, length-append, length-set, drop-replicate, take, drop, set, replicate,
  All, All-append, IsByte, arith, c_str, strnlen, padded, strncpy, length-padded, c_str-padded,
  c_str-set, set-append,
}
use side_tnfs_firmware.Settings.{is_nul_terminated}
use side_tnfs_firmware.Settings.Layout.{IsMember}
use side_tnfs_firmware.Settings.Network.{fresh_copy, copy_over}

-- A field of `n` characters and the NUL that is made from a text.
abbrev pub clean_field : ℕ → List ℕ → List ℕ
clean_field n src = padded n src ++ (0 ∷ [])

-- The text that a field of `n` characters and a NUL can hold.
abbrev pub text : ℕ → List ℕ → List ℕ
text n f = take n (c_str f)

pub take-take : (n : ℕ) (s : List ℕ) → take n (take n s) ≡ take n s
take-take zero s = refl
take-take (suc n) [] = refl
take-take (suc n) (c ∷ s) = ap (λ r. c ∷ r) (take-take n s)

last-set : (n : ℕ) (f : List ℕ) → length f ≡ suc n → set (drop n f) 0 0 ≡ 0 ∷ []
last-set zero [] h = absurd (omega (arith, h))
last-set zero (c ∷ []) h = refl
last-set zero (c ∷ d ∷ f) h = absurd (omega (arith, h))
last-set (suc n) [] h = absurd (omega (arith, h))
last-set (suc n) (c ∷ f) h = last-set n f (omega (arith, h))

-- What is copied over a field does not depend on it.
pub copy_over_lem :
    (n : ℕ) (field src : List ℕ) → length field ≡ suc n → copy_over field src n ≡ clean_field n src
unfolding copy_over strncpy
copy_over_lem n field src h =
    set-append (padded n src) (drop n field) n 0 (length-padded n src)
    ∙ ap (λ r. padded n src ++ r) (last-set n field h)

pub fresh_copy_lem : (n : ℕ) (src : List ℕ) → fresh_copy src (suc n) n ≡ clean_field n src
unfolding fresh_copy strncpy
fresh_copy_lem n src =
    let e : suc n - n ≡ 1 = omega arith in
    ap (λ r. padded n src ++ r) (drop-replicate n (suc n) 0 ∙ ap (λ k. replicate k 0) e)

pub clean_field-set : (n : ℕ) (src : List ℕ) → set (clean_field n src) n 0 ≡ clean_field n src
clean_field-set n src = set-append (padded n src) (0 ∷ []) n 0 (length-padded n src)

padded_bytes : (n : ℕ) (src : List ℕ) → All IsByte src → All IsByte (padded n src)
unfolding padded
padded_bytes zero src h = tt
padded_bytes (suc n) [] h = (omega arith, padded_bytes n [] tt)
padded_bytes (suc n) (c ∷ s) h = (
  h.0,
  elim (Bool-cases (c == 0)) [
    | inl e ↦ rw e (padded_bytes n [] tt)
    | inr e ↦ rw e (padded_bytes n s h.1)
  ],
)

pub clean_field-IsMember :
    (n : ℕ) (src : List ℕ) → All IsByte src → IsMember (suc n) (clean_field n src)
clean_field-IsMember n src h = (
  length-append (padded n src) (0 ∷ []) ∙ omega (arith, length-padded n src),
  All-append IsByte (padded n src) (0 ∷ []) (padded_bytes n src h) (omega arith, tt),
)

pub set_bytes : (f : List ℕ) (n : ℕ) → All IsByte f → All IsByte (set f n 0)
set_bytes [] n h = tt
set_bytes (c ∷ f) zero h = (omega arith, h.1)
set_bytes (c ∷ f) (suc n) h = (h.0, set_bytes f n h.1)

pub set-IsMember : (n : ℕ) (f : List ℕ) → IsMember (suc n) f → IsMember (suc n) (set f n 0)
set-IsMember n f h = (length-set f n 0 ∙ h.0, set_bytes f n h.1)

-- The text survives copying over and copying out.
pub text_kept : (n : ℕ) (src : List ℕ) → c_str (clean_field n (clean_field n src)) ≡ text n src
text_kept n src =
    c_str-padded n (clean_field n src) []
    ∙ ap (take n) (c_str-padded n src [])
    ∙ take-take n (c_str src)

-- Terminating a field keeps its text.
pub text-set : (n : ℕ) (f : List ℕ) → n < length f → text n (set f n 0) ≡ text n f
text-set n f h = ap (take n) (c_str-set f n h) ∙ take-take n (c_str f)

take-le : (n : ℕ) (s : List ℕ) → length (take n s) ≤ n
take-le zero s = omega arith
take-le (suc n) [] = omega arith
take-le (suc n) (c ∷ s) = omega (arith, take-le n s)

pub terminated_lem :
    (n : ℕ) (f : List ℕ) → length f ≡ suc n → is_nul_terminated (set f n 0) (suc n) ≡ true
unfolding is_nul_terminated strnlen
terminated_lem n f h =
    let whole : take (suc n) (set f n 0) ≡ set f n 0 =
      take-all (suc n) (set f n 0) (omega (arith, length-set f n 0, h)) in
    rw (whole, c_str-set f n (omega (arith, h))) (let k = take-le n (c_str f) in ground (arith, k))
