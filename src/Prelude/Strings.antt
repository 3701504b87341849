-- ===== src/Prelude/Strings.antt =====
-- Character arrays as lists of bytes of their size: the text before the NUL, and what the C library
-- copies.
use Prim.Native.Nat.{ℕ, zero, suc, ◌<◌}
use mathlib.Core.Path.{◌≡◌, refl, ap}
use mathlib.Core.Logic.{inl, inr}
use mathlib.Core.List.{List, [], ◌∷◌, ◌++◌}
use native.Mathlib.Omega.{arith}
use side_tnfs_firmware.Prelude.Tests.{◌==◌, if◌then◌else◌, Bool-cases}
use side_tnfs_firmware.Prelude.Lists.{length, take, drop, set}

-- The text before the NUL.
unfoldable pub c_str : List ℕ → List ℕ
c_str [] = []
c_str (c ∷ s) = if c == 0 then [] else c ∷ c_str s

-- `strnlen`
unfoldable pub strnlen : List ℕ → ℕ → ℕ
unfolding c_str
strnlen s n = length (c_str (take n s))

-- The `n` bytes that `strncpy` writes: the text, cut off or filled with zeros.
unfoldable pub padded : ℕ → List ℕ → List ℕ
padded zero src = []
padded (suc n) [] = 0 ∷ padded n []
padded (suc n) (c ∷ s) = c ∷ (if c == 0 then padded n [] else padded n s)

-- `strncpy(dst, src, n)`
unfoldable pub strncpy : List ℕ → List ℕ → ℕ → List ℕ
unfolding padded
strncpy dst src n = padded n src ++ drop n dst

pub length-padded : (n : ℕ) (src : List ℕ) → length (padded n src) ≡ n
unfolding padded
length-padded zero src = refl
length-padded (suc n) [] = ap suc (length-padded n [])
length-padded (suc n) (c ∷ s) = elim (Bool-cases (c == 0)) [
  | inl e ↦ rw e (ap suc (length-padded n []))
  | inr e ↦ rw e (ap suc (length-padded n s))
]

c_str-zeros : (n : ℕ) (r : List ℕ) → c_str (padded n [] ++ (0 ∷ r)) ≡ []
unfolding c_str padded
c_str-zeros zero r = refl
c_str-zeros (suc n) r = refl

-- What is copied, with a NUL behind it, has the text cut off at `n`.
pub c_str-padded : (n : ℕ) (src r : List ℕ) → c_str (padded n src ++ (0 ∷ r)) ≡ take n (c_str src)
unfolding c_str padded
c_str-padded zero src r = refl
c_str-padded (suc n) [] r = refl
c_str-padded (suc n) (c ∷ s) r = elim (Bool-cases (c == 0)) [
  | inl e ↦ rw e refl
  | inr e ↦ rw e (ap (λ t. c ∷ t) (c_str-padded n s r))
]

pub c_str-set : (f : List ℕ) (n : ℕ) → n < length f → c_str (set f n 0) ≡ take n (c_str f)
unfolding c_str
c_str-set [] n h = absurd (omega (arith, h))
c_str-set (c ∷ s) zero h = refl
c_str-set (c ∷ s) (suc n) h = elim (Bool-cases (c == 0)) [
  | inl e ↦ rw e refl
  | inr e ↦ rw e (ap (λ t. c ∷ t) (c_str-set s n (omega (arith, h))))
]

pub set-append : (xs ys : List ℕ) (n v : ℕ) → length xs ≡ n → set (xs ++ ys) n v ≡ xs ++ set ys 0 v
set-append [] ys zero v h = refl
set-append [] ys (suc n) v h = absurd (omega (arith, h))
set-append (x ∷ xs) ys zero v h = absurd (omega (arith, h))
set-append (x ∷ xs) ys (suc n) v h = ap (λ l. x ∷ l) (set-append xs ys n v (omega (arith, h)))
