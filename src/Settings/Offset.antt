-- ===== src/Settings/Offset.antt =====
-- The offsets of romemul/sidetnfs_rtcconfig.c: what is written for one is read back as it.
use side_tnfs_firmware.Prelude.{
  length-drop, take-all, ℕ, zero, suc, ◌+◌, ◌≤◌, ◌≡◌, refl, ap, ◌∙◌, subst, inl, inr, Bool, true,
  false, not, Bool-cases, Option, none, some, List, [], ◌∷◌, ◌++◌, ltb, ◌==◌, if◌then◌else◌, length,
  length-append, drop, All, All-append, IsByte, arith, c_str, strnlen,
}
use side_tnfs_firmware.Settings.{is_nul_terminated}
use side_tnfs_firmware.Settings.Layout.{IsMember}
use side_tnfs_firmware.Settings.Clock.{
  Offset, is_digit, offset_digits, skip_sign, in_range, signed_digits, parse_utc_offset, decimal,
  offset_text, write_text,
}

-- From -12 to 14.
abbrev pub IsOffset : Offset → Type 0
IsOffset (true, value) = value ≤ 12
IsOffset (false, value) = value ≤ 14

-- Without the sign of a zero.
unfoldable pub plain : Offset → Offset
plain (negative, value) = if value == 0 then (false, 0) else (negative, value)

-- The text of an offset is short, has no NUL, and is read as the offset.
some-injective : {a b : Offset} → some a ≡ some b → a ≡ b
some-injective h = cc

by_test :
    (b : Bool) (x : Option Offset) (o : Offset) → (if b then none else x) ≡ some o → b ≡ true → ⊥
by_test true x o h e = ground (arith, h)
by_test false x o h e = ground (arith, e)

passed :
    (b : Bool) (x : Option Offset) (o : Offset)
    → (if b then none else x) ≡ some o
    → b ≡ false
    → x ≡ some o
passed true x o h e = absurd (ground (arith, e))
passed false x o h e = h

record IsWritten (o : Offset) : Type 0 where
  short : length (offset_text o) ≤ 3
  whole : (r : List ℕ) → c_str (offset_text o ++ (0 ∷ r)) ≡ offset_text o
  read :
      (let (negative, p) = skip_sign (offset_text o) in signed_digits negative p) ≡ some (plain o)
  bytes : All IsByte (offset_text o)

-- The four facts about one offset.
as_written :
    {o : Offset}
    → length (offset_text o) ≤ 3
    → ((r : List ℕ) → c_str (offset_text o ++ (0 ∷ r)) ≡ offset_text o)
    → (let (negative, p) = skip_sign (offset_text o) in signed_digits negative p) ≡ some (plain o)
    → All IsByte (offset_text o)
    → IsWritten o
as_written s w r b = record { short = s; whole = w; read = r; bytes = b }

below : (value : ℕ) → value ≤ 12 → IsWritten (true, value)
unfolding offset_text decimal skip_sign signed_digits in_range offset_digits is_digit c_str plain
below zero h = as_written (omega arith) (λ r. refl) refl (omega arith, tt)
below (suc zero) h = as_written (omega arith) (λ r. refl) refl (omega arith, (omega arith, tt))
below (suc (suc zero)) h =
    as_written (omega arith) (λ r. refl) refl (omega arith, (omega arith, tt))
below (suc (suc (suc zero))) h =
    as_written (omega arith) (λ r. refl) refl (omega arith, (omega arith, tt))
below (suc (suc (suc (suc zero)))) h =
    as_written (omega arith) (λ r. refl) refl (omega arith, (omega arith, tt))
below (suc (suc (suc (suc (suc zero))))) h =
    as_written (omega arith) (λ r. refl) refl (omega arith, (omega arith, tt))
below (suc (suc (suc (suc (suc (suc zero)))))) h =
    as_written (omega arith) (λ r. refl) refl (omega arith, (omega arith, tt))
below (suc (suc (suc (suc (suc (suc (suc zero))))))) h =
    as_written (omega arith) (λ r. refl) refl (omega arith, (omega arith, tt))
below (suc (suc (suc (suc (suc (suc (suc (suc zero)))))))) h =
    as_written (omega arith) (λ r. refl) refl (omega arith, (omega arith, tt))
below (suc (suc (suc (suc (suc (suc (suc (suc (suc zero))))))))) h =
    as_written (omega arith) (λ r. refl) refl (omega arith, (omega arith, tt))
below (suc (suc (suc (suc (suc (suc (suc (suc (suc (suc zero)))))))))) h =
    as_written (omega arith) (λ r. refl) refl (omega arith, (omega arith, (omega arith, tt)))
below (suc (suc (suc (suc (suc (suc (suc (suc (suc (suc (suc zero))))))))))) h =
    as_written (omega arith) (λ r. refl) refl (omega arith, (omega arith, (omega arith, tt)))
below (suc (suc (suc (suc (suc (suc (suc (suc (suc (suc (suc (suc zero)))))))))))) h =
    as_written (omega arith) (λ r. refl) refl (omega arith, (omega arith, (omega arith, tt)))
below (suc (suc (suc (suc (suc (suc (suc (suc (suc (suc (suc (suc (suc value))))))))))))) h =
    absurd (omega (arith, h))

above : (value : ℕ) → value ≤ 14 → IsWritten (false, value)
unfolding offset_text decimal skip_sign signed_digits in_range offset_digits is_digit c_str plain
above zero h = as_written (omega arith) (λ r. refl) refl (omega arith, tt)
above (suc zero) h = as_written (omega arith) (λ r. refl) refl (omega arith, (omega arith, tt))
above (suc (suc zero)) h =
    as_written (omega arith) (λ r. refl) refl (omega arith, (omega arith, tt))
above (suc (suc (suc zero))) h =
    as_written (omega arith) (λ r. refl) refl (omega arith, (omega arith, tt))
above (suc (suc (suc (suc zero)))) h =
    as_written (omega arith) (λ r. refl) refl (omega arith, (omega arith, tt))
above (suc (suc (suc (suc (suc zero))))) h =
    as_written (omega arith) (λ r. refl) refl (omega arith, (omega arith, tt))
above (suc (suc (suc (suc (suc (suc zero)))))) h =
    as_written (omega arith) (λ r. refl) refl (omega arith, (omega arith, tt))
above (suc (suc (suc (suc (suc (suc (suc zero))))))) h =
    as_written (omega arith) (λ r. refl) refl (omega arith, (omega arith, tt))
above (suc (suc (suc (suc (suc (suc (suc (suc zero)))))))) h =
    as_written (omega arith) (λ r. refl) refl (omega arith, (omega arith, tt))
above (suc (suc (suc (suc (suc (suc (suc (suc (suc zero))))))))) h =
    as_written (omega arith) (λ r. refl) refl (omega arith, (omega arith, tt))
above (suc (suc (suc (suc (suc (suc (suc (suc (suc (suc zero)))))))))) h =
    as_written (omega arith) (λ r. refl) refl (omega arith, (omega arith, (omega arith, tt)))
above (suc (suc (suc (suc (suc (suc (suc (suc (suc (suc (suc zero))))))))))) h =
    as_written (omega arith) (λ r. refl) refl (omega arith, (omega arith, (omega arith, tt)))
above (suc (suc (suc (suc (suc (suc (suc (suc (suc (suc (suc (suc zero)))))))))))) h =
    as_written (omega arith) (λ r. refl) refl (omega arith, (omega arith, (omega arith, tt)))
above (suc (suc (suc (suc (suc (suc (suc (suc (suc (suc (suc (suc (suc zero))))))))))))) h =
    as_written (omega arith) (λ r. refl) refl (omega arith, (omega arith, (omega arith, tt)))
above (suc (suc (suc (suc (suc (suc (suc (suc (suc (suc (suc (suc (suc (suc zero)))))))))))))) h =
    as_written (omega arith) (λ r. refl) refl (omega arith, (omega arith, (omega arith, tt)))
above
      (suc
        (suc (suc (suc (suc (suc (suc (suc (suc (suc (suc (suc (suc (suc (suc value)))))))))))))))
      h =
    absurd (omega (arith, h))

written : (o : Offset) → IsOffset o → IsWritten o
written (true, value) h = below value h
written (false, value) h = above value h

in_range-IsOffset :
    (negative : Bool) (value : Option ℕ) (o : Offset)
    → in_range negative value ≡ some o
    → IsOffset o
unfolding in_range
in_range-IsOffset negative none o h = absurd (ground (arith, h))
in_range-IsOffset true (some value) o h = elim (Bool-cases (ltb 12 value)) [
  | inl e ↦ absurd (by_test (ltb 12 value) (some (true, value)) o h e)
  | inr e ↦
      subst IsOffset (some-injective (passed (ltb 12 value) (some (true, value)) o h e))
        (ground (arith, e))
]
in_range-IsOffset false (some value) o h = elim (Bool-cases (ltb 14 value)) [
  | inl e ↦ absurd (by_test (ltb 14 value) (some (false, value)) o h e)
  | inr e ↦
      subst IsOffset (some-injective (passed (ltb 14 value) (some (false, value)) o h e))
        (ground (arith, e))
]

signed_digits-IsOffset :
    (negative : Bool) (p : List ℕ) (o : Offset) → signed_digits negative p ≡ some o → IsOffset o
unfolding signed_digits
signed_digits-IsOffset negative [] o h = absurd (ground (arith, h))
signed_digits-IsOffset negative (c ∷ p) o h =
    in_range-IsOffset negative (offset_digits 0 0 (c ∷ p)) o h

-- What is parsed is in range.
pub parse_utc_offset-IsOffset :
    (f : List ℕ) (size : ℕ) (o : Offset) → parse_utc_offset f size ≡ some o → IsOffset o
unfolding parse_utc_offset
parse_utc_offset-IsOffset f size o h =
    let (negative, p) = skip_sign (c_str f) in
    elim (Bool-cases (not (is_nul_terminated f size))) [
      | inl e ↦ absurd (by_test (not (is_nul_terminated f size)) (signed_digits negative p) o h e)
      | inr e ↦
          signed_digits-IsOffset negative p o
            (passed (not (is_nul_terminated f size)) (signed_digits negative p) o h e)
    ]

fits_four : (g : List ℕ) → length g ≡ 4 → length (c_str g) ≤ 3 → is_nul_terminated g 4 ≡ true
unfolding is_nul_terminated strnlen
fits_four g h k = rw (take-all 4 g (omega (arith, h))) (ground (arith, k))

drop_bytes : (n : ℕ) (s : List ℕ) → All IsByte s → All IsByte (drop n s)
drop_bytes zero s h = h
drop_bytes (suc n) [] h = tt
drop_bytes (suc n) (c ∷ s) h = drop_bytes n s h.1

-- A field that has the text of an offset is parsed as it.
pub parse_utc_offset-text :
    (g : List ℕ) (o : Offset)
    → length g ≡ 4
    → IsOffset o
    → c_str g ≡ offset_text o
    → parse_utc_offset g 4 ≡ some (plain o)
unfolding parse_utc_offset
parse_utc_offset-text g o h r e =
    let w = written o r in
    rw (fits_four g h (omega (arith, w.short, ap (λ (l : List ℕ). length l) e)), e) w.read

pub write_text-text :
    (f : List ℕ) (o : Offset)
    → IsMember 4 f
    → IsOffset o
    → IsMember 4 (write_text f (offset_text o))
      × (c_str (write_text f (offset_text o)) ≡ offset_text o)
unfolding write_text
write_text-text f o h r =
    let w = written o r in
    let t = offset_text o in
    (
      (
        length-append t (0 ∷ drop (length t + 1) f)
            ∙ omega (arith, length-drop (length t + 1) f, h.0, w.short),
        All-append IsByte t (0 ∷ drop (length t + 1) f) w.bytes
            (omega arith, drop_bytes (length t + 1) f h.1),
      ),
      w.whole (drop (length t + 1) f),
    )

pub short-text : (o : Offset) → IsOffset o → length (offset_text o) ≤ 3
short-text o h = (written o h).short

nonzero_plain :
    (negative : Bool) (value : ℕ)
    → IsOffset (negative, suc value)
    → IsOffset (if suc value == 0 then (false, 0) else (negative, suc value))
nonzero_plain negative value h = let e : (suc value == 0) ≡ false = ground arith in rw e h

pub plain-IsOffset : (o : Offset) → IsOffset o → IsOffset (plain o)
unfolding plain
plain-IsOffset (negative, zero) h = omega arith
plain-IsOffset (true, suc value) h = nonzero_plain true value h
plain-IsOffset (false, suc value) h = nonzero_plain false value h

-- A zero is spelled without a sign.
pub offset_text-plain : (o : Offset) → offset_text (plain o) ≡ offset_text o
unfolding plain offset_text
offset_text-plain (negative, zero) = refl
offset_text-plain (negative, suc value) =
    let e : (suc value == 0) ≡ false = ground arith in rw (e, e) refl
