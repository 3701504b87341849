-- ===== src/Prelude/Text.antt =====
-- C strings as the lists of their bytes before the NUL.
use Prim.Native.Nat.{ℕ}
use mathlib.Core.Path.{◌≡◌, refl}
use mathlib.Core.Logic.{◌↔◌}
use mathlib.Core.Bool.{Bool, true, false, ◌&&◌}
use mathlib.Core.List.{List, [], ◌∷◌}
use native.Mathlib.Omega.{arith}
use side_tnfs_firmware.Prelude.Tests.{◌==◌}

-- `strcmp(a, b) == 0`
unfoldable pub same_text : List ℕ → List ℕ → Bool
same_text [] [] = true
same_text (a ∷ s) (b ∷ t) = (a == b) && same_text s t
same_text _ _ = false

same_text_sound : (s t : List ℕ) → same_text s t ≡ true → s ≡ t
unfolding same_text
same_text_sound [] [] e = refl
same_text_sound [] (b ∷ t) e = absurd (cc)
same_text_sound (a ∷ s) [] e = absurd (cc)
same_text_sound (a ∷ s) (b ∷ t) e = ground (arith, same_text_sound s t)

same_text_self : (s : List ℕ) → same_text s s ≡ true
unfolding same_text
same_text_self [] = refl
same_text_self (a ∷ s) = ground (arith, same_text_self s)

pub same_text_iff : (s t : List ℕ) → (same_text s t ≡ true) ↔ (s ≡ t)
same_text_iff s t = (same_text_sound s t, λ e. rw e (same_text_self t))
