-- ===== src/Prelude/Bytes.antt =====
-- Little-endian words, as the RP2040 stores them, and the bit-level helpers of the checksums.
use Prim.Native.Nat.{ℕ, ◌+◌, ◌*◌, ◌/◌, ◌%◌, ◌^◌, ◌<◌}
use mathlib.Core.Path.{◌≡◌}
use mathlib.Core.List.{List, [], ◌∷◌}
use native.Mathlib.Omega.{arith}
use side_tnfs_firmware.Prelude.Lists.{get_or}

abbrev pub IsByte : ℕ → Type 0
IsByte b = b < 256

abbrev pub le16 : ℕ → List ℕ
le16 w = w % 256 ∷ w / 256 % 256 ∷ []

abbrev pub le32 : ℕ → List ℕ
le32 w = w % 256 ∷ w / 256 % 256 ∷ w / 65536 % 256 ∷ w / 16777216 % 256 ∷ []

-- The word at the head of a list of bytes.
abbrev pub read_le16 : List ℕ → ℕ
read_le16 xs = get_or xs 0 0 + get_or xs 1 0 * 256

abbrev pub read_le32 : List ℕ → ℕ
read_le32 xs =
    get_or xs 0 0 + get_or xs 1 0 * 256 + get_or xs 2 0 * 65536 + get_or xs 3 0 * 16777216

pub read_le32-le32 : (w : ℕ) → w < 2 ^ 32 → read_le32 (le32 w) ≡ w
read_le32-le32 w h = omega arith

pub read_le16-le16 : (w : ℕ) → w < 2 ^ 16 → read_le16 (le16 w) ≡ w
read_le16-le16 w h = omega arith
