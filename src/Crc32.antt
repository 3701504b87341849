-- ===== src/Crc32.antt =====
-- The CRC-32 of romemul/sidetnfs_config.c and romemul/sidetnfs_system_config.c, bit by bit.
use Prim.Native.Nat.{bit_and, bit_xor}
use side_tnfs_firmware.Prelude.{
  ℕ, zero, suc, ◌-◌, ◌/◌, ◌%◌, ◌^◌, ◌<◌, List, [], ◌∷◌, ◌≡◌, refl, arith, All, IsByte, bit_xor-lt,
}

-- `mask = -(crc & 1u); crc = (crc >> 1) ^ (0xEDB88320u & mask)`, so often.
crc_bits : ℕ → ℕ → ℕ
crc_bits zero crc = crc
crc_bits (suc n) crc =
    crc_bits n (bit_xor (crc / 2) (bit_and 0xEDB88320 ((2 ^ 32 - crc % 2) % 2 ^ 32)))

crc_bytes : List ℕ → ℕ → ℕ
crc_bytes [] crc = crc
crc_bytes (b ∷ bs) crc = crc_bytes bs (crc_bits 8 (bit_xor crc b))

unfoldable pub crc32 : List ℕ → ℕ
unfolding crc_bits crc_bytes
crc32 bytes = bit_xor (crc_bytes bytes 0xFFFF_FFFF) 0xFFFF_FFFF

-- The check value of CRC-32, of the text "123456789".
crc32_check : crc32 (49 ∷ 50 ∷ 51 ∷ 52 ∷ 53 ∷ 54 ∷ 55 ∷ 56 ∷ 57 ∷ []) ≡ 0xCBF4_3926
unfolding crc32
crc32_check = refl

masked-lt : (r : ℕ) → r < 2 → bit_and 0xEDB88320 ((2 ^ 32 - r) % 2 ^ 32) < 2 ^ 32
masked-lt zero h = omega arith
masked-lt (suc zero) h = omega arith
masked-lt (suc (suc r)) h = absurd (omega arith)

crc_bits-lt : (n crc : ℕ) → crc < 2 ^ 32 → crc_bits n crc < 2 ^ 32
unfolding crc_bits
crc_bits-lt zero crc h = h
crc_bits-lt (suc n) crc h =
    crc_bits-lt n _ (bit_xor-lt 32 (crc / 2) _ (omega arith) (masked-lt (crc % 2) (omega arith)))

crc_bytes-lt : (bs : List ℕ) (crc : ℕ) → All IsByte bs → crc < 2 ^ 32 → crc_bytes bs crc < 2 ^ 32
unfolding crc_bytes
crc_bytes-lt [] crc b h = h
crc_bytes-lt (x ∷ bs) crc b h =
    crc_bytes-lt bs _ b.1
      (crc_bits-lt 8 (bit_xor crc x) (bit_xor-lt 32 crc x h (let k = b.0 in omega arith)))

-- A checksum of bytes is a `uint32_t`.
pub crc32-lt : (bs : List ℕ) → All IsByte bs → crc32 bs < 2 ^ 32
unfolding crc32
crc32-lt bs b =
    bit_xor-lt 32 _ 0xFFFF_FFFF (crc_bytes-lt bs 0xFFFF_FFFF b (omega arith)) (omega arith)
