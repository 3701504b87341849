-- ===== src/Prelude/Bits.antt =====
-- The width of an exclusive or.
use Prim.Native.Nat.{ℕ, zero, suc, ◌/◌, ◌%◌, ◌^◌, ◌<◌, bit_xor, bit_xor-bitwise, digits, differ}
use native.Mathlib.Nat.{pow-suc}
use native.Mathlib.Omega.{arith}

differ-lt : (x y : ℕ) → x < 2 → y < 2 → differ x y < 2
differ-lt zero y h k = k
differ-lt (suc x) zero h k = h
differ-lt (suc x) (suc y) h k = differ-lt x y (omega arith) (omega arith)

abbrev xor_digits : ℕ → ℕ → ℕ → ℕ
xor_digits n a b = digits (λ b. b) differ n a b

xor_digits-lt : (w n a b : ℕ) → a < 2 ^ w → b < 2 ^ w → xor_digits n a b < 2 ^ w
xor_digits-lt w zero a b h k = k
xor_digits-lt w (suc n) zero b h k = k
xor_digits-lt zero (suc n) (suc a) b h k = absurd (omega arith)
xor_digits-lt (suc w) (suc n) (suc a) b h k = omega (
  arith,
  pow-suc 2 w,
  xor_digits-lt w n (suc a / 2) (b / 2) (omega (arith, pow-suc 2 w)) (omega (arith, pow-suc 2 w)),
  differ-lt (suc a % 2) (b % 2) (omega arith) (omega arith),
)

pub bit_xor-lt : (w a b : ℕ) → a < 2 ^ w → b < 2 ^ w → bit_xor a b < 2 ^ w
bit_xor-lt w a b h k = rw bit_xor-bitwise (xor_digits-lt w a a b h k)
