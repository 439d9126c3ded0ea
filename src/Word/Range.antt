-- ===== src/Word/Range.antt =====
-- The byte operations of `Word` return bytes.
use dirtybird_go_gpu_miner.Prelude.{ℕ, zero, suc, ◌/◌, ◌^◌, ◌<◌, ◌≤◌, arith, bit_and, bit_xor}
use dirtybird_go_gpu_miner.Prelude.Bits.{bit_or-lt, bit_and-le, bit_xor-lt}
use dirtybird_go_gpu_miner.Word.{
  add8, sub8, mul8, not8, shl8, shr8, rotate_left8, count_bits, ones_count8, reverse8, add64,
}

pub add8-lt : (a b : ℕ) → add8 a b < 256
unfolding add8
add8-lt a b = omega arith

pub sub8-lt : (a b : ℕ) → sub8 a b < 256
unfolding sub8
sub8-lt a b = omega arith

pub mul8-lt : (a b : ℕ) → mul8 a b < 256
unfolding mul8
mul8-lt a b = omega arith

pub not8-lt : (x : ℕ) → not8 x < 256
unfolding not8
not8-lt x = omega arith

pub shl8-lt : (x k : ℕ) → shl8 x k < 256
unfolding shl8
shl8-lt x k = omega arith

pub shr8-lt : (x k : ℕ) → shr8 x k < 256
unfolding shr8
shr8-lt x k = omega arith

pub rotate_left8-lt : (x k : ℕ) → rotate_left8 x k < 256
unfolding rotate_left8
rotate_left8-lt x k = bit_or-lt 8 _ _ (omega arith) (omega arith)

count_bits-le : (width x : ℕ) → count_bits width x ≤ width
unfolding count_bits
count_bits-le zero x = omega arith
count_bits-le (suc width) x = omega (arith, count_bits-le width (x / 2))

pub ones_count8-lt : (x : ℕ) → ones_count8 x < 256
unfolding ones_count8
ones_count8-lt x = omega (arith, count_bits-le 8 x)

pub reverse8-lt : (x : ℕ) → reverse8 x < 256
unfolding reverse8
reverse8-lt x = omega arith

pub byte_xor-lt : (a b : ℕ) → a < 256 → b < 256 → bit_xor a b < 256
byte_xor-lt a b p q = bit_xor-lt 8 a b p q

pub byte_and-lt : (a b : ℕ) → a < 256 → b < 256 → bit_and a b < 256
byte_and-lt a b p q = omega (arith, bit_and-le 8 a b p)

pub add64-lt : (a b : ℕ) → add64 a b < 2 ^ 64
unfolding add64
add64-lt a b = omega arith
