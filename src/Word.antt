-- ===== src/Word.antt =====
-- The fixed-width arithmetic and the functions of Go's math/bits that the wolf loop uses
-- (internal/astrobwt/pow.go, wolftable.go). A byte or a word is the number it stands for; each
-- operation keeps its wrap-around. `-` on numbers stops at 0, so the modulus is added first.
pub mod Range
use dirtybird_go_gpu_miner.Prelude.{ℕ, zero, suc, ◌+◌, ◌-◌, ◌*◌, ◌/◌, ◌%◌, ◌^◌, bit_or}

unfoldable pub add8 : ℕ → ℕ → ℕ
add8 a b = (a + b) % 2 ^ 8

unfoldable pub sub8 : ℕ → ℕ → ℕ
sub8 a b = (a + 2 ^ 8 - b) % 2 ^ 8

unfoldable pub mul8 : ℕ → ℕ → ℕ
mul8 a b = a * b % 2 ^ 8

-- `^x`
unfoldable pub not8 : ℕ → ℕ
not8 x = (2 ^ 8 - 1 - x) % 2 ^ 8

-- `x << k` and `x >> k` on a byte.
unfoldable pub shl8 : ℕ → ℕ → ℕ
shl8 x k = x * 2 ^ k % 2 ^ 8

unfoldable pub shr8 : ℕ → ℕ → ℕ
shr8 x k = x / 2 ^ k % 2 ^ 8

-- bits.RotateLeft8 for a rotation that is not negative: the count is taken modulo 8.
unfoldable pub rotate_left8 : ℕ → ℕ → ℕ
unfolding shl8 shr8
rotate_left8 x k = bit_or (shl8 x (k % 8)) (shr8 x (8 - k % 8))

-- The digits of a number, the lowest first, `width` of them.
count_bits : ℕ → ℕ → ℕ
count_bits zero x = 0
count_bits (suc width) x = x % 2 + count_bits width (x / 2)

reverse_bits : ℕ → ℕ → ℕ
reverse_bits zero x = 0
reverse_bits (suc width) x = x % 2 * 2 ^ width + reverse_bits width (x / 2)

-- bits.OnesCount8 and bits.Reverse8
unfoldable pub ones_count8 : ℕ → ℕ
unfolding count_bits
ones_count8 x = count_bits 8 x

unfoldable pub reverse8 : ℕ → ℕ
unfolding reverse_bits
reverse8 x = reverse_bits 8 x

unfoldable pub add64 : ℕ → ℕ → ℕ
add64 a b = (a + b) % 2 ^ 64

unfoldable pub u32 : ℕ → ℕ
u32 x = x % 2 ^ 32

unfoldable pub u16 : ℕ → ℕ
u16 x = x % 2 ^ 16

-- `a - b` on uint32.
unfoldable pub sub32 : ℕ → ℕ → ℕ
sub32 a b = (a + 2 ^ 32 - b) % 2 ^ 32
