-- ===== src/Wolf/Bytes.antt =====
-- Every case of the switch returns a byte.
use dirtybird_go_gpu_miner.Prelude.{ℕ, ◌/◌, ◌<◌, List, [], ◌∷◌, arith, bit_and, bit_xor, get_or}
use dirtybird_go_gpu_miner.Word.Range.{
  add8-lt, sub8-lt, mul8-lt, not8-lt, shl8-lt, shr8-lt, rotate_left8-lt, ones_count8-lt,
  reverse8-lt, byte_xor-lt, byte_and-lt,
}
use dirtybird_go_gpu_miner.Word.{rotate_left8, ones_count8}
use dirtybird_go_gpu_miner.Wolf.Switch.{case_byte}
use dirtybird_go_gpu_miner.Wolf.Table.{wolf_ops, apply_op, apply_codes, wolf_apply_byte}
use dirtybird_go_gpu_miner.Wolf.Agree.{case_byte-eq-wolf_apply_byte}

apply_op-lt : (op param x p : ℕ) → x < 256 → p < 256 → apply_op op param x p < 256
unfolding apply_op
apply_op-lt op param x p hx hp = ground (
  arith,
  add8-lt x x,
  mul8-lt x x,
  sub8-lt x (bit_xor x 97),
  not8-lt x,
  shl8-lt x (bit_and x 3),
  shr8-lt x (bit_and x 3),
  rotate_left8-lt x param,
  rotate_left8-lt x x,
  reverse8-lt x,
  byte_xor-lt x p,
  byte_and-lt x p,
  byte_xor-lt x (rotate_left8 x param),
  byte_xor-lt x (ones_count8 x),
  ones_count8-lt x,
)

apply_codes-lt : (codes : List ℕ) (x p : ℕ) → x < 256 → p < 256 → apply_codes codes x p < 256
unfolding apply_codes
apply_codes-lt [] x p hx hp = hx
apply_codes-lt (code ∷ codes) x p hx hp =
    apply_codes-lt codes _ p (apply_op-lt (code / 256) (bit_and code 0xff) x p hx hp) hp

-- In every case of the switch a byte and a byte at pos2 give a byte.
pub case_byte-lt : (c : ℕ) → c < 256 → (x p : ℕ) → x < 256 → p < 256 → case_byte c x p < 256
unfolding wolf_apply_byte
case_byte-lt c hc x p hx hp =
    rw (case_byte-eq-wolf_apply_byte c hc x p) (apply_codes-lt (get_or wolf_ops c []) x p hx hp)
