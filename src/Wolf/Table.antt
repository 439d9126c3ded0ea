-- ===== src/Wolf/Table.antt =====
-- The table-driven wolf loop's byte program (internal/astrobwt/wolftable.go) and the flattened
-- table for the GPU.
mod Low
mod High
use dirtybird_go_gpu_miner.Prelude.{
  ℕ, ◌+◌, ◌*◌, ◌/◌, List, [], ◌∷◌, ◌==◌, if◌then◌else◌, bit_and, bit_xor, length, get_or, set,
  replicate, for_range,
}
use dirtybird_go_gpu_miner.Word.{
  rotate_left8, shl8, shr8, not8, ones_count8, add8, mul8, reverse8, sub8,
}
use Low.{rows_0}
use High.{rows_128}

-- `wolfOps`
unfoldable pub wolf_ops : List (List ℕ)
unfolding rows_0 rows_128
wolf_ops = rows_0 (rows_128 [])

-- The switch over the operation numbers, opRotlK = 1 to opSub97 = 13.
unfoldable pub apply_op : ℕ → ℕ → ℕ → ℕ → ℕ
apply_op op param x p =
    if op == 1
    then rotate_left8 x param
    else if op == 2
    then bit_xor x (rotate_left8 x param)
    else if op == 3
    then shl8 x (bit_and x 3)
    else if op == 4
    then shr8 x (bit_and x 3)
    else if op == 5
    then bit_xor x p
    else if op == 6
    then bit_and x p
    else if op == 7
    then not8 x
    else if op == 8
    then bit_xor x (ones_count8 x)
    else if op == 9
    then reverse8 x
    else if op == 10
    then rotate_left8 x x
    else if op == 11
    then add8 x x
    else if op == 12
    then mul8 x x
    else if op == 13
    then sub8 x (bit_xor x 97)
    else x

-- The loop over the codes of one case: `op := code >> 8`, `param := code & 0xff`.
unfoldable pub apply_codes : List ℕ → ℕ → ℕ → ℕ
unfolding apply_op
apply_codes [] x p = x
apply_codes (code ∷ codes) x p = apply_codes codes (apply_op (code / 256) (bit_and code 0xff) x p) p

unfoldable pub wolf_apply_byte : ℕ → ℕ → ℕ → ℕ
unfolding wolf_ops apply_codes
wolf_apply_byte c x p = apply_codes (get_or wolf_ops c []) x p

-- The inner loop of `WolfOpTable`, from code number `k` of case `c` on.
put_codes : ℕ → ℕ → List ℕ → List ℕ → List ℕ
put_codes c k [] t = t
put_codes c k (code ∷ codes) t = put_codes c (k + 1) codes (set t (c * 5 + 1 + k) code)

-- The outer loop's body.
put_row : ℕ → List ℕ → List ℕ
unfolding wolf_ops put_codes
put_row c t = let ops = get_or wolf_ops c [] in put_codes c 0 ops (set t (c * 5) (length ops))

-- `WolfOpTable`: five numbers a case, the count and then the codes, over zeros.
unfoldable pub wolf_op_table : List ℕ
unfolding put_row for_range
wolf_op_table = for_range put_row 256 0 (replicate (256 * 5) 0)
