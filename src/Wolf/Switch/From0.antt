-- ===== src/Wolf/Switch/From0.antt =====
-- The cases 0 to 31 of the switch in `astroBWTv3Stream` (internal/astrobwt/pow.go): what the
-- statements between the INSERT_RANDOM_CODE marks make of `step_3[i]`, here `x`, where `p` is
-- `step_3[pos2]`. There is a binding for each statement but the last, which is the result.
use dirtybird_go_gpu_miner.Prelude.{ℕ, ◌==◌, if◌then◌else◌, bit_and, bit_xor}
use dirtybird_go_gpu_miner.Word.{
  rotate_left8, shl8, shr8, not8, ones_count8, add8, mul8, reverse8, sub8,
}

unfoldable pub cases_0_15 : ℕ → ℕ → ℕ → ℕ
cases_0_15 op x p =
    if op == 0
    then (let a = bit_xor x (ones_count8 x) in
        let b = rotate_left8 a 5 in let c = mul8 b b in rotate_left8 c c)
    else if op == 1
    then (let a = shl8 x (bit_and x 3) in
        let b = rotate_left8 a 1 in let c = bit_and b p in add8 c c)
    else if op == 2
    then (let a = bit_xor x (ones_count8 x) in
        let b = reverse8 a in let c = shl8 b (bit_and b 3) in bit_xor c (ones_count8 c))
    else if op == 3
    then (let a = rotate_left8 x x in
        let b = rotate_left8 a 3 in let c = bit_xor b p in rotate_left8 c 1)
    else if op == 4
    then (let a = not8 x in
        let b = shr8 a (bit_and a 3) in let c = rotate_left8 b b in sub8 c (bit_xor c 97))
    else if op == 5
    then (let a = bit_xor x (ones_count8 x) in
        let b = bit_xor a p in let c = shl8 b (bit_and b 3) in shr8 c (bit_and c 3))
    else if op == 6
    then (let a = shl8 x (bit_and x 3) in
        let b = rotate_left8 a 3 in let c = not8 b in sub8 c (bit_xor c 97))
    else if op == 7
    then (let a = add8 x x in
        let b = rotate_left8 a a in let c = bit_xor b (ones_count8 b) in not8 c)
    else if op == 8
    then (let a = not8 x in
        let b = rotate_left8 a 5 in let c = rotate_left8 b 5 in shl8 c (bit_and c 3))
    else if op == 9
    then (let a = bit_xor x p in
        let b = bit_xor a (rotate_left8 a 4) in
        let c = shr8 b (bit_and b 3) in bit_xor c (rotate_left8 c 2))
    else if op == 10
    then (let a = not8 x in let b = mul8 a a in let c = rotate_left8 b 3 in mul8 c c)
    else if op == 11
    then (let a = rotate_left8 x 1 in
        let b = rotate_left8 a 5 in let c = bit_and b p in rotate_left8 c c)
    else if op == 12
    then (let a = bit_xor x (rotate_left8 x 2) in
        let b = mul8 a a in let c = bit_xor b (rotate_left8 b 2) in not8 c)
    else if op == 13
    then (let a = rotate_left8 x 1 in
        let b = bit_xor a p in let c = shr8 b (bit_and b 3) in rotate_left8 c 5)
    else if op == 14
    then (let a = shr8 x (bit_and x 3) in
        let b = shl8 a (bit_and a 3) in let c = mul8 b b in shl8 c (bit_and c 3))
    else if op == 15
    then (let a = bit_xor x (rotate_left8 x 2) in
        let b = shl8 a (bit_and a 3) in let c = bit_and b p in sub8 c (bit_xor c 97))
    else x

unfoldable pub cases_16_31 : ℕ → ℕ → ℕ → ℕ
cases_16_31 op x p =
    if op == 16
    then (let a = bit_xor x (rotate_left8 x 4) in
        let b = mul8 a a in let c = rotate_left8 b 1 in not8 c)
    else if op == 17
    then (let a = bit_xor x p in let b = mul8 a a in let c = rotate_left8 b 5 in not8 c)
    else if op == 18
    then (let a = bit_xor x (rotate_left8 x 4) in
        let b = rotate_left8 a 3 in let c = rotate_left8 b 1 in rotate_left8 c 5)
    else if op == 19
    then (let a = sub8 x (bit_xor x 97) in
        let b = rotate_left8 a 5 in let c = shl8 b (bit_and b 3) in add8 c c)
    else if op == 20
    then (let a = bit_and x p in
        let b = bit_xor a p in let c = reverse8 b in bit_xor c (rotate_left8 c 2))
    else if op == 21
    then (let a = rotate_left8 x 1 in let b = bit_xor a p in let c = add8 b b in bit_and c p)
    else if op == 22
    then (let a = shl8 x (bit_and x 3) in
        let b = reverse8 a in let c = mul8 b b in rotate_left8 c 1)
    else if op == 23
    then (let a = rotate_left8 x 3 in
        let b = rotate_left8 a 1 in let c = bit_xor b (ones_count8 b) in bit_and c p)
    else if op == 24
    then (let a = add8 x x in
        let b = shr8 a (bit_and a 3) in let c = bit_xor b (rotate_left8 b 4) in rotate_left8 c 5)
    else if op == 25
    then (let a = bit_xor x (ones_count8 x) in
        let b = rotate_left8 a 3 in let c = rotate_left8 b b in sub8 c (bit_xor c 97))
    else if op == 26
    then (let a = mul8 x x in let b = bit_xor a (ones_count8 a) in let c = add8 b b in reverse8 c)
    else if op == 27
    then (let a = rotate_left8 x 5 in
        let b = bit_and a p in let c = bit_xor b (rotate_left8 b 4) in rotate_left8 c 5)
    else if op == 28
    then (let a = shl8 x (bit_and x 3) in let b = add8 a a in let c = add8 b b in rotate_left8 c 5)
    else if op == 29
    then (let a = mul8 x x in let b = bit_xor a p in let c = shr8 b (bit_and b 3) in add8 c c)
    else if op == 30
    then (let a = bit_and x p in
        let b = bit_xor a (rotate_left8 a 4) in let c = rotate_left8 b 5 in shl8 c (bit_and c 3))
    else if op == 31
    then (let a = not8 x in
        let b = bit_xor a (rotate_left8 a 2) in let c = shl8 b (bit_and b 3) in mul8 c c)
    else x
