-- ===== src/Wolf/Switch/From64.antt =====
-- The cases 64 to 95 of the switch in `astroBWTv3Stream` (internal/astrobwt/pow.go): what the
-- statements between the INSERT_RANDOM_CODE marks make of `step_3[i]`, here `x`, where `p` is
-- `step_3[pos2]`. There is a binding for each statement but the last, which is the result.
use dirtybird_go_gpu_miner.Prelude.{ℕ, ◌==◌, if◌then◌else◌, bit_and, bit_xor}
use dirtybird_go_gpu_miner.Word.{
  rotate_left8, shl8, shr8, not8, ones_count8, add8, mul8, reverse8, sub8,
}

unfoldable pub cases_64_79 : ℕ → ℕ → ℕ → ℕ
cases_64_79 op x p =
    if op == 64
    then (let a = bit_xor x p in
        let b = reverse8 a in let c = bit_xor b (rotate_left8 b 4) in mul8 c c)
    else if op == 65
    then (let a = rotate_left8 x 5 in
        let b = rotate_left8 a 3 in let c = bit_xor b (rotate_left8 b 2) in mul8 c c)
    else if op == 66
    then (let a = bit_xor x (rotate_left8 x 2) in
        let b = reverse8 a in let c = bit_xor b (rotate_left8 b 4) in rotate_left8 c 1)
    else if op == 67
    then (let a = rotate_left8 x 1 in
        let b = bit_xor a (ones_count8 a) in
        let c = bit_xor b (rotate_left8 b 2) in rotate_left8 c 5)
    else if op == 68
    then (let a = bit_and x p in
        let b = not8 a in let c = bit_xor b (rotate_left8 b 4) in bit_xor c p)
    else if op == 69
    then (let a = add8 x x in let b = mul8 a a in let c = reverse8 b in shr8 c (bit_and c 3))
    else if op == 70
    then (let a = bit_xor x p in
        let b = mul8 a a in let c = shr8 b (bit_and b 3) in bit_xor c (rotate_left8 c 4))
    else if op == 71
    then (let a = rotate_left8 x 5 in let b = not8 a in let c = mul8 b b in shl8 c (bit_and c 3))
    else if op == 72
    then (let a = reverse8 x in
        let b = bit_xor a (ones_count8 a) in let c = bit_xor b p in shl8 c (bit_and c 3))
    else if op == 73
    then (let a = bit_xor x (ones_count8 x) in
        let b = reverse8 a in let c = rotate_left8 b 5 in sub8 c (bit_xor c 97))
    else if op == 74
    then (let a = mul8 x x in let b = rotate_left8 a 3 in let c = reverse8 b in bit_and c p)
    else if op == 75
    then (let a = mul8 x x in
        let b = bit_xor a (ones_count8 a) in let c = bit_and b p in bit_xor c (rotate_left8 c 4))
    else if op == 76
    then (let a = rotate_left8 x x in
        let b = bit_xor a (rotate_left8 a 2) in let c = rotate_left8 b 5 in shr8 c (bit_and c 3))
    else if op == 77
    then (let a = rotate_left8 x 3 in
        let b = add8 a a in let c = shl8 b (bit_and b 3) in bit_xor c (ones_count8 c))
    else if op == 78
    then (let a = rotate_left8 x x in
        let b = reverse8 a in let c = mul8 b b in sub8 c (bit_xor c 97))
    else if op == 79
    then (let a = bit_xor x (rotate_left8 x 4) in
        let b = bit_xor a (rotate_left8 a 2) in let c = add8 b b in mul8 c c)
    else x

unfoldable pub cases_80_95 : ℕ → ℕ → ℕ → ℕ
cases_80_95 op x p =
    if op == 80
    then (let a = rotate_left8 x x in
        let b = shl8 a (bit_and a 3) in let c = add8 b b in bit_and c p)
    else if op == 81
    then (let a = bit_xor x (rotate_left8 x 4) in
        let b = shl8 a (bit_and a 3) in let c = rotate_left8 b b in bit_xor c (ones_count8 c))
    else if op == 82
    then (let a = bit_xor x p in let b = not8 a in let c = not8 b in shr8 c (bit_and c 3))
    else if op == 83
    then (let a = shl8 x (bit_and x 3) in
        let b = reverse8 a in let c = rotate_left8 b 3 in reverse8 c)
    else if op == 84
    then (let a = sub8 x (bit_xor x 97) in
        let b = rotate_left8 a 1 in let c = shl8 b (bit_and b 3) in add8 c c)
    else if op == 85
    then (let a = shr8 x (bit_and x 3) in
        let b = bit_xor a p in let c = rotate_left8 b b in shl8 c (bit_and c 3))
    else if op == 86
    then (let a = bit_xor x (rotate_left8 x 4) in
        let b = rotate_left8 a a in let c = bit_xor b (rotate_left8 b 4) in not8 c)
    else if op == 87
    then (let a = add8 x x in
        let b = rotate_left8 a 3 in let c = bit_xor b (rotate_left8 b 4) in add8 c c)
    else if op == 88
    then (let a = bit_xor x (rotate_left8 x 2) in
        let b = rotate_left8 a 1 in let c = mul8 b b in not8 c)
    else if op == 89
    then (let a = add8 x x in let b = mul8 a a in let c = not8 b in bit_xor c (rotate_left8 c 2))
    else if op == 90
    then (let a = reverse8 x in
        let b = rotate_left8 a 5 in let c = rotate_left8 b 1 in shr8 c (bit_and c 3))
    else if op == 91
    then (let a = bit_xor x (ones_count8 x) in
        let b = bit_and a p in let c = bit_xor b (rotate_left8 b 4) in reverse8 c)
    else if op == 92
    then (let a = bit_xor x (ones_count8 x) in
        let b = not8 a in let c = bit_xor b (ones_count8 b) in bit_and c p)
    else if op == 93
    then (let a = bit_xor x (rotate_left8 x 2) in
        let b = mul8 a a in let c = bit_and b p in add8 c c)
    else if op == 94
    then (let a = rotate_left8 x 1 in
        let b = rotate_left8 a a in let c = bit_and b p in shl8 c (bit_and c 3))
    else if op == 95
    then (let a = rotate_left8 x 1 in
        let b = not8 a in let c = rotate_left8 b 5 in rotate_left8 c 5)
    else x
