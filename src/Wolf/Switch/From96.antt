-- ===== src/Wolf/Switch/From96.antt =====
-- The cases 96 to 127 of the switch in `astroBWTv3Stream` (internal/astrobwt/pow.go): what the
-- statements between the INSERT_RANDOM_CODE marks make of `step_3[i]`, here `x`, where `p` is
-- `step_3[pos2]`. There is a binding for each statement but the last, which is the result.
use dirtybird_go_gpu_miner.Prelude.{ℕ, ◌==◌, if◌then◌else◌, bit_and, bit_xor}
use dirtybird_go_gpu_miner.Word.{
  rotate_left8, shl8, shr8, not8, ones_count8, add8, mul8, reverse8, sub8,
}

unfoldable pub cases_96_111 : ℕ → ℕ → ℕ → ℕ
cases_96_111 op x p =
    if op == 96
    then (let a = bit_xor x (rotate_left8 x 2) in
        let b = bit_xor a (rotate_left8 a 2) in
        let c = bit_xor b (ones_count8 b) in rotate_left8 c 1)
    else if op == 97
    then (let a = rotate_left8 x 1 in
        let b = shl8 a (bit_and a 3) in let c = bit_xor b (ones_count8 b) in shr8 c (bit_and c 3))
    else if op == 98
    then (let a = bit_xor x (rotate_left8 x 4) in
        let b = shl8 a (bit_and a 3) in
        let c = shr8 b (bit_and b 3) in bit_xor c (rotate_left8 c 4))
    else if op == 99
    then (let a = bit_xor x (rotate_left8 x 4) in
        let b = sub8 a (bit_xor a 97) in let c = reverse8 b in shr8 c (bit_and c 3))
    else if op == 100
    then (let a = rotate_left8 x x in
        let b = shl8 a (bit_and a 3) in let c = reverse8 b in bit_xor c (ones_count8 c))
    else if op == 101
    then (let a = shr8 x (bit_and x 3) in
        let b = bit_xor a (ones_count8 a) in let c = shr8 b (bit_and b 3) in not8 c)
    else if op == 102
    then (let a = rotate_left8 x 3 in
        let b = sub8 a (bit_xor a 97) in let c = add8 b b in rotate_left8 c 3)
    else if op == 103
    then (let a = rotate_left8 x 1 in let b = reverse8 a in let c = bit_xor b p in rotate_left8 c c)
    else if op == 104
    then (let a = reverse8 x in
        let b = bit_xor a (ones_count8 a) in let c = rotate_left8 b 5 in add8 c c)
    else if op == 105
    then (let a = shl8 x (bit_and x 3) in
        let b = rotate_left8 a 3 in let c = rotate_left8 b b in bit_xor c (rotate_left8 c 2))
    else if op == 106
    then (let a = reverse8 x in
        let b = bit_xor a (rotate_left8 a 4) in let c = rotate_left8 b 1 in mul8 c c)
    else if op == 107
    then (let a = shr8 x (bit_and x 3) in
        let b = bit_xor a (rotate_left8 a 2) in let c = rotate_left8 b 5 in rotate_left8 c 1)
    else if op == 108
    then (let a = bit_xor x p in
        let b = not8 a in let c = bit_and b p in bit_xor c (rotate_left8 c 2))
    else if op == 109
    then (let a = mul8 x x in
        let b = rotate_left8 a a in let c = bit_xor b p in bit_xor c (rotate_left8 c 2))
    else if op == 110
    then (let a = add8 x x in
        let b = bit_xor a (rotate_left8 a 2) in
        let c = bit_xor b (rotate_left8 b 2) in shr8 c (bit_and c 3))
    else if op == 111
    then (let a = mul8 x x in let b = reverse8 a in let c = mul8 b b in shr8 c (bit_and c 3))
    else x

unfoldable pub cases_112_127 : ℕ → ℕ → ℕ → ℕ
cases_112_127 op x p =
    if op == 112
    then (let a = rotate_left8 x 3 in
        let b = not8 a in let c = rotate_left8 b 5 in sub8 c (bit_xor c 97))
    else if op == 113
    then (let a = rotate_left8 x 5 in
        let b = rotate_left8 a 1 in let c = bit_xor b (ones_count8 b) in not8 c)
    else if op == 114
    then (let a = rotate_left8 x 1 in let b = reverse8 a in let c = rotate_left8 b b in not8 c)
    else if op == 115
    then (let a = rotate_left8 x x in
        let b = rotate_left8 a 5 in let c = bit_and b p in rotate_left8 c 3)
    else if op == 116
    then (let a = bit_and x p in
        let b = bit_xor a p in let c = bit_xor b (ones_count8 b) in shl8 c (bit_and c 3))
    else if op == 117
    then (let a = shl8 x (bit_and x 3) in
        let b = rotate_left8 a 3 in let c = shl8 b (bit_and b 3) in bit_and c p)
    else if op == 118
    then (let a = shr8 x (bit_and x 3) in
        let b = add8 a a in let c = shl8 b (bit_and b 3) in rotate_left8 c 5)
    else if op == 119
    then (let a = reverse8 x in
        let b = bit_xor a (rotate_left8 a 2) in let c = not8 b in bit_xor c p)
    else if op == 120
    then (let a = bit_xor x (rotate_left8 x 2) in
        let b = mul8 a a in let c = bit_xor b p in reverse8 c)
    else if op == 121
    then (let a = shr8 x (bit_and x 3) in
        let b = add8 a a in let c = bit_xor b (ones_count8 b) in mul8 c c)
    else if op == 122
    then (let a = bit_xor x (rotate_left8 x 4) in
        let b = rotate_left8 a a in let c = rotate_left8 b 5 in bit_xor c (rotate_left8 c 2))
    else if op == 123
    then (let a = bit_and x p in let b = not8 a in let c = rotate_left8 b 3 in rotate_left8 c 3)
    else if op == 124
    then (let a = bit_xor x (rotate_left8 x 2) in
        let b = bit_xor a (rotate_left8 a 2) in let c = bit_xor b p in not8 c)
    else if op == 125
    then (let a = reverse8 x in
        let b = bit_xor a (rotate_left8 a 2) in let c = add8 b b in shr8 c (bit_and c 3))
    else if op == 126
    then (let a = rotate_left8 x 3 in
        let b = rotate_left8 a 1 in let c = rotate_left8 b 5 in reverse8 c)
    else if op == 127
    then (let a = shl8 x (bit_and x 3) in let b = mul8 a a in let c = bit_and b p in bit_xor c p)
    else x
