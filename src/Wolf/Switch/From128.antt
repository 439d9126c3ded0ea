-- ===== src/Wolf/Switch/From128.antt =====
-- The cases 128 to 159 of the switch in `astroBWTv3Stream` (internal/astrobwt/pow.go): what the
-- statements between the INSERT_RANDOM_CODE marks make of `step_3[i]`, here `x`, where `p` is
-- `step_3[pos2]`. There is a binding for each statement but the last, which is the result.
use dirtybird_go_gpu_miner.Prelude.{ℕ, ◌==◌, if◌then◌else◌, bit_and, bit_xor}
use dirtybird_go_gpu_miner.Word.{
  rotate_left8, shl8, shr8, not8, ones_count8, add8, mul8, reverse8, sub8,
}

unfoldable pub cases_128_143 : ℕ → ℕ → ℕ → ℕ
cases_128_143 op x p =
    if op == 128
    then (let a = rotate_left8 x x in
        let b = bit_xor a (rotate_left8 a 2) in
        let c = bit_xor b (rotate_left8 b 2) in rotate_left8 c 5)
    else if op == 129
    then (let a = not8 x in
        let b = bit_xor a (ones_count8 a) in
        let c = bit_xor b (ones_count8 b) in shr8 c (bit_and c 3))
    else if op == 130
    then (let a = shr8 x (bit_and x 3) in
        let b = rotate_left8 a a in let c = rotate_left8 b 1 in bit_xor c (rotate_left8 c 4))
    else if op == 131
    then (let a = sub8 x (bit_xor x 97) in
        let b = rotate_left8 a 1 in let c = bit_xor b (ones_count8 b) in mul8 c c)
    else if op == 132
    then (let a = bit_and x p in
        let b = reverse8 a in let c = rotate_left8 b 5 in bit_xor c (rotate_left8 c 2))
    else if op == 133
    then (let a = bit_xor x p in
        let b = rotate_left8 a 5 in let c = bit_xor b (rotate_left8 b 2) in shl8 c (bit_and c 3))
    else if op == 134
    then (let a = not8 x in
        let b = bit_xor a (rotate_left8 a 4) in let c = rotate_left8 b 1 in bit_and c p)
    else if op == 135
    then (let a = shr8 x (bit_and x 3) in
        let b = bit_xor a (rotate_left8 a 2) in let c = add8 b b in reverse8 c)
    else if op == 136
    then (let a = shr8 x (bit_and x 3) in
        let b = sub8 a (bit_xor a 97) in let c = bit_xor b p in rotate_left8 c 5)
    else if op == 137
    then (let a = rotate_left8 x 5 in
        let b = shr8 a (bit_and a 3) in let c = reverse8 b in rotate_left8 c c)
    else if op == 138
    then (let a = bit_xor x p in let b = bit_xor a p in let c = add8 b b in sub8 c (bit_xor c 97))
    else if op == 139
    then (let a = rotate_left8 x 5 in
        let b = rotate_left8 a 3 in let c = bit_xor b (rotate_left8 b 2) in rotate_left8 c 3)
    else if op == 140
    then (let a = rotate_left8 x 1 in
        let b = bit_xor a (rotate_left8 a 2) in let c = bit_xor b p in rotate_left8 c 5)
    else if op == 141
    then (let a = rotate_left8 x 1 in
        let b = sub8 a (bit_xor a 97) in let c = bit_xor b (ones_count8 b) in add8 c c)
    else if op == 142
    then (let a = bit_and x p in
        let b = rotate_left8 a 5 in let c = reverse8 b in bit_xor c (rotate_left8 c 2))
    else if op == 143
    then (let a = bit_and x p in
        let b = rotate_left8 a 3 in let c = shr8 b (bit_and b 3) in shl8 c (bit_and c 3))
    else x

unfoldable pub cases_144_159 : ℕ → ℕ → ℕ → ℕ
cases_144_159 op x p =
    if op == 144
    then (let a = rotate_left8 x x in
        let b = shl8 a (bit_and a 3) in let c = not8 b in rotate_left8 c c)
    else if op == 145
    then (let a = reverse8 x in
        let b = bit_xor a (rotate_left8 a 4) in
        let c = bit_xor b (rotate_left8 b 2) in bit_xor c (rotate_left8 c 4))
    else if op == 146
    then (let a = bit_and x p in
        let b = shl8 a (bit_and a 3) in let c = bit_and b p in bit_xor c (ones_count8 c))
    else if op == 147
    then (let a = not8 x in
        let b = shl8 a (bit_and a 3) in let c = bit_xor b (rotate_left8 b 4) in mul8 c c)
    else if op == 148
    then (let a = bit_and x p in
        let b = rotate_left8 a 5 in let c = shl8 b (bit_and b 3) in sub8 c (bit_xor c 97))
    else if op == 149
    then (let a = bit_xor x p in let b = reverse8 a in let c = sub8 b (bit_xor b 97) in add8 c c)
    else if op == 150
    then (let a = shl8 x (bit_and x 3) in
        let b = shl8 a (bit_and a 3) in let c = shl8 b (bit_and b 3) in bit_and c p)
    else if op == 151
    then (let a = add8 x x in
        let b = shl8 a (bit_and a 3) in let c = mul8 b b in shl8 c (bit_and c 3))
    else if op == 152
    then (let a = shr8 x (bit_and x 3) in
        let b = not8 a in let c = shl8 b (bit_and b 3) in bit_xor c (rotate_left8 c 2))
    else if op == 153
    then (let a = rotate_left8 x 1 in let b = rotate_left8 a 3 in let c = not8 b in not8 c)
    else if op == 154
    then (let a = rotate_left8 x 5 in
        let b = not8 a in let c = bit_xor b p in bit_xor c (ones_count8 c))
    else if op == 155
    then (let a = sub8 x (bit_xor x 97) in
        let b = bit_xor a p in let c = bit_xor b (ones_count8 b) in bit_xor c p)
    else if op == 156
    then (let a = shr8 x (bit_and x 3) in
        let b = shr8 a (bit_and a 3) in let c = rotate_left8 b 3 in rotate_left8 c 1)
    else if op == 157
    then (let a = shr8 x (bit_and x 3) in
        let b = shl8 a (bit_and a 3) in let c = rotate_left8 b b in rotate_left8 c 1)
    else if op == 158
    then (let a = bit_xor x (ones_count8 x) in
        let b = rotate_left8 a 3 in let c = add8 b b in rotate_left8 c 1)
    else if op == 159
    then (let a = sub8 x (bit_xor x 97) in
        let b = bit_xor a p in let c = rotate_left8 b b in bit_xor c p)
    else x
