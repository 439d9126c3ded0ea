-- ===== src/Wolf/Switch/From160.antt =====
-- The cases 160 to 191 of the switch in `astroBWTv3Stream` (internal/astrobwt/pow.go): what the
-- statements between the INSERT_RANDOM_CODE marks make of `step_3[i]`, here `x`, where `p` is
-- `step_3[pos2]`. There is a binding for each statement but the last, which is the result.
use dirtybird_go_gpu_miner.Prelude.{ℕ, ◌==◌, if◌then◌else◌, bit_and, bit_xor}
use dirtybird_go_gpu_miner.Word.{
  rotate_left8, shl8, shr8, not8, ones_count8, add8, mul8, reverse8, sub8,
}

unfoldable pub cases_160_175 : ℕ → ℕ → ℕ → ℕ
cases_160_175 op x p =
    if op == 160
    then (let a = shr8 x (bit_and x 3) in
        let b = reverse8 a in let c = rotate_left8 b 1 in rotate_left8 c 3)
    else if op == 161
    then (let a = bit_xor x p in
        let b = bit_xor a p in let c = rotate_left8 b 5 in rotate_left8 c c)
    else if op == 162
    then (let a = mul8 x x in
        let b = reverse8 a in let c = bit_xor b (rotate_left8 b 2) in sub8 c (bit_xor c 97))
    else if op == 163
    then (let a = shl8 x (bit_and x 3) in
        let b = sub8 a (bit_xor a 97) in let c = bit_xor b (rotate_left8 b 4) in rotate_left8 c 1)
    else if op == 164
    then (let a = mul8 x x in
        let b = bit_xor a (ones_count8 a) in let c = sub8 b (bit_xor b 97) in not8 c)
    else if op == 165
    then (let a = bit_xor x (rotate_left8 x 4) in
        let b = bit_xor a p in let c = shl8 b (bit_and b 3) in add8 c c)
    else if op == 166
    then (let a = rotate_left8 x 3 in
        let b = add8 a a in let c = bit_xor b (rotate_left8 b 2) in not8 c)
    else if op == 167
    then (let a = not8 x in let b = not8 a in let c = mul8 b b in shr8 c (bit_and c 3))
    else if op == 168
    then (let a = rotate_left8 x x in
        let b = bit_and a p in let c = rotate_left8 b b in rotate_left8 c 1)
    else if op == 169
    then (let a = rotate_left8 x 1 in
        let b = shl8 a (bit_and a 3) in let c = bit_xor b (rotate_left8 b 4) in bit_and c p)
    else if op == 170
    then (let a = sub8 x (bit_xor x 97) in
        let b = reverse8 a in let c = sub8 b (bit_xor b 97) in mul8 c c)
    else if op == 171
    then (let a = rotate_left8 x 3 in
        let b = sub8 a (bit_xor a 97) in let c = bit_xor b (ones_count8 b) in reverse8 c)
    else if op == 172
    then (let a = bit_xor x (rotate_left8 x 4) in
        let b = sub8 a (bit_xor a 97) in let c = shl8 b (bit_and b 3) in rotate_left8 c 1)
    else if op == 173
    then (let a = not8 x in let b = shl8 a (bit_and a 3) in let c = mul8 b b in add8 c c)
    else if op == 174
    then (let a = not8 x in
        let b = rotate_left8 a a in let c = bit_xor b (ones_count8 b) in bit_xor c (ones_count8 c))
    else if op == 175
    then (let a = rotate_left8 x 3 in
        let b = sub8 a (bit_xor a 97) in let c = mul8 b b in rotate_left8 c 5)
    else x

unfoldable pub cases_176_191 : ℕ → ℕ → ℕ → ℕ
cases_176_191 op x p =
    if op == 176
    then (let a = bit_xor x p in let b = mul8 a a in let c = bit_xor b p in rotate_left8 c 5)
    else if op == 177
    then (let a = bit_xor x (ones_count8 x) in
        let b = bit_xor a (rotate_left8 a 2) in let c = bit_xor b (rotate_left8 b 2) in bit_and c p)
    else if op == 178
    then (let a = bit_and x p in let b = add8 a a in let c = not8 b in rotate_left8 c 1)
    else if op == 179
    then (let a = bit_xor x (rotate_left8 x 2) in
        let b = add8 a a in let c = shr8 b (bit_and b 3) in reverse8 c)
    else if op == 180
    then (let a = shr8 x (bit_and x 3) in
        let b = bit_xor a (rotate_left8 a 4) in let c = bit_xor b p in sub8 c (bit_xor c 97))
    else if op == 181
    then (let a = not8 x in
        let b = shl8 a (bit_and a 3) in let c = bit_xor b (rotate_left8 b 2) in rotate_left8 c 5)
    else if op == 182
    then (let a = bit_xor x p in
        let b = rotate_left8 a 1 in let c = rotate_left8 b 5 in bit_xor c (rotate_left8 c 4))
    else if op == 183
    then (let a = add8 x x in
        let b = sub8 a (bit_xor a 97) in let c = sub8 b (bit_xor b 97) in mul8 c c)
    else if op == 184
    then (let a = shl8 x (bit_and x 3) in
        let b = mul8 a a in let c = rotate_left8 b 5 in bit_xor c p)
    else if op == 185
    then (let a = not8 x in
        let b = bit_xor a (rotate_left8 a 4) in let c = rotate_left8 b 5 in shr8 c (bit_and c 3))
    else if op == 186
    then (let a = bit_xor x (rotate_left8 x 2) in
        let b = bit_xor a (rotate_left8 a 4) in
        let c = sub8 b (bit_xor b 97) in shr8 c (bit_and c 3))
    else if op == 187
    then (let a = bit_xor x p in let b = not8 a in let c = add8 b b in rotate_left8 c 3)
    else if op == 188
    then (let a = bit_xor x (rotate_left8 x 4) in
        let b = bit_xor a (ones_count8 a) in
        let c = bit_xor b (rotate_left8 b 4) in bit_xor c (rotate_left8 c 4))
    else if op == 189
    then (let a = rotate_left8 x 5 in
        let b = bit_xor a (rotate_left8 a 4) in let c = bit_xor b p in sub8 c (bit_xor c 97))
    else if op == 190
    then (let a = rotate_left8 x 5 in
        let b = shr8 a (bit_and a 3) in let c = bit_and b p in bit_xor c (rotate_left8 c 2))
    else if op == 191
    then (let a = add8 x x in
        let b = rotate_left8 a 3 in let c = rotate_left8 b b in shr8 c (bit_and c 3))
    else x
