-- ===== src/Wolf/Switch/From192.antt =====
-- The cases 192 to 223 of the switch in `astroBWTv3Stream` (internal/astrobwt/pow.go): what the
-- statements between the INSERT_RANDOM_CODE marks make of `step_3[i]`, here `x`, where `p` is
-- `step_3[pos2]`. There is a binding for each statement but the last, which is the result.
use dirtybird_go_gpu_miner.Prelude.{ℕ, ◌==◌, if◌then◌else◌, bit_and, bit_xor}
use dirtybird_go_gpu_miner.Word.{
  rotate_left8, shl8, shr8, not8, ones_count8, add8, mul8, reverse8, sub8,
}

unfoldable pub cases_192_207 : ℕ → ℕ → ℕ → ℕ
cases_192_207 op x p =
    if op == 192
    then (let a = add8 x x in let b = shl8 a (bit_and a 3) in let c = add8 b b in mul8 c c)
    else if op == 193
    then (let a = bit_and x p in
        let b = shl8 a (bit_and a 3) in let c = rotate_left8 b b in rotate_left8 c 1)
    else if op == 194
    then (let a = bit_and x p in
        let b = rotate_left8 a a in let c = shl8 b (bit_and b 3) in bit_and c p)
    else if op == 195
    then (let a = bit_xor x (ones_count8 x) in
        let b = bit_xor a (rotate_left8 a 2) in let c = bit_xor b p in bit_xor c (rotate_left8 c 4))
    else if op == 196
    then (let a = rotate_left8 x 3 in
        let b = reverse8 a in let c = shl8 b (bit_and b 3) in rotate_left8 c 1)
    else if op == 197
    then (let a = bit_xor x (rotate_left8 x 4) in
        let b = rotate_left8 a a in let c = mul8 b b in mul8 c c)
    else if op == 198
    then (let a = shr8 x (bit_and x 3) in
        let b = shr8 a (bit_and a 3) in let c = reverse8 b in rotate_left8 c 1)
    else if op == 199
    then (let a = not8 x in let b = add8 a a in let c = mul8 b b in bit_xor c p)
    else if op == 200
    then (let a = shr8 x (bit_and x 3) in
        let b = bit_xor a (ones_count8 a) in let c = reverse8 b in reverse8 c)
    else if op == 201
    then (let a = rotate_left8 x 3 in
        let b = bit_xor a (rotate_left8 a 2) in let c = bit_xor b (rotate_left8 b 4) in not8 c)
    else if op == 202
    then (let a = bit_xor x p in let b = not8 a in let c = rotate_left8 b b in rotate_left8 c 5)
    else if op == 203
    then (let a = bit_xor x p in
        let b = bit_and a p in let c = rotate_left8 b 1 in rotate_left8 c c)
    else if op == 204
    then (let a = rotate_left8 x 5 in
        let b = bit_xor a (rotate_left8 a 2) in let c = rotate_left8 b b in bit_xor c p)
    else if op == 205
    then (let a = bit_xor x (ones_count8 x) in
        let b = bit_xor a (rotate_left8 a 4) in let c = shl8 b (bit_and b 3) in add8 c c)
    else if op == 206
    then (let a = bit_xor x (rotate_left8 x 4) in
        let b = reverse8 a in let c = reverse8 b in bit_xor c (ones_count8 c))
    else if op == 207
    then (let a = rotate_left8 x 5 in
        let b = rotate_left8 a 3 in let c = bit_xor b (ones_count8 b) in bit_xor c (ones_count8 c))
    else x

unfoldable pub cases_208_223 : ℕ → ℕ → ℕ → ℕ
cases_208_223 op x p =
    if op == 208
    then (let a = add8 x x in let b = add8 a a in let c = shr8 b (bit_and b 3) in rotate_left8 c 3)
    else if op == 209
    then (let a = rotate_left8 x 5 in
        let b = reverse8 a in let c = bit_xor b (ones_count8 b) in sub8 c (bit_xor c 97))
    else if op == 210
    then (let a = bit_xor x (rotate_left8 x 2) in
        let b = rotate_left8 a a in let c = rotate_left8 b 5 in not8 c)
    else if op == 211
    then (let a = bit_xor x (rotate_left8 x 4) in
        let b = add8 a a in let c = sub8 b (bit_xor b 97) in rotate_left8 c c)
    else if op == 212
    then (let a = rotate_left8 x x in
        let b = bit_xor a (rotate_left8 a 2) in let c = bit_xor b p in bit_xor c p)
    else if op == 213
    then (let a = add8 x x in
        let b = shl8 a (bit_and a 3) in let c = rotate_left8 b 3 in sub8 c (bit_xor c 97))
    else if op == 214
    then (let a = bit_xor x p in
        let b = sub8 a (bit_xor a 97) in let c = shr8 b (bit_and b 3) in not8 c)
    else if op == 215
    then (let a = bit_xor x p in let b = bit_and a p in let c = shl8 b (bit_and b 3) in mul8 c c)
    else if op == 216
    then (let a = rotate_left8 x x in
        let b = not8 a in let c = sub8 b (bit_xor b 97) in bit_and c p)
    else if op == 217
    then (let a = rotate_left8 x 5 in
        let b = add8 a a in let c = rotate_left8 b 1 in bit_xor c (rotate_left8 c 4))
    else if op == 218
    then (let a = reverse8 x in let b = not8 a in let c = mul8 b b in sub8 c (bit_xor c 97))
    else if op == 219
    then (let a = bit_xor x (rotate_left8 x 4) in
        let b = rotate_left8 a 3 in let c = bit_and b p in reverse8 c)
    else if op == 220
    then (let a = rotate_left8 x 1 in
        let b = shl8 a (bit_and a 3) in let c = reverse8 b in shl8 c (bit_and c 3))
    else if op == 221
    then (let a = rotate_left8 x 5 in let b = bit_xor a p in let c = not8 b in reverse8 c)
    else if op == 222
    then (let a = shr8 x (bit_and x 3) in
        let b = shl8 a (bit_and a 3) in let c = bit_xor b p in mul8 c c)
    else if op == 223
    then (let a = rotate_left8 x 3 in
        let b = bit_xor a p in let c = rotate_left8 b b in sub8 c (bit_xor c 97))
    else x
