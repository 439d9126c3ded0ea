-- ===== src/Wolf/Switch/From224.antt =====
-- The cases 224 to 255 of the switch in `astroBWTv3Stream` (internal/astrobwt/pow.go): what the
-- statements between the INSERT_RANDOM_CODE marks make of `step_3[i]`, here `x`, where `p` is
-- `step_3[pos2]`. There is a binding for each statement but the last, which is the result.
use dirtybird_go_gpu_miner.Prelude.{ℕ, ◌==◌, if◌then◌else◌, bit_and, bit_xor, ◌||◌}
use dirtybird_go_gpu_miner.Word.{
  rotate_left8, shl8, shr8, not8, ones_count8, add8, mul8, reverse8, sub8,
}

unfoldable pub cases_224_239 : ℕ → ℕ → ℕ → ℕ
cases_224_239 op x p =
    if op == 224
    then (let a = bit_xor x (rotate_left8 x 2) in
        let b = rotate_left8 a 1 in let c = rotate_left8 b 3 in shl8 c (bit_and c 3))
    else if op == 225
    then (let a = not8 x in let b = shr8 a (bit_and a 3) in let c = reverse8 b in rotate_left8 c 3)
    else if op == 226
    then (let a = reverse8 x in let b = sub8 a (bit_xor a 97) in let c = mul8 b b in bit_xor c p)
    else if op == 227
    then (let a = not8 x in
        let b = shl8 a (bit_and a 3) in let c = sub8 b (bit_xor b 97) in bit_and c p)
    else if op == 228
    then (let a = add8 x x in
        let b = shr8 a (bit_and a 3) in let c = add8 b b in bit_xor c (ones_count8 c))
    else if op == 229
    then (let a = rotate_left8 x 3 in
        let b = rotate_left8 a a in
        let c = bit_xor b (rotate_left8 b 2) in bit_xor c (ones_count8 c))
    else if op == 230
    then (let a = mul8 x x in let b = bit_and a p in let c = rotate_left8 b b in rotate_left8 c c)
    else if op == 231
    then (let a = rotate_left8 x 3 in
        let b = shr8 a (bit_and a 3) in let c = bit_xor b p in reverse8 c)
    else if op == 232
    then (let a = mul8 x x in
        let b = mul8 a a in let c = bit_xor b (rotate_left8 b 4) in rotate_left8 c 5)
    else if op == 233
    then (let a = rotate_left8 x 1 in
        let b = bit_xor a (ones_count8 a) in let c = rotate_left8 b 3 in bit_xor c (ones_count8 c))
    else if op == 234
    then (let a = bit_and x p in let b = mul8 a a in let c = shr8 b (bit_and b 3) in bit_xor c p)
    else if op == 235
    then (let a = bit_xor x (rotate_left8 x 2) in
        let b = mul8 a a in let c = rotate_left8 b 3 in not8 c)
    else if op == 236
    then (let a = bit_xor x p in let b = add8 a a in let c = bit_and b p in sub8 c (bit_xor c 97))
    else if op == 237
    then (let a = rotate_left8 x 5 in
        let b = shl8 a (bit_and a 3) in let c = bit_xor b (rotate_left8 b 2) in rotate_left8 c 3)
    else if op == 238
    then (let a = add8 x x in let b = add8 a a in let c = rotate_left8 b 3 in sub8 c (bit_xor c 97))
    else if op == 239
    then (let a = rotate_left8 x 5 in let b = rotate_left8 a 1 in let c = mul8 b b in bit_and c p)
    else x

unfoldable pub cases_240_255 : ℕ → ℕ → ℕ → ℕ
cases_240_255 op x p =
    if op == 240
    then (let a = not8 x in let b = add8 a a in let c = bit_and b p in shl8 c (bit_and c 3))
    else if op == 241
    then (let a = bit_xor x (rotate_left8 x 4) in
        let b = bit_xor a (ones_count8 a) in let c = bit_xor b p in rotate_left8 c 1)
    else if op == 242
    then (let a = add8 x x in let b = add8 a a in let c = sub8 b (bit_xor b 97) in bit_xor c p)
    else if op == 243
    then (let a = rotate_left8 x 5 in
        let b = bit_xor a (rotate_left8 a 2) in
        let c = bit_xor b (ones_count8 b) in rotate_left8 c 1)
    else if op == 244
    then (let a = not8 x in
        let b = bit_xor a (rotate_left8 a 2) in let c = reverse8 b in rotate_left8 c 5)
    else if op == 245
    then (let a = sub8 x (bit_xor x 97) in
        let b = rotate_left8 a 5 in let c = bit_xor b (rotate_left8 b 2) in shr8 c (bit_and c 3))
    else if op == 246
    then (let a = add8 x x in let b = rotate_left8 a 1 in let c = shr8 b (bit_and b 3) in add8 c c)
    else if op == 247
    then (let a = rotate_left8 x 5 in
        let b = bit_xor a (rotate_left8 a 2) in let c = rotate_left8 b 5 in not8 c)
    else if op == 248
    then (let a = not8 x in
        let b = sub8 a (bit_xor a 97) in let c = bit_xor b (ones_count8 b) in rotate_left8 c 5)
    else if op == 249
    then (let a = reverse8 x in
        let b = bit_xor a (rotate_left8 a 4) in
        let c = bit_xor b (rotate_left8 b 4) in rotate_left8 c c)
    else if op == 250
    then (let a = bit_and x p in
        let b = rotate_left8 a a in
        let c = bit_xor b (ones_count8 b) in bit_xor c (rotate_left8 c 4))
    else if op == 251
    then (let a = add8 x x in
        let b = bit_xor a (ones_count8 a) in let c = reverse8 b in bit_xor c (rotate_left8 c 2))
    else if op == 252
    then (let a = reverse8 x in
        let b = bit_xor a (rotate_left8 a 4) in
        let c = bit_xor b (rotate_left8 b 2) in shl8 c (bit_and c 3))
    else if op == 253
    then (let a = rotate_left8 x 3 in
        let b = bit_xor a (rotate_left8 a 2) in let c = bit_xor b p in rotate_left8 c 3)
    else if op == 254 || op == 255
    then (let a = bit_xor x (ones_count8 x) in
        let b = rotate_left8 a 3 in let c = bit_xor b (rotate_left8 b 2) in rotate_left8 c 3)
    else x
